-- ===== src/Dns/Resolver/FirstWins.antt =====
-- The table of the rule engine against the list of all active entries.
use m_host.Common.{
  Text, false, Option, none, some, List, [], ◌∷◌, ◌++◌, map, if◌then◌else◌, eqb, eqb_iff, ◌≡◌, refl,
  ap, sym, ◌∙◌, Bool-cases, inl, inr, Option-cases,
}
use m_host.Core.Models.{Profile, HostRule}
use m_host.Dns.Resolver.{
  Table, get, insert_first, add_domains, add_rule, add_rules, add_profiles, active_profiles,
  rebuild,
}

module _ {V : Type 0} where
  -- The entries of enabled rules with an address, in the order of profiles, rules and domains.
  abbrev entries_of_rule : HostRule V → Option V → Table V
  entries_of_rule r none = []
  entries_of_rule r (some ip) = map (λ d. (d, ip)) r.domains

  unfoldable pub entries_of_rules : List (HostRule V) → Table V
  entries_of_rules [] = []
  entries_of_rules (r ∷ rs) =
      let rest = entries_of_rules rs in if r.enabled then entries_of_rule r r.ip ++ rest else rest

  unfoldable pub entries_of : List (Profile V) → Table V
  unfolding entries_of_rules
  entries_of [] = []
  entries_of (p ∷ ps) = entries_of_rules p.rules ++ entries_of ps

  abbrev or_else : Option V → Option V → Option V
  or_else none b = b
  or_else (some a) b = some a

  get-append : (k : Text) (xs ys : Table V) → get k (xs ++ ys) ≡ or_else (get k xs) (get k ys)
  unfolding get
  get-append k [] ys = refl
  get-append k ((j, v) ∷ xs) ys = elim (Bool-cases (eqb j k)) [
    | inl same ↦ rw same refl
    | inr other ↦ rw other (get-append k xs ys)
  ]

  or_else_assoc : (a b c : Option V) → or_else (or_else a b) c ≡ or_else a (or_else b c)
  or_else_assoc none b c = refl
  or_else_assoc (some a) b c = refl

  or_else-none : (a : Option V) → or_else a none ≡ a
  or_else-none none = refl
  or_else-none (some a) = refl

  or_else-other :
      (k d : Text) (v : V) (o : Option V) → eqb d k ≡ false → o ≡ or_else o (get k ((d, v) ∷ []))
  unfolding get
  or_else-other k d v o h = rw h (sym (or_else-none o))

  get-insert_first :
      (k d : Text) (v : V) (t : Table V)
      → get k (insert_first d v t) ≡ or_else (get k t) (get k ((d, v) ∷ []))
  unfolding insert_first get
  get-insert_first k d v t = elim (Option-cases (get d t)) [
    | inl absent ↦ rw absent (elim (Bool-cases (eqb d k)) [
      | inl same ↦ rw (same, sym ((eqb_iff d k).0 same), absent) refl
      | inr other ↦ rw other (sym (or_else-none (get k t)))
    ])
    | inr (w, present) ↦ rw present (elim (Bool-cases (eqb d k)) [
      | inl same ↦ rw (sym ((eqb_iff d k).0 same), present) refl
      | inr other ↦ or_else-other k d v (get k t) other
    ])
  ]

  get-add_domains :
      (k : Text) (v : V) (ds : List Text) (t : Table V)
      → get k (add_domains v ds t) ≡ or_else (get k t) (get k (map (λ d. (d, v)) ds))
  unfolding add_domains
  get-add_domains k v [] t = unfold get in sym (or_else-none (get k t))
  get-add_domains k v (d ∷ ds) t =
      get-add_domains k v ds (insert_first d v t)
      ∙ ap (λ o. or_else o (get k (map (λ d. (d, v)) ds))) (get-insert_first k d v t)
      ∙ or_else_assoc (get k t) (get k ((d, v) ∷ [])) (get k (map (λ d. (d, v)) ds))
      ∙ ap (or_else (get k t)) (sym (get-append k ((d, v) ∷ []) (map (λ d. (d, v)) ds)))

  get-add_rule :
      (k : Text) (r : HostRule V) (o : Option V) (t : Table V)
      → get k (add_rule r o t) ≡ or_else (get k t) (get k (entries_of_rule r o))
  get-add_rule k r none t = unfold get in sym (or_else-none (get k t))
  get-add_rule k r (some ip) t = get-add_domains k ip r.domains t

  get-add_rules :
      (k : Text) (rs : List (HostRule V)) (t : Table V)
      → get k (add_rules rs t) ≡ or_else (get k t) (get k (entries_of_rules rs))
  unfolding add_rules entries_of_rules
  get-add_rules k [] t = unfold get in sym (or_else-none (get k t))
  get-add_rules k (r ∷ rs) t =
      let added = add_rule r r.ip t in
      let own = entries_of_rule r r.ip in
      elim (Bool-cases r.enabled) [
        | inl on ↦ rw on (
            get-add_rules k rs added
            ∙ ap (λ o. or_else o (get k (entries_of_rules rs))) (get-add_rule k r r.ip t)
            ∙ or_else_assoc (get k t) (get k own) (get k (entries_of_rules rs))
            ∙ ap (or_else (get k t)) (sym (get-append k own (entries_of_rules rs))))
        | inr off ↦ rw off (get-add_rules k rs t)
      ]

  get-add_profiles :
      (k : Text) (ps : List (Profile V)) (t : Table V)
      → get k (add_profiles ps t) ≡ or_else (get k t) (get k (entries_of ps))
  unfolding add_profiles entries_of
  get-add_profiles k [] t = unfold get in sym (or_else-none (get k t))
  get-add_profiles k (p ∷ ps) t =
      get-add_profiles k ps (add_rules p.rules t)
      ∙ ap (λ o. or_else o (get k (entries_of ps))) (get-add_rules k p.rules t)
      ∙ or_else_assoc (get k t) (get k (entries_of_rules p.rules)) (get k (entries_of ps))
      ∙ ap (or_else (get k t)) (sym (get-append k (entries_of_rules p.rules) (entries_of ps)))

  -- For any profiles and domain, a rebuilt table maps the domain to the address of its first entry,
  -- in the order of the active profiles sorted by name, their enabled rules with an address, and the
  -- domains of a rule; a later entry for the same domain changes nothing.
  pub get-rebuild :
      (profiles : List (Profile V)) (domain : Text)
      → get domain (rebuild profiles) ≡ get domain (entries_of (active_profiles profiles))
  unfolding rebuild
  get-rebuild profiles domain =
      get-add_profiles domain (active_profiles profiles) [] ∙ unfold get in refl

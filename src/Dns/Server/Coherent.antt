-- ===== src/Dns/Server/Coherent.antt =====
-- What the rules decide, and what it means that the cache of crates/mhost-dns/src/server.rs agrees
-- with them.
use m_host.Common.{
  Text, ℕ, ◌+◌, Bool, true, false, Option, none, some, List, [], ◌∷◌, ◌++◌, ◌≡◌, ◌≢◌, inl, inr,
  refl, sym, ap, subst, ◌∙◌, arith, if◌then◌else◌, ltb, last, none-some, some-inj, eqb, eqb_iff,
  Bool-cases,
}
use mathlib.Core.List.{append_cancel_right}
use m_host.Dns.Resolver.{Table, resolve}
use m_host.Dns.AdBlock.{AdBlockEngine, AdBlockAction, respond, return_address, nx_domain, check}
use m_host.Dns.Server.{
  RecordType, a, aaaa, other_type, no_error, nx_domain_code, Query, Message, Record, Response,
  QueryResult, answer, no_records, denied, failed, Upstream, Lru, Wire, DnsServer, type_byte,
  is_address_type, cache_key, fits, after_found, remember, respond_to, local_record,
}

eqb-ne : (x y : Text) → eqb x y ≡ false → x ≢ y
eqb-ne x y h e = ground (arith, eqb_iff x y)

-- What the rules alone say about a name and a type.
pub data Decision (A : Type 0) : Type 0 where
  address_is : A → Decision A
  is_denied has_no_record asks_upstream : Decision A

module _ {A : Type 0} ⦃wire : Wire A⦄ where
  abbrev block_decision : RecordType → AdBlockAction A → Decision A
  block_decision t nx_domain = is_denied
  block_decision t (return_address ip) = if fits t ip then address_is ip else is_denied

  abbrev rule_decision : RecordType → Option A → Decision A
  rule_decision t none = asks_upstream
  rule_decision t (some ip) = if fits t ip then address_is ip else has_no_record

  abbrev decide_with : RecordType → Option (AdBlockAction A) → Option A → Decision A
  decide_with t (some action) o = block_decision t action
  decide_with t none o = rule_decision t o

  unfoldable pub decision : Table A → AdBlockEngine A → Text → RecordType → Decision A
  unfolding check resolve
  decision rules engine name t = decide_with t (check name engine).0 (resolve name rules)

  -- The answer that a decision asks for.
  abbrev pub IsAnswerOf : Response A → Text → Decision A → Type 0
  IsAnswerOf r owner (address_is ip) =
      (r.code ≡ no_error) × ((o : Text) × (r.answers ≡ local_record o ip ∷ []))
  IsAnswerOf r owner is_denied = (r.code ≡ nx_domain_code) × (r.answers ≡ [])
  IsAnswerOf r owner has_no_record = (r.code ≡ no_error) × (r.answers ≡ [])
  IsAnswerOf r owner asks_upstream = Unit

  -- What may be cached under a decision.
  abbrev pub MayBeCached : Decision A → List (Record A) → Type 0
  MayBeCached (address_is ip) records = (o : Text) × (records ≡ local_record o ip ∷ [])
  MayBeCached is_denied records = ⊥
  MayBeCached has_no_record records = ⊥
  MayBeCached asks_upstream records = Unit

last_of_key : (n : Text) (x y : ℕ) → last (n ++ x ∷ y ∷ []) ≡ some y
last_of_key [] x y = refl
last_of_key (c ∷ []) x y = refl
last_of_key (c ∷ d ∷ n) x y = last_of_key (d ∷ n) x y

-- A key tells the name and, among the two address types, the type.
cache_key-inj :
    (n m : Text) (t u : RecordType)
    → cache_key n t ≡ cache_key m u
    → (type_byte t ≡ type_byte u) × (n ≡ m)
cache_key-inj n m t u e =
    let lasts : some (type_byte t) ≡ some (type_byte u) =
      sym (last_of_key n b'|' (type_byte t)) ∙ ap last e ∙ last_of_key m b'|' (type_byte u) in
    let bytes : type_byte t ≡ type_byte u = ground arith in
    let tails : n ++ b'|' ∷ type_byte t ∷ [] ≡ m ++ b'|' ∷ type_byte t ∷ [] =
      e ∙ ap (λ x. m ++ b'|' ∷ x ∷ []) (sym bytes) in
    (bytes, append_cancel_right _ _ _ tails)

type_of_byte :
    (t u : RecordType)
    → is_address_type t ≡ true
    → is_address_type u ≡ true
    → type_byte t ≡ type_byte u
    → t ≡ u
type_of_byte a a h k e = refl
type_of_byte aaaa aaaa h k e = refl
type_of_byte a aaaa h k e = absurd (omega arith)
type_of_byte aaaa a h k e = absurd (omega arith)
type_of_byte (other_type n) u h k e = cc
type_of_byte t (other_type n) h k e = cc

module _ {A : Type 0} where
  respond-same :
      (on lists blocks denies : Bool) (ip : Option A) (e e' : AdBlockEngine A)
      → (respond on lists blocks denies ip e).0 ≡ (respond on lists blocks denies ip e').0
  unfolding respond
  respond-same false lists blocks denies ip e e' = refl
  respond-same true true blocks denies ip e e' = refl
  respond-same true false false denies ip e e' = refl
  respond-same true false true true ip e e' = refl
  respond-same true false true false (some ip) e e' = refl
  respond-same true false true false none e e' = refl

  respond_keeps :
      (on lists blocks denies : Bool) (ip : Option A) (e : AdBlockEngine A)
      → ((respond on lists blocks denies ip e).1.enabled ≡ e.enabled)
        × ((respond on lists blocks denies ip e).1.current ≡ e.current)
  unfolding respond
  respond_keeps false lists blocks denies ip e = (refl, refl)
  respond_keeps true true blocks denies ip e = (refl, refl)
  respond_keeps true false false denies ip e = (refl, refl)
  respond_keeps true false true true ip e = (refl, refl)
  respond_keeps true false true false (some ip) e = (refl, refl)
  respond_keeps true false true false none e = (refl, refl)

  check-same :
      (n : Text) (e e' : AdBlockEngine A)
      → e'.enabled ≡ e.enabled
      → e'.current ≡ e.current
      → (check n e').0 ≡ (check n e).0
  unfolding check
  check-same n e e' h k = rw (h, k) (respond-same e.enabled _ _ _ _ _ e)

  check_keeps :
      (m : Text) (e : AdBlockEngine A)
      → ((check m e).1.enabled ≡ e.enabled) × ((check m e).1.current ≡ e.current)
  unfolding check
  check_keeps m e = respond_keeps e.enabled _ _ _ _ e

  -- A check leaves the rules as they are, and with them every later answer.
  pub check-check : (n m : Text) (e : AdBlockEngine A) → (check n (check m e).1).0 ≡ (check n e).0
  check-check n m e = check-same n e (check m e).1 (check_keeps m e).0 (check_keeps m e).1

module _ {A : Type 0} ⦃wire : Wire A⦄ where
  module _ (request : Message) (query : Query) (owner : Text) (upstream : Upstream A) where
    pub respond_to-IsAnswerOf :
        (name : Text) (t : RecordType) (o : Option (AdBlockAction A)) (r : Option A)
        → IsAnswerOf
            (respond_to request query (after_found name owner t upstream o r))
            owner
            (decide_with t o r)
    respond_to-IsAnswerOf name t (some nx_domain) r = (refl, refl)
    respond_to-IsAnswerOf name t (some (return_address ip)) r = elim (Bool-cases (fits t ip)) [
      | inl e ↦ rw e (refl, (owner, refl))
      | inr e ↦ rw e (refl, refl)
    ]
    respond_to-IsAnswerOf name t none (some ip) = elim (Bool-cases (fits t ip)) [
      | inl e ↦ rw e (refl, (owner, refl))
      | inr e ↦ rw e (refl, refl)
    ]
    respond_to-IsAnswerOf name t none none = tt

  -- What a miss may put into the cache.
  answer_cacheable :
      (name owner : Text) (t : RecordType) (upstream : Upstream A) (o : Option (AdBlockAction A))
      (r : Option A) (record_found : Record A)
      → after_found name owner t upstream o r ≡ answer record_found
      → MayBeCached (decide_with t o r) (record_found ∷ [])
  answer_cacheable name owner t upstream (some nx_domain) r found h = cc
  answer_cacheable name owner t upstream (some (return_address ip)) r found h =
      elim (Bool-cases (fits t ip)) [
        | inl e ↦ rw e (owner, ground arith)
        | inr e ↦ absurd (ground arith)
      ]
  answer_cacheable name owner t upstream none (some ip) found h = elim (Bool-cases (fits t ip)) [
    | inl e ↦ rw e (owner, ground arith)
    | inr e ↦ absurd (ground arith)
  ]
  answer_cacheable name owner t upstream none none found h = tt

  module _ {C : Type 0} ⦃lru : Lru A C⦄ where
    -- Every cached entry of an address type agrees with the rules in force.
    abbrev pub CoherentCache : Table A → AdBlockEngine A → C → Type 0
    CoherentCache rules engine cache =
        (name : Text) (t : RecordType) (records : List (Record A)) (expires_at : ℕ)
        → is_address_type t ≡ true
        → lru.peek (cache_key name t) cache ≡ some (records, expires_at)
        → MayBeCached (decision rules engine name t) records

    pub record Coherent (s : DnsServer A C) : Type 0 where
      pub agrees : CoherentCache s.rules s.ad_block s.cache

    pub CoherentCache-pop :
        (rules : Table A) (engine : AdBlockEngine A) (cache : C) (key : Text)
        → CoherentCache rules engine cache
        → CoherentCache rules engine (lru.pop key cache)
    CoherentCache-pop rules engine cache key h name t records at k p =
        elim (Bool-cases (eqb (cache_key name t) key)) [
          | inl e ↦
              let same = (eqb_iff (cache_key name t) key).0 e in
              none-some (lru.peek-pop key cache)
                (subst (λ x. lru.peek x (lru.pop key cache) ≡ some (records, at)) same p)
          | inr e ↦
              let other : cache_key name t ≢ key = eqb-ne (cache_key name t) key e in
              h name t records at k (sym (lru.peek-pop_ne (cache_key name t) key cache other) ∙ p)
        ]

    CoherentCache-put :
        (rules : Table A) (engine : AdBlockEngine A) (cache : C) (n : Text) (u : RecordType)
        (new : List (Record A)) (expires_at : ℕ)
        → is_address_type u ≡ true
        → MayBeCached (decision rules engine n u) new
        → CoherentCache rules engine cache
        → CoherentCache rules engine (lru.put (cache_key n u) (new, expires_at) cache)
    CoherentCache-put rules engine cache n u new expires_at address_type may h name t records at k
          p =
        elim (Bool-cases (eqb (cache_key name t) (cache_key n u))) [
          | inl e ↦
              let same = (eqb_iff (cache_key name t) (cache_key n u)).0 e in
              let (bytes, names) = cache_key-inj name n t u same in
              let types = type_of_byte t u k address_type bytes in
              let entry : (new, expires_at) ≡ (records, at) = some-inj (
                sym (lru.peek-put (cache_key n u) (new, expires_at) cache)
                ∙ subst
                    (λ x.
                      lru.peek x (lru.put (cache_key n u) (new, expires_at) cache)
                      ≡ some (records, at))
                    same p) in
              let contents : new ≡ records = ap (λ x. x.0) entry in
              subst (λ x. MayBeCached (decision rules engine name t) x) contents
                (rw (names, types) may)
          | inr e ↦
              let other = eqb-ne (cache_key name t) (cache_key n u) e in
              elim (lru.peek-put_ne (cache_key name t) (cache_key n u) (new, expires_at) cache
                other) [
                  | inl dropped ↦ none-some dropped p
                  | inr kept ↦ h name t records at k (sym kept ∙ p)
                ]
        ]

    pub CoherentCache-remember :
        (rules : Table A) (engine : AdBlockEngine A) (cache : C) (now : ℕ) (n owner : Text)
        (u : RecordType) (upstream : Upstream A)
        → is_address_type u ≡ true
        → CoherentCache rules engine cache
        → (result : QueryResult A)
        → after_found n owner u upstream (check n engine).0 (resolve n rules) ≡ result
        → CoherentCache rules engine (remember now (cache_key n u) result cache)
    CoherentCache-remember rules engine cache now n owner u upstream t h (answer r) e =
        elim (Bool-cases (ltb 0 r.ttl)) [
          | inl lives ↦ rw lives (
              CoherentCache-put rules engine cache n u (r ∷ []) (now + r.ttl) t
                (unfold decision in
                  answer_cacheable n owner u upstream (check n engine).0 (resolve n rules) r e)
                h)
          | inr dies ↦ rw dies h
        ]
    CoherentCache-remember rules engine cache now n owner u upstream t h no_records e = h
    CoherentCache-remember rules engine cache now n owner u upstream t h denied e = h
    CoherentCache-remember rules engine cache now n owner u upstream t h failed e = h

    pub CoherentCache-check :
        (rules : Table A) (engine : AdBlockEngine A) (cache : C) (m : Text)
        → CoherentCache rules engine cache
        → CoherentCache rules (check m engine).1 cache
    unfolding decision
    CoherentCache-check rules engine cache m h name t records at k p =
        rw (check-check name m engine) (h name t records at k p)

    -- A reload makes the cache agree with the new rules: it is empty.
    pub CoherentCache-clear :
        (rules : Table A) (engine : AdBlockEngine A) (cache : C)
        → CoherentCache rules engine (lru.clear cache)
    CoherentCache-clear rules engine cache name t records at k p =
        none-some (lru.peek-clear (cache_key name t) cache) p

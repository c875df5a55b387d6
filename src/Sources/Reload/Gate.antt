-- ===== src/Sources/Reload/Gate.antt =====
-- When the gate lets a reload through.
use m_host.Common.{
  Text, ℕ, Bool, true, false, not, ◌&&◌, some, List, [], ◌∷◌, map, filter, ◌≡◌, refl, sym, ap, ap₂,
  ◌∙◌, if◌then◌else◌, ◌==◌, false≢true, Bool-cases, inl, inr,
}
use m_host.Common.Sort.{sort_by, insert_by}
use m_host.Core.AdBlock.{AdBlockResponse, AdBlockSource, AdBlockState}
use m_host.Core.Ip.{IpAddr}
use m_host.Core.Models.{Uuid}
use m_host.Dns.Server.{Lru, Wire, DnsServer, reload_ad_block_rules}
use m_host.Sources.Store.{Root, IdText, read_cache}
use m_host.Sources.Whitelist.{Lowercase}
use m_host.Sources.Reload.{
  Written, Hasher, ParsedSource, AdBlockReloadGate, Loaded, ClassifyInputs, content_or_empty,
  key_of, fingerprint_input, by_key, by_id, compute_fingerprint, hash_content, load_sources,
  load_classify_inputs, is_fingerprint, merge_inputs, decide_reload, classify_and_reload,
}

map-insert_by :
    (l : Loaded) (ls : List Loaded)
    → map key_of (insert_by by_id l ls) ≡ insert_by by_key (key_of l) (map key_of ls)
unfolding insert_by
map-insert_by l [] = refl
map-insert_by l (m ∷ ls) = elim (Bool-cases (by_id l m)) [
  | inl e ↦ rw e refl
  | inr e ↦ rw e (ap (◌∷◌ (key_of m)) (map-insert_by l ls))
]

map-sort_by : (ls : List Loaded) → map key_of (sort_by by_id ls) ≡ sort_by by_key (map key_of ls)
unfolding sort_by
map-sort_by [] = refl
map-sort_by (l ∷ ls) =
    map-insert_by l (sort_by by_id ls) ∙ ap (insert_by by_key (key_of l)) (map-sort_by ls)

module _ ⦃ids : IdText⦄ ⦃hasher : Hasher⦄ where
  abbrev pub keys_of : Root → List AdBlockSource → List (Uuid × AdBlockResponse × ℕ)
  keys_of root [] = []
  keys_of root (s ∷ rest) =
      (s.source_id, s.response, hash_content (content_or_empty (read_cache s.source_id root)))
      ∷ keys_of root rest

  abbrev pub sources_of : AdBlockState → List AdBlockSource
  sources_of snap = if snap.enabled then filter (λ s. s.enabled) snap.sources else []

  -- What the rules depend on: the switch, the enabled sources with their response and the hash of
  -- their cache, by id, and the whitelist in alphabetical order.
  unfoldable pub rule_inputs : Root → AdBlockState → List Written
  unfolding sort_by read_cache fingerprint_input
  rule_inputs root snap =
      fingerprint_input snap.enabled (sort_by by_key (keys_of root (sources_of snap)))
        snap.whitelist

  -- The hash of the inputs of the rules.
  abbrev pub input_hash : Root → AdBlockState → ℕ
  input_hash root snap = hasher.finish (rule_inputs root snap)

module _ {X Y : Type 0} where
  abbrev gated : Bool → Bool → X → X → Y → Y → Bool × X × Y
  gated skip cancelled gate new server reloaded =
      if skip
      then (false, gate, server)
      else if cancelled
      then (false, gate, server)
      else (true, new, reloaded)

  gated-new :
      (skip cancelled : Bool) (gate new : X) (server reloaded : Y)
      → (gated skip cancelled gate new server reloaded).0 ≡ true
      → (gated skip cancelled gate new server reloaded).1 ≡ new
  gated-new true cancelled gate new server reloaded done = absurd (false≢true done)
  gated-new false true gate new server reloaded done = absurd (false≢true done)
  gated-new false false gate new server reloaded done = refl

  gated-unforced :
      (skip again : Bool) (gate new : X) (server reloaded : Y)
      → skip ≡ again
      → (again ≡ true → (gated skip false gate new server reloaded).2 ≡ server)
        × (gated skip false gate new server reloaded).0 ≡ not again
  gated-unforced true again gate new server reloaded e = (λ t. refl, ap not e)
  gated-unforced false again gate new server reloaded e =
      (λ t. absurd (false≢true (e ∙ t)), ap not e)

module _ (A : Type 0) ⦃ip : IpAddr A⦄ ⦃lower : Lowercase⦄ ⦃ids : IdText⦄ ⦃hasher : Hasher⦄ where
  keys-load_sources :
      (uuids : ℕ → Uuid) (root : Root) (ss : List AdBlockSource)
      (parsed : List (Uuid × ParsedSource))
      → map key_of (load_sources A uuids root ss parsed).0 ≡ keys_of root ss
  unfolding load_sources
  keys-load_sources uuids root [] parsed = refl
  keys-load_sources uuids root (s ∷ ss) parsed = ap₂ ◌∷◌ refl (keys-load_sources uuids root ss _)

  fingerprint_lem :
      (uuids : ℕ → Uuid) (snap : AdBlockState) (root : Root) (gate : AdBlockReloadGate)
      → (load_classify_inputs A uuids snap root gate).0.fingerprint
        ≡ hasher.finish (rule_inputs root snap)
  unfolding load_classify_inputs compute_fingerprint rule_inputs
  fingerprint_lem uuids snap root gate =
      ap (λ ks. hasher.finish (fingerprint_input snap.enabled ks snap.whitelist))
        (map-sort_by (load_sources A uuids root (sources_of snap) gate.parsed).0
          ∙ ap (sort_by by_key) (keys-load_sources uuids root (sources_of snap) gate.parsed))

  old_fingerprint :
      (uuids : ℕ → Uuid) (snap : AdBlockState) (root : Root) (gate : AdBlockReloadGate)
      → (load_classify_inputs A uuids snap root gate).1.fingerprint ≡ gate.fingerprint
  unfolding load_classify_inputs
  old_fingerprint uuids snap root gate = refl

  module _ {C : Type 0} ⦃wire : Wire A⦄ ⦃lru : Lru A C⦄ (zero_ip : A) where
    decided :
        (force cancelled : Bool) (snap : AdBlockState) (inputs : ClassifyInputs)
        (gate : AdBlockReloadGate) (server : DnsServer A C)
        → (decide_reload A zero_ip force cancelled snap (inputs, gate) server).0 ≡ true
        → (decide_reload A zero_ip force cancelled snap (inputs, gate) server).1.fingerprint
          ≡ some inputs.fingerprint
    decided force cancelled snap inputs gate server done =
        ap (λ g. g.fingerprint)
          (gated-new (not force && is_fingerprint inputs.fingerprint gate.fingerprint) cancelled
            gate (record gate { fingerprint = some inputs.fingerprint }) server
            (reload_with snap (merge_inputs zero_ip inputs) server) done)
      where
        reload_with :
            AdBlockState → List (Text × A) × List Text × List Text → DnsServer A C → DnsServer A C
        reload_with snap sets server =
            reload_ad_block_rules snap.enabled sets.0 sets.1 sets.2 server

    again_lem :
        (force cancelled : Bool) (snap later : AdBlockState)
        (first second : ClassifyInputs × AdBlockReloadGate) (server : DnsServer A C)
        (run again : Bool × AdBlockReloadGate × DnsServer A C) {m n : ℕ}
        → first.0.fingerprint ≡ m
        → second.0.fingerprint ≡ n
        → run ≡ decide_reload A zero_ip force cancelled snap first server
        → again ≡ decide_reload A zero_ip false false later second run.2
        → second.1.fingerprint ≡ run.1.fingerprint
        → run.0 ≡ true
        → ((m == n) ≡ true → again.2 ≡ run.2) × again.0 ≡ not (m == n)
    again_lem force cancelled snap later first second server run again e e' ran ran' same done =
        let known = ap₂ is_fingerprint e' (
          same
          ∙ ap (λ r. r.1.fingerprint) ran
          ∙ decided force cancelled snap first.0 first.1 server (ap (λ r. r.0) (sym ran) ∙ done)
          ∙ ap some e) in
        let (kept, passed) = gated-unforced _ _ _ _ run.2 _ known in
        (λ t. ap (λ r. r.2) ran' ∙ kept t, ap (λ r. r.0) ran' ∙ passed)

    classify_lem :
        (uuids : ℕ → Uuid) (force cancelled : Bool) (snap : AdBlockState) (root : Root)
        (gate : AdBlockReloadGate) (server : DnsServer A C)
        → classify_and_reload A zero_ip uuids force cancelled snap root gate server
          ≡ decide_reload A zero_ip force cancelled snap
              (load_classify_inputs A uuids snap root gate)
              server
    unfolding classify_and_reload
    classify_lem uuids force cancelled snap root gate server = refl

    -- After a reload that went through, one that is neither forced nor cancelled goes through if and
    -- only if the hash of the inputs of the rules has changed, and it leaves the server as it is if
    -- the hash is the same.
    pub classify_and_reload-again :
        (uuids : ℕ → Uuid) (force cancelled : Bool) (snap later : AdBlockState)
        (root changed : Root) (gate : AdBlockReloadGate) (server : DnsServer A C)
        → let first = classify_and_reload A zero_ip uuids force cancelled snap root gate server in
          let again =
            classify_and_reload A zero_ip uuids false false later changed first.1 first.2 in
          first.0 ≡ true
          → ((input_hash root snap == input_hash changed later) ≡ true → again.2 ≡ first.2)
            × again.0 ≡ not (input_hash root snap == input_hash changed later)
    classify_and_reload-again uuids force cancelled snap later root changed gate server done =
        let run = classify_and_reload A zero_ip uuids force cancelled snap root gate server in
        again_lem force cancelled snap later (load_classify_inputs A uuids snap root gate)
          (load_classify_inputs A uuids later changed run.1) server run
          (classify_and_reload A zero_ip uuids false false later changed run.1 run.2)
          (fingerprint_lem uuids snap root gate) (fingerprint_lem uuids later changed run.1)
          (classify_lem uuids force cancelled snap root gate server)
          (classify_lem uuids false false later changed run.1 run.2)
          (old_fingerprint uuids later changed run.1) done

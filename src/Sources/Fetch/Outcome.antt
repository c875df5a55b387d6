-- ===== src/Sources/Fetch/Outcome.antt =====
-- What a refresh leaves behind, when it succeeds and when it fails.
use m_host.Common.{
  Text, ℕ, Bool, true, Option, none, some, List, [], ◌∷◌, ◌≡◌, ◌⊎◌, inl, inr, refl, arith, sym, ap,
  subst, if◌then◌else◌, leb, ◌==◌, ==_iff, length, eqb_iff, find,
}
use mathlib.Core.Option
use m_host.Common.Assoc.{get-put}
use m_host.Common.Result.{Result, ok, err, ok-inj}
use m_host.Core.AdBlock.{AdBlockSource, AdBlockState}
use m_host.Core.Ip.{IpAddr}
use m_host.Core.Models.{Uuid}
use m_host.Sources.Store.{
  Root, StoreError, IdText, has_id, cache_path, write_cache, read_cache, find_source, update_first,
  update_source,
}
use m_host.Sources.Whitelist.{Lowercase}
use m_host.Sources.Blocklist.{BlocklistParse, Warning, parse_error_warning, canon}
use m_host.Sources.Fetch.{
  Net, Messages, FetchError, FetchOutcome, Parsed, fresh, unchanged, World, accept, limit_of,
  parse_as, store_body, store_outcome, fetch_source_sync, with_cache, fetch_parse, record_parsed,
  record_fetch_error_with_timing, finish_fetch, or_error, or_return, cached_as, fetch_found,
  fetch_and_cache_source, fresh_body, not_modified, not_utf8,
}

module _ (id : Uuid) (change : AdBlockSource → AdBlockSource)
    (same_id : (s : AdBlockSource) → (change s).source_id ≡ s.source_id) where
  -- A change of the source with an id shows at that id and nowhere else.
  pub find-update_first :
      (j : Uuid) (ss : List AdBlockSource)
      → find (has_id j) (update_first id change ss)
        ≡ (if id == j then Option.map change (find (has_id j) ss) else find (has_id j) ss)
  unfolding update_first
  find-update_first j [] = ground arith
  find-update_first j (s ∷ ss) = ground (
    arith,
    find-update_first j ss,
    same_id s,
    ==_iff s.source_id id,
    ==_iff s.source_id j,
    ==_iff id j,
  )

-- What a refresh that fails may not touch: all but the error and the times of the attempt.
abbrev pub payload : AdBlockSource → ℕ × Option Text × Option ℕ × Text × Bool × Option ℕ
payload s = (s.rule_count, s.etag, s.last_fetched_at, s.url, s.enabled, s.rules_limit_override)

failed : Text → ℕ → ℕ → Uuid → AdBlockState → AdBlockState
failed why now elapsed id state =
    update_source id (record_fetch_error_with_timing why now elapsed) state

find-failed :
    (why : Text) (now elapsed : ℕ) (id j : Uuid) (state : AdBlockState)
    → Option.map payload (find_source (failed why now elapsed id state) j)
      ≡ Option.map payload (find_source state j)
unfolding failed find_source record_fetch_error_with_timing
find-failed why now elapsed id j state = ground (
  arith,
  find-update_first id (record_fetch_error_with_timing why now elapsed) (λ s. refl) j state.sources,
)

record_parsed_id :
    (messages : Messages) (now elapsed : ℕ) (parsed : Parsed) (s : AdBlockSource)
    → (record_parsed messages now elapsed parsed s).source_id ≡ s.source_id
unfolding record_parsed
record_parsed_id messages now elapsed (fresh n etag warning) s = refl
record_parsed_id messages now elapsed unchanged s = refl

find_source-id :
    (id : Uuid) (ss : List AdBlockSource) (s : AdBlockSource)
    → find (has_id id) ss ≡ some s
    → s.source_id ≡ id
find_source-id id [] s h = cc
find_source-id id (t ∷ ss) s h = ground (arith, find_source-id id ss s, ==_iff t.source_id id)

module _ (A : Type 0) ⦃lower : Lowercase⦄ ⦃ip : IpAddr A⦄ ⦃ids : IdText⦄ where
  or_return-keeps :
      {X Y : Type 0} (root : Root) (r : Result FetchError X) (next : X → Result FetchError Y × Root)
      (e : FetchError)
      → ((x : X) → (next x).0 ≡ err e → (next x).1 ≡ root)
      → (or_return root r next).0 ≡ err e
      → (or_return root r next).1 ≡ root
  or_return-keeps root (err why) next e k h = refl
  or_return-keeps root (ok x) next e k h = k x h

  cached_as-keeps :
      (parsed : Parsed) (root : Root) (o : Result StoreError Root) (e : FetchError)
      → (cached_as parsed root o).0 ≡ err e
      → (cached_as parsed root o).1 ≡ root
  cached_as-keeps parsed root (err why) e h = refl
  cached_as-keeps parsed root (ok root') e h = absurd (cc)

  store_outcome-keeps :
      (net : Net) (uuids : ℕ → Uuid) (s : AdBlockSource) (root : Root) (o : FetchOutcome)
      (e : FetchError)
      → (store_outcome A net uuids s root o).0 ≡ err e
      → (store_outcome A net uuids s root o).1 ≡ root
  unfolding store_body
  store_outcome-keeps net uuids s root not_modified e h = refl
  store_outcome-keeps net uuids s root (fresh_body bytes etag) e h =
      or_return-keeps root (or_error not_utf8 (net.from_utf8 bytes)) _ e
        (λ content.
          or_return-keeps root (accept (limit_of s) (parse_as A uuids s.format content)) _ e
            (λ p. cached_as-keeps _ root (write_cache s.source_id (canon p.domains) root) e))
        h

  fetch_parse-keeps :
      (net : Net) (uuids : ℕ → Uuid) (force : Bool) (s : AdBlockSource) (root : Root)
      (e : FetchError)
      → (fetch_parse A net uuids force s root).0 ≡ err e
      → (fetch_parse A net uuids force s root).1 ≡ root
  unfolding fetch_parse
  fetch_parse-keeps net uuids force s root e h =
      or_return-keeps root (fetch_source_sync net 0 s.url s.etag _ force) _ e
        (λ first.
          or_return-keeps root (with_cache net s.source_id s.url _ first) _ e
            (λ outcome. store_outcome-keeps net uuids s root outcome e))
        h

  module _ (net : Net) (messages : Messages) (uuids : ℕ → Uuid) (now elapsed : ℕ)
      (force : Bool) where
    abbrev pub KeptBy : World → World → Type 0
    KeptBy w w' =
        (w'.root ≡ w.root)
        × ((j : Uuid)
            → Option.map payload (find_source w'.state j)
              ≡ Option.map payload (find_source w.state j))

    finish_error_keeps :
        (id : Uuid) (w : World) (r : Result FetchError Parsed × Root) (e : FetchError)
        → (r.0 ≡ err e → r.1 ≡ w.root)
        → (finish_fetch messages now elapsed id w r).1 ≡ err e
        → KeptBy w (finish_fetch messages now elapsed id w r).0
    finish_error_keeps id w (ok parsed, root) e disk h = cc
    finish_error_keeps id w (err why, root) e disk h =
        let same : why ≡ e = cc in
        (
          disk (ap err same),
          λ j. unfold failed in find-failed (messages.of_error why) now elapsed id j w.state,
        )

    found_error_keeps :
        (id : Uuid) (w : World) (o : Option AdBlockSource) (e : FetchError)
        → (fetch_found A net messages uuids now elapsed force id w o).1 ≡ err e
        → KeptBy w (fetch_found A net messages uuids now elapsed force id w o).0
    found_error_keeps id w none e h = (refl, λ j. refl)
    found_error_keeps id w (some s) e h =
        finish_error_keeps id w (fetch_parse A net uuids force s w.root) e
          (fetch_parse-keeps net uuids force s w.root e) h

    -- A refresh that fails leaves the disk as it was, and every source its rules, ETag and time of
    -- the last fetch.
    pub fetch_error_keeps :
        (id : Uuid) (w : World) (e : FetchError)
        → (fetch_and_cache_source A net messages uuids now elapsed force id w).1 ≡ err e
        → KeptBy w (fetch_and_cache_source A net messages uuids now elapsed force id w).0
    unfolding fetch_and_cache_source
    fetch_error_keeps id w e h = found_error_keeps id w (find_source w.state id) e h

  -- The cache that is written and the number that is recorded belong together.
  record Stored (s : AdBlockSource) (parsed : Parsed) (root : Root) : Type 0 where
    domains : List Text
    cached : read_cache s.source_id root ≡ ok (some (canon domains))
    counted :
        (etag : Option Text) × (warning : Option Warning) × (parsed
          ≡ fresh (length domains) etag warning)
    within : leb (length domains) (limit_of s) ≡ true

  read_cache-write_cache :
      (id : Uuid) (content : Text) (root root' : Root)
      → write_cache id content root ≡ ok root'
      → read_cache id root' ≡ ok (some content)
  unfolding write_cache read_cache
  read_cache-write_cache id content root root' h = ground (
    arith,
    get-put eqb_iff (cache_path id) (cache_path id) (some content) root.caches,
    eqb_iff (cache_path id) (cache_path id),
  )

  accept-ok :
      (limit : ℕ) (p q : BlocklistParse)
      → accept limit p ≡ ok q
      → leb (length q.domains) limit ≡ true
  unfolding accept
  accept-ok limit p q h = ground arith

  or_return-ok :
      {X Y : Type 0} (root : Root) (r : Result FetchError X) (next : X → Result FetchError Y × Root)
      {y : Y} {root' : Root}
      → or_return root r next ≡ (ok y, root')
      → (x : X) × (next x ≡ (ok y, root')) × (r ≡ ok x)
  or_return-ok root (err e) next h = let e' = ap (λ r. r.0) h in absurd (cc)
  or_return-ok root (ok x) next h = (x, h, refl)

  cached_as-ok :
      (made : Parsed) (root : Root) (o : Result StoreError Root) {parsed : Parsed} {root' : Root}
      → cached_as made root o ≡ (ok parsed, root')
      → (made ≡ parsed) × (o ≡ ok root')
  cached_as-ok made root (err e) h = let e' = ap (λ r. r.0) h in absurd (cc)
  cached_as-ok made root (ok kept) h = (ok-inj (ap (λ r. r.0) h), ap (λ r. ok r.1) h)

  store_body-Stored :
      (net : Net) (uuids : ℕ → Uuid) (s : AdBlockSource) (root : Root) (bytes : List ℕ)
      (etag : Option Text) (parsed : Parsed) (root' : Root)
      → store_body A net uuids s root bytes etag ≡ (ok parsed, root')
      → Stored s parsed root'
  unfolding store_body
  store_body-Stored net uuids s root bytes etag parsed root' h =
      let (content, h1, decoded) =
        or_return-ok root (or_error not_utf8 (net.from_utf8 bytes)) _ h in
      let (p, h2, accepted) =
        or_return-ok root (accept (limit_of s) (parse_as A uuids s.format content)) _ h1 in
      let (same, written) =
        cached_as-ok _ root (write_cache s.source_id (canon p.domains) root) h2 in
      record {
        domains = p.domains;
        cached = read_cache-write_cache s.source_id (canon p.domains) root root' written;
        counted = (etag, parse_error_warning p, sym same);
        within = accept-ok (limit_of s) (parse_as A uuids s.format content) p accepted;
      }

  -- The outcomes of a refresh that succeeds: nothing new, or a stored list.
  abbrev Succeeded : AdBlockSource → Root → Parsed → Root → Type 0
  Succeeded s root parsed root' = ((parsed ≡ unchanged) × (root' ≡ root)) ⊎ Stored s parsed root'

  store_outcome-Succeeded :
      (net : Net) (uuids : ℕ → Uuid) (s : AdBlockSource) (root : Root) (o : FetchOutcome)
      (parsed : Parsed) (root' : Root)
      → store_outcome A net uuids s root o ≡ (ok parsed, root')
      → Succeeded s root parsed root'
  store_outcome-Succeeded net uuids s root not_modified parsed root' h =
      inl (sym (ok-inj (ap (λ r. r.0) h)), sym (ap (λ r. r.1) h))
  store_outcome-Succeeded net uuids s root (fresh_body bytes etag) parsed root' h =
      inr (store_body-Stored net uuids s root bytes etag parsed root' h)

  fetch_parse-Succeeded :
      (net : Net) (uuids : ℕ → Uuid) (force : Bool) (s : AdBlockSource) (root : Root)
      (parsed : Parsed) (root' : Root)
      → fetch_parse A net uuids force s root ≡ (ok parsed, root')
      → Succeeded s root parsed root'
  unfolding fetch_parse
  fetch_parse-Succeeded net uuids force s root parsed root' h =
      let (first, h1, asked) =
        or_return-ok root (fetch_source_sync net 0 s.url s.etag _ force) _ h in
      let (outcome, h2, checked) =
        or_return-ok root (with_cache net s.source_id s.url _ first) _ h1 in
      store_outcome-Succeeded net uuids s root outcome parsed root' h2

  -- The state of a source and its cache after a refresh that succeeds.
  abbrev pub Refreshed : Uuid → AdBlockSource → World → World → Type 0
  Refreshed id s w w' =
      (s' : AdBlockSource) × (find_source w'.state id ≡ some s')
      × (((w'.root ≡ w.root) × (s'.rule_count ≡ s.rule_count) × (s'.etag ≡ s.etag))
          ⊎ ((ds : List Text) × (read_cache id w'.root ≡ ok (some (canon ds)))
              × (s'.rule_count ≡ length ds)
              × (leb (length ds) (limit_of s) ≡ true)))

  find-parsed :
      (messages : Messages) (now elapsed : ℕ) (id : Uuid) (parsed : Parsed) (state : AdBlockState)
      (s : AdBlockSource)
      → find_source state id ≡ some s
      → find_source (update_source id (record_parsed messages now elapsed parsed) state) id
        ≡ some (record_parsed messages now elapsed parsed s)
  unfolding find_source
  find-parsed messages now elapsed id parsed state s h = ground (
    arith,
    find-update_first id (record_parsed messages now elapsed parsed)
        (record_parsed_id messages now elapsed parsed) id state.sources,
    ==_iff id id,
  )

  module _ (net : Net) (messages : Messages) (uuids : ℕ → Uuid) (now elapsed : ℕ)
      (force : Bool) where
    finish_ok-Refreshed :
        (id : Uuid) (w : World) (s : AdBlockSource)
        → find_source w.state id ≡ some s
        → s.source_id ≡ id
        → (r : Result FetchError Parsed × Root)
        → ((parsed : Parsed) (root' : Root)
            → r ≡ (ok parsed, root')
            → Succeeded s w.root parsed root')
        → (finish_fetch messages now elapsed id w r).1 ≡ ok tt
        → Refreshed id s w (finish_fetch messages now elapsed id w r).0
    finish_ok-Refreshed id w s found same (err e, root') k h = cc
    finish_ok-Refreshed id w s found same (ok parsed, root') k h = elim (k parsed root' refl) [
      | inl (nothing, disk) ↦ (
        record_parsed messages now elapsed parsed s,
        find-parsed messages now elapsed id parsed w.state s found,
        inl (
          disk,
          rw nothing (unfold record_parsed in refl),
          rw nothing (unfold record_parsed in refl),
        ),
      )
      | inr stored ↦ (
        record_parsed messages now elapsed parsed s,
        find-parsed messages now elapsed id parsed w.state s found,
        inr (
          stored.domains,
          subst (λ i. read_cache i root' ≡ ok (some (canon stored.domains))) same stored.cached,
          rw stored.counted.2 (unfold record_parsed in refl),
          stored.within,
        ),
      )
    ]

    -- A refresh that succeeds either found nothing new, and the disk, the rule count and the ETag are
    -- as they were, or the cache holds the canonical text of a list within the limit of the source,
    -- and the rule count is the length of that list.
    pub fetch_ok-Refreshed :
        (id : Uuid) (w : World) (s : AdBlockSource)
        → find_source w.state id ≡ some s
        → (fetch_and_cache_source A net messages uuids now elapsed force id w).1 ≡ ok tt
        → Refreshed id s w (fetch_and_cache_source A net messages uuids now elapsed force id w).0
    unfolding fetch_and_cache_source
    fetch_ok-Refreshed id w s found h =
        subst
          (λ o.
            (fetch_found A net messages uuids now elapsed force id w o).1 ≡ ok tt
            → Refreshed id s w (fetch_found A net messages uuids now elapsed force id w o).0)
          (sym found)
          (finish_ok-Refreshed id w s found
            (unfold find_source in find_source-id id w.state.sources s found)
            (fetch_parse A net uuids force s w.root)
            (fetch_parse-Succeeded net uuids force s w.root))
          h

-- ===== src/Dns/Server/Tasks/LookUp.antt =====
-- What a look-up and the storing of its answer keep of the rules and the cache.
use m_host.Common.{
  Text, ℕ, true, false, ◌&&◌, Option, none, some, List, [], ◌∷◌, map, All, ◌≡◌, refl, inl, inr, ltb,
  Bool-cases,
}
use m_host.Dns.Resolver.{resolve}
use m_host.Dns.AdBlock.{check}
use m_host.Dns.Server.{
  Query, Message, QueryResult, Upstream, CacheEntry, Lru, Wire, DnsServer, is_address_type,
  name_str, cache_key, after_found, handle_address_query, live_entry,
}
use m_host.Dns.Server.Coherent.{
  Coherent, CoherentCache-pop, CoherentCache-check, CoherentCache-remember, check-check,
}
use m_host.Dns.Server.Tasks.{
  Task, accepted, answered, Phase, replies, waits, outdate, look_up_miss, look_up_peeked, look_up,
  look_up_first, look_up_decoded, begin_request, store_answer,
}

module _ {A C : Type 0} ⦃wire : Wire A⦄ ⦃lru : Lru A C⦄ where
  -- The result that a task holds is the one that the rules of `s` give, with some upstream.
  abbrev IsResult : DnsServer A C → Query → QueryResult A → Type 0
  IsResult s query result =
      (is_address_type query.query_type ≡ true)
      × ((upstream : Upstream A) × (after_found (name_str query) query.name query.query_type
              upstream (check (name_str query) s.ad_block).0 (resolve (name_str query) s.rules)
            ≡ result))

  abbrev pub Agrees : DnsServer A C → Task A → Type 0
  Agrees s (accepted datagram) = Unit
  Agrees s (answered false at datagram request query result) = Unit
  Agrees s (answered true at datagram request query result) = IsResult s query result

  abbrev PhaseAgrees : DnsServer A C → Phase A → Type 0
  PhaseAgrees s (replies response) = Unit
  PhaseAgrees s (waits now request query result) = IsResult s query result

  -- The rules decide the same in both states.
  pub record SameRules (s s' : DnsServer A C) : Type 0 where
    pub tables : s'.rules ≡ s.rules
    pub checks : (n : Text) → (check n s'.ad_block).0 ≡ (check n s.ad_block).0

  IsResult-same :
      (s s' : DnsServer A C) (query : Query) (result : QueryResult A)
      → SameRules s s'
      → IsResult s query result
      → IsResult s' query result
  IsResult-same s s' query result same (t, (upstream, e)) =
      (t, (upstream, rw (same.tables, same.checks (name_str query)) e))

  Agrees-same : (s s' : DnsServer A C) (t : Task A) → SameRules s s' → Agrees s t → Agrees s' t
  Agrees-same s s' (accepted datagram) same h = tt
  Agrees-same s s' (answered false at datagram request query result) same h = tt
  Agrees-same s s' (answered true at datagram request query result) same h =
      IsResult-same s s' query result same h

  pub All-Agrees-same :
      (s s' : DnsServer A C) (ts : List (Task A))
      → SameRules s s'
      → All (Agrees s) ts
      → All (Agrees s') ts
  All-Agrees-same s s' [] same h = tt
  All-Agrees-same s s' (t ∷ ts) same (h, hs) =
      (Agrees-same s s' t same h, All-Agrees-same s s' ts same hs)

  pub All-Agrees-outdate :
      (s : DnsServer A C) (ts : List (Task A)) → All (Agrees s) (map outdate ts)
  All-Agrees-outdate s [] = tt
  All-Agrees-outdate s (accepted datagram ∷ ts) = (tt, All-Agrees-outdate s ts)
  All-Agrees-outdate s (answered current at datagram request query result ∷ ts) =
      (tt, All-Agrees-outdate s ts)

  -- What a look-up keeps and what it gives.
  abbrev pub LookedUp : DnsServer A C → DnsServer A C × Phase A → Type 0
  LookedUp s (s', phase) = SameRules s s' × (Coherent s → Coherent s') × PhaseAgrees s' phase

  unchanged_lem : (s : DnsServer A C) → SameRules s s
  unchanged_lem s = record { tables = refl; checks = λ n. refl }

  module _ (upstream : Upstream A) (now : ℕ) (request : Message) (query : Query) where
    look_up_miss-LookedUp :
        (s : DnsServer A C) → LookedUp s (look_up_miss upstream now request query s)
    unfolding look_up_miss handle_address_query
    look_up_miss-LookedUp s = elim (Bool-cases (is_address_type query.query_type)) [
      | inl e ↦ rw e (
        record { tables = refl; checks = λ n. check-check n (name_str query) s.ad_block },
        (λ h. record {
          agrees = CoherentCache-check s.rules s.ad_block s.cache (name_str query) h.agrees;
        }),
        (e, (upstream, rw (check-check (name_str query) (name_str query) s.ad_block) refl)),
      )
      | inr e ↦ rw e (unchanged_lem s, (λ h. h), tt)
    ]

    look_up_peeked-LookedUp :
        (s : DnsServer A C) (o : Option (CacheEntry A))
        → LookedUp s (
            look_up_peeked upstream now request query s
              (live_entry now (cache_key (name_str query) query.query_type) s.cache o))
    look_up_peeked-LookedUp s none = look_up_miss-LookedUp s
    look_up_peeked-LookedUp s (some (records, at)) = elim (Bool-cases (ltb now at)) [
      | inl live ↦ rw live (unchanged_lem s, (λ h. h), tt)
      | inr old ↦ rw old (
          let (same, keeps, phase) =
            look_up_miss-LookedUp (record s {
              cache = lru.pop (cache_key (name_str query) query.query_type) s.cache;
            }) in
          (
            record { tables = same.tables; checks = same.checks },
            (λ h.
                keeps
                  (record { agrees = CoherentCache-pop s.rules s.ad_block s.cache _ h.agrees })),
            phase,
          ))
    ]

    look_up-LookedUp : (s : DnsServer A C) → LookedUp s (look_up upstream now request query s)
    unfolding look_up
    look_up-LookedUp s = look_up_peeked-LookedUp s _

  look_up_first-LookedUp :
      (upstream : Upstream A) (now : ℕ) (request : Message) (queries : List Query)
      (s : DnsServer A C)
      → LookedUp s (look_up_first upstream now request queries s)
  look_up_first-LookedUp upstream now request [] s = (unchanged_lem s, (λ h. h), tt)
  look_up_first-LookedUp upstream now request (query ∷ queries) s =
      look_up-LookedUp upstream now request query s

  look_up_decoded-LookedUp :
      (upstream : Upstream A) (now : ℕ) (m : Option Message) (s : DnsServer A C)
      → LookedUp s (look_up_decoded upstream now m s)
  look_up_decoded-LookedUp upstream now none s = (unchanged_lem s, (λ h. h), tt)
  look_up_decoded-LookedUp upstream now (some m) s =
      elim (Bool-cases (m.is_query && m.is_standard)) [
        | inl e ↦ rw e (look_up_first-LookedUp upstream now m m.queries s)
        | inr e ↦ rw e (unchanged_lem s, (λ h. h), tt)
      ]

  pub begin_request-LookedUp :
      (upstream : Upstream A) (now : ℕ) (datagram : List ℕ) (s : DnsServer A C)
      → LookedUp s (begin_request upstream now datagram s)
  unfolding begin_request
  begin_request-LookedUp upstream now datagram s = look_up_decoded-LookedUp upstream now _ s

  pub store_answer-Coherent :
      (now : ℕ) (query : Query) (result : QueryResult A) (s : DnsServer A C)
      → IsResult s query result
      → Coherent s
      → Coherent (store_answer now query result s)
  unfolding store_answer
  store_answer-Coherent now query result s (t, (upstream, e)) h = record {
    agrees =
        CoherentCache-remember s.rules s.ad_block s.cache now (name_str query) query.name
          query.query_type upstream t h.agrees result e;
  }

  pub store_answer-SameRules :
      (now : ℕ) (query : Query) (result : QueryResult A) (s : DnsServer A C)
      → SameRules s (store_answer now query result s)
  unfolding store_answer
  store_answer-SameRules now query result s = record { tables = refl; checks = λ n. refl }

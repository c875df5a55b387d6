-- ===== src/Dns/Server/Answered.antt =====
-- What the server answers, and that a reload makes its cache agree with its rules.
use m_host.Common.{
  Text, ℕ, Bool, true, Option, none, some, List, ◌≡◌, inl, inr, refl, ltb, Bool-cases,
}
use m_host.Core.Models.{Profile}
use m_host.Dns.Resolver.{resolve}
use m_host.Dns.AdBlock.{check}
use m_host.Dns.Server.{
  Query, Message, Record, Upstream, CacheEntry, Lru, Wire, DnsServer, is_address_type, name_str,
  cache_key, handle_address_query, live_entry, handle_miss, after_peek, handle_query, reload_rules,
  reload_ad_block_rules, build, no_error,
}
use m_host.Dns.Server.Coherent.{
  Decision, address_is, is_denied, has_no_record, asks_upstream, decision, IsAnswerOf, MayBeCached,
  Coherent, CoherentCache-clear, respond_to-IsAnswerOf,
}

module _ {A : Type 0} ⦃wire : Wire A⦄ where
  cached-answers :
      (request : Message) (query : Query) (owner : Text) (d : Decision A)
      (records : List (Record A))
      → MayBeCached d records
      → IsAnswerOf (build request query no_error records) owner d
  cached-answers request query owner (address_is ip) records h = (refl, h)
  cached-answers request query owner is_denied records h = absurd h
  cached-answers request query owner has_no_record records h = absurd h
  cached-answers request query owner asks_upstream records h = tt

module _ {A C : Type 0} ⦃wire : Wire A⦄ ⦃lru : Lru A C⦄ where
  handle_miss-answers :
      (upstream : Upstream A) (now : ℕ) (request : Message) (query : Query) (s : DnsServer A C)
      → is_address_type query.query_type ≡ true
      → IsAnswerOf
          (handle_miss upstream now request query s).1
          query.name
          (decision s.rules s.ad_block (name_str query) query.query_type)
  unfolding handle_miss handle_address_query decision
  handle_miss-answers upstream now request query s t = rw t (
      respond_to-IsAnswerOf request query query.name upstream (name_str query) query.query_type
        (check (name_str query) s.ad_block).0 (resolve (name_str query) s.rules))

  module _ (upstream : Upstream A) (now : ℕ) (request : Message) (query : Query) (s : DnsServer A C)
      (h : Coherent s) where
    peeked-answers :
        is_address_type query.query_type ≡ true
        → (o : Option (CacheEntry A))
        → lru.peek (cache_key (name_str query) query.query_type) s.cache ≡ o
        → IsAnswerOf
            (after_peek upstream now request query s
              (live_entry now (cache_key (name_str query) query.query_type) s.cache o)).1
            query.name
            (decision s.rules s.ad_block (name_str query) query.query_type)
    peeked-answers t none e = handle_miss-answers upstream now request query s t
    peeked-answers t (some (records, at)) e = elim (Bool-cases (ltb now at)) [
      | inl live ↦ rw live (
          cached-answers request query query.name _ records
            (h.agrees (name_str query) query.query_type records at t e))
      | inr old ↦ rw old (handle_miss-answers upstream now request query _ t)
    ]

    -- While the cache agrees with the rules, a query for an A or AAAA record is answered by the rules
    -- in force: what is blocked or mapped gets that answer, whatever the cache holds and whatever is
    -- upstream.
    pub handle_query-answers :
        is_address_type query.query_type ≡ true
        → IsAnswerOf
            (handle_query upstream now request query s).1
            query.name
            (decision s.rules s.ad_block (name_str query) query.query_type)
    unfolding handle_query
    handle_query-answers t = peeked-answers t _ refl

  pub reload_rules-Coherent :
      (profiles : List (Profile A)) (s : DnsServer A C) → Coherent (reload_rules profiles s)
  unfolding reload_rules
  reload_rules-Coherent profiles s = record { agrees = CoherentCache-clear _ s.ad_block s.cache }

  pub reload_ad_block_rules-Coherent :
      (enabled : Bool) (zero_addr : List (Text × A)) (nxdomain whitelist : List Text)
      (s : DnsServer A C)
      → Coherent (reload_ad_block_rules enabled zero_addr nxdomain whitelist s)
  unfolding reload_ad_block_rules
  reload_ad_block_rules-Coherent enabled zero_addr nxdomain whitelist s = record {
    agrees = CoherentCache-clear s.rules _ s.cache;
  }

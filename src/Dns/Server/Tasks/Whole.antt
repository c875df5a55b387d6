-- ===== src/Dns/Server/Tasks/Whole.antt =====
-- A request that no step of another task interrupts.
use m_host.Common.{ℕ, Option, none, some, List, [], ◌∷◌, ◌≡◌, refl, inl, inr, Bool-cases, ◌&&◌}
use m_host.Dns.Server.{
  Query, Message, Record, Upstream, Lru, Wire, DnsServer, is_address_type, handle_miss, after_peek,
  handle_query, handle_first, handle_decoded, handle_dns_request,
}
use m_host.Dns.Server.Tasks.{
  look_up_miss, look_up_peeked, look_up, look_up_first, look_up_decoded, begin_request,
  store_answer, finish_request,
}

module _ {A C : Type 0} ⦃wire : Wire A⦄ ⦃lru : Lru A C⦄ where
  module _ (upstream : Upstream A) (now : ℕ) (request : Message) (query : Query) where
    finish-look_up_miss :
        (s : DnsServer A C)
        → finish_request (look_up_miss upstream now request query s) ≡ (
          (handle_miss upstream now request query s).0,
          wire.to_bytes (handle_miss upstream now request query s).1,
        )
    unfolding look_up_miss handle_miss store_answer
    finish-look_up_miss s = elim (Bool-cases (is_address_type query.query_type)) [
      | inl e ↦ rw e refl
      | inr e ↦ rw e refl
    ]

    finish-look_up_peeked :
        (s : DnsServer A C) (r : Option (List (Record A)) × C)
        → finish_request (look_up_peeked upstream now request query s r) ≡ (
          (after_peek upstream now request query s r).0,
          wire.to_bytes (after_peek upstream now request query s r).1,
        )
    finish-look_up_peeked s (some records, cache) = refl
    finish-look_up_peeked s (none, cache) = finish-look_up_miss (record s { cache = cache })

    finish-look_up :
        (s : DnsServer A C)
        → finish_request (look_up upstream now request query s) ≡ (
          (handle_query upstream now request query s).0,
          wire.to_bytes (handle_query upstream now request query s).1,
        )
    unfolding look_up handle_query
    finish-look_up s = finish-look_up_peeked s _

  finish-look_up_first :
      (upstream : Upstream A) (now : ℕ) (request : Message) (queries : List Query)
      (s : DnsServer A C)
      → finish_request (look_up_first upstream now request queries s)
        ≡ handle_first upstream now request queries s
  finish-look_up_first upstream now request [] s = refl
  finish-look_up_first upstream now request (query ∷ queries) s =
      finish-look_up upstream now request query s

  finish-look_up_decoded :
      (upstream : Upstream A) (now : ℕ) (m : Option Message) (s : DnsServer A C)
      → finish_request (look_up_decoded upstream now m s) ≡ handle_decoded upstream now m s
  finish-look_up_decoded upstream now none s = refl
  finish-look_up_decoded upstream now (some m) s = elim (Bool-cases (m.is_query && m.is_standard)) [
    | inl e ↦ rw e (finish-look_up_first upstream now m m.queries s)
    | inr e ↦ rw e refl
  ]

  -- The two steps of a request, one directly after the other, are the handling of the request.
  pub finish_request-begin_request :
      (upstream : Upstream A) (now : ℕ) (datagram : List ℕ) (s : DnsServer A C)
      → finish_request (begin_request upstream now datagram s)
        ≡ handle_dns_request upstream now datagram s
  unfolding begin_request handle_dns_request
  finish_request-begin_request upstream now datagram s = finish-look_up_decoded upstream now _ s

-- ===== src/Dns/Server/Tasks/Accounts.antt =====
-- What becomes of the datagrams that are received.
use m_host.Common.{
  ℕ, zero, suc, ◌+◌, ◌≤◌, Option, none, some, List, [], ◌∷◌, map, ◌≡◌, refl, ap, arith, length, ltb,
  inl, inr, Bool-cases,
}
use m_host.Dns.Server.{
  Upstream, Lru, Wire, DnsServer, or_form_error, reload_rules, reload_ad_block_rules, respond_to,
}
use m_host.Dns.Server.Tasks.{
  Task, accepted, answered, Phase, replies, waits, Running, max_concurrent_client_queries, pull,
  outdate, receive, abort_all, replied, begin_request, begun, proceed, advance, reload_running,
  Step, arrived, advanced, shut_down, rules_reloaded, ad_block_reloaded, Reach, here, next,
}

abbrev one_if : {A : Type 0} → Option A → ℕ
one_if none = 0
one_if (some a) = 1

length-pull :
    {A : Type 0} (i : ℕ) (ts : List (Task A))
    → length ts ≡ one_if (pull i ts).0 + length (pull i ts).1
unfolding pull
length-pull i [] = refl
length-pull zero (t ∷ ts) = omega arith
length-pull (suc i) (t ∷ ts) = omega (arith, length-pull i ts)

length-outdate : {A : Type 0} (ts : List (Task A)) → length (map outdate ts) ≡ length ts
length-outdate [] = refl
length-outdate (t ∷ ts) = ap suc (length-outdate ts)

module _ {A C : Type 0} where
  -- Every datagram is in flight, or it was answered, ended with no reply, or was dropped; and the
  -- tasks keep to the cap.
  pub record Accounted (l : Running A C) : Type 0 where
    pub balanced : l.received ≡ l.sent + l.silent + l.dropped + length l.tasks
    pub capped : length l.tasks ≤ max_concurrent_client_queries

  receive-Accounted :
      (datagram : List ℕ) (l : Running A C) → Accounted l → Accounted (receive datagram l)
  unfolding receive
  receive-Accounted datagram l h = elim (Bool-cases (ltb (length l.tasks) 1024)) [
    | inl free ↦
        rw free (record { balanced = omega (arith, h.balanced); capped = ground (arith, free) })
    | inr full ↦ rw full (record { balanced = omega (arith, h.balanced); capped = h.capped })
  ]

  abort_all-Accounted : (l : Running A C) → Accounted l → Accounted (abort_all l)
  unfolding abort_all
  abort_all-Accounted l h = record { balanced = omega (arith, h.balanced); capped = omega arith }

  replied-Accounted :
      (o : Option (List ℕ)) (l : Running A C)
      → l.received ≡ l.sent + l.silent + l.dropped + (1 + length l.tasks)
      → 1 + length l.tasks ≤ max_concurrent_client_queries
      → Accounted (replied o l)
  replied-Accounted (some bytes) l b c = record {
    balanced = omega (arith, b);
    capped = omega (arith, c);
  }
  replied-Accounted none l b c = record { balanced = omega (arith, b); capped = omega (arith, c) }

module _ {A C : Type 0} ⦃wire : Wire A⦄ ⦃lru : Lru A C⦄ where
  begun-Accounted :
      (datagram : List ℕ) (others : List (Task A)) (r : DnsServer A C × Phase A) (l : Running A C)
      → l.received ≡ l.sent + l.silent + l.dropped + (1 + length others)
      → 1 + length others ≤ max_concurrent_client_queries
      → Accounted (begun datagram others r l)
  begun-Accounted datagram others (s, replies response) l b c =
      replied-Accounted (or_form_error A datagram response)
        (record l { server = s; tasks = others }) b c
  begun-Accounted datagram others (s, waits now request query result) l b c = record {
    balanced = omega (arith, b);
    capped = omega (arith, c);
  }

  proceed-Accounted :
      (upstream : Upstream A) (now : ℕ) (r : Option (Task A) × List (Task A)) (l : Running A C)
      → length l.tasks ≡ one_if r.0 + length r.1
      → Accounted l
      → Accounted (proceed upstream now r l)
  proceed-Accounted upstream now (none, others) l e h = h
  proceed-Accounted upstream now (some (accepted datagram), others) l e h =
      begun-Accounted datagram others (begin_request upstream now datagram l.server) l
        (omega (arith, e, h.balanced)) (omega (arith, e, h.capped))
  proceed-Accounted upstream now (some (answered current at datagram request query result), others)
        l e h =
      replied-Accounted (or_form_error A datagram (wire.to_bytes (respond_to request query result)))
        _ (omega (arith, e, h.balanced)) (omega (arith, e, h.capped))

  reload-Accounted :
      (reload : DnsServer A C → DnsServer A C) (l : Running A C)
      → Accounted l
      → Accounted (reload_running reload l)
  unfolding reload_running
  reload-Accounted reload l h = record {
    balanced = rw (length-outdate l.tasks) h.balanced;
    capped = rw (length-outdate l.tasks) h.capped;
  }

  Step-Accounted : {l m : Running A C} → Step l m → Accounted l → Accounted m
  unfolding advance
  Step-Accounted (arrived datagram l) h = receive-Accounted datagram l h
  Step-Accounted (advanced upstream now i l) h =
      proceed-Accounted upstream now (pull i l.tasks) l (length-pull i l.tasks) h
  Step-Accounted (shut_down l) h = abort_all-Accounted l h
  Step-Accounted (rules_reloaded profiles l) h = reload-Accounted (reload_rules profiles) l h
  Step-Accounted (ad_block_reloaded on zero_addr nxdomain whitelist l) h =
      reload-Accounted (reload_ad_block_rules on zero_addr nxdomain whitelist) l h

  -- In every state that datagrams, steps of the requests, shutdowns and reloads lead to, in any order,
  -- each datagram received is in flight, or was answered, ended with no reply, or was dropped at the
  -- cap; and at most 1024 are in flight.
  pub Reach-Accounted : {s : DnsServer A C} {l : Running A C} → Reach s l → Accounted l
  Reach-Accounted here = record { balanced = refl; capped = omega arith }
  Reach-Accounted (next r st) = Step-Accounted st (Reach-Accounted r)

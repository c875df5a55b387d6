-- ===== src/Dns/Server/Tasks/Coherence.antt =====
-- The cache and the rules, with requests in flight.
use m_host.Common.{
  ℕ, Bool, true, false, not, ◌||◌, Option, none, some, length, zero, suc, List, [], ◌∷◌, All, ◌≡◌,
  arith, inl, inr, ltb, Bool-cases,
}
use m_host.Dns.Server.{
  Query, Message, QueryResult, Upstream, Lru, Wire, DnsServer, or_form_error, reload_rules,
  reload_ad_block_rules,
}
use m_host.Dns.Server.Coherent.{Coherent}
use m_host.Dns.Server.Answered.{reload_rules-Coherent, reload_ad_block_rules-Coherent}
use m_host.Dns.Server.Tasks.LookUp.{
  Agrees, LookedUp, All-Agrees-same, All-Agrees-outdate, begin_request-LookedUp,
  store_answer-Coherent, store_answer-SameRules,
}
use m_host.Dns.Server.Tasks.{
  Task, accepted, answered, Phase, replies, waits, Running, pull, receive, abort_all, replied,
  store_answer, begun, proceed, advance, reload_running, Step, arrived, advanced, shut_down,
  rules_reloaded, ad_block_reloaded, Reach, here, next,
}

module _ {A C : Type 0} ⦃wire : Wire A⦄ ⦃lru : Lru A C⦄ where
  -- The invariant: while no outdated answer was stored, the cache agrees with the rules; and so do
  -- the results that were looked up since the last reload.
  record Sound (l : Running A C) : Type 0 where
    coherent : l.stale ≡ false → Coherent l.server
    tasks_agree : All (Agrees l.server) l.tasks

  abbrev FirstAgrees : DnsServer A C → Option (Task A) → Type 0
  FirstAgrees s none = Unit
  FirstAgrees s (some t) = Agrees s t

  pull-Agrees :
      (s : DnsServer A C) (i : ℕ) (ts : List (Task A))
      → All (Agrees s) ts
      → FirstAgrees s (pull i ts).0 × All (Agrees s) (pull i ts).1
  unfolding pull
  pull-Agrees s i [] h = (tt, tt)
  pull-Agrees s zero (t ∷ ts) (h, hs) = (h, hs)
  pull-Agrees s (suc i) (t ∷ ts) (h, hs) =
      let (first, others) = pull-Agrees s i ts hs in (first, (h, others))

  replied-Sound : (o : Option (List ℕ)) (l : Running A C) → Sound l → Sound (replied o l)
  replied-Sound (some bytes) l h = record { coherent = h.coherent; tasks_agree = h.tasks_agree }
  replied-Sound none l h = record { coherent = h.coherent; tasks_agree = h.tasks_agree }

  begun-Sound :
      (datagram : List ℕ) (others : List (Task A)) (r : DnsServer A C × Phase A) (l : Running A C)
      → LookedUp l.server r
      → All (Agrees l.server) others
      → Sound l
      → Sound (begun datagram others r l)
  begun-Sound datagram others (s, replies response) l (same, keeps, phase) agree h =
      replied-Sound (or_form_error A datagram response) _ (record {
        coherent = λ e. keeps (h.coherent e);
        tasks_agree = All-Agrees-same l.server s others same agree;
      })
  begun-Sound datagram others (s, waits now request query result) l (same, keeps, phase) agree h =
      record {
        coherent = λ e. keeps (h.coherent e);
        tasks_agree = (phase, All-Agrees-same l.server s others same agree);
      }

  stored-Sound :
      (current : Bool) (at : ℕ) (datagram : List ℕ) (request : Message) (query : Query)
      (result : QueryResult A) (others : List (Task A)) (l : Running A C)
      → Agrees l.server (answered current at datagram request query result)
      → All (Agrees l.server) others
      → Sound l
      → Sound (record l {
        server = store_answer at query result l.server;
        tasks = others;
        stale = l.stale || not current;
      })
  stored-Sound false at datagram request query result others l own agree h = record {
    coherent = λ e. absurd (ground arith);
    tasks_agree =
        All-Agrees-same l.server _ others (store_answer-SameRules at query result _) agree;
  }
  stored-Sound true at datagram request query result others l own agree h = record {
    coherent = λ e. store_answer-Coherent at query result l.server own (h.coherent (ground arith));
    tasks_agree =
        All-Agrees-same l.server _ others (store_answer-SameRules at query result _) agree;
  }

  proceed-Sound :
      (upstream : Upstream A) (now : ℕ) (r : Option (Task A) × List (Task A)) (l : Running A C)
      → FirstAgrees l.server r.0
      → All (Agrees l.server) r.1
      → Sound l
      → Sound (proceed upstream now r l)
  proceed-Sound upstream now (none, others) l own agree h = h
  proceed-Sound upstream now (some (accepted datagram), others) l own agree h =
      begun-Sound datagram others _ l (begin_request-LookedUp upstream now datagram l.server) agree
        h
  proceed-Sound upstream now (some (answered current at datagram request query result), others) l
        own agree h =
      replied-Sound _ _ (stored-Sound current at datagram request query result others l own agree h)

  receive-Sound : (datagram : List ℕ) (l : Running A C) → Sound l → Sound (receive datagram l)
  unfolding receive
  receive-Sound datagram l h = elim (Bool-cases (ltb (length l.tasks) 1024)) [
    | inl free ↦ rw free (record { coherent = h.coherent; tasks_agree = (tt, h.tasks_agree) })
    | inr full ↦ rw full (record { coherent = h.coherent; tasks_agree = h.tasks_agree })
  ]

  abort_all-Sound : (l : Running A C) → Sound l → Sound (abort_all l)
  unfolding abort_all
  abort_all-Sound l h = record { coherent = h.coherent; tasks_agree = tt }

  reload-Sound :
      (reload : DnsServer A C → DnsServer A C) (l : Running A C)
      → Coherent (reload l.server)
      → Sound (reload_running reload l)
  unfolding reload_running
  reload-Sound reload l h = record {
    coherent = λ e. h;
    tasks_agree = All-Agrees-outdate (reload l.server) l.tasks;
  }

  Step-Sound : {l m : Running A C} → Step l m → Sound l → Sound m
  unfolding advance
  Step-Sound (arrived datagram l) h = receive-Sound datagram l h
  Step-Sound (advanced upstream now i l) h =
      let (own, others) = pull-Agrees l.server i l.tasks h.tasks_agree in
      proceed-Sound upstream now (pull i l.tasks) l own others h
  Step-Sound (shut_down l) h = abort_all-Sound l h
  Step-Sound (rules_reloaded profiles l) h =
      reload-Sound (reload_rules profiles) l (reload_rules-Coherent profiles l.server)
  Step-Sound (ad_block_reloaded on zero_addr nxdomain whitelist l) h =
      reload-Sound (reload_ad_block_rules on zero_addr nxdomain whitelist) l
        (reload_ad_block_rules-Coherent on zero_addr nxdomain whitelist l.server)

  Reach-Sound : {s : DnsServer A C} {l : Running A C} → Coherent s → Reach s l → Sound l
  Reach-Sound h here = record { coherent = λ e. h; tasks_agree = tt }
  Reach-Sound h (next r st) = Step-Sound st (Reach-Sound h r)

  -- In every state that datagrams, steps of the requests, shutdowns and reloads lead to, in any order,
  -- the cache agrees with the rules in force, unless an answer that was looked up before the last
  -- reload was stored after it.
  pub Reach-Coherent :
      {s : DnsServer A C} {l : Running A C}
      → Coherent s
      → Reach s l
      → l.stale ≡ false
      → Coherent l.server
  Reach-Coherent h r fresh = (Reach-Sound h r).coherent fresh

-- ===== src/Dns/Server/Tasks.antt =====
-- src-tauri/crates/mhost-dns/src/server.rs: the requests in flight. A request is a task of its own,
-- which looks its answer up in one step and puts it into the cache in a later one; in between come
-- the steps of other tasks, and reloads. What the upstream gives is an argument of the look-up, so
-- that waiting for it is the time between the two steps. The look-up of one request and one reload are
-- single steps.
pub mod Accounts
pub mod Coherence
pub mod LookUp
pub mod Whole
use m_host.Common.{
  Text, ℕ, zero, suc, ◌+◌, Bool, true, false, not, ◌&&◌, ◌||◌, Option, none, some, List, [], ◌∷◌,
  map, if◌then◌else◌, ltb, length,
}
use m_host.Core.Models.{Profile}
use m_host.Dns.Server.{
  Query, Message, Record, Response, QueryResult, Upstream, CacheEntry, Lru, Wire, DnsServer,
  no_error, not_imp, is_address_type, name_str, cache_key, build, handle_address_query, respond_to,
  live_entry, remember, or_form_error, reload_rules, reload_ad_block_rules,
}

abbrev pub max_concurrent_client_queries : ℕ
max_concurrent_client_queries = 1024

-- A task before its look-up, and one that holds an answer to be stored, with the time of the
-- look-up. The flag is not in the code: it says that no reload came since the look-up.
pub data Task (A : Type 0) : Type 0 where
  accepted : List ℕ → Task A
  answered : Bool → ℕ → List ℕ → Message → Query → QueryResult A → Task A

-- How a look-up ends: with what is returned, or with a result that is still to be stored.
pub data Phase (A : Type 0) : Type 0 where
  replies : Option (List ℕ) → Phase A
  waits : ℕ → Message → Query → QueryResult A → Phase A

-- The server with its tasks. What follows `tasks` is not in the code: whether an answer from before
-- the last reload was stored after it, and counts of the datagrams received, of the replies sent,
-- of the tasks that ended with no reply, and of the datagrams dropped at the cap.
pub record Running (A C : Type 0) : Type 0 where
  pub server : DnsServer A C
  pub tasks : List (Task A)
  pub stale : Bool
  pub received : ℕ
  pub sent : ℕ
  pub silent : ℕ
  pub dropped : ℕ

-- The task number `i`, and the others.
unfoldable pub pull : {A : Type 0} → ℕ → List (Task A) → Option (Task A) × List (Task A)
pull i [] = (none, [])
pull zero (t ∷ ts) = (some t, ts)
pull (suc i) (t ∷ ts) = let r = pull i ts in (r.0, t ∷ r.1)

abbrev pub outdate : {A : Type 0} → Task A → Task A
outdate (accepted datagram) = accepted datagram
outdate (answered current now datagram request query result) =
    answered false now datagram request query result

module _ {A C : Type 0} where
  -- A server that was just started
  abbrev pub idle : DnsServer A C → Running A C
  idle s = record {
    server = s;
    tasks = [];
    stale = false;
    received = 0;
    sent = 0;
    silent = 0;
    dropped = 0;
  }

  -- A datagram that finds no permit is dropped, before a task is spawned for it.
  unfoldable pub receive : List ℕ → Running A C → Running A C
  receive datagram l =
      if ltb (length l.tasks) max_concurrent_client_queries
      then record l { tasks = accepted datagram ∷ l.tasks; received = l.received + 1 }
      else record l { received = l.received + 1; dropped = l.dropped + 1 }

  -- A shutdown aborts the tasks in flight.
  unfoldable pub abort_all : Running A C → Running A C
  abort_all l = record l { tasks = []; silent = l.silent + length l.tasks }

  -- The end of a task, with the bytes it sends
  abbrev pub replied : Option (List ℕ) → Running A C → Running A C
  replied (some bytes) l = record l { sent = l.sent + 1 }
  replied none l = record l { silent = l.silent + 1 }

module _ {A C : Type 0} ⦃wire : Wire A⦄ ⦃lru : Lru A C⦄ where
  unfoldable pub look_up_miss :
      Upstream A → ℕ → Message → Query → DnsServer A C → DnsServer A C × Phase A
  unfolding handle_address_query name_str
  look_up_miss upstream now request query s =
      let (result, engine) =
        handle_address_query (name_str query) query.name query.query_type s.rules upstream
          s.ad_block in
      if is_address_type query.query_type
      then (record s { ad_block = engine }, waits now request query result)
      else (s, replies (wire.to_bytes (build request query not_imp [])))

  abbrev pub look_up_peeked :
      Upstream A
      → ℕ
      → Message
      → Query
      → DnsServer A C
      → Option (List (Record A)) × C
      → DnsServer A C × Phase A
  look_up_peeked upstream now request query s (some records, cache) =
      (record s { cache = cache }, replies (wire.to_bytes (build request query no_error records)))
  look_up_peeked upstream now request query s (none, cache) =
      look_up_miss upstream now request query (record s { cache = cache })

  unfoldable pub look_up :
      Upstream A → ℕ → Message → Query → DnsServer A C → DnsServer A C × Phase A
  unfolding look_up_miss name_str
  look_up upstream now request query s =
      let key = cache_key (name_str query) query.query_type in
      look_up_peeked upstream now request query s
        (live_entry now key s.cache (lru.peek key s.cache))

  abbrev pub look_up_first :
      Upstream A → ℕ → Message → List Query → DnsServer A C → DnsServer A C × Phase A
  look_up_first upstream now request [] s = (s, replies none)
  look_up_first upstream now request (query ∷ queries) s = look_up upstream now request query s

  abbrev pub look_up_decoded :
      Upstream A → ℕ → Option Message → DnsServer A C → DnsServer A C × Phase A
  look_up_decoded upstream now none s = (s, replies none)
  look_up_decoded upstream now (some request) s =
      if request.is_query && request.is_standard
      then look_up_first upstream now request request.queries s
      else (s, replies none)

  -- The look-up of a task: `handle_dns_request` up to the answer of the upstream
  unfoldable pub begin_request : Upstream A → ℕ → List ℕ → DnsServer A C → DnsServer A C × Phase A
  unfolding look_up
  begin_request upstream now datagram s = look_up_decoded upstream now (wire.from_bytes datagram) s

  -- The rest of it: the answer is stored, and encoded.
  unfoldable pub store_answer : ℕ → Query → QueryResult A → DnsServer A C → DnsServer A C
  unfolding name_str
  store_answer now query result s = record s {
    cache = remember now (cache_key (name_str query) query.query_type) result s.cache;
  }

  abbrev pub finish_request : DnsServer A C × Phase A → DnsServer A C × Option (List ℕ)
  finish_request (s, replies response) = (s, response)
  finish_request (s, waits now request query result) =
      (store_answer now query result s, wire.to_bytes (respond_to request query result))

  abbrev pub begun : List ℕ → List (Task A) → DnsServer A C × Phase A → Running A C → Running A C
  begun datagram others (s, replies response) l =
      replied (or_form_error A datagram response) (record l { server = s; tasks = others })
  begun datagram others (s, waits now request query result) l = record l {
    server = s;
    tasks = answered true now datagram request query result ∷ others;
  }

  abbrev pub proceed : Upstream A → ℕ → Option (Task A) × List (Task A) → Running A C → Running A C
  proceed upstream now (none, others) l = l
  proceed upstream now (some (accepted datagram), others) l =
      begun datagram others (begin_request upstream now datagram l.server) l
  proceed upstream now (some (answered current at datagram request query result), others) l =
      replied (or_form_error A datagram (wire.to_bytes (respond_to request query result)))
        (record l {
          server = store_answer at query result l.server;
          tasks = others;
          stale = l.stale || not current;
        })

  -- One step of the task number `i`
  unfoldable pub advance : Upstream A → ℕ → ℕ → Running A C → Running A C
  unfolding pull begin_request store_answer
  advance upstream now i l = proceed upstream now (pull i l.tasks) l

  unfoldable pub reload_running : (DnsServer A C → DnsServer A C) → Running A C → Running A C
  reload_running reload l = record l {
    server = reload l.server;
    tasks = map outdate l.tasks;
    stale = false;
  }

  -- The steps of a running server, in any order.
  pub data Step : Running A C → Running A C → Type 0 where
    arrived : (datagram : List ℕ) (l : Running A C) → Step l (receive datagram l)
    advanced :
        (upstream : Upstream A) (now i : ℕ) (l : Running A C) → Step l (advance upstream now i l)
    shut_down : (l : Running A C) → Step l (abort_all l)
    rules_reloaded :
        (profiles : List (Profile A)) (l : Running A C)
        → Step l (reload_running (reload_rules profiles) l)
    ad_block_reloaded :
        (enabled : Bool) (zero_addr : List (Text × A)) (nxdomain whitelist : List Text)
        (l : Running A C)
        → Step l (reload_running (reload_ad_block_rules enabled zero_addr nxdomain whitelist) l)

  pub data Reach (s : DnsServer A C) : Running A C → Type 0 where
    here : Reach s (idle s)
    next : {l m : Running A C} → Reach s l → Step l m → Reach s m

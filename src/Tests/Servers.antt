-- ===== src/Tests/Servers.antt =====
-- Runs of the DNS server, with a cache that is an association list and a codec of one number.
use m_host.Common.{
  Text, Bool, true, false, none, some, List, [], ◌∷◌, codes, ◌≡◌, ◌≢◌, ◌⊎◌, inr, refl, sym, ◌∙◌,
  arith, eqb, eqb_iff, none-some,
}
use m_host.Common.Assoc.{get, put, remove, get-put, get-remove}
use m_host.Common.Result.{ok, err}
use m_host.Dns.AdBlock.{new_engine}
use m_host.Dns.Server.{
  a, Query, Message, Upstream, no_records_found, CacheEntry, Lru, Wire, DnsServer, name_str,
  handle_query,
}
use m_host.Dns.Server.Coherent.{decision, IsAnswerOf, Coherent}
use m_host.Dns.Server.Answered.{handle_query-answers}
use m_host.Dns.Server.{handle_address_query}
use m_host.Dns.Server.Tasks.{
  Running, Reach, here, next, arrived, advanced, rules_reloaded, idle, receive, advance,
  reload_running, pull, begin_request, look_up, look_up_miss, store_answer,
}
use m_host.Dns.Server.Tasks.Accounts.{Accounted, Reach-Accounted}
use m_host.Dns.Server.Tasks.Coherence.{Reach-Coherent}
use m_host.Dns.Server.Lifecycle.{
  Lifecycle, receive_failed, server_failed, start, stop, is_serving, start-stop_error,
}
use m_host.Dns.Server.{reload_rules}
use m_host.Tests.Addresses.{Address, local_address}

abbrev pub Cache : Type 0
Cache = List (Text × CacheEntry Address)

eqb-false : (x y : Text) → x ≢ y → eqb x y ≡ false
eqb-false x y h = ground (arith, eqb_iff x y)

pub peek-put_other :
    (j k : Text) (e : CacheEntry Address) (c : Cache)
    → j ≢ k
    → (get eqb j (put eqb k e c) ≡ none) ⊎ (get eqb j (put eqb k e c) ≡ get eqb j c)
peek-put_other j k e c h = inr (get-put eqb_iff j k e c ∙ rw (eqb-false k j (λ p. h (sym p))) refl)

pub peek-pop_other : (j k : Text) (c : Cache) → j ≢ k → get eqb j (remove eqb k c) ≡ get eqb j c
peek-pop_other j k c h = get-remove eqb_iff j k c ∙ rw (eqb-false k j (λ p. h (sym p))) refl

pub peek-put_same :
    (k : Text) (e : CacheEntry Address) (c : Cache) → get eqb k (put eqb k e c) ≡ some e
peek-put_same k e c = ground (arith, get-put eqb_iff k k e c, eqb_iff k k)

pub peek-pop_same : (k : Text) (c : Cache) → get eqb k (remove eqb k c) ≡ none
peek-pop_same k c = ground (arith, get-remove eqb_iff k k c, eqb_iff k k)

pub peek-nothing : (k : Text) → get {V = CacheEntry Address} eqb k [] ≡ none
unfolding get
peek-nothing k = refl

instance abbrev pub test_lru : Lru Address Cache
test_lru = record {
  peek = get eqb;
  pop = remove eqb;
  put = put eqb;
  clear = λ c. [];
  peek-put = peek-put_same;
  peek-put_ne = peek-put_other;
  peek-pop = peek-pop_same;
  peek-pop_ne = peek-pop_other;
  peek-clear = λ k c. peek-nothing k;
}

abbrev question : Query
question = record { name = codes "ads.com."; query_type = a }

instance abbrev pub test_wire : Wire Address
test_wire = record {
  is_v4 = λ ip. true;
  from_bytes = λ bytes.
      some (record { id = 7; is_query = true; is_standard = true; queries = question ∷ [] });
  to_bytes = λ r. some (r.id ∷ []);
}

abbrev upstream : Upstream Address
upstream name t = no_records_found

abbrev pub server : DnsServer Address Cache
server = record { rules = (codes "ads.com", local_address) ∷ []; ad_block = new_engine; cache = [] }

abbrev request : Message
request = record { id = 7; is_query = true; is_standard = true; queries = question ∷ [] }

server-Coherent : Coherent server
server-Coherent = record { agrees = λ name t records at k p. none-some (peek-nothing _) p }

handle_query-answers_example :
    IsAnswerOf
      (handle_query upstream 5 request question server).1
      (codes "ads.com.")
      (decision server.rules server.ad_block (name_str question) a)
handle_query-answers_example =
    handle_query-answers upstream 5 request question server server-Coherent refl

-- A request is looked up, another one arrives, and the first one is stored.
abbrev first_arrived : Running Address Cache
first_arrived = receive (1 ∷ 2 ∷ []) (idle server)

abbrev looked_up : Running Address Cache
looked_up = advance upstream 5 0 first_arrived

abbrev second_arrived : Running Address Cache
second_arrived = receive (3 ∷ 4 ∷ []) looked_up

abbrev first_stored : Running Address Cache
first_stored = advance upstream 6 1 second_arrived

first_stored-Reach : Reach server first_stored
first_stored-Reach =
    next
      (next
        (next (next here (arrived (1 ∷ 2 ∷ []) (idle server)))
          (advanced upstream 5 0 first_arrived))
        (arrived (3 ∷ 4 ∷ []) looked_up))
      (advanced upstream 6 1 second_arrived)

not_stale : first_stored.stale ≡ false
unfolding receive advance pull begin_request look_up look_up_miss handle_address_query store_answer
    get
not_stale = refl

Reach-Coherent_example : Coherent first_stored.server
Reach-Coherent_example = Reach-Coherent server-Coherent first_stored-Reach not_stale

one_of_two_sent : (first_stored.received ≡ 2) × (first_stored.sent ≡ 1)
unfolding receive advance pull begin_request look_up look_up_miss handle_address_query store_answer
    get
one_of_two_sent = (refl, refl)

Reach-Accounted_example : Accounted first_stored
Reach-Accounted_example = Reach-Accounted first_stored-Reach

-- The answer to the first request is stored behind a reload that took its rule away.
abbrev reloaded : Running Address Cache
reloaded = reload_running (reload_rules []) looked_up

abbrev outdated : Running Address Cache
outdated = advance upstream 6 0 reloaded

outdated-Reach : Reach server outdated
outdated-Reach =
    next
      (next
        (next (next here (arrived (1 ∷ 2 ∷ []) (idle server)))
          (advanced upstream 5 0 first_arrived))
        (rules_reloaded [] looked_up))
      (advanced upstream 6 0 reloaded)

is_stale : outdated.stale ≡ true
unfolding receive advance pull begin_request look_up look_up_miss handle_address_query store_answer
    get reload_running
is_stale = refl

abbrev broken : Lifecycle
broken = record {
  running = true;
  shutdown_tx = true;
  server_handle = some receive_failed;
  refresh_handle = false;
}

stop-broken : (stop broken).1 ≡ err server_failed
unfolding stop
stop-broken = refl

start-stop_error_example :
    (is_serving (stop broken).0 ≡ false)
    × ((binds refresh : Bool) → start binds refresh (stop broken).0 ≡ ((stop broken).0, ok tt))
start-stop_error_example = start-stop_error broken server_failed refl stop-broken

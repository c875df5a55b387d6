-- ===== src/Dns/Server/Lifecycle.antt =====
-- src-tauri/crates/mhost-dns/src/server.rs: starting and stopping. A task is what its handle yields
-- when it is awaited, `running_task` while it has not ended; `bound` says whether the port is taken.
use m_host.Common.{Bool, true, false, not, Option, none, some, ◌≡◌, ◌||◌, refl, if◌then◌else◌}
use m_host.Common.Result.{Result, ok, err}

pub data DnsError : Type 0 where
  bind server_failed : DnsError

-- How the task of the loop ends: by the shutdown signal, cancelled, by a receive that failed, or by
-- a panic.
pub data Task : Type 0 where
  running_task cancelled receive_failed panicked : Task

pub record Lifecycle : Type 0 where
  pub running : Bool
  pub shutdown_tx : Bool
  pub server_handle : Option Task
  pub refresh_handle : Bool

-- `start`: `binds` is whether the port can be bound, `refresh_upstream` the setting.
unfoldable pub start : Bool → Bool → Lifecycle → Lifecycle × Result DnsError Unit
start binds refresh_upstream s =
    if s.running
    then (s, ok tt)
    else if not binds
    then (record s { running = false }, err bind)
    else (
      record s {
        running = true;
        shutdown_tx = true;
        server_handle = some running_task;
        refresh_handle = refresh_upstream || s.refresh_handle;
      },
      ok tt,
    )

-- What awaiting the handle of the loop gives; the loop that is told to stop ends well.
abbrev pub joined : Option Task → Result DnsError Unit
joined none = ok tt
joined (some running_task) = ok tt
joined (some cancelled) = ok tt
joined (some receive_failed) = err server_failed
joined (some panicked) = err server_failed

abbrev pub stopped : Lifecycle → Result DnsError Unit → Lifecycle × Result DnsError Unit
stopped s (ok u) = (record s { running = false }, ok tt)
stopped s (err e) = (s, err e)

unfoldable pub stop : Lifecycle → Lifecycle × Result DnsError Unit
stop s =
    stopped (record s { refresh_handle = false; shutdown_tx = false; server_handle = none })
      (joined s.server_handle)

-- The loop serves requests.
abbrev pub is_serving : Lifecycle → Bool
is_serving s = serves s.server_handle
  where
    serves : Option Task → Bool
    serves (some running_task) = true
    serves _ = false

-- Where stopping a running server reports an error, no loop serves any more, and yet every later
-- start succeeds without binding the port.
pub start-stop_error :
    (s : Lifecycle) (e : DnsError)
    → s.running ≡ true
    → (stop s).1 ≡ err e
    → (is_serving (stop s).0 ≡ false)
      × ((binds refresh : Bool) → start binds refresh (stop s).0 ≡ ((stop s).0, ok tt))
unfolding stop start
start-stop_error s e h k = stopped_error (joined s.server_handle) k
  where
    left : Lifecycle
    left = record s { refresh_handle = false; shutdown_tx = false; server_handle = none }

    stopped_error :
        (r : Result DnsError Unit)
        → (stopped left r).1 ≡ err e
        → (is_serving (stopped left r).0 ≡ false)
          × ((binds refresh : Bool)
              → start binds refresh (stopped left r).0 ≡ ((stopped left r).0, ok tt))
    stopped_error (ok u) k = cc
    stopped_error (err why) k = (refl, λ binds refresh. rw h refl)

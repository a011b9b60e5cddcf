-- ===== src/Monitor.antt =====
-- The state of `StatusMonitor` in tools/tc-config-server.py: the clients seen, the requests in
-- flight, the bounded history, the running totals and the record of the last save.
-- Epoch and monotonic times are counts of clock ticks, so `max(0.0, a - b)` is `a - b` on ℕ.
-- Each method runs whole under the monitor's lock and is one function.
pub mod Clients
pub mod Requests
pub mod Durable
pub mod Events
pub mod Saves
pub mod Ledger
pub mod Takeover
pub mod Active
pub mod Accounting
pub mod Outcome
pub mod Recovery
pub mod Restore
pub mod Crash
pub mod Lag
pub mod Service
mod Tests
use thinclient.Prelude.{ℕ, zero, Bool, Option, none, some, List, [], ◌∷◌, ℤ, pos, negsuc}
use thinclient.Text.{Text}
use thinclient.Dict.{Dict}

pub record Client : Type 0 where
  pub ip : Text
  pub mac : Option Text
  pub first_seen_epoch : ℕ
  pub last_seen_epoch : ℕ
  pub last_path : Option Text
  pub last_status : Option ℕ
  pub profile : Option Text
  pub requests : ℕ
  pub boots : ℕ
  pub bytes_sent : ℕ

-- A request in flight as the state document keeps it.
pub record SavedRequest : Type 0 where
  pub id : ℕ
  pub method : Text
  pub path : Text
  pub ip : Text
  pub mac : Option Text
  pub client_key : Text
  pub started_epoch : ℕ
  pub bytes_sent : ℕ
  pub content_length : Option ℕ

-- The same in memory, with the monotonic start that `_state_document_locked` leaves out.
pub record ActiveRequest : Type 0 where
  pub saved : SavedRequest
  pub open saved use *
  pub started_monotonic : ℕ

pub record RequestRecord : Type 0 where
  pub method : Text
  pub path : Text
  pub ip : Text
  pub mac : Option Text
  pub status : ℕ
  pub finished_epoch : ℕ
  pub duration_seconds : ℕ
  pub bytes_sent : ℕ
  pub interrupted : Bool
  pub recovered_after_restart : Bool

pub record Monitor : Type 0 where
  pub max_clients : ℕ
  pub max_requests : ℕ
  pub started_at : ℕ
  pub history_started_at : ℕ
  pub next_request_id : ℕ
  pub active : Dict ℕ ActiveRequest
  pub clients : Dict Text Client
  pub requests : List RequestRecord
  pub request_total : ℕ
  pub successful_total : ℕ
  pub failed_total : ℕ
  pub bytes_total : ℕ
  pub boot_total : ℕ
  pub server_start_total : ℕ
  pub recovered_interrupted_total : ℕ
  pub state_file : Option Text
  pub last_saved_at : Option ℕ
  pub persistence_error : Option Text

-- max(0, n)
abbrev pub at_least_zero : ℤ → ℕ
at_least_zero (pos n) = n
at_least_zero (negsuc n) = 0

-- A text that is missing or empty is false to Python's `if` and `or`.
abbrev pub truthy : Option Text → Option Text
truthy none = none
truthy (some []) = none
truthy (some (c ∷ s)) = some (c ∷ s)

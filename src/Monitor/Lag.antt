-- ===== src/Monitor/Lag.antt =====
-- How far a saved state may be behind the one in memory, and what one change adds to that.
use thinclient.Prelude.{
  ℕ, ◌+◌, ◌≤◌, ◌≡◌, refl, Bool, false, Option, none, some, arith, is_some, compare_numbers, subst,
}
use thinclient.Text.{Text}
use thinclient.Dict.{lookup}
use thinclient.Monitor.{Monitor, ActiveRequest}
use thinclient.Monitor.Clients.{touch_client}
use thinclient.Monitor.Requests.{Ending, begin, set_content_length, add_bytes, finish, finish_found}
use thinclient.Monitor.Events.{Event, arrive, announce, send, complete, step}
use thinclient.Monitor.Saves.{saves, due}

-- `k` changes at most lie between the saved state and the one in memory.
pub record Behind (saved m : Monitor) (k : ℕ) : Type 0 where
  pub arrivals : saved.request_total ≤ m.request_total
  pub successes : saved.successful_total ≤ m.successful_total
  pub failures : saved.failed_total ≤ m.failed_total
  pub gap :
      m.request_total + m.successful_total + m.failed_total
      ≤ saved.request_total + saved.successful_total + saved.failed_total + k

-- A change counts one thing if it saves, and nothing if it does not.
pub record Counts (saving : Bool) (m m' : Monitor) : Type 0 where
  pub file_kept : m'.state_file ≡ m.state_file
  pub arrivals : m.request_total ≤ m'.request_total
  pub successes : m.successful_total ≤ m'.successful_total
  pub failures : m.failed_total ≤ m'.failed_total
  pub one :
      m'.request_total + m'.successful_total + m'.failed_total
      ≤ m.request_total + m.successful_total + m.failed_total + due saving m.state_file

Counts-nothing :
    (m m' : Monitor)
    → m'.state_file ≡ m.state_file
    → (m'.request_total ≡ m.request_total)
      × (m'.successful_total ≡ m.successful_total)
      × (m'.failed_total ≡ m.failed_total)
    → Counts false m m'
Counts-nothing m m' f same = record {
  file_kept = f;
  arrivals = omega (arith, same);
  successes = omega (arith, same);
  failures = omega (arith, same);
  one = omega (arith, same);
}

finish_found-Counts :
    (o : Option ActiveRequest) (id : ℕ) (e : Ending) (m : Monitor) (file : Text)
    → m.state_file ≡ some file
    → Counts (is_some o) m (finish_found o id e m)
unfolding finish_found
finish_found-Counts none id e m file f = Counts-nothing m m refl (refl, refl, refl)
finish_found-Counts (some r) id e m file f = record {
  file_kept = refl;
  arrivals = omega arith;
  successes = omega arith;
  failures = omega arith;
  one = rw f (ground arith);
}

pub step-Counts :
    (e : Event) (m : Monitor) (file : Text)
    → m.state_file ≡ some file
    → Counts (saves e m) m (step e m)
unfolding step saves begin touch_client set_content_length add_bytes finish
step-Counts (arrive a) m file f = record {
  file_kept = refl;
  arrivals = omega arith;
  successes = omega arith;
  failures = omega arith;
  one = rw f (omega arith);
}
step-Counts (announce id n) m file f = Counts-nothing m _ refl (refl, refl, refl)
step-Counts (send id n) m file f = Counts-nothing m _ refl (refl, refl, refl)
step-Counts (complete id e) m file f = finish_found-Counts (lookup id m.active) id e m file f

pub Behind-step :
    (b : Bool) (saved m m' : Monitor) (k : ℕ)
    → Behind saved m k
    → Counts b m m'
    → Behind saved m' (k + due b m.state_file)
Behind-step b saved m m' k h c = record {
  arrivals = omega (arith, h.arrivals, c.arrivals);
  successes = omega (arith, h.successes, c.successes);
  failures = omega (arith, h.failures, c.failures);
  gap = omega (arith, h.gap, c.one);
}

pub Behind-more : (saved m : Monitor) (j k : ℕ) → j ≡ k → Behind saved m j → Behind saved m k
Behind-more saved m j k e h = subst (Behind saved m) e h

pub Behind-self : (m : Monitor) (k : ℕ) → Behind m m k
Behind-self m k = record {
  arrivals = omega arith;
  successes = omega arith;
  failures = omega arith;
  gap = omega arith;
}

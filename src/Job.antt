-- ===== src/Job.antt =====
-- `BackgroundJob` of overlay/usr/local/lib/thinclient/uijobs.py: one operation at a time in the
-- background of a dialog. A worker hands its `finish` to the dispatcher, which runs it later on the
-- thread of the widgets, as every other step here.
pub mod Single
mod Tests
use thinclient.Prelude.{
  ℕ, zero, suc, ◌+◌, ◌-◌, Bool, true, false, not, ◌||◌, List, [], ◌∷◌, if◌then◌else◌, nat_eq,
}

-- The two flags, and what happened so far: starts that were accepted, `finish` calls still to come,
-- calls of `done`, and results that nobody took since the dialog was closed.
pub record Job : Type 0 where
  pub busy : Bool
  pub closed : Bool
  pub accepted : ℕ
  pub pending : ℕ
  pub answered : ℕ
  pub dropped : ℕ

abbrev pub new_job : Job
new_job = record {
  busy = false;
  closed = false;
  accepted = 0;
  pending = 0;
  answered = 0;
  dropped = 0;
}

-- The argument of a start says whether the system gives it a thread.
pub data JobEvent : Type 0 where
  close : JobEvent
  start : Bool → JobEvent
  finish : JobEvent

abbrev submitted : Bool → Job → Job
submitted true j = record j { busy = true; accepted = j.accepted + 1; pending = j.pending + 1 }
submitted false j = record j { busy = false; accepted = j.accepted + 1; answered = j.answered + 1 }

unfoldable pub start_job : Bool → Job → Job
start_job has_thread j = if j.busy || j.closed then j else submitted has_thread j

abbrev answer : Bool → Job → Job
answer true j = record j { busy = false; dropped = j.dropped + 1 }
answer false j = record j { busy = false; answered = j.answered + 1 }

-- `finish`, which runs only where a worker has dispatched it
unfoldable pub finish_job : ℕ → Job → Job
finish_job zero j = j
finish_job (suc n) j = answer j.closed (record j { pending = n })

unfoldable pub job_step : JobEvent → Job → Job
unfolding start_job finish_job
job_step close j = record j { closed = true }
job_step (start has_thread) j = start_job has_thread j
job_step finish j = finish_job j.pending j

unfoldable pub job_run : List JobEvent → Job → Job
unfolding job_step
job_run [] j = j
job_run (e ∷ es) j = job_run es (job_step e j)

-- ===== src/Job/Single.antt =====
-- One operation at a time, and no call back into a closed dialog.
use thinclient.Prelude.{
  ℕ, zero, suc, ◌+◌, ◌≡◌, refl, ◌∙◌, Bool, true, false, ◌||◌, List, [], ◌∷◌, if◌then◌else◌, arith,
  Bool-cases, inl, inr,
}
use thinclient.Job.{
  Job, JobEvent, close, start, finish, submitted, start_job, finish_job, job_step, job_run,
}

-- Busy means that exactly one result is on its way, and every accepted start is answered, dropped
-- or on its way.
pub record IsSingle (j : Job) : Type 0 where
  pub pending_busy : j.pending ≡ (if j.busy then 1 else 0)
  pub balance : j.accepted ≡ j.answered + j.dropped + j.pending

start_job-IsSingle : (t : Bool) (j : Job) → IsSingle j → IsSingle (start_job t j)
unfolding start_job
start_job-IsSingle t j h = elim (Bool-cases (j.busy || j.closed)) [
  | inl e ↦ rw e h
  | inr e ↦ rw e (submitted-IsSingle t j (ground arith) h)
]
  where
    submitted-IsSingle :
        (t : Bool) (j : Job) → j.busy ≡ false → IsSingle j → IsSingle (submitted t j)
    submitted-IsSingle true j idle h = record {
      pending_busy = ground (arith, h.pending_busy);
      balance = omega (arith, h.balance);
    }
    submitted-IsSingle false j idle h = record {
      pending_busy = ground (arith, h.pending_busy);
      balance = omega (arith, h.balance);
    }

finish_job-IsSingle : (n : ℕ) (j : Job) → j.pending ≡ n → IsSingle j → IsSingle (finish_job n j)
unfolding finish_job
finish_job-IsSingle zero j p h = h
finish_job-IsSingle (suc n) j p h = elim (Bool-cases j.closed) [
  | inl e ↦ rw e (record {
    pending_busy = ground (arith, p, h.pending_busy);
    balance = omega (arith, p, h.balance);
  })
  | inr e ↦ rw e (record {
    pending_busy = ground (arith, p, h.pending_busy);
    balance = omega (arith, p, h.balance);
  })
]

job_step-IsSingle : (e : JobEvent) (j : Job) → IsSingle j → IsSingle (job_step e j)
unfolding job_step
job_step-IsSingle close j h = record { pending_busy = h.pending_busy; balance = h.balance }
job_step-IsSingle (start t) j h = start_job-IsSingle t j h
job_step-IsSingle finish j h = finish_job-IsSingle j.pending j refl h

-- However starts, results and the closing of the dialog interleave, a job that is sound stays so: at
-- most one operation is on its way, exactly while the job is busy, and every start that was accepted
-- is answered once, dropped once, or on its way.
pub job_run-IsSingle : (es : List JobEvent) (j : Job) → IsSingle j → IsSingle (job_run es j)
unfolding job_run
job_run-IsSingle [] j h = h
job_run-IsSingle (e ∷ es) j h = job_run-IsSingle es (job_step e j) (job_step-IsSingle e j h)

finish_job-closed :
    (n : ℕ) (j : Job)
    → j.closed ≡ true
    → ((finish_job n j).closed ≡ true)
      × ((finish_job n j).answered ≡ j.answered)
      × ((finish_job n j).accepted ≡ j.accepted)
unfolding finish_job
finish_job-closed zero j h = (h, refl, refl)
finish_job-closed (suc n) j h = ground (arith, h)

job_step-closed :
    (e : JobEvent) (j : Job)
    → j.closed ≡ true
    → ((job_step e j).closed ≡ true)
      × ((job_step e j).answered ≡ j.answered)
      × ((job_step e j).accepted ≡ j.accepted)
unfolding job_step start_job
job_step-closed close j h = (refl, refl, refl)
job_step-closed (start t) j h = ground (arith, h)
job_step-closed finish j h = finish_job-closed j.pending j h

-- Once the dialog is closed, `done` is never called again and no further start is accepted, whatever
-- happens next.
pub job_run-closed :
    (es : List JobEvent) (j : Job)
    → j.closed ≡ true
    → ((job_run es j).answered ≡ j.answered) × ((job_run es j).accepted ≡ j.accepted)
unfolding job_run
job_run-closed [] j h = (refl, refl)
job_run-closed (e ∷ es) j h =
    let now = job_step-closed e j h in
    let later = job_run-closed es (job_step e j) now.0 in (later.0 ∙ now.1, later.1 ∙ now.2)

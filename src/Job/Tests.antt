-- ===== src/Job/Tests.antt =====
-- A job that is closed while its operation runs.
use thinclient.Prelude.{◌≡◌, refl, true, List, [], ◌∷◌}
use thinclient.Job.{JobEvent, new_job, close, start, finish, job_run}
use thinclient.Job.Single.{IsSingle, job_run-IsSingle, job_run-closed}

abbrev events : List JobEvent
events = start true ∷ start true ∷ finish ∷ start true ∷ close ∷ finish ∷ start true ∷ []

closed_midway : ((job_run events new_job).answered ≡ 1) × ((job_run events new_job).dropped ≡ 1)
unfolding job_run
closed_midway = (refl, refl)

job_run-IsSingle_example : IsSingle (job_run events new_job)
job_run-IsSingle_example =
    job_run-IsSingle events new_job (record { pending_busy = refl; balance = refl })

job_run-closed_example :
    ((job_run events (record new_job { closed = true })).answered ≡ 0)
    × ((job_run events (record new_job { closed = true })).accepted ≡ 0)
job_run-closed_example = job_run-closed events (record new_job { closed = true }) refl

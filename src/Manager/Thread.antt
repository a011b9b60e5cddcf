-- ===== src/Manager/Thread.antt =====
-- What a session's thread hands to the main loop: one end, which is the last.
use thinclient.Prelude.{
  ℕ, zero, suc, ◌+◌, ◌≤◌, ◌≡◌, refl, Bool, true, false, Option, none, some, List, [], ◌∷◌, ◌++◌,
  sum_by-append, arith,
}
use thinclient.Text.{Text}
use thinclient.Config.{Connection}
use thinclient.Manager.{Post, stage, launched, done}
use thinclient.Manager.Worker.{
  Observed, Result, stages, launched_posts, after_check, after_build, after_preflight, run_session,
  with_done, session_worker,
}
use thinclient.Manager.Invariant.{is_done, dones, Ahead}

dones-stages : (n : ℕ) → dones (stages n) ≡ 0
dones-stages zero = refl
dones-stages (suc n) = omega (arith, dones-stages n)

-- the posts that a part of the thread makes before the last
abbrev IsQuiet : List Post × Result → Type 0
IsQuiet r = dones r.0 ≡ 0

launched_posts_quiet : (b : Bool) → dones (launched_posts b) ≡ 0
launched_posts_quiet true = refl
launched_posts_quiet false = refl

after_check-IsQuiet : (b : Bool) (e : Option Text) (o : Observed) → IsQuiet (after_check b e o)
after_check-IsQuiet true e o = refl
after_check-IsQuiet false (some message) o = refl
after_check-IsQuiet false none o = launched_posts_quiet o.cancelled_after_launch

after_build-IsQuiet : (e : Option Text) (o : Observed) → IsQuiet (after_build e o)
after_build-IsQuiet (some message) o = refl
after_build-IsQuiet none o = after_check-IsQuiet o.cancelled_before_launch o.launch_error o

after_preflight-IsQuiet :
    (b : Bool) (e : Option Text) (o : Observed) → IsQuiet (after_preflight b e o)
unfolding run_session
after_preflight-IsQuiet true e o = refl
after_preflight-IsQuiet false (some message) o = refl
after_preflight-IsQuiet false none o = omega (arith, after_build-IsQuiet o.build_error o)

last-Ahead : (ps : List Post) (p : Post) (k : ℕ) → is_done p ≡ 1 → Ahead (ps ++ p ∷ []) k
last-Ahead [] stage k h = tt
last-Ahead [] launched k h = ground (arith, h)
last-Ahead [] (done c code error log) k h = tt
last-Ahead (stage ∷ ps) p k h = last-Ahead ps p k h
last-Ahead (launched ∷ ps) p k h =
    (omega (arith, sum_by-append is_done ps (p ∷ []), h), last-Ahead ps p k h)
last-Ahead (done c code error log ∷ ps) p k h = last-Ahead ps p k h

dones-last : (ps : List Post) (p : Post) → is_done p ≡ 1 → dones ps ≡ 0 → dones (ps ++ p ∷ []) ≡ 1
dones-last ps p h q = omega (arith, sum_by-append is_done ps (p ∷ []), h, q)

stages-Ahead : (n k : ℕ) (ps : List Post) → Ahead ps k → Ahead (stages n ++ ps) k
stages-Ahead zero k ps h = h
stages-Ahead (suc n) k ps h = stages-Ahead n k ps h

pub dones-session_worker : (c : Connection) (o : Observed) → dones (session_worker c o) ≡ 1
unfolding session_worker
dones-session_worker c o =
    let r = after_preflight o.cancelled_after_preflight o.preflight_error o in
    let quiet : dones r.0 ≡ 0 =
      after_preflight-IsQuiet o.cancelled_after_preflight o.preflight_error o in
    let last : dones (with_done c o.log r) ≡ 1 =
      dones-last r.0 (done c r.1.0 r.1.1 o.log) refl quiet in
    omega (
      arith,
      sum_by-append is_done (stages o.preflight_stages) (with_done c o.log r),
      dones-stages o.preflight_stages,
      last,
    )

pub session_worker-Ahead : (c : Connection) (o : Observed) → Ahead (session_worker c o) 0
unfolding session_worker
session_worker-Ahead c o =
    let r = after_preflight o.cancelled_after_preflight o.preflight_error o in
    stages-Ahead o.preflight_stages 0 (with_done c o.log r)
      (last-Ahead r.0 (done c r.1.0 r.1.1 o.log) 0 refl)

pub Ahead-mono : (ps : List Post) (k l : ℕ) → k ≤ l → Ahead ps k → Ahead ps l
Ahead-mono [] k l h a = tt
Ahead-mono (stage ∷ ps) k l h a = Ahead-mono ps k l h a
Ahead-mono (launched ∷ ps) k l h a = (omega (arith, a.0), Ahead-mono ps k l h a.1)
Ahead-mono (done c code error log ∷ ps) k l h a = Ahead-mono ps k l h a

-- a post that moves from the rest of a thread to the queue
pub Ahead-snoc :
    (ps : List Post) (p : Post) (k l : ℕ)
    → k ≡ is_done p + l
    → Ahead (p ∷ []) l
    → Ahead ps k
    → Ahead (ps ++ p ∷ []) l
Ahead-snoc [] p k l e h a = h
Ahead-snoc (stage ∷ ps) p k l e h a = Ahead-snoc ps p k l e h a
Ahead-snoc (launched ∷ ps) p k l e h a =
    (omega (arith, a.0, e, sum_by-append is_done ps (p ∷ [])), Ahead-snoc ps p k l e h a.1)
Ahead-snoc (done c code error log ∷ ps) p k l e h a = Ahead-snoc ps p k l e h a

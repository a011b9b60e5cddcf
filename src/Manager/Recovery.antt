-- ===== src/Manager/Recovery.antt =====
-- A session always comes to its end: the threads and the main loop bring the window back by
-- themselves.
use thinclient.Prelude.{
  ◌≤◌, ◌≡◌, refl, sym, ap, subst, ◌∙◌, Bool, true, false, Option, List, [], ◌∷◌, ◌++◌, sum_by,
  sum_by-append, append-nil, append_assoc, if_elim, arith, ℤ, Every,
}
use thinclient.Text.{Text}
use thinclient.Config.{Connection}
use thinclient.Config.Layers.{Configuration}
use thinclient.Manager.{Manager, Post, stage, launched, done}
use thinclient.Manager.Auto.{cancel_auto_connect, schedule_auto_connect}
use thinclient.Manager.Done.{
  reload_now, reload_config, session_launched, reconnect_countdown, after_failure, session_failed,
  report_end, come_back, session_done,
}
use thinclient.Manager.Events.{
  Event, advance, idle_post, advance_worker, advance_thread, run_post, run_first, event, events,
}
use thinclient.Manager.Invariant.{is_done, dones, session_count, IsSound}

-- a step of a thread or of the main loop, which needs no user and no timer
abbrev pub is_own : Event → Bool
is_own (advance _) = true
is_own (idle_post _) = true
is_own _ = false

-- the window is there and can be used
pub record IsUsable (m : Manager) : Type 0 where
  pub over : m.session_active ≡ false
  pub visible : m.window_visible ≡ true
  pub sensitive : m.connect_sensitive ≡ true
  pub closed : m.progress_open ≡ false

come_back-IsUsable : (fresh : Configuration) (m : Manager) → IsUsable (come_back fresh m)
unfolding come_back reload_config reload_now cancel_auto_connect schedule_auto_connect
come_back-IsUsable fresh m =
    if_elim (λ r. IsUsable (record r { progress_open = false; window_visible = true }))
      m.reload_pending
      (λ e. record { over = refl; visible = refl; sensitive = refl; closed = refl })
      (λ e. record { over = refl; visible = refl; sensitive = refl; closed = refl })

report_end-IsUsable :
    (changed : Bool) (c : Connection) (code : ℤ) (error : Text) (log : Option Text) (m : Manager)
    → IsUsable m
    → IsUsable (report_end changed c code error log m)
unfolding report_end session_failed after_failure reconnect_countdown
report_end-IsUsable changed c code error log m h = ground (arith, h)

abbrev AreOwn : List Event → Type 0
AreOwn es = Every (λ e. is_own e ≡ true) es

-- all that one thread has to hand over, before some further events
abbrev steps_of : List Post → List Event → List Event
steps_of [] es = advance 0 ∷ es
steps_of (p ∷ ps) es = advance 0 ∷ steps_of ps es

abbrev steps_of_all : List (List Post) → List Event → List Event
steps_of_all [] es = es
steps_of_all (w ∷ ws) es = steps_of w (steps_of_all ws es)

abbrev flat : List (List Post) → List Post
flat [] = []
flat (w ∷ ws) = w ++ flat ws

steps_of-AreOwn : (w : List Post) (es : List Event) → AreOwn es → AreOwn (steps_of w es)
steps_of-AreOwn [] es h = (refl, h)
steps_of-AreOwn (p ∷ ps) es h = (refl, steps_of-AreOwn ps es h)

steps_of_all-AreOwn :
    (ws : List (List Post)) (es : List Event) → AreOwn es → AreOwn (steps_of_all ws es)
steps_of_all-AreOwn [] es h = h
steps_of_all-AreOwn (w ∷ ws) es h =
    steps_of-AreOwn w (steps_of_all ws es) (steps_of_all-AreOwn ws es h)

abbrev at : Manager → List Post → List (List Post) → Manager
at m posts workers = record m { posts = posts; workers = workers }

events-steps_of :
    (w : List Post) (ws : List (List Post)) (es : List Event) (m : Manager) (qs : List Post)
    → events (steps_of w es) (at m qs (w ∷ ws)) ≡ events es (at m (qs ++ w) ws)
unfolding events event advance_thread advance_worker
events-steps_of [] ws es m qs = refl
events-steps_of (p ∷ ps) ws es m qs =
    events-steps_of ps ws es m (qs ++ p ∷ [])
    ∙ ap (λ l. events es (at m l ws)) (append_assoc qs (p ∷ []) ps)

events-steps_of_all :
    (ws : List (List Post)) (es : List Event) (m : Manager) (qs : List Post)
    → events (steps_of_all ws es) (at m qs ws) ≡ events es (at m (qs ++ flat ws) [])
events-steps_of_all [] es m qs = ap (λ l. events es (at m l [])) (sym (append-nil qs))
events-steps_of_all (w ∷ ws) es m qs =
    events-steps_of w ws (steps_of_all ws es) m qs
    ∙ events-steps_of_all ws es m (qs ++ w)
    ∙ ap (λ l. events es (at m l [])) (append_assoc qs w (flat ws))

dones-flat : (ws : List (List Post)) → dones (flat ws) ≡ sum_by dones ws
dones-flat [] = refl
dones-flat (w ∷ ws) = omega (arith, sum_by-append is_done w (flat ws), dones-flat ws)

-- the main loop's steps up to the end of the session
abbrev drain : Configuration → List Post → List Event
drain fresh [] = []
drain fresh (stage ∷ ps) = idle_post fresh ∷ drain fresh ps
drain fresh (launched ∷ ps) = idle_post fresh ∷ drain fresh ps
drain fresh (done _ _ _ _ ∷ ps) = idle_post fresh ∷ []

drain-AreOwn : (fresh : Configuration) (ps : List Post) → AreOwn (drain fresh ps)
drain-AreOwn fresh [] = tt
drain-AreOwn fresh (stage ∷ ps) = (refl, drain-AreOwn fresh ps)
drain-AreOwn fresh (launched ∷ ps) = (refl, drain-AreOwn fresh ps)
drain-AreOwn fresh (done c code error log ∷ ps) = (refl, tt)

posts-session_launched : (m : Manager) → (session_launched m).posts ≡ m.posts
unfolding session_launched
posts-session_launched m = ground arith

drain-IsUsable :
    (fresh : Configuration) (ps : List Post) (m : Manager)
    → m.posts ≡ ps
    → 1 ≤ dones ps
    → IsUsable (events (drain fresh ps) m)
unfolding events event run_first run_post session_done
drain-IsUsable fresh [] m e h = absurd (omega (arith, h))
drain-IsUsable fresh (stage ∷ ps) m e h =
    rw e (drain-IsUsable fresh ps (record m { posts = ps }) refl (omega (arith, h)))
drain-IsUsable fresh (launched ∷ ps) m e h = rw e (
    drain-IsUsable fresh ps (session_launched (record m { posts = ps }))
      (posts-session_launched (record m { posts = ps })) (omega (arith, h)))
drain-IsUsable fresh (done c code error log ∷ ps) m e h = rw e (
    report_end-IsUsable m.reload_pending c code error log
      (come_back fresh (record m { posts = ps }))
      (come_back-IsUsable fresh (record m { posts = ps })))

-- In a sound state with an active session, the threads and the main loop by themselves reach a state
-- in which the session is over, the window shows and its Connect button can be pressed.
pub session_comes_back :
    (fresh : Configuration) (m : Manager)
    → IsSound m
    → m.session_active ≡ true
    → (es : List Event) × Every (λ e. is_own e ≡ true) es × IsUsable (events es m)
session_comes_back fresh m h active =
    let queue = m.posts ++ flat m.workers in
    let es = drain fresh queue in
    let some_end : 1 ≤ dones queue = omega (
      arith,
      sum_by-append is_done m.posts (flat m.workers),
      dones-flat m.workers,
      h.threaded.ends,
      ap session_count active,
    ) in
    (
      steps_of_all m.workers es,
      steps_of_all-AreOwn m.workers es (drain-AreOwn fresh queue),
      subst IsUsable (sym (events-steps_of_all m.workers es m m.posts))
          (drain-IsUsable fresh queue (at m queue []) refl some_end),
    )

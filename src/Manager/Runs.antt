-- ===== src/Manager/Runs.antt =====
-- The window over any sequence of events.
use thinclient.Prelude.{
  ◌≡◌, refl, subst, Bool, true, false, Option, none, some, List, [], ◌∷◌, if_elim, arith, nat_eq,
}
use thinclient.Config.{Connection}
use thinclient.Config.Layers.{Configuration}
use thinclient.Manager.{Manager, Post, stage, launched, done, new_manager}
use thinclient.Manager.Worker.{Observed}
use thinclient.Manager.Done.{session_done}
use thinclient.Manager.Events.{
  Event, connect, auto_now, auto_cancel, cancel_start, reload, settings, auto_fires, auto_ticks,
  countdown_ticks, answers, unwind, advance, idle_post, is_idle, selected, auto_update,
  advance_thread, run_post, run_first, event, events,
}
use thinclient.Manager.Invariant.{IsThreaded, IsSound}
use thinclient.Manager.Keeps.{cancel_auto_connect-IsSound, start_session-IsSound}
use thinclient.Manager.Steps.{
  connect_auto_now-IsSound, launch_auto-IsSound, reload_config-IsSound, session_launched-IsSound,
  done-IsThreaded, come_back-IsBack, report_end-IsSound,
}
use thinclient.Manager.Threads.{advance-IsThreaded}
use thinclient.Manager.Loop.{
  IsCalm, unwind_innermost-IsSound, is_counting-respond, is_counting-count_down,
}

active_of_launched :
    (active : Bool) (ps : List Post) (workers : List (List Post))
    → IsThreaded active (launched ∷ ps) workers
    → active ≡ true
active_of_launched true ps workers h = refl
active_of_launched false ps workers h = absurd (omega (arith, h.ends, h.posts_ahead.0))

run_first-IsSound :
    (ps : List Post) (fresh : Configuration) (m : Manager)
    → m.posts ≡ ps
    → IsSound m
    → IsSound (run_first ps fresh m)
unfolding run_first run_post session_done
run_first-IsSound [] fresh m e h = h
run_first-IsSound (stage ∷ ps) fresh m e h =
    let threads = subst (λ l. IsThreaded m.session_active l m.workers) e h.threaded in
    record {
      threaded = record {
        ends = omega (arith, threads.ends);
        posts_ahead = threads.posts_ahead;
        workers_ahead = threads.workers_ahead;
      };
      tidy = ground (arith, h.tidy);
    }
run_first-IsSound (launched ∷ ps) fresh m e h =
    let threads = subst (λ l. IsThreaded m.session_active l m.workers) e h.threaded in
    session_launched-IsSound (record m { posts = ps })
      (active_of_launched m.session_active ps m.workers threads)
      (record {
        threaded = record {
          ends = omega (arith, threads.ends);
          posts_ahead = threads.posts_ahead.1;
          workers_ahead = threads.workers_ahead;
        };
        tidy = ground (arith, h.tidy);
      })
run_first-IsSound (done c code error log ∷ ps) fresh m e h =
    let threads = subst (λ l. IsThreaded m.session_active l m.workers) e h.threaded in
    report_end-IsSound m.reload_pending c code error log _ (
      come_back-IsBack fresh (record m { posts = ps })
        (done-IsThreaded m.session_active c code error log ps m.workers threads)
        (ground (arith, h.tidy)))

auto_update-IsSound :
    (choice : Option Connection) (o : Observed) (m : Manager)
    → IsSound m
    → IsSound (auto_update choice o m)
unfolding auto_update
auto_update-IsSound none o m h = h
auto_update-IsSound (some c) o m h =
    if_elim IsSound (nat_eq m.auto_remaining 0)
      (λ e.
        connect_auto_now-IsSound o (record m { auto_countdown_id = false })
          (record { threaded = h.threaded; tidy = ground (arith, h.tidy) }))
      (λ e. record { threaded = h.threaded; tidy = ground (arith, h.tidy) })

-- what the theorem asks of an event
abbrev pub IsAllowed : Event → Manager → Type 0
IsAllowed (connect choice o) m = Unit
IsAllowed (auto_now o) m = Unit
IsAllowed auto_cancel m = Unit
IsAllowed cancel_start m = Unit
IsAllowed (reload fresh) m = Unit
IsAllowed (settings result) m = Unit
IsAllowed auto_fires m = Unit
IsAllowed (auto_ticks o) m = Unit
IsAllowed countdown_ticks m = Unit
IsAllowed (answers a) m = Unit
IsAllowed (unwind o) m = IsCalm m.modals m.session_active
IsAllowed (advance n) m = Unit
IsAllowed (idle_post fresh) m = Unit

event-IsSound : (e : Event) (m : Manager) → IsAllowed e m → IsSound m → IsSound (event e m)
unfolding event advance_thread
event-IsSound (connect choice o) m u h =
    if_elim IsSound (is_idle m.modals) (λ e. start_session-IsSound (selected choice m) o m h)
      (λ e. h)
event-IsSound (auto_now o) m u h =
    if_elim IsSound (is_idle m.modals) (λ e. connect_auto_now-IsSound o m h) (λ e. h)
event-IsSound auto_cancel m u h =
    if_elim IsSound (is_idle m.modals) (λ e. cancel_auto_connect-IsSound false m h) (λ e. h)
event-IsSound cancel_start m u h =
    if_elim IsSound m.progress_open
      (λ e. record { threaded = h.threaded; tidy = ground (arith, e, h.tidy) }) (λ e. h)
event-IsSound (reload fresh) m u h = reload_config-IsSound fresh m h
event-IsSound (settings result) m u h = record {
  threaded = h.threaded;
  tidy = ground (arith, h.tidy);
}
event-IsSound auto_fires m u h = launch_auto-IsSound m.auto_connect_id m h
event-IsSound (auto_ticks o) m u h =
    if_elim IsSound m.auto_countdown_id (λ e. auto_update-IsSound m.auto_connection o m h) (λ e. h)
event-IsSound countdown_ticks m u h =
    if_elim IsSound m.countdown_id
      (λ e. record {
        threaded = h.threaded;
        tidy = ground (arith, h.tidy, is_counting-count_down m.modals);
      })
      (λ e. h)
event-IsSound (answers a) m u h = record {
  threaded = h.threaded;
  tidy = ground (arith, h.tidy, is_counting-respond a m.modals);
}
event-IsSound (unwind o) m u h = unwind_innermost-IsSound m.modals o m refl u h
event-IsSound (advance n) m u h = record {
  threaded = advance-IsThreaded n m.session_active m.posts m.workers h.threaded;
  tidy = ground (arith, h.tidy);
}
event-IsSound (idle_post fresh) m u h = run_first-IsSound m.posts fresh m refl h

-- no credential dialog is accepted while another session runs, at any point of the run
unfoldable pub IsUndisturbedRun : List Event → Manager → Type 0
unfolding event
IsUndisturbedRun [] m = Unit
IsUndisturbedRun (e ∷ es) m = IsAllowed e m × IsUndisturbedRun es (event e m)

-- Whatever the user, the timers, the signal and the sessions' threads do in whatever order, if no
-- credential dialog is accepted while another session runs, then at most one session's thread or
-- result is on its way, exactly while the window counts a session as active; the Connect button
-- is off exactly then; and the progress dialog, a hidden window, a reload that waits and a
-- cancellation never outlive the session.
pub events-IsSound :
    (es : List Event) (m : Manager) → IsUndisturbedRun es m → IsSound m → IsSound (events es m)
unfolding events IsUndisturbedRun
events-IsSound [] m u h = h
events-IsSound (e ∷ es) m u h = events-IsSound es (event e m) u.1 (event-IsSound e m u.0 h)

pub new_manager-IsSound : (cfg : Configuration) → IsSound (new_manager cfg)
new_manager-IsSound cfg = record {
  threaded = record { ends = refl; posts_ahead = tt; workers_ahead = tt };
  tidy = record {
    button = refl;
    progress = refl;
    hidden = refl;
    waiting = refl;
    cancelling = refl;
    counting_auto = refl;
    counting = refl;
  };
}

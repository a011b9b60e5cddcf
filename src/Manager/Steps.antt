-- ===== src/Manager/Steps.antt =====
-- The automatic connection, the reload and the end of a session keep what always holds of the window.
use thinclient.Prelude.{
  ◌≡◌, refl, Bool, true, false, not, ◌&&◌, Option, none, some, List, ◌∷◌, arith, if_elim,
  compare_texts, ℤ,
}
use thinclient.Text.{Text, is_empty}
use thinclient.Config.{Connection}
use thinclient.Config.Layers.{Configuration, find}
use thinclient.Command.Failure.{Failure, explain_failure}
use thinclient.Manager.{Manager, tells, Post, done, ended}
use thinclient.Manager.Worker.{Observed}
use thinclient.Manager.Auto.{
  cancel_auto_connect, schedule_auto_connect, begin_auto_connect, launch_auto,
}
use thinclient.Manager.Start.{start_auto, connect_auto_now}
use thinclient.Manager.Done.{
  reload_now, reload_config, session_launched, reconnect_countdown, after_failure, session_failed,
  is_clean_exit, report_end, come_back,
}
use thinclient.Manager.Invariant.{IsThreaded, IsTidy, IsSound}
use thinclient.Manager.Keeps.{
  cancel_auto_connect-IsSound, open_dialog-IsSound, set_status-IsSound, start_session-IsSound,
}

pub start_auto-IsSound :
    (choice : Option Connection) (o : Observed) (m : Manager)
    → IsSound m
    → IsSound (start_auto choice o m)
unfolding start_auto
start_auto-IsSound none o m h = h
start_auto-IsSound (some c) o m h = start_session-IsSound (some c) o m h

pub connect_auto_now-IsSound :
    (o : Observed) (m : Manager) → IsSound m → IsSound (connect_auto_now o m)
unfolding connect_auto_now
connect_auto_now-IsSound o m h =
    start_auto-IsSound m.auto_connection o (cancel_auto_connect true m)
      (cancel_auto_connect-IsSound true m h)

pub begin_auto_connect-IsSound :
    (choice : Option Connection) (m : Manager) → IsSound m → IsSound (begin_auto_connect choice m)
unfolding begin_auto_connect
begin_auto_connect-IsSound none m h = h
begin_auto_connect-IsSound (some c) m h = record {
  threaded = h.threaded;
  tidy = ground (arith, h.tidy);
}

pub launch_auto-IsSound :
    (auto : Option Text) (m : Manager) → IsSound m → IsSound (launch_auto auto m)
unfolding launch_auto
launch_auto-IsSound none m h = h
launch_auto-IsSound (some auto) m h =
    let fired : IsSound (record m { auto_connect_id = none }) = record {
      threaded = h.threaded;
      tidy = ground (arith, h.tidy);
    } in
    if_elim IsSound m.session_active (λ e. fired)
      (λ e.
        begin_auto_connect-IsSound (find auto m.cfg.connections)
          (record m { auto_connect_id = none }) fired)

reload_now-IsSound :
    (fresh : Configuration) (m : Manager) → IsSound m → IsSound (reload_now fresh m)
unfolding reload_now schedule_auto_connect cancel_auto_connect
reload_now-IsSound fresh m h = record { threaded = h.threaded; tidy = ground (arith, h.tidy) }

pub reload_config-IsSound :
    (fresh : Configuration) (m : Manager) → IsSound m → IsSound (reload_config fresh m)
unfolding reload_config
reload_config-IsSound fresh m h =
    if_elim IsSound m.session_active
      (λ e. record { threaded = h.threaded; tidy = ground (arith, e, h.tidy) })
      (λ e. reload_now-IsSound fresh m h)

pub session_launched-IsSound :
    (m : Manager) → m.session_active ≡ true → IsSound m → IsSound (session_launched m)
unfolding session_launched
session_launched-IsSound m e h =
    if_elim IsSound m.session_cancelled (λ q. h)
      (λ q. record { threaded = h.threaded; tidy = ground (arith, e, h.tidy) })

-- sound once the cancellation is taken back, and without a session
pub record IsBack (m : Manager) : Type 0 where
  pub idle : m.session_active ≡ false
  pub but_cancelled : IsSound (record m { session_cancelled = false })

IsBack-IsSound : (m : Manager) → m.session_cancelled ≡ false → IsBack m → IsSound m
IsBack-IsSound m e b = record {
  threaded = b.but_cancelled.threaded;
  tidy = ground (arith, e, b.but_cancelled.tidy);
}

pub done-IsThreaded :
    (active : Bool) (c : Connection) (code : ℤ) (error : Text) (log : Option Text) (ps : List Post)
    (workers : List (List Post))
    → IsThreaded active (done c code error log ∷ ps) workers
    → IsThreaded false ps workers
done-IsThreaded true c code error log ps workers h = record {
  ends = omega (arith, h.ends);
  posts_ahead = h.posts_ahead;
  workers_ahead = h.workers_ahead;
}
done-IsThreaded false c code error log ps workers h = absurd (omega (arith, h.ends))

pub come_back-IsBack :
    (fresh : Configuration) (m : Manager)
    → IsThreaded false m.posts m.workers
    → IsTidy m
    → IsBack (come_back fresh m)
unfolding come_back reload_config reload_now cancel_auto_connect schedule_auto_connect
come_back-IsBack fresh m threads h =
    if_elim (λ r. IsBack (record r { progress_open = false; window_visible = true }))
      m.reload_pending
      (λ e. record {
        idle = refl;
        but_cancelled = record { threaded = threads; tidy = ground (arith, h) };
      })
      (λ e. record {
        idle = refl;
        but_cancelled = record { threaded = threads; tidy = ground (arith, e, h) };
      })

after_failure-IsSound :
    (changed : Bool) (c : Connection) (f : Failure) (m : Manager)
    → IsSound m
    → IsSound (after_failure changed c f m)
unfolding after_failure reconnect_countdown
after_failure-IsSound changed c f m h =
    if_elim IsSound
      (not changed
        && c.auto_reconnect
        && f.retryable
        && not m.cancel_reconnect
        && not m.countdown_id)
      (λ e. record { threaded = h.threaded; tidy = ground (arith, h.tidy) })
      (λ e.
        if_elim IsSound (not changed) (λ q. open_dialog-IsSound (tells c f.retryable) m h) (λ q. h))

session_failed-IsSound :
    (changed : Bool) (c : Connection) (f : Failure) (m : Manager)
    → IsSound m
    → IsSound (session_failed changed c f m)
unfolding session_failed
session_failed-IsSound changed c f m h =
    after_failure-IsSound changed c f _
      (record { threaded = h.threaded; tidy = ground (arith, h.tidy) })

pub report_end-IsSound :
    (changed : Bool) (c : Connection) (code : ℤ) (error : Text) (log : Option Text) (m : Manager)
    → IsBack m
    → IsSound (report_end changed c code error log m)
unfolding report_end
report_end-IsSound changed c code error log m b =
    if_elim IsSound m.session_cancelled
      (λ e. record {
        threaded = b.but_cancelled.threaded;
        tidy = ground (arith, b.but_cancelled.tidy);
      })
      (λ e.
        let h = IsBack-IsSound m e b in
        if_elim IsSound (not (is_empty error))
          (λ q. record { threaded = h.threaded; tidy = ground (arith, h.tidy) })
          (λ q.
            if_elim IsSound (is_clean_exit code) (λ r. set_status-IsSound (ended c.name) m h)
              (λ r. session_failed-IsSound changed c (explain_failure log code) m h)))

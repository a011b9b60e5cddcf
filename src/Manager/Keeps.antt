-- ===== src/Manager/Keeps.antt =====
-- Each operation of the window keeps what always holds of it.
use thinclient.Prelude.{
  ◌≡◌, subst, Bool, true, false, not, ◌&&◌, ◌||◌, Option, none, some, List, ◌∷◌, sum_by, arith,
  Bool-cases, if_elim, inl, inr, compare_texts,
}
use thinclient.Text.{is_empty}
use thinclient.Config.{Connection}
use thinclient.Manager.{
  Manager, Purpose, asks, Post, open_dialog, set_status, Notice, select_first, no_address,
}
use thinclient.Manager.Worker.{Observed, session_worker}
use thinclient.Manager.Thread.{dones-session_worker, session_worker-Ahead, Ahead-mono}
use thinclient.Manager.Auto.{cancel_auto_connect, schedule_auto_connect}
use thinclient.Manager.Start.{
  with_credentials, transient, is_vnc, launch_session, prompt_or_launch, start_chosen,
  start_session,
}
use thinclient.Manager.Invariant.{dones, IsThreaded, IsSound}

pub cancel_auto_connect-IsSound :
    (silent : Bool) (m : Manager) → IsSound m → IsSound (cancel_auto_connect silent m)
unfolding cancel_auto_connect
cancel_auto_connect-IsSound silent m h = record {
  threaded = h.threaded;
  tidy = ground (arith, h.tidy);
}

pub cancelled_idle :
    (m : Manager) → m.session_active ≡ false → (cancel_auto_connect true m).session_active ≡ false
unfolding cancel_auto_connect
cancelled_idle m e = e

pub schedule_auto_connect-IsSound : (m : Manager) → IsSound m → IsSound (schedule_auto_connect m)
unfolding schedule_auto_connect
schedule_auto_connect-IsSound m h = record { threaded = h.threaded; tidy = ground (arith, h.tidy) }

launch_session-IsThreaded :
    (c : Connection) (o : Observed) (posts : List Post) (workers : List (List Post))
    → IsThreaded false posts workers
    → IsThreaded true posts (session_worker c o ∷ workers)
launch_session-IsThreaded c o posts workers h = record {
  ends = omega (arith, dones-session_worker c o, h.ends);
  posts_ahead =
      Ahead-mono posts (sum_by dones workers) (sum_by dones (session_worker c o ∷ workers))
        (omega arith) h.posts_ahead;
  workers_ahead = (session_worker-Ahead c o, h.workers_ahead);
}

pub launch_session-IsSound :
    (c : Connection) (o : Observed) (m : Manager)
    → m.session_active ≡ false
    → IsSound m
    → IsSound (launch_session c o m)
unfolding launch_session
launch_session-IsSound c o m idle h =
    elim (Bool-cases (not (is_vnc c) && (is_empty c.username || is_empty c.password))) [
      | inl e ↦ rw e (record { threaded = h.threaded; tidy = ground (arith, h.tidy) })
      | inr e ↦ rw e (record {
        threaded =
            launch_session-IsThreaded c o m.posts m.workers
              (subst (λ b. IsThreaded b m.posts m.workers) idle h.threaded);
        tidy = ground (arith, h.tidy);
      })
    ]

pub open_dialog-IsSound : (p : Purpose) (m : Manager) → IsSound m → IsSound (open_dialog p m)
open_dialog-IsSound p m h = record { threaded = h.threaded; tidy = ground (arith, h.tidy) }

pub set_status-IsSound : (s : Notice) (m : Manager) → IsSound m → IsSound (set_status s m)
set_status-IsSound s m h = record { threaded = h.threaded; tidy = ground (arith, h.tidy) }

prompt_or_launch-IsSound :
    (c : Connection) (o : Observed) (m : Manager)
    → m.session_active ≡ false
    → IsSound m
    → IsSound (prompt_or_launch c o m)
unfolding prompt_or_launch
prompt_or_launch-IsSound c o m idle h =
    elim (Bool-cases
      (not (is_vnc c) && c.prompt_credentials && (is_empty c.username || is_empty c.password))) [
        | inl e ↦ rw e (open_dialog-IsSound (asks c) m h)
        | inr e ↦ rw e (launch_session-IsSound c o m idle h)
      ]

start_chosen-IsSound :
    (choice : Option Connection) (o : Observed) (m : Manager)
    → m.session_active ≡ false
    → IsSound m
    → IsSound (start_chosen choice o m)
unfolding start_chosen
start_chosen-IsSound none o m idle h = set_status-IsSound select_first m h
start_chosen-IsSound (some c) o m idle h = elim (Bool-cases (is_empty c.host)) [
  | inl e ↦ rw e (set_status-IsSound no_address m h)
  | inr e ↦ rw e (prompt_or_launch-IsSound (with_credentials (transient c m) c) o m idle h)
]

pub start_session-IsSound :
    (choice : Option Connection) (o : Observed) (m : Manager)
    → IsSound m
    → IsSound (start_session choice o m)
unfolding start_session
start_session-IsSound choice o m h =
    if_elim IsSound m.session_active (λ e. h)
      (λ e.
        start_chosen-IsSound choice o (cancel_auto_connect true m) (cancelled_idle m e)
          (cancel_auto_connect-IsSound true m h))

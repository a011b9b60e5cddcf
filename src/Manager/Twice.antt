-- ===== src/Manager/Twice.antt =====
-- A credential dialog that is accepted after another session has started.
use thinclient.Prelude.{
  ℕ, ◌+◌, ◌≡◌, ap, ◌∙◌, true, false, not, ◌&&◌, ◌||◌, some, List, ◌∷◌, sum_by, if_elim, arith,
}
use thinclient.Text.{is_empty}
use thinclient.Config.{Connection}
use thinclient.Manager.{Manager, Modal, asks, accepted, Entered}
use thinclient.Manager.Worker.{Observed}
use thinclient.Manager.Thread.{dones-session_worker}
use thinclient.Manager.Start.{is_vnc, with_credentials, entered, remembered, launch_session, go_on}
use thinclient.Manager.Events.{unwind, resume_after, unwind_answered, unwind_innermost, event}
use thinclient.Manager.Invariant.{dones, session_count, IsSound}

-- the sessions whose end is still to come
abbrev pub running : Manager → ℕ
running m = sum_by dones m.workers + dones m.posts

workers-launch_session :
    (c : Connection) (o : Observed) (m : Manager)
    → is_empty c.username ≡ false
    → is_empty c.password ≡ false
    → running (launch_session c o m) ≡ 1 + running m
unfolding launch_session
workers-launch_session c o m h e =
    if_elim (λ r. running r ≡ 1 + running m)
      (not (is_vnc c) && (is_empty c.username || is_empty c.password))
      (λ q. ground (arith, h, e, q)) (λ q. omega (arith, dones-session_worker c o))

-- The dialog's code does not look at the session again: where a credential dialog, which does not
-- keep the automatic connection from starting, is accepted with a name and a password after a
-- session has become active, a second session runs beside the first.
pub unwind_second :
    (m : Manager) (c : Connection) (e : Entered) (o : Observed) (ds : List Modal)
    → IsSound m
    → m.session_active ≡ true
    → m.modals ≡ record { purpose = asks c; answer = some (accepted e) } ∷ ds
    → is_empty e.entered_username ≡ false
    → is_empty e.entered_password ≡ false
    → running (event (unwind o) m) ≡ 2
unfolding event unwind_innermost unwind_answered resume_after go_on remembered
unwind_second m c e o ds h active open_one u p =
    ap (λ l. running (unwind_innermost l o m)) open_one
    ∙ workers-launch_session (with_credentials (some (entered e)) c) o
        (remembered c e (record m { modals = ds })) u p
    ∙ omega (arith, h.threaded.ends, ap session_count active)

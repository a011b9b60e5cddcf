-- ===== src/Manager/Outcome.antt =====
-- How a session that the server refused ends.
use thinclient.Prelude.{
  ◌≡◌, ◌≢◌, refl, sym, ap, subst, ◌∙◌, true, false, Option, some, [], if_elim, arith, ℤ,
  compare_texts,
}
use thinclient.Text.{Text}
use thinclient.Dict.{erase}
use thinclient.Config.{Connection}
use thinclient.Config.Layers.{Configuration}
use thinclient.Command.Failure.{Failure, credential_hints, explain_failure}
use thinclient.Command.Retry.{mentions, explain_failure_credentials}
use thinclient.Manager.{Manager, tells, open_dialog}
use thinclient.Manager.Done.{
  after_failure, session_failed, is_clean_exit, report_end, come_back, session_done,
}

true_not_false : true ≢ false
true_not_false e = ground (arith, e)

after_failure_refused :
    (c : Connection) (f : Failure) (m : Manager)
    → f.retryable ≡ false
    → after_failure false c f m ≡ open_dialog (tells c false) m
unfolding after_failure
after_failure_refused c f m h = ground (arith, h)

-- what is seen of the window after a refusal
pub record IsRefused (c : Connection) (m r : Manager) : Type 0 where
  pub shown : r.modals ≡ (open_dialog (tells c false) m).modals
  pub not_counting : r.countdown_id ≡ m.countdown_id
  pub forgotten : r.session_credentials ≡ erase c.id m.session_credentials
  pub over : r.session_active ≡ false
  pub same_threads : r.workers ≡ m.workers
  pub same_posts : r.posts ≡ m.posts
  pub not_scheduled : r.auto_connect_id ≡ m.auto_connect_id
  pub not_counting_auto : r.auto_countdown_id ≡ m.auto_countdown_id
  pub same_automatic : r.auto_connection ≡ m.auto_connection

session_failed-IsRefused :
    (c : Connection) (f : Failure) (m : Manager)
    → f.retryable ≡ false
    → m.session_active ≡ false
    → IsRefused c m (session_failed false c f m)
unfolding session_failed
session_failed-IsRefused c f m h idle =
    subst (IsRefused c m) (sym (after_failure_refused c f _ h)) (record {
      shown = refl;
      not_counting = refl;
      forgotten = rw h refl;
      over = idle;
      same_threads = refl;
      same_posts = refl;
      not_scheduled = refl;
      not_counting_auto = refl;
      same_automatic = refl;
    })

report_end_failed :
    (c : Connection) (code : ℤ) (log : Option Text) (m : Manager)
    → m.session_cancelled ≡ false
    → is_clean_exit code ≡ false
    → report_end false c code [] log m ≡ session_failed false c (explain_failure log code) m
unfolding report_end
report_end_failed c code log m h e = ground (arith, h, e)

-- the window brought back with its configuration
abbrev back : Manager → Manager
back m = record m {
  session_active = false;
  connect_sensitive = true;
  progress_open = false;
  window_visible = true;
}

come_back_idle :
    (fresh : Configuration) (m : Manager) → m.reload_pending ≡ false → come_back fresh m ≡ back m
unfolding come_back
come_back_idle fresh m h =
    if_elim {A = Manager} (λ r. record r { progress_open = false; window_visible = true } ≡ back m)
      m.reload_pending (λ e. absurd (true_not_false (sym e ∙ h))) (λ e. refl)

-- The end of a session that fails with an error of an account or of its credentials, where the
-- session was not cancelled and no reload waits for its end, does not connect again: it starts no
-- retry countdown, schedules no automatic connection and starts no countdown of one, starts no
-- thread and posts nothing; a dialog without a retry is shown, and the credentials that were
-- remembered for the connection are forgotten.
pub session_done-IsRefused :
    (fresh : Configuration) (c : Connection) (code : ℤ) (text : Text) (m : Manager)
    → m.session_cancelled ≡ false
    → m.reload_pending ≡ false
    → is_clean_exit code ≡ false
    → mentions credential_hints text ≡ true
    → IsRefused c m (session_done fresh c code [] (some text) m)
unfolding session_done
session_done-IsRefused fresh c code text m h w e t =
    let failure = explain_failure (some text) code in
    let refused =
      session_failed-IsRefused c failure (back m) (explain_failure_credentials text code t) refl in
    let same =
      ap (λ b. report_end b c code [] (some text) (come_back fresh m)) w
      ∙ ap (report_end false c code [] (some text)) (come_back_idle fresh m w)
      ∙ report_end_failed c code (some text) (back m) h e in
    subst (IsRefused c m) (sym same) (record {
      shown = refused.shown;
      not_counting = refused.not_counting;
      forgotten = refused.forgotten;
      over = refused.over;
      same_threads = refused.same_threads;
      same_posts = refused.same_posts;
      not_scheduled = refused.not_scheduled;
      not_counting_auto = refused.not_counting_auto;
      same_automatic = refused.same_automatic;
    })

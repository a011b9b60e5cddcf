-- ===== src/Manager/Done.antt =====
-- `reload_config`, `_session_launched`, `_session_done` and `_reconnect_countdown`.
use thinclient.Prelude.{
  ◌-◌, Bool, true, false, not, ◌&&◌, Option, some, [], map, if◌then◌else◌, ℤ, pos, negsuc, nat_eq,
  max, compare_texts,
}
use thinclient.Text.{Text, is_empty}
use thinclient.Dict.{erase}
use thinclient.Config.{Connection}
use thinclient.Config.Layers.{Configuration}
use thinclient.Command.Failure.{Failure, explain_failure}
use thinclient.Manager.{
  Manager, Modal, Purpose, asks, tells, counts, Answer, cancelled, updated, connection_cancelled,
  could_not_connect, ended, lost, set_status, open_dialog,
}
use thinclient.Manager.Auto.{cancel_auto_connect, schedule_auto_connect}

-- dialog.response(answer): `run` returns the last response that it had before it ended
abbrev pub respond : Answer → Modal → Modal
respond a d = record d { answer = some a }

abbrev cancel_counting : Purpose → Option Answer → Option Answer
cancel_counting (asks c) a = a
cancel_counting (tells c r) a = a
cancel_counting (counts c n) a = some cancelled

-- the response that closes the countdown, wherever it stands
abbrev pub cancel_countdown : Modal → Modal
cancel_countdown d = record d { answer = cancel_counting d.purpose d.answer }

-- the reload of a window that is idle
unfoldable pub reload_now : Configuration → Manager → Manager
unfolding cancel_auto_connect schedule_auto_connect
reload_now fresh m =
    let closed = record m { countdown_id = false; modals = map cancel_countdown m.modals } in
    schedule_auto_connect (record (cancel_auto_connect true closed) {
      cfg = fresh;
      session_credentials = [];
      status = updated;
    })

-- with the configuration that `load` gives
unfoldable pub reload_config : Configuration → Manager → Manager
unfolding reload_now
reload_config fresh m =
    if m.session_active then record m { reload_pending = true } else reload_now fresh m

unfoldable pub session_launched : Manager → Manager
session_launched m =
    if m.session_cancelled then m else record m { progress_open = false; window_visible = false }

-- with the first update of the label
unfoldable pub reconnect_countdown : Connection → Manager → Manager
reconnect_countdown c m = record (open_dialog (counts c (max 2 c.reconnect_delay - 1)) m) {
  countdown_id = true;
}

-- the retry of a session that was lost, by whether the configuration changed meanwhile
unfoldable pub after_failure : Bool → Connection → Failure → Manager → Manager
unfolding reconnect_countdown
after_failure config_changed c f m =
    if not config_changed
      && c.auto_reconnect
      && f.retryable
      && not m.cancel_reconnect
      && not m.countdown_id
    then reconnect_countdown c m
    else if not config_changed
    then open_dialog (tells c f.retryable) m
    else m

unfoldable pub session_failed : Bool → Connection → Failure → Manager → Manager
unfolding after_failure erase
session_failed config_changed c f m = after_failure config_changed c f (record m {
  last_error = f.message;
  status = lost c.name f.message;
  session_credentials =
      if f.retryable then m.session_credentials else erase c.id m.session_credentials;
})

abbrev pub is_clean_exit : ℤ → Bool
is_clean_exit (pos n) = nat_eq n 0
is_clean_exit (negsuc n) = false

-- after the window is back
unfoldable pub report_end : Bool → Connection → ℤ → Text → Option Text → Manager → Manager
unfolding session_failed explain_failure
report_end config_changed c code error log m =
    if m.session_cancelled
    then record m { session_cancelled = false; status = connection_cancelled }
    else if not (is_empty error)
    then open_dialog (tells c true)
        (record m { last_error = error; status = could_not_connect c.name })
    else if is_clean_exit code
    then set_status (ended c.name) m
    else session_failed config_changed c (explain_failure log code) m

-- the window without its session, brought back
unfoldable pub come_back : Configuration → Manager → Manager
unfolding reload_config
come_back fresh m =
    let idle = record m { session_active = false; connect_sensitive = true } in
    let reloaded =
      if m.reload_pending
      then reload_config fresh (record idle { reload_pending = false })
      else idle in
    record reloaded { progress_open = false; window_visible = true }

unfoldable pub session_done :
    Configuration → Connection → ℤ → Text → Option Text → Manager → Manager
unfolding come_back report_end
session_done fresh c code error log m =
    report_end m.reload_pending c code error log (come_back fresh m)

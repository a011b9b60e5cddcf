-- ===== src/Manager/Tests.antt =====
-- The window of a small kiosk.
use thinclient.Prelude.{
  ◌≡◌, refl, true, false, none, some, List, [], ◌∷◌, Every, pos, arith, compare_texts,
}
use thinclient.Text.{codes}
use thinclient.Value.{str}
use thinclient.Config.{Connection, device_defaults}
use thinclient.Config.Connections.{Raw, normalise_connection}
use thinclient.Config.Layers.{Configuration}
use thinclient.Command.Failure.{occurs}
use thinclient.Manager.{Manager, Entered, accepted, asks, open_dialog, new_manager}
use thinclient.Manager.Worker.{Observed, session_worker}
use thinclient.Manager.Done.{session_done}
use thinclient.Manager.Events.{
  Event, connect, reload, auto_fires, auto_ticks, answers, unwind, advance, idle_post, event,
  events,
}
use thinclient.Manager.Invariant.{IsSound}
use thinclient.Manager.Runs.{IsUndisturbedRun, events-IsSound, new_manager-IsSound}
use thinclient.Manager.Recovery.{is_own, IsUsable}
use thinclient.Manager.Return.{events_come_back}
use thinclient.Manager.Outcome.{IsRefused, session_done-IsRefused}
use thinclient.Manager.Twice.{running, unwind_second}

abbrev kiosk_entry : Raw
kiosk_entry =
    (codes "id", str (codes "kiosk"))
    ∷ (codes "host", str (codes "k"))
    ∷ (codes "username", str (codes "u"))
    ∷ (codes "password", str (codes "p"))
    ∷ []

abbrev desk_entry : Raw
desk_entry = (codes "id", str (codes "desk")) ∷ (codes "host", str (codes "d")) ∷ []

abbrev kiosk : Connection
kiosk = normalise_connection kiosk_entry

abbrev desk : Connection
desk = normalise_connection desk_entry

abbrev cfg : Configuration
cfg = record {
  device = record device_defaults { auto_connect = codes "kiosk" };
  connections = kiosk ∷ desk ∷ [];
  configuration_blocked = false;
}

abbrev seen : Observed
seen = record {
  preflight_stages = 2;
  preflight_error = none;
  cancelled_after_preflight = false;
  build_error = none;
  cancelled_before_launch = false;
  launch_error = none;
  cancelled_after_launch = false;
  wait_error = none;
  exit_code = pos 131;
  disconnect_requested = false;
  log = some (codes "ERRCONNECT_LOGON_FAILURE");
}

abbrev entered_once : Entered
entered_once = record {
  entered_username = codes "a";
  entered_domain = [];
  entered_password = codes "b";
  remember = true;
}

-- a session of the kiosk from its click to its window
abbrev clicks : List Event
clicks =
    connect (some (codes "kiosk")) seen
    ∷ advance 0
    ∷ advance 0
    ∷ advance 0
    ∷ advance 0
    ∷ idle_post cfg
    ∷ idle_post cfg
    ∷ idle_post cfg
    ∷ idle_post cfg
    ∷ []

abbrev in_session : Manager
in_session = events clicks (new_manager cfg)

session_runs :
    (in_session.session_active ≡ true)
    × (in_session.window_visible ≡ false)
    × ((events (advance 0 ∷ idle_post cfg ∷ []) in_session).window_visible ≡ true)
unfolding events normalise_connection
session_runs = (refl, refl, refl)

-- While the desk's credentials are asked for, the configuration arrives and the automatic
-- connection starts; then the dialog is accepted.
abbrev overtaken : List Event
overtaken =
    connect (some (codes "desk")) seen
    ∷ reload cfg
    ∷ auto_fires
    ∷ auto_ticks seen
    ∷ auto_ticks seen
    ∷ auto_ticks seen
    ∷ auto_ticks seen
    ∷ auto_ticks seen
    ∷ answers (accepted entered_once)
    ∷ []

two_sessions :
    (running (events overtaken (new_manager cfg)) ≡ 1)
    × (running (event (unwind seen) (events overtaken (new_manager cfg))) ≡ 2)
unfolding events normalise_connection session_worker
two_sessions = (refl, refl)

in_session-IsSound : IsSound in_session
unfolding IsUndisturbedRun event events normalise_connection
in_session-IsSound =
    events-IsSound clicks (new_manager cfg) (tt, (tt, (tt, (tt, (tt, (tt, (tt, (tt, (tt, tt)))))))))
      (new_manager-IsSound cfg)

events-IsSound_example : IsSound (events clicks (new_manager cfg))
unfolding IsUndisturbedRun event events normalise_connection
events-IsSound_example =
    events-IsSound clicks (new_manager cfg) (tt, (tt, (tt, (tt, (tt, (tt, (tt, (tt, (tt, tt)))))))))
      (new_manager-IsSound cfg)

events_come_back_example :
    (own : List Event) × Every (λ e. is_own e ≡ true) own
    × IsUsable (events own (events clicks (new_manager cfg)))
unfolding IsUndisturbedRun event events normalise_connection
events_come_back_example =
    events_come_back cfg cfg clicks (tt, (tt, (tt, (tt, (tt, (tt, (tt, (tt, (tt, tt)))))))))
      session_runs.0

session_done-IsRefused_example :
    IsRefused kiosk in_session
      (session_done cfg kiosk (pos 131) [] (some (codes "ERRCONNECT_LOGON_FAILURE")) in_session)
unfolding events normalise_connection occurs
session_done-IsRefused_example =
    session_done-IsRefused cfg kiosk (pos 131) (codes "ERRCONNECT_LOGON_FAILURE") in_session refl
      refl refl refl

-- a session of the kiosk with a credential dialog, accepted, over it
abbrev asked : Manager
asked = events (answers (accepted entered_once) ∷ []) (open_dialog (asks desk) in_session)

open_dialog-asked : IsSound asked
unfolding events
open_dialog-asked = record {
  threaded = in_session-IsSound.threaded;
  tidy = ground (arith, in_session-IsSound.tidy);
}

unwind_second_example : running (event (unwind seen) asked) ≡ 2
unfolding events normalise_connection
unwind_second_example =
    unwind_second asked desk entered_once seen [] open_dialog-asked refl refl refl refl

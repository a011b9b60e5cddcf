-- ===== src/Manager/Return.antt =====
-- The way back to the window, from whatever state the program can reach.
use thinclient.Prelude.{◌≡◌, true, List, Every}
use thinclient.Config.Layers.{Configuration}
use thinclient.Manager.{new_manager}
use thinclient.Manager.Events.{Event, events}
use thinclient.Manager.Runs.{IsUndisturbedRun, events-IsSound, new_manager-IsSound}
use thinclient.Manager.Recovery.{is_own, IsUsable, session_comes_back}

-- Whatever has happened since the program started (clicks, answers, timers, the signal, sessions whose
-- thread takes any of its paths), if no credential dialog was accepted while another session ran: if a
-- session is active now, the sessions' threads and the main loop by themselves, with no user, no timer
-- and no signal, reach a state in which the session is over, the window shows and its Connect button
-- can be pressed.
pub events_come_back :
    (cfg fresh : Configuration) (es : List Event)
    → IsUndisturbedRun es (new_manager cfg)
    → (events es (new_manager cfg)).session_active ≡ true
    → (own : List Event) × Every (λ e. is_own e ≡ true) own
      × IsUsable (events own (events es (new_manager cfg)))
events_come_back cfg fresh es undisturbed active =
    session_comes_back fresh (events es (new_manager cfg))
      (events-IsSound es (new_manager cfg) undisturbed (new_manager-IsSound cfg)) active

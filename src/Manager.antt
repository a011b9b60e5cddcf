-- ===== src/Manager.antt =====
-- The connection manager's window: overlay/usr/local/lib/thinclient/manager.py, the class
-- ThinClient. Its state is that of the object's attributes; of the widgets, whether the window and
-- the progress dialog show and whether the Connect button can be pressed. The modal dialogs that
-- are open are a stack, innermost first: each runs a main loop of its own, and the code after
-- `run` goes on when the dialog is answered and innermost.
pub mod Worker
pub mod Auto
pub mod Start
pub mod Done
pub mod Events
pub mod Invariant
pub mod Thread
pub mod Keeps
pub mod Steps
pub mod Threads
pub mod Loop
pub mod Runs
pub mod Recovery
pub mod Return
pub mod Outcome
pub mod Twice
mod Tests
use thinclient.Prelude.{ℕ, Bool, true, false, Option, none, some, List, [], ◌∷◌, ℤ}
use thinclient.Text.{Text}
use thinclient.Dict.{Dict}
use thinclient.Config.{Connection}
use thinclient.Config.Layers.{Configuration}

-- what a credential dialog holds when it is closed
pub record Entered : Type 0 where
  pub entered_username : Text
  pub entered_domain : Text
  pub entered_password : Text
  pub remember : Bool

-- an entry of `session_credentials`
pub record Credentials : Type 0 where
  pub credential_username : Text
  pub credential_domain : Text
  pub credential_password : Text

pub data Answer : Type 0 where
  accepted : Entered → Answer
  network_test : Answer
  cancelled : Answer

-- A CredentialDialog, a ConnectionErrorDialog, or the countdown with the seconds that remain.
pub data Purpose : Type 0 where
  asks : Connection → Purpose
  tells : Connection → Bool → Purpose
  counts : Connection → ℕ → Purpose

pub record Modal : Type 0 where
  pub purpose : Purpose
  pub answer : Option Answer

-- What a session's thread hands to the main loop by `idle_add`. The last has the connection, the
-- exit code, the error, empty for None, and what the log then holds.
pub data Post : Type 0 where
  stage : Post
  launched : Post
  done : Connection → ℤ → Text → Option Text → Post

pub data Notice : Type 0 where
  ready : Notice
  waiting_for_configuration : Notice
  updated : Notice
  auto_cancelled : Notice
  select_first : Notice
  no_address : Notice
  needs_credentials : Text → Notice
  connecting : Text → Notice
  connection_cancelled : Notice
  could_not_connect : Text → Notice
  ended : Text → Notice
  lost : Text → Text → Notice

pub record Manager : Type 0 where
  pub cfg : Configuration
  pub session_active : Bool
  pub cancel_reconnect : Bool
  pub session_cancelled : Bool
  pub reload_pending : Bool
  pub countdown_id : Bool
  pub auto_connect_id : Option Text
  pub auto_countdown_id : Bool
  pub auto_connection : Option Connection
  pub auto_remaining : ℕ
  pub session_credentials : Dict Text Credentials
  pub connect_sensitive : Bool
  pub progress_open : Bool
  pub window_visible : Bool
  pub last_error : Text
  pub status : Notice
  pub modals : List Modal
  pub posts : List Post
  pub workers : List (List Post)

-- the window once it is built from a configuration
abbrev pub new_manager : Configuration → Manager
new_manager cfg = record {
  cfg = cfg;
  session_active = false;
  cancel_reconnect = false;
  session_cancelled = false;
  reload_pending = false;
  countdown_id = false;
  auto_connect_id = none;
  auto_countdown_id = false;
  auto_connection = none;
  auto_remaining = 0;
  session_credentials = [];
  connect_sensitive = true;
  progress_open = false;
  window_visible = true;
  last_error = [];
  status = built_status cfg.configuration_blocked;
  modals = [];
  posts = [];
  workers = [];
}
  where
    built_status : Bool → Notice
    built_status true = waiting_for_configuration
    built_status false = ready

abbrev pub set_status : Notice → Manager → Manager
set_status s m = record m { status = s }

abbrev pub open_dialog : Purpose → Manager → Manager
open_dialog p m = record m { modals = record { purpose = p; answer = none } ∷ m.modals }

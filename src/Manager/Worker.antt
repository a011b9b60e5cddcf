-- ===== src/Manager/Worker.antt =====
-- The thread of a session: `_session_worker` and `_run_session`. What it meets is a record, and
-- what it does to the window is the list of its `idle_add` calls, in order.
use thinclient.Prelude.{
  ℕ, zero, suc, Bool, true, false, Option, none, some, List, [], ◌∷◌, ◌++◌, ℤ, pos, negsuc,
}
use thinclient.Text.{Text, codes}
use thinclient.Config.{Connection}
use thinclient.Manager.{Post, stage, launched, done}

-- The number of the preflight's stages and its error; the value of `session_cancelled` at the three places where
-- the thread reads it; an exception of `build_command`, of what precedes the wait, and of the
-- wait; the exit code; whether the session bar left its marker; and the log at the end.
pub record Observed : Type 0 where
  pub preflight_stages : ℕ
  pub preflight_error : Option Text
  pub cancelled_after_preflight : Bool
  pub build_error : Option Text
  pub cancelled_before_launch : Bool
  pub launch_error : Option Text
  pub cancelled_after_launch : Bool
  pub wait_error : Option Text
  pub exit_code : ℤ
  pub disconnect_requested : Bool
  pub log : Option Text

-- the exit code, and the error or the empty text
abbrev pub Result : Type 0
Result = ℤ × Text

abbrev pub failed : Text → Result
failed message = (negsuc 0, message)

abbrev pub was_cancelled : Result
was_cancelled = (negsuc 1, codes "Connection cancelled.")

-- `proc.wait()` and what follows it
abbrev pub ending : Option Text → Bool → ℤ → Result
ending (some message) marked code = failed message
ending none true code = (pos 0, [])
ending none false code = (code, [])

abbrev pub launched_posts : Bool → List Post
launched_posts true = []
launched_posts false = launched ∷ []

abbrev pub after_check : Bool → Option Text → Observed → List Post × Result
after_check true e o = ([], was_cancelled)
after_check false (some message) o = ([], failed message)
after_check false none o = (
  launched_posts o.cancelled_after_launch,
  ending o.wait_error o.disconnect_requested o.exit_code,
)

abbrev pub after_build : Option Text → Observed → List Post × Result
after_build (some message) o = ([], failed message)
after_build none o = after_check o.cancelled_before_launch o.launch_error o

unfoldable pub run_session : Observed → List Post × Result
run_session o = after_build o.build_error o

abbrev pub staged : List Post × Result → List Post × Result
staged (posts, r) = (stage ∷ posts, r)

abbrev pub after_preflight : Bool → Option Text → Observed → List Post × Result
unfolding run_session
after_preflight true e o = ([], was_cancelled)
after_preflight false (some message) o = ([], failed message)
after_preflight false none o = staged (run_session o)

abbrev pub stages : ℕ → List Post
stages zero = []
stages (suc n) = stage ∷ stages n

abbrev pub with_done : Connection → Option Text → List Post × Result → List Post
with_done c log (posts, (code, error)) = posts ++ done c code error log ∷ []

unfoldable pub session_worker : Connection → Observed → List Post
unfolding run_session
session_worker c o =
    stages o.preflight_stages
    ++ with_done c o.log (after_preflight o.cancelled_after_preflight o.preflight_error o)

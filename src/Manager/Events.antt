-- ===== src/Manager/Events.antt =====
-- The window's main loop as a sequence of events: what the user, the timers, the signal and the
-- session's threads do. A click reaches the window only while no modal dialog is open.
use thinclient.Prelude.{
  ℕ, zero, suc, ◌-◌, Bool, true, false, Option, none, some, List, [], ◌∷◌, ◌++◌, map, if◌then◌else◌,
  nat_eq,
}
use thinclient.Text.{Text}
use thinclient.Config.{Connection}
use thinclient.Config.Layers.{Configuration, find}
use thinclient.Manager.{
  Manager, Modal, Purpose, asks, tells, counts, Answer, accepted, network_test, cancelled, Entered,
  Post, stage, launched, done,
}
use thinclient.Manager.Worker.{Observed}
use thinclient.Manager.Auto.{cancel_auto_connect, launch_auto}
use thinclient.Manager.Start.{start_session, go_on, connect_auto_now}
use thinclient.Manager.Done.{respond, reload_config, session_launched, session_done}

-- `connect` has the identifier of the row that is selected, `idle_post` and `reload` what `load`
-- would give, and each that may start a session what its thread will meet.
pub data Event : Type 0 where
  connect : Option Text → Observed → Event
  auto_now : Observed → Event
  auto_cancel : Event
  cancel_start : Event
  reload : Configuration → Event
  settings : Configuration → Event
  auto_fires : Event
  auto_ticks : Observed → Event
  countdown_ticks : Event
  answers : Answer → Event
  unwind : Observed → Event
  advance : ℕ → Event
  idle_post : Configuration → Event

abbrev pub is_idle : List Modal → Bool
is_idle [] = true
is_idle (_ ∷ _) = false

abbrev pub selected : Option Text → Manager → Option Connection
selected none m = none
selected (some id) m = find id m.cfg.connections

-- the update of the automatic countdown
unfoldable pub auto_update : Option Connection → Observed → Manager → Manager
unfolding connect_auto_now
auto_update none o m = m
auto_update (some c) o m =
    if nat_eq m.auto_remaining 0
    then connect_auto_now o (record m { auto_countdown_id = false })
    else record m { auto_remaining = m.auto_remaining - 1 }

abbrev nothing_entered : Entered
nothing_entered = record {
  entered_username = [];
  entered_domain = [];
  entered_password = [];
  remember = false;
}

abbrev pub count_purpose : Purpose → Purpose
count_purpose (asks c) = asks c
count_purpose (tells c r) = tells c r
count_purpose (counts c zero) = counts c zero
count_purpose (counts c (suc n)) = counts c n

abbrev count_answer : Purpose → Option Answer → Option Answer
count_answer (asks c) a = a
count_answer (tells c r) a = a
count_answer (counts c zero) a = some (accepted nothing_entered)
count_answer (counts c (suc n)) a = a

-- one second of the countdown that stands before a session is connected again
abbrev pub count_down : Modal → Modal
count_down d = record {
  purpose = count_purpose d.purpose;
  answer = count_answer d.purpose d.answer;
}

abbrev pub answer_innermost : Answer → List Modal → List Modal
answer_innermost a [] = []
answer_innermost a (d ∷ ds) = respond a d ∷ ds

-- the code after `run`, by the dialog and its answer
unfoldable pub resume_after : Purpose → Answer → Observed → Manager → Manager
unfolding start_session go_on
resume_after (asks c) (accepted e) o m = go_on c e o m
resume_after (asks c) network_test o m = m
resume_after (asks c) cancelled o m = m
resume_after (tells c r) (accepted e) o m = start_session (some c) o m
resume_after (tells c r) network_test o m = m
resume_after (tells c r) cancelled o m = m
resume_after (counts c n) (accepted e) o m =
    start_session (some c) o (record m { countdown_id = false })
resume_after (counts c n) network_test o m = record m {
  countdown_id = false;
  cancel_reconnect = true;
}
resume_after (counts c n) cancelled o m = record m { countdown_id = false; cancel_reconnect = true }

unfoldable pub unwind_answered : Option Answer → Purpose → List Modal → Observed → Manager → Manager
unfolding resume_after
unwind_answered none p ds o m = m
unwind_answered (some a) p ds o m = resume_after p a o (record m { modals = ds })

unfoldable pub unwind_innermost : List Modal → Observed → Manager → Manager
unfolding unwind_answered
unwind_innermost [] o m = m
unwind_innermost (d ∷ ds) o m = unwind_answered d.answer d.purpose ds o m

-- the first post of the thread with this number goes to the main loop
unfoldable pub advance_worker : ℕ → List (List Post) → List (List Post) × List Post
advance_worker n [] = ([], [])
advance_worker zero ([] ∷ ws) = (ws, [])
advance_worker zero ((p ∷ ps) ∷ ws) = (ps ∷ ws, p ∷ [])
advance_worker (suc n) (w ∷ ws) = let (vs, p) = advance_worker n ws in (w ∷ vs, p)

unfoldable pub advance_thread : ℕ → Manager → Manager
unfolding advance_worker
advance_thread n m =
    let (ws, p) = advance_worker n m.workers in record m { workers = ws; posts = m.posts ++ p }

unfoldable pub run_post : Post → Configuration → Manager → Manager
unfolding session_launched session_done
run_post stage fresh m = m
run_post launched fresh m = session_launched m
run_post (done c code error log) fresh m = session_done fresh c code error log m

unfoldable pub run_first : List Post → Configuration → Manager → Manager
unfolding run_post
run_first [] fresh m = m
run_first (p ∷ ps) fresh m = run_post p fresh (record m { posts = ps })

unfoldable pub event : Event → Manager → Manager
unfolding start_session connect_auto_now cancel_auto_connect reload_config launch_auto auto_update
    unwind_innermost advance_thread run_first find
event (connect choice o) m = if is_idle m.modals then start_session (selected choice m) o m else m
event (auto_now o) m = if is_idle m.modals then connect_auto_now o m else m
event auto_cancel m = if is_idle m.modals then cancel_auto_connect false m else m
event cancel_start m = if m.progress_open then record m { session_cancelled = true } else m
event (reload fresh) m = reload_config fresh m
event (settings result) m = record m { cfg = result; session_credentials = [] }
event auto_fires m = launch_auto m.auto_connect_id m
event (auto_ticks o) m = if m.auto_countdown_id then auto_update m.auto_connection o m else m
event countdown_ticks m =
    if m.countdown_id then record m { modals = map count_down m.modals } else m
event (answers a) m = record m { modals = answer_innermost a m.modals }
event (unwind o) m = unwind_innermost m.modals o m
event (advance n) m = advance_thread n m
event (idle_post fresh) m = run_first m.posts fresh m

unfoldable pub events : List Event → Manager → Manager
unfolding event
events [] m = m
events (e ∷ es) m = events es (event e m)

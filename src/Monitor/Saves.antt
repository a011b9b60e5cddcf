-- ===== src/Monitor/Saves.antt =====
-- The server with its state file: `begin` and `finish` change the monitor under its lock, and save it
-- by `_persist` after they have released that lock, so that other threads come between. `_persist`
-- holds the persistence lock, takes its snapshot under the monitor's lock, writes the file
-- (`_write_state`), and reports the outcome under the monitor's lock. Every step below is one of these
-- pieces; what the writing did, and the size of the file it wrote, are inputs. `os.replace` swaps the
-- whole file, so a save leaves the old document or the new one.
use thinclient.Prelude.{
  ℕ, suc, ◌+◌, Bool, true, false, Option, none, some, List, [], ◌∷◌, is_some, compare_numbers,
}
use thinclient.Text.{Text}
use thinclient.Dict.{lookup}
use thinclient.Monitor.{Monitor}
use thinclient.Monitor.Durable.{Document, StateFile, state_document}
use thinclient.Monitor.Events.{Event, arrive, announce, send, complete, step}

-- the file was replaced, was left alone, or was replaced and the directory could not be synchronised
pub data WriteOutcome : Type 0 where
  written : WriteOutcome
  failed : Text → WriteOutcome
  unsynced : Text → WriteOutcome

abbrev write_error : WriteOutcome → Option Text
write_error written = none
write_error (failed error) = some error
write_error (unsynced error) = some error

abbrev pub stored_after : WriteOutcome → StateFile → Option StateFile → Option StateFile
stored_after written file disk = some file
stored_after (failed _) file disk = disk
stored_after (unsynced _) file disk = some file

abbrev saved_time : WriteOutcome → ℕ → Option ℕ → Option ℕ
saved_time written now last = some now
saved_time _ now last = last

-- The thread that holds the persistence lock, if one does: it has its snapshot, or it has written it.
pub data Saver : Type 0 where
  idle : Saver
  has_snapshot : ℕ → Document → Saver
  has_written : ℕ → WriteOutcome → Saver

-- The process and the state file beside it; `waiting` counts the threads that have changed the monitor
-- and have not yet taken the snapshot of their save.
pub record Server : Type 0 where
  pub monitor : Monitor
  pub disk : Option StateFile
  pub waiting : ℕ
  pub saver : Saver

pub data ServerStep : Type 0 where
  change : Event → ServerStep
  snapshot : ℕ → ServerStep
  write : ℕ → WriteOutcome → ServerStep
  report : ServerStep

-- `begin` and `finish` end with a save; `finish` of an unknown request returns early
unfoldable pub saves : Event → Monitor → Bool
unfolding lookup
saves (arrive a) m = true
saves (announce id length) m = false
saves (send id count) m = false
saves (complete id e) m = is_some (lookup id m.active)

-- `_persist` returns at once if no state file is configured
abbrev pub due : Bool → Option Text → ℕ
due true (some file) = 1
due _ _ = 0

unfoldable pub take_snapshot : ℕ → ℕ → Saver → Server → Server
unfolding state_document
take_snapshot saved_at (suc n) idle s = record s {
  waiting = n;
  saver = has_snapshot saved_at (state_document saved_at s.monitor);
}
take_snapshot saved_at _ _ s = s

unfoldable pub write_state : ℕ → WriteOutcome → Saver → Server → Server
write_state size outcome (has_snapshot saved_at document) s = record s {
  disk = stored_after outcome (record { document = document; size = size }) s.disk;
  saver = has_written saved_at outcome;
}
write_state size outcome _ s = s

unfoldable pub report_saved : Saver → Server → Server
report_saved (has_written saved_at outcome) s = record s {
  monitor = record s.monitor {
    persistence_error = write_error outcome;
    last_saved_at = saved_time outcome saved_at s.monitor.last_saved_at;
  };
  saver = idle;
}
report_saved _ s = s

unfoldable pub serve_step : ServerStep → Server → Server
unfolding step saves take_snapshot write_state report_saved
serve_step (change e) s = record s {
  monitor = step e s.monitor;
  waiting = s.waiting + due (saves e s.monitor) s.monitor.state_file;
}
serve_step (snapshot saved_at) s = take_snapshot saved_at s.waiting s.saver s
serve_step (write size outcome) s = write_state size outcome s.saver s
serve_step report s = report_saved s.saver s

unfoldable pub serve : List ServerStep → Server → Server
unfolding serve_step
serve [] s = s
serve (e ∷ steps) s = serve steps (serve_step e s)

-- ===== src/Monitor/Service.antt =====
-- The server with its state file, step by step: what a crash at any point can lose.
use thinclient.Prelude.{
  ℕ, zero, suc, ◌+◌, ◌≤◌, ◌<◌, ◌≡◌, refl, ◌∙◌, Bool, Option, none, some, List, [], ◌∷◌, arith,
  length, compare_numbers, Every, subst,
}
use thinclient.Text.{Text}
use thinclient.Monitor.{Monitor}
use thinclient.Monitor.Durable.{
  StateFile, Setup, state_document, start, max_stored_active, max_state_bytes,
}
use thinclient.Monitor.Events.{Event, step}
use thinclient.Monitor.Saves.{
  written, Saver, idle, has_snapshot, has_written, Server, ServerStep, change, snapshot, write,
  report, saves, due, take_snapshot, write_state, report_saved, serve_step, serve,
}
use thinclient.Monitor.Accounting.{IsSound, step-IsSound}
use thinclient.Monitor.Restore.{length-saved_requests}
use thinclient.Monitor.Crash.{start_lem}
use thinclient.Monitor.Lag.{Behind, Counts, step-Counts, Behind-step, Behind-more, Behind-self}

-- the saves that were started and have not replaced the file
abbrev pub unwritten : Saver → ℕ
unwritten (has_snapshot saved_at document) = 1
unwritten _ = 0

-- What holds of the snapshot that is being written.
abbrev pub Pending : Saver → Monitor → ℕ → Type 0
Pending (has_snapshot t d) m n =
    (snap : Monitor) × IsSound snap × (d ≡ state_document t snap) × Behind snap m n
Pending _ m n = Unit

-- The file holds the counts of a sound state that is behind the memory by at most the saves that are
-- still to come.
pub record IsDurable (s : Server) : Type 0 where
  pub file : Text
  pub configured : s.monitor.state_file ≡ some file
  pub sound : IsSound s.monitor
  pub saved_at : ℕ
  pub size : ℕ
  pub saved : Monitor
  pub saved_sound : IsSound saved
  pub stored : s.disk ≡ some (record { document = state_document saved_at saved; size = size })
  pub behind : Behind saved s.monitor (s.waiting + unwritten s.saver)
  pub pending : Pending s.saver s.monitor s.waiting

-- the server after the constructor, whose last call is a save
pub saved-IsDurable :
    (t size : ℕ) (m : Monitor) (file : Text)
    → m.state_file ≡ some file
    → IsSound m
    → IsDurable (record {
      monitor = m;
      disk = some (record { document = state_document t m; size = size });
      waiting = 0;
      saver = idle;
    })
saved-IsDurable t size m file f s = record {
  file = file;
  configured = f;
  sound = s;
  saved_at = t;
  size = size;
  saved = m;
  saved_sound = s;
  stored = refl;
  behind = Behind-self m 0;
  pending = tt;
}

Pending-step :
    (b : Bool) (saver : Saver) (m m' : Monitor) (n : ℕ)
    → Pending saver m n
    → Counts b m m'
    → Pending saver m' (n + due b m.state_file)
Pending-step b idle m m' n h c = tt
Pending-step b (has_written t o) m m' n h c = tt
Pending-step b (has_snapshot t d) m m' n (snap, sound, same, behind) c =
    (snap, sound, same, Behind-step b snap m m' n behind c)

change-IsDurable : (e : Event) (s : Server) → IsDurable s → IsDurable (serve_step (change e) s)
unfolding serve_step
change-IsDurable e s d =
    let b = saves e s.monitor in
    let c = step-Counts e s.monitor d.file d.configured in
    let more = due b s.monitor.state_file in
    record {
      file = d.file;
      configured = c.file_kept ∙ d.configured;
      sound = step-IsSound e s.monitor d.sound;
      saved_at = d.saved_at;
      size = d.size;
      saved = d.saved;
      saved_sound = d.saved_sound;
      stored = d.stored;
      behind =
          Behind-more d.saved (step e s.monitor) (s.waiting + unwritten s.saver + more)
            (s.waiting + more + unwritten s.saver) (omega arith)
            (Behind-step b d.saved s.monitor (step e s.monitor) (s.waiting + unwritten s.saver)
              d.behind c);
      pending = Pending-step b s.saver s.monitor (step e s.monitor) s.waiting d.pending c;
    }

snapshot-IsDurable :
    (t n : ℕ) (saver : Saver) (s : Server)
    → s.waiting ≡ n
    → s.saver ≡ saver
    → IsDurable s
    → IsDurable (take_snapshot t n saver s)
unfolding take_snapshot
snapshot-IsDurable t (suc n) idle s w v d = record {
  file = d.file;
  configured = d.configured;
  sound = d.sound;
  saved_at = d.saved_at;
  size = d.size;
  saved = d.saved;
  saved_sound = d.saved_sound;
  stored = d.stored;
  behind =
      Behind-more d.saved s.monitor (s.waiting + unwritten s.saver) (n + 1)
        (rw v (omega (arith, w))) d.behind;
  pending = (s.monitor, d.sound, refl, Behind-self s.monitor n);
}
snapshot-IsDurable t zero saver s w v d = d
snapshot-IsDurable t (suc n) (has_snapshot _ _) s w v d = d
snapshot-IsDurable t (suc n) (has_written _ _) s w v d = d

write-IsDurable :
    (size : ℕ) (saver : Saver) (s : Server)
    → s.saver ≡ saver
    → IsDurable s
    → IsDurable (write_state size written saver s)
unfolding write_state
write-IsDurable size idle s v d = d
write-IsDurable size (has_written _ _) s v d = d
write-IsDurable size (has_snapshot t document) s v d =
    let (snap, sound, same, behind) = subst (λ w. Pending w s.monitor s.waiting) v d.pending in
    record {
      file = d.file;
      configured = d.configured;
      sound = d.sound;
      saved_at = t;
      size = size;
      saved = snap;
      saved_sound = sound;
      stored = rw same refl;
      behind = Behind-more snap s.monitor s.waiting (s.waiting + 0) (omega arith) behind;
      pending = tt;
    }

report-IsDurable :
    (saver : Saver) (s : Server) → s.saver ≡ saver → IsDurable s → IsDurable (report_saved saver s)
unfolding report_saved
report-IsDurable idle s v d = d
report-IsDurable (has_snapshot _ _) s v d = d
report-IsDurable (has_written t outcome) s v d = record {
  file = d.file;
  configured = d.configured;
  sound = record {
    ids_below = d.sound.ids_below;
    ids_unique = d.sound.ids_unique;
    ids_filed = d.sound.ids_filed;
    requests_balance = d.sound.requests_balance;
    clients_bounded = d.sound.clients_bounded;
    history_bounded = d.sound.history_bounded;
    boots_bounded = d.sound.boots_bounded;
    client_requests = d.sound.client_requests;
    client_boots = d.sound.client_boots;
    client_bytes = d.sound.client_bytes;
  };
  saved_at = d.saved_at;
  size = d.size;
  saved = d.saved;
  saved_sound = d.saved_sound;
  stored = d.stored;
  behind = record {
    arrivals = d.behind.arrivals;
    successes = d.behind.successes;
    failures = d.behind.failures;
    gap = ground (arith, d.behind.gap, v);
  };
  pending = tt;
}

abbrev pub IsSaved : ServerStep → Type 0
IsSaved (write size outcome) = outcome ≡ written
IsSaved _ = Unit

serve_step-IsDurable :
    (e : ServerStep) (s : Server) → IsSaved e → IsDurable s → IsDurable (serve_step e s)
unfolding serve_step
serve_step-IsDurable (change e) s w d = change-IsDurable e s d
serve_step-IsDurable (snapshot t) s w d = snapshot-IsDurable t s.waiting s.saver s refl refl d
serve_step-IsDurable (write size outcome) s w d = rw w (write-IsDurable size s.saver s refl d)
serve_step-IsDurable report s w d = report-IsDurable s.saver s refl d

-- Steps whose writes all succeed keep the file as near to the memory as the saves still to come say.
pub serve-IsDurable :
    (steps : List ServerStep) (s : Server)
    → Every IsSaved steps
    → IsDurable s
    → IsDurable (serve steps s)
unfolding serve
serve-IsDurable [] s w d = d
serve-IsDurable (e ∷ steps) s w d =
    serve-IsDurable steps (serve_step e s) w.1 (serve_step-IsDurable e s w.0 d)

-- a file that `_restore_state` does not refuse for its size or for its requests in flight
abbrev pub FitsRestore : Option StateFile → Type 0
FitsRestore none = Unit
FitsRestore (some f) =
    (f.size ≤ max_state_bytes) × (length f.document.active_requests ≤ max_stored_active)

-- The totals after a crash and a restart, beside those in memory before it: at most `k` of the arrivals
-- and successes are lost, together, and every arrival that is kept is a success or a failure.
pub record Survives (k : ℕ) (before after : Monitor) : Type 0 where
  pub arrivals : after.request_total ≤ before.request_total
  pub successes : after.successful_total ≤ before.successful_total
  pub lost :
      before.request_total + before.successful_total
      ≤ after.request_total + after.successful_total + k
  pub balance : after.request_total ≡ after.successful_total + after.failed_total
  pub none_active : after.active ≡ []

-- From a server whose file holds a sound state, behind the memory by at most the saves that are still to
-- come, as it is after the constructor: if every write succeeded, then a crash between any two steps of
-- the request threads, at any point of their changes and of their saves, loses at most as many arrivals
-- and successes, together, as there are calls of `begin` and `finish` whose change has been made and
-- whose save has not replaced the file (so nothing at all when every call has returned), provided that
-- the file is one of at most 8 MiB with at most 2048 requests in flight, and the restarted server
-- admits at least one client. It has none in flight, and counts every arrival that it kept as a success
-- or as a failure.
pub crash_lem :
    (steps : List ServerStep) (s : Server) (c : Setup) (now : ℕ)
    → Every IsSaved steps
    → IsDurable s
    → 0 < c.max_clients
    → FitsRestore (serve steps s).disk
    → Survives
        ((serve steps s).waiting + unwritten (serve steps s).saver)
        (serve steps s).monitor
        (start c now (serve steps s).disk)
crash_lem steps s c now w d pos fits =
    let after = serve-IsDurable steps s w d in
    let (small, few) = subst FitsRestore after.stored fits in
    let (totals, sound) =
      start_lem c now after.saved_at after.size after.saved after.saved_sound pos
        (unfold state_document in omega (arith, few, length-saved_requests after.saved.active))
        small in
    rw after.stored (record {
      arrivals = omega (arith, totals.same_arrivals, after.behind.arrivals);
      successes = omega (arith, totals.same_successes, after.behind.successes);
      lost = omega (
        arith, totals.same_arrivals, totals.same_successes, after.behind.gap, after.behind.failures,
      );
      balance = ground (arith, sound.requests_balance, totals.none_active);
      none_active = totals.none_active;
    })

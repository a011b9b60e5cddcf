-- ===== src/Manager/Invariant.antt =====
-- What always holds of the window, its main loop's queue and the threads of its sessions.
use thinclient.Prelude.{
  ℕ, ◌+◌, ◌≤◌, ◌≡◌, Bool, true, false, not, ◌||◌, is_some, List, [], ◌∷◌, any, sum_by, Every,
  if◌then◌else◌,
}
use thinclient.Manager.{Manager, Modal, Purpose, asks, tells, counts, Post, stage, launched, done}

abbrev pub is_done : Post → ℕ
is_done stage = 0
is_done launched = 0
is_done (done _ _ _ _) = 1

abbrev pub dones : List Post → ℕ
dones ps = sum_by is_done ps

-- Each post that hides the window has the end of its session behind it, in the list or among the
-- `k` ends that are still to be posted.
abbrev pub Ahead : List Post → ℕ → Type 0
Ahead [] k = Unit
Ahead (stage ∷ ps) k = Ahead ps k
Ahead (launched ∷ ps) k = (1 ≤ dones ps + k) × Ahead ps k
Ahead (done _ _ _ _ ∷ ps) k = Ahead ps k

abbrev pub session_count : Bool → ℕ
session_count active = if active then 1 else 0

-- an active session is exactly one end that is still to come
pub record IsThreaded (active : Bool) (posts : List Post) (workers : List (List Post))
    : Type 0 where
  pub ends : sum_by dones workers + dones posts ≡ session_count active
  pub posts_ahead : Ahead posts (sum_by dones workers)
  pub workers_ahead : Every (λ w. Ahead w 0) workers

abbrev pub is_counts : Purpose → Bool
is_counts (asks c) = false
is_counts (tells c r) = false
is_counts (counts c n) = true

-- a countdown stands among the open dialogs
abbrev pub is_counting : List Modal → Bool
is_counting ds = any (λ d. is_counts d.purpose) ds

-- The button is off exactly during a session; the progress dialog, a hidden window, a reload that
-- waits and a cancellation belong to a session; each countdown has what it counts for.
pub record IsTidy (m : Manager) : Type 0 where
  pub button : m.connect_sensitive ≡ not m.session_active
  pub progress : (not m.progress_open || m.session_active) ≡ true
  pub hidden : (m.window_visible || m.session_active) ≡ true
  pub waiting : (not m.reload_pending || m.session_active) ≡ true
  pub cancelling : (not m.session_cancelled || m.session_active) ≡ true
  pub counting_auto : (not m.auto_countdown_id || is_some m.auto_connection) ≡ true
  pub counting : (not m.countdown_id || is_counting m.modals) ≡ true

pub record IsSound (m : Manager) : Type 0 where
  pub threaded : IsThreaded m.session_active m.posts m.workers
  pub tidy : IsTidy m

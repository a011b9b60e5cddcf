-- ===== src/Manager/Threads.antt =====
-- The threads of the sessions against the main loop's queue.
use thinclient.Prelude.{
  ℕ, zero, suc, ◌+◌, ◌≤◌, ◌≡◌, refl, Bool, List, [], ◌∷◌, ◌++◌, sum_by, sum_by-append, Every, arith,
  append-nil, subst, sym,
}
use thinclient.Manager.{Post, stage, launched, done}
use thinclient.Manager.Thread.{Ahead-snoc}
use thinclient.Manager.Events.{advance_worker}
use thinclient.Manager.Invariant.{is_done, dones, Ahead, IsThreaded}

-- what a step of one thread takes from the threads and hands over
pub record IsHandedOver (workers rest : List (List Post)) (p : List Post) : Type 0 where
  pub same_ends : sum_by dones workers ≡ sum_by dones rest + dones p
  pub rest_ahead : Every (λ w. Ahead w 0) rest
  pub queue_ahead :
      (k : ℕ) (qs : List Post)
      → Ahead qs (k + sum_by dones workers)
      → Ahead (qs ++ p) (k + sum_by dones rest)

tail-Ahead : (p : Post) (ps : List Post) → Ahead (p ∷ ps) 0 → Ahead ps 0
tail-Ahead stage ps h = h
tail-Ahead launched ps h = h.1
tail-Ahead (done c code error log) ps h = h

head-Ahead :
    (p : Post) (ps : List Post) (k : ℕ) → dones ps ≤ k → Ahead (p ∷ ps) 0 → Ahead (p ∷ []) k
head-Ahead stage ps k le h = tt
head-Ahead launched ps k le h = (omega (arith, h.0, le), tt)
head-Ahead (done c code error log) ps k le h = tt

nothing-queued : (qs : List Post) (k l : ℕ) → k ≡ l → Ahead qs k → Ahead (qs ++ []) l
nothing-queued qs k l e a = subst (λ r. Ahead r l) (sym (append-nil qs)) (subst (Ahead qs) e a)

pub advance_worker-IsHandedOver :
    (n : ℕ) (ws : List (List Post))
    → Every (λ w. Ahead w 0) ws
    → IsHandedOver ws (advance_worker n ws).0 (advance_worker n ws).1
unfolding advance_worker
advance_worker-IsHandedOver n [] h = record {
  same_ends = omega arith;
  rest_ahead = tt;
  queue_ahead = λ k qs a. nothing-queued qs (k + 0) (k + 0) refl a;
}
advance_worker-IsHandedOver zero ([] ∷ ws) h = record {
  same_ends = omega arith;
  rest_ahead = h.1;
  queue_ahead =
      λ k qs a. nothing-queued qs (k + (0 + sum_by dones ws)) (k + sum_by dones ws) (omega arith) a;
}
advance_worker-IsHandedOver zero ((p ∷ ps) ∷ ws) h = record {
  same_ends = omega arith;
  rest_ahead = (tail-Ahead p ps h.0, h.1);
  queue_ahead = λ k qs a.
      Ahead-snoc qs p (k + sum_by dones ((p ∷ ps) ∷ ws)) (k + sum_by dones (ps ∷ ws)) (omega arith)
        (head-Ahead p ps (k + sum_by dones (ps ∷ ws)) (omega arith) h.0) a;
}
advance_worker-IsHandedOver (suc n) (w ∷ ws) h =
    let r = advance_worker-IsHandedOver n ws h.1 in
    let rest = (advance_worker n ws).0 in
    let p = (advance_worker n ws).1 in
    record {
      same_ends = omega (arith, r.same_ends);
      rest_ahead = (h.0, r.rest_ahead);
      queue_ahead = λ k qs a.
          subst (Ahead (qs ++ p)) (omega arith)
            (r.queue_ahead (k + dones w) qs (subst (Ahead qs) (omega arith) a));
    }

pub advance-IsThreaded :
    (n : ℕ) (active : Bool) (posts : List Post) (workers : List (List Post))
    → IsThreaded active posts workers
    → IsThreaded active (posts ++ (advance_worker n workers).1) (advance_worker n workers).0
advance-IsThreaded n active posts workers h =
    let r = advance_worker-IsHandedOver n workers h.workers_ahead in
    record {
      ends =
          omega
            (arith, r.same_ends, h.ends, sum_by-append is_done posts (advance_worker n workers).1);
      posts_ahead =
          subst (Ahead (posts ++ (advance_worker n workers).1)) (omega arith)
            (r.queue_ahead 0 posts (subst (Ahead posts) (omega arith) h.posts_ahead));
      workers_ahead = r.rest_ahead;
    }

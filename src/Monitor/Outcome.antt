-- ===== src/Monitor/Outcome.antt =====
-- What one call does: the bytes it accounts for, how `finish` classifies a request, and that a
-- request is finished once.
use thinclient.Prelude.{
  ℕ, ◌+◌, ◌≤◌, ◌<◌, ◌≡◌, refl, true, false, none, some, List, [], ◌∷◌, arith, is_some,
  compare_texts, compare_numbers, sum_by-append, nat_eq, if◌then◌else◌, Option-cases, Bool-cases,
  inl, inr, list_eq, list_eq_iff,
}
use thinclient.Text.{codes}
use thinclient.Dict.{lookup, erase}
use thinclient.Dict.Laws.{
  total-erase, total-modify, Lacks-erase_self, lookup-of_Lacks, lookup-append,
}
use thinclient.Monitor.{ActiveRequest, Monitor, at_least_zero}
use thinclient.Monitor.Clients.{touch_client}
use thinclient.Monitor.Requests.{
  Arrival, Ending, begin, new_request, set_content_length, with_length, add_bytes, with_bytes,
  finish, finish_found, is_short, is_successful, was_interrupted, status_or_zero,
}
use thinclient.Monitor.Events.{Event, arrive, announce, send, complete, step, run}
use thinclient.Monitor.Active.{
  bytes_in_flight, touch_client-SameTransfers, insert_of_Lacks, Lacks-of_Below,
}
use thinclient.Monitor.Accounting.{IsSound, step-IsSound}

-- the bytes of finished requests and of those in flight
abbrev pub accounted : Monitor → ℕ
accounted m = m.bytes_total + bytes_in_flight m.active

-- the bytes that a call reports: those of a request that is in flight
abbrev pub credit : Event → Monitor → ℕ
credit (send id n) m = if is_some (lookup id m.active) then at_least_zero n else 0
credit _ m = 0

abbrev pub credits : List Event → Monitor → ℕ
credits [] m = 0
credits (e ∷ es) m = credit e m + credits es (step e m)

accounted-begin : (a : Arrival) (m : Monitor) → IsSound m → accounted (begin a m).0 ≡ accounted m
unfolding begin new_request
accounted-begin a m s =
    let id = m.next_request_id in
    let m' = record m { next_request_id = id + 1 } in
    let t = touch_client a.ip a.mac a.path a.now m' in
    let same = touch_client-SameTransfers a.ip a.mac a.path a.now m' in
    let lacks = same.same_lacks id (Lacks-of_Below id m.active s.ids_below) in
    let fixed : t.bytes_total ≡ m.bytes_total = unfold touch_client in refl in
    rw (insert_of_Lacks id (new_request id a) t.active lacks) (
      omega (
        arith,
        fixed,
        same.same_bytes,
        sum_by-append (λ (e : ℕ × ActiveRequest). e.1.bytes_sent) t.active
            ((id, new_request id a) ∷ []),
      ))

accounted-step :
    (e : Event) (m : Monitor) → IsSound m → accounted (step e m) ≡ accounted m + credit e m
unfolding step
accounted-step (arrive a) m s = omega (arith, accounted-begin a m s)
accounted-step (announce id n) m s =
    unfold set_content_length in
    ground
      (arith, total-modify (λ r. r.bytes_sent) (with_length n) 0 id m.active (λ r. omega arith))
accounted-step (send id n) m s =
    unfold add_bytes in
    ground (
      arith,
      total-modify (λ r. r.bytes_sent) (with_bytes n) (at_least_zero n) id m.active (λ r. refl),
    )
accounted-step (complete id e) m s =
    unfold finish finish_found in ground (arith, total-erase (λ r. r.bytes_sent) id m.active)

-- From a sound monitor, the bytes of finished requests and of those in flight together grow by
-- exactly what is reported for requests in flight: nothing is lost or counted twice.
pub accounted-run :
    (es : List Event) (m : Monitor) → IsSound m → accounted (run es m) ≡ accounted m + credits es m
unfolding run
accounted-run [] m s = omega arith
accounted-run (e ∷ es) m s =
    omega (arith, accounted-run es (step e m) (step-IsSound e m s), accounted-step e m s)

-- A request succeeds if its status is a success or a redirect, nobody broke it off, and a GET that
-- was answered by 200 with a length sent exactly that many bytes.
pub record Succeeds (r : ActiveRequest) (e : Ending) : Type 0 where
  pub at_least_200 : 200 ≤ status_or_zero e.status
  pub below_400 : status_or_zero e.status < 400
  pub not_interrupted : e.interrupted ≡ false
  pub complete_body :
      r.method ≡ codes "GET"
      → status_or_zero e.status ≡ 200
      → (n : ℕ) → r.content_length ≡ some n
      → r.bytes_sent ≡ n

is_short_of_complete :
    (r : ActiveRequest) (s : ℕ)
    → (r.method ≡ codes "GET" → s ≡ 200 → (n : ℕ) → r.content_length ≡ some n → r.bytes_sent ≡ n)
    → is_short r s ≡ false
unfolding is_short
is_short_of_complete r s h = elim (Option-cases r.content_length) [
  | inl e ↦ ground arith
  | inr (n, e) ↦ elim (Bool-cases (list_eq r.method (codes "GET"))) [
    | inl get ↦ elim (Bool-cases (nat_eq s 200)) [
      | inl ok ↦ ground (arith, h ((list_eq_iff _ _).0 get) (ground arith) n e)
      | inr other ↦ ground arith
    ]
    | inr other ↦ ground arith
  ]
]

complete_of_is_short :
    (r : ActiveRequest) (s : ℕ)
    → is_short r s ≡ false
    → r.method ≡ codes "GET"
    → s ≡ 200
    → (n : ℕ) → r.content_length ≡ some n
    → r.bytes_sent ≡ n
unfolding is_short
complete_of_is_short r s h get ok n e = ground (arith, (list_eq_iff r.method (codes "GET")).1 get)

pub Succeeds-of_is_successful :
    (r : ActiveRequest) (e : Ending) → is_successful r e ≡ true → Succeeds r e
unfolding is_successful
Succeeds-of_is_successful r e h = record {
  at_least_200 = unfold was_interrupted in ground arith;
  below_400 = unfold was_interrupted in ground arith;
  not_interrupted = unfold was_interrupted in ground arith;
  complete_body =
      complete_of_is_short r (status_or_zero e.status) (unfold was_interrupted in ground arith);
}

pub is_successful-of_Succeeds :
    (r : ActiveRequest) (e : Ending) → Succeeds r e → is_successful r e ≡ true
unfolding is_successful was_interrupted
is_successful-of_Succeeds r e h = ground (
  arith,
  h.at_least_200,
  h.below_400,
  h.not_interrupted,
  is_short_of_complete r (status_or_zero e.status) h.complete_body,
)

-- the counters that `finish` moves
pub record Counted (m m' : Monitor) (succeeded failed : ℕ) : Type 0 where
  pub successes : m'.successful_total ≡ m.successful_total + succeeded
  pub failures : m'.failed_total ≡ m.failed_total + failed
  pub arrivals : m'.request_total ≡ m.request_total

-- A request in flight that `finish` ends is counted as a success exactly when it succeeds, as a
-- failure otherwise, and in both cases leaves the table of requests in flight with its bytes added
-- to the total.
pub finish_lem :
    (id : ℕ) (e : Ending) (m : Monitor) (r : ActiveRequest)
    → IsSound m
    → lookup id m.active ≡ some r
    → (Succeeds r e → Counted m (finish id e m) 1 0)
      × (¬ Succeeds r e → Counted m (finish id e m) 0 1)
      × (lookup id (finish id e m).active ≡ none)
      × ((finish id e m).bytes_total ≡ m.bytes_total + r.bytes_sent)
unfolding finish finish_found
finish_lem id e m r s h = rw h (
  (λ good. ground (arith, is_successful-of_Succeeds r e good)),
  (λ bad. elim (Bool-cases (is_successful r e)) [
    | inl yes_good ↦ absurd (bad (Succeeds-of_is_successful r e yes_good))
    | inr not_good ↦ ground arith
  ]),
  lookup-of_Lacks id (erase id m.active) (Lacks-erase_self id m.active s.ids_unique),
  refl,
)

-- Finishing a request again, or finishing one that is not in flight, changes nothing.
pub finish_twice :
    (id : ℕ) (e e' : Ending) (m : Monitor)
    → IsSound m
    → finish id e' (finish id e m) ≡ finish id e m
finish_twice id e e' m s = gone _ (ended m s)
  where
    gone : (m' : Monitor) → lookup id m'.active ≡ none → finish id e' m' ≡ m'
    gone m' h = unfold finish in rw h (unfold finish_found in refl)

    ended : (m : Monitor) → IsSound m → lookup id (finish id e m).active ≡ none
    ended m s = elim (Option-cases (lookup id m.active)) [
      | inl h ↦ unfold finish in rw h (unfold finish_found in h)
      | inr (r, h) ↦ (finish_lem id e m r s h).2
    ]

-- `begin` hands out an identifier that no request in flight has, and files the request under it.
pub begin_lem :
    (a : Arrival) (m : Monitor)
    → IsSound m
    → (lookup (begin a m).1 m.active ≡ none)
      × (lookup (begin a m).1 (begin a m).0.active ≡ some (new_request (begin a m).1 a))
unfolding begin
begin_lem a m s =
    let id = m.next_request_id in
    let m' = record m { next_request_id = id + 1 } in
    let t = touch_client a.ip a.mac a.path a.now m' in
    let lacks = Lacks-of_Below id m.active s.ids_below in
    let same = touch_client-SameTransfers a.ip a.mac a.path a.now m' in
    let lacks' = same.same_lacks id lacks in
    (
      lookup-of_Lacks id m.active lacks,
      rw (insert_of_Lacks id (new_request id a) t.active lacks') (
          rw (lookup-append id t.active ((id, new_request id a) ∷ []))
            (rw (lookup-of_Lacks id t.active lacks') (unfold lookup in ground arith))),
    )

-- ===== src/Monitor/Accounting.antt =====
-- The invariant of the monitor, and that every call keeps it.
use thinclient.Prelude.{
  ℕ, ◌+◌, ◌≤◌, ◌<◌, ◌≡◌, refl, ◌∙◌, Bool, not, Option, none, some, List, [], ◌∷◌, arith, length,
  compare_texts, compare_numbers, length-append, length-take, ℤ, Every-append,
}
use thinclient.Text.{Text}
use thinclient.Dict.{Dict, lookup, modify}
use thinclient.Dict.Laws.{
  total, Unique, Unique-snoc, Unique-erase, Unique-modify, Every-erase, Every-modify, length-erase,
  total-modify, length-modify, length-trim,
}
use thinclient.Monitor.{Client, ActiveRequest, Monitor}
use thinclient.Monitor.Clients.{touch_client}
use thinclient.Monitor.Requests.{
  Arrival, Ending, begin, new_request, set_content_length, with_length, add_bytes, with_bytes,
  finish, finish_found, finish_client, is_successful, is_boot, count,
}
use thinclient.Monitor.Durable.{Setup, fresh}
use thinclient.Monitor.Events.{Event, arrive, announce, send, complete, step, run}
use thinclient.Monitor.Active.{
  Below, SameTransfers, touch_client-SameTransfers, insert_of_Lacks, Lacks-of_Below, Below-mono,
  Filed,
}
use thinclient.Monitor.Ledger.{
  requests-IsTally, boots-IsTally, bytes_sent-IsTally, total-touch_client, requests-seen_again,
  boots-seen_again, bytes_sent-seen_again,
}

-- What holds between two calls: the identifiers in flight are distinct, below the next one and
-- filed right, and the totals and the bounded tables agree.
pub record IsSound (m : Monitor) : Type 0 where
  pub ids_below : Below m.next_request_id m.active
  pub ids_unique : Unique m.active
  pub ids_filed : Filed m.active
  pub requests_balance : m.request_total ≡ m.successful_total + m.failed_total + length m.active
  pub clients_bounded : length m.clients ≤ m.max_clients
  pub history_bounded : length m.requests ≤ m.max_requests
  pub boots_bounded : m.boot_total ≤ m.successful_total
  pub client_requests : total (λ c. c.requests) m.clients ≤ m.request_total
  pub client_boots : total (λ c. c.boots) m.clients ≤ m.boot_total
  pub client_bytes : total (λ c. c.bytes_sent) m.clients ≤ m.bytes_total

-- what `touch_client` leaves alone, and what it adds at most
record Touched (m t : Monitor) : Type 0 where
  fixed_next : t.next_request_id ≡ m.next_request_id
  fixed_limits : (t.max_clients ≡ m.max_clients) × (t.max_requests ≡ m.max_requests)
  fixed_history : t.requests ≡ m.requests
  fixed_totals :
      (t.request_total ≡ m.request_total)
      × (t.successful_total ≡ m.successful_total)
      × (t.failed_total ≡ m.failed_total)
      × (t.bytes_total ≡ m.bytes_total)
      × (t.boot_total ≡ m.boot_total)
  transfers : SameTransfers m.active t.active
  few_clients : length t.clients ≤ m.max_clients
  added_requests : total (λ c. c.requests) t.clients ≤ total (λ c. c.requests) m.clients + 1
  added_boots : total (λ c. c.boots) t.clients ≤ total (λ c. c.boots) m.clients + 0
  added_bytes : total (λ c. c.bytes_sent) t.clients ≤ total (λ c. c.bytes_sent) m.clients + 0

length-touch_client :
    (ip : Text) (mac : Option Text) (path : Text) (now : ℕ) (m : Monitor)
    → length (touch_client ip mac path now m).clients ≤ m.max_clients
unfolding touch_client
length-touch_client ip mac path now m = length-trim m.max_clients _

touch_client-Touched :
    (ip : Text) (mac : Option Text) (path : Text) (now : ℕ) (m : Monitor)
    → Touched m (touch_client ip mac path now m)
touch_client-Touched ip mac path now m = record {
  fixed_next = unfold touch_client in refl;
  fixed_limits = unfold touch_client in (refl, refl);
  fixed_history = unfold touch_client in refl;
  fixed_totals = unfold touch_client in (refl, refl, refl, refl, refl);
  transfers = touch_client-SameTransfers ip mac path now m;
  few_clients = length-touch_client ip mac path now m;
  added_requests =
      total-touch_client (λ c. c.requests) requests-IsTally ip mac path now 1 m
        (requests-seen_again ip mac path now);
  added_boots =
      total-touch_client (λ c. c.boots) boots-IsTally ip mac path now 0 m
        (boots-seen_again ip mac path now);
  added_bytes =
      total-touch_client (λ c. c.bytes_sent) bytes_sent-IsTally ip mac path now 0 m
        (bytes_sent-seen_again ip mac path now);
}

begin-IsSound : (a : Arrival) (m : Monitor) → IsSound m → IsSound (begin a m).0
unfolding begin
begin-IsSound a m s =
    let id = m.next_request_id in
    let m' = record m { next_request_id = id + 1 } in
    let t = touch_client a.ip a.mac a.path a.now m' in
    let touched = touch_client-Touched a.ip a.mac a.path a.now m' in
    let lacks = touched.transfers.same_lacks id (Lacks-of_Below id m.active s.ids_below) in
    let below = Below-mono id (id + 1) m.active (omega arith) s.ids_below in
    let added = insert_of_Lacks id (new_request id a) t.active lacks in
    record {
      ids_below =
          rw (touched.fixed_next, added)
            (Every-append (λ e. e.0 < id + 1) t.active _
              (touched.transfers.same_below (id + 1) below) (omega arith, tt));
      ids_unique = rw added (
          Unique-snoc id (new_request id a) t.active lacks
            (touched.transfers.same_unique s.ids_unique));
      ids_filed = rw added (
          Every-append (λ e. e.1.id ≡ e.0) t.active _ (touched.transfers.same_filed s.ids_filed)
            (unfold new_request in refl, tt));
      requests_balance = rw added (
          omega (
            arith,
            touched.fixed_totals,
            touched.transfers.same_length,
            s.requests_balance,
            length-append t.active ((id, new_request id a) ∷ []),
          ));
      clients_bounded = omega (arith, touched.few_clients, touched.fixed_limits);
      history_bounded =
          rw (touched.fixed_history) (omega (arith, touched.fixed_limits, s.history_bounded));
      boots_bounded = omega (arith, touched.fixed_totals, s.boots_bounded);
      client_requests =
          omega (arith, touched.fixed_totals, touched.added_requests, s.client_requests);
      client_boots = omega (arith, touched.fixed_totals, touched.added_boots, s.client_boots);
      client_bytes = omega (arith, touched.fixed_totals, touched.added_bytes, s.client_bytes);
    }

module _ (id : ℕ) (g : ActiveRequest → ActiveRequest) (m : Monitor)
    (same_id : (r : ActiveRequest) → (g r).id ≡ r.id) where
  modify_active-IsSound : IsSound m → IsSound (record m { active = modify id g m.active })
  modify_active-IsSound s = record {
    ids_below = Every-modify (λ e. e.0 < m.next_request_id) id g m.active (λ j r h. h) s.ids_below;
    ids_unique = Unique-modify id g m.active s.ids_unique;
    ids_filed = Every-modify (λ e. e.1.id ≡ e.0) id g m.active (λ j r h. same_id r ∙ h) s.ids_filed;
    requests_balance = omega (arith, s.requests_balance, length-modify id g m.active);
    clients_bounded = s.clients_bounded;
    history_bounded = s.history_bounded;
    boots_bounded = s.boots_bounded;
    client_requests = s.client_requests;
    client_boots = s.client_boots;
    client_bytes = s.client_bytes;
  }

set_content_length-IsSound :
    (id : ℕ) (length : ℤ) (m : Monitor) → IsSound m → IsSound (set_content_length id length m)
unfolding set_content_length
set_content_length-IsSound id length m = modify_active-IsSound id (with_length length) m (λ r. refl)

add_bytes-IsSound : (id : ℕ) (count : ℤ) (m : Monitor) → IsSound m → IsSound (add_bytes id count m)
unfolding add_bytes
add_bytes-IsSound id count m = modify_active-IsSound id (with_bytes count) m (λ r. refl)

boot_is_success : (r : ActiveRequest) (e : Ending) → count (is_boot r e) ≤ count (is_successful r e)
unfolding is_boot
boot_is_success r e = ground arith

one_outcome : (b : Bool) → count b + count (not b) ≡ 1
one_outcome b = ground arith

module _ (r : ActiveRequest) (e : Ending) (d : Dict Text Client) where
  requests-finish_client :
      total (λ c. c.requests) (modify r.client_key (finish_client r e) d)
      ≤ total (λ c. c.requests) d
  unfolding finish_client
  requests-finish_client = ground (
    arith,
    total-modify (λ c. c.requests) (finish_client r e) 0 r.client_key d (λ c. omega arith),
  )

  boots-finish_client :
      total (λ c. c.boots) (modify r.client_key (finish_client r e) d)
      ≤ total (λ c. c.boots) d + count (is_boot r e)
  unfolding finish_client
  boots-finish_client = ground (
    arith,
    total-modify (λ c. c.boots) (finish_client r e) (count (is_boot r e)) r.client_key d
        (λ c. refl),
  )

  bytes-finish_client :
      total (λ c. c.bytes_sent) (modify r.client_key (finish_client r e) d)
      ≤ total (λ c. c.bytes_sent) d + r.bytes_sent
  unfolding finish_client
  bytes-finish_client = ground (
    arith,
    total-modify (λ c. c.bytes_sent) (finish_client r e) r.bytes_sent r.client_key d (λ c. refl),
  )

finish_found-IsSound :
    (o : Option ActiveRequest) (id : ℕ) (e : Ending) (m : Monitor)
    → lookup id m.active ≡ o
    → IsSound m
    → IsSound (finish_found o id e m)
unfolding finish_found
finish_found-IsSound none id e m h s = s
finish_found-IsSound (some r) id e m h s = record {
  ids_below = Every-erase (λ e. e.0 < m.next_request_id) id m.active s.ids_below;
  ids_unique = Unique-erase id m.active s.ids_unique;
  ids_filed = Every-erase (λ e. e.1.id ≡ e.0) id m.active s.ids_filed;
  requests_balance =
      ground (arith, s.requests_balance, one_outcome (is_successful r e), length-erase id m.active);
  clients_bounded =
      omega (arith, s.clients_bounded, length-modify r.client_key (finish_client r e) m.clients);
  history_bounded = omega (arith, length-take m.max_requests (_ ∷ m.requests));
  boots_bounded = omega (arith, s.boots_bounded, boot_is_success r e);
  client_requests = omega (arith, s.client_requests, requests-finish_client r e m.clients);
  client_boots = omega (arith, s.client_boots, boots-finish_client r e m.clients);
  client_bytes = omega (arith, s.client_bytes, bytes-finish_client r e m.clients);
}

finish-IsSound : (id : ℕ) (e : Ending) (m : Monitor) → IsSound m → IsSound (finish id e m)
unfolding finish
finish-IsSound id e m s = finish_found-IsSound (lookup id m.active) id e m refl s

-- one call
pub step-IsSound : (e : Event) (m : Monitor) → IsSound m → IsSound (step e m)
unfolding step
step-IsSound (arrive a) m s = begin-IsSound a m s
step-IsSound (announce id length) m s = set_content_length-IsSound id length m s
step-IsSound (send id count) m s = add_bytes-IsSound id count m s
step-IsSound (complete id e) m s = finish-IsSound id e m s

-- A sound monitor stays sound under any calls: every arrival is a success, a failure or in flight;
-- identifiers are distinct and below the next; the client table and the history keep their limits;
-- boots are at most the successes; and the clients' requests, boots and bytes add up to at most the
-- monitor's totals.
pub run-IsSound : (es : List Event) (m : Monitor) → IsSound m → IsSound (run es m)
unfolding run
run-IsSound [] m s = s
run-IsSound (e ∷ es) m s = run-IsSound es (step e m) (step-IsSound e m s)

pub fresh-IsSound : (c : Setup) → IsSound (fresh c)
unfolding fresh
fresh-IsSound c = record {
  ids_below = tt;
  ids_unique = tt;
  ids_filed = tt;
  requests_balance = refl;
  clients_bounded = omega arith;
  history_bounded = omega arith;
  boots_bounded = omega arith;
  client_requests = omega arith;
  client_boots = omega arith;
  client_bytes = omega arith;
}

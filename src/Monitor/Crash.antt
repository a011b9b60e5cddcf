-- ===== src/Monitor/Crash.antt =====
-- A restart from the state document: the requests that were in flight become failures, each once,
-- and the totals go on from where they were.
use thinclient.Prelude.{
  ℕ, ◌+◌, ◌≤◌, ◌<◌, ◌≡◌, false, some, [], arith, length, max, take, compare_texts, compare_numbers,
  length-take, ltb,
}
use thinclient.Monitor.{Monitor}
use thinclient.Monitor.Durable.{
  Setup, saved_requests, state_document, load_clients, load_active, recover, last_items,
  largest_key, start, fresh, max_stored_active, max_state_bytes,
}
use thinclient.Monitor.Active.{bytes_in_flight}
use thinclient.Monitor.Accounting.{IsSound}
use thinclient.Monitor.Recovery.{Recovered, recover-Recovered}
use thinclient.Monitor.Restore.{
  saved_table, length-saved_table, bytes-saved_table, length-saved_requests, Apart-nil,
  load_active-saved_requests, length-load_clients, total-load_clients, length-last_items,
  total-last_items,
}

-- the monitor that `restore` hands to the recovery loop
restored : Setup → ℕ → Monitor → Monitor
restored c t m = record (fresh c) {
  history_started_at = m.history_started_at;
  request_total = m.request_total;
  successful_total = m.successful_total;
  failed_total = m.failed_total;
  bytes_total = m.bytes_total;
  boot_total = m.boot_total;
  server_start_total = m.server_start_total + 1;
  recovered_interrupted_total = m.recovered_interrupted_total;
  clients = load_clients [] (last_items c.max_clients m.clients);
  requests = take c.max_requests m.requests;
  next_request_id = max m.next_request_id (largest_key (saved_table m.active) + 1);
  last_saved_at = some t;
}

start-state_document :
    (c : Setup) (now t size : ℕ) (m : Monitor)
    → IsSound m
    → length m.active ≤ max_stored_active
    → size ≤ max_state_bytes
    → start c now (some (record { document = state_document t m; size = size }))
      ≡ recover now (saved_table m.active) (restored c t m)
unfolding start restored state_document
start-state_document c now t size m s few small =
    let same : load_active [] (saved_requests m.active) ≡ saved_table m.active =
      load_active-saved_requests [] m.active s.ids_filed s.ids_unique (Apart-nil m.active) in
    let room : ltb max_stored_active (length (saved_requests m.active)) ≡ false =
      ground (arith, length-saved_requests m.active) in
    let fits : ltb max_state_bytes size ≡ false = ground (arith, small) in rw (same, fits, room)

-- What a restart makes of the state that was saved.
pub record Restarted (m m' : Monitor) : Type 0 where
  pub none_active : m'.active ≡ []
  pub same_arrivals : m'.request_total ≡ m.request_total
  pub same_successes : m'.successful_total ≡ m.successful_total
  pub new_failures : m'.failed_total ≡ m.failed_total + length m.active
  pub new_recoveries :
      m'.recovered_interrupted_total ≡ m.recovered_interrupted_total + length m.active
  pub all_bytes : m'.bytes_total ≡ m.bytes_total + bytes_in_flight m.active
  pub one_start : m'.server_start_total ≡ m.server_start_total + 1
  pub fresh_ids : m.next_request_id ≤ m'.next_request_id

-- A monitor that is restarted from a state file that holds its state, under limits that admit at least
-- one client, with at most 2048 requests in flight and a file of at most 8 MiB, has none in flight, has
-- counted each of them as one more failure, has kept every byte and every other total, and satisfies
-- the invariant again.
pub start_lem :
    (c : Setup) (now t size : ℕ) (m : Monitor)
    → IsSound m
    → 0 < c.max_clients
    → length m.active ≤ max_stored_active
    → size ≤ max_state_bytes
    → Restarted m (start c now (some (record { document = state_document t m; size = size })))
      × IsSound (start c now (some (record { document = state_document t m; size = size })))
unfolding restored fresh
start_lem c now t size m s pos few small =
    rw (start-state_document c now t size m s few small) (totals, sound)
  where
    r : Monitor
    r = restored c t m

    rec : Recovered (saved_table m.active) r (recover now (saved_table m.active) r)
    rec = recover-Recovered now (saved_table m.active) r

    entries : length (saved_table m.active) ≡ length m.active
    entries = length-saved_table m.active

    totals : Restarted m (recover now (saved_table m.active) r)
    totals = record {
      none_active = rec.same_active;
      same_arrivals = rec.kept.0;
      same_successes = rec.kept.1;
      new_failures = omega (arith, rec.failures, entries);
      new_recoveries = omega (arith, rec.recoveries, entries);
      all_bytes = omega (arith, rec.bytes, bytes-saved_table m.active);
      one_start = rec.kept.3;
      fresh_ids = omega (arith, rec.kept);
    }

    sound : IsSound (recover now (saved_table m.active) r)
    sound = record {
      ids_below = rw rec.same_active tt;
      ids_unique = rw rec.same_active tt;
      ids_filed = rw rec.same_active tt;
      requests_balance =
          rw rec.same_active (omega (arith, rec.kept, rec.failures, entries, s.requests_balance));
      clients_bounded = omega (
        arith,
        rec.kept,
        rec.same_clients,
        length-load_clients [] (last_items c.max_clients m.clients),
        length-last_items c.max_clients m.clients pos,
      );
      history_bounded =
          omega
            (arith, rec.kept, rec.history (omega (arith, length-take c.max_requests m.requests)));
      boots_bounded = omega (arith, rec.kept, s.boots_bounded);
      client_requests = omega (
        arith,
        rec.kept,
        rec.client_requests,
        s.client_requests,
        total-load_clients (λ q. q.requests) [] (last_items c.max_clients m.clients),
        total-last_items (λ q. q.requests) c.max_clients m.clients,
      );
      client_boots = omega (
        arith,
        rec.kept,
        rec.client_boots,
        s.client_boots,
        total-load_clients (λ q. q.boots) [] (last_items c.max_clients m.clients),
        total-last_items (λ q. q.boots) c.max_clients m.clients,
      );
      client_bytes = omega (
        arith,
        rec.bytes,
        rec.client_bytes,
        s.client_bytes,
        total-load_clients (λ q. q.bytes_sent) [] (last_items c.max_clients m.clients),
        total-last_items (λ q. q.bytes_sent) c.max_clients m.clients,
      );
    }

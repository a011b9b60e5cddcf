-- ===== src/Monitor/Durable.antt =====
-- The durable state of the monitor: `_state_document_locked`, `_restore_state`,
-- `_recover_interrupted_requests` and the constructor of `StatusMonitor`. A document has the fields
-- that `_restore_state` accepts.
use thinclient.Prelude.{
  ℕ, ◌+◌, ◌-◌, max, true, Option, none, some, List, [], ◌∷◌, ltb, nat_eq, length, take, drop,
  if◌then◌else◌, compare_texts, compare_numbers,
}
use thinclient.Text.{Text}
use thinclient.Dict.{Dict, insert, modify}
use thinclient.Monitor.{Client, SavedRequest, ActiveRequest, RequestRecord, Monitor}
use thinclient.Monitor.Requests.{append_left}

pub record Document : Type 0 where
  pub saved_at_epoch : ℕ
  pub history_started_epoch : ℕ
  pub next_request_id : ℕ
  pub request_total : ℕ
  pub successful_total : ℕ
  pub failed_total : ℕ
  pub bytes_total : ℕ
  pub boot_total : ℕ
  pub server_start_total : ℕ
  pub recovered_interrupted_total : ℕ
  pub clients : List (Text × Client)
  pub recent_requests : List RequestRecord
  pub active_requests : List SavedRequest

unfoldable pub saved_requests : Dict ℕ ActiveRequest → List SavedRequest
saved_requests [] = []
saved_requests ((id, r) ∷ d) = r.saved ∷ saved_requests d

unfoldable pub state_document : ℕ → Monitor → Document
unfolding saved_requests
state_document saved_at m = record {
  saved_at_epoch = saved_at;
  history_started_epoch = m.history_started_at;
  next_request_id = m.next_request_id;
  request_total = m.request_total;
  successful_total = m.successful_total;
  failed_total = m.failed_total;
  bytes_total = m.bytes_total;
  boot_total = m.boot_total;
  server_start_total = m.server_start_total;
  recovered_interrupted_total = m.recovered_interrupted_total;
  clients = m.clients;
  recent_requests = m.requests;
  active_requests = saved_requests m.active;
}

-- The state file: the document that it holds and its size in bytes.
pub record StateFile : Type 0 where
  pub document : Document
  pub size : ℕ

pub record Setup : Type 0 where
  pub max_clients : ℕ
  pub max_requests : ℕ
  pub state_file : Option Text
  pub started_at : ℕ

unfoldable pub fresh : Setup → Monitor
fresh c = record {
  max_clients = c.max_clients;
  max_requests = c.max_requests;
  started_at = c.started_at;
  history_started_at = c.started_at;
  next_request_id = 1;
  active = [];
  clients = [];
  requests = [];
  request_total = 0;
  successful_total = 0;
  failed_total = 0;
  bytes_total = 0;
  boot_total = 0;
  server_start_total = 1;
  recovered_interrupted_total = 0;
  state_file = c.state_file;
  last_saved_at = none;
  persistence_error = none;
}

-- stored[-n:], which is the whole list if n is 0
abbrev pub last_items {ℓ} : {A : Type ℓ} → ℕ → List A → List A
last_items n xs = if nat_eq n 0 then xs else drop (length xs - n) xs

unfoldable pub load_clients : Dict Text Client → List (Text × Client) → Dict Text Client
load_clients d [] = d
load_clients d ((key, client) ∷ stored) = load_clients (insert key client d) stored

unfoldable pub load_active : Dict ℕ SavedRequest → List SavedRequest → Dict ℕ SavedRequest
load_active d [] = d
load_active d (r ∷ stored) = load_active (insert r.id r d) stored

-- max(active, default=0)
unfoldable pub largest_key : Dict ℕ SavedRequest → ℕ
largest_key [] = 0
largest_key ((id, r) ∷ d) = max id (largest_key d)

abbrev pub max_stored_active : ℕ
max_stored_active = 2048

-- 8 * 1024 * 1024
abbrev pub max_state_bytes : ℕ
max_state_bytes = 8388608

-- The monitor as the file has it, with the requests that were in flight beside it; `none` is the
-- ValueError for a file that is too large or has too many of them.
unfoldable pub restore : Setup → StateFile → Option (Monitor × Dict ℕ SavedRequest)
unfolding load_clients load_active largest_key fresh insert
restore c f =
    let d = f.document in
    let active = load_active [] d.active_requests in
    if ltb max_state_bytes f.size
    then none
    else if ltb max_stored_active (length d.active_requests)
    then none
    else some (
      record (fresh c) {
        history_started_at = d.history_started_epoch;
        request_total = d.request_total;
        successful_total = d.successful_total;
        failed_total = d.failed_total;
        bytes_total = d.bytes_total;
        boot_total = d.boot_total;
        server_start_total = d.server_start_total;
        recovered_interrupted_total = d.recovered_interrupted_total;
        clients = load_clients [] (last_items c.max_clients d.clients);
        requests = take c.max_requests d.recent_requests;
        next_request_id = max d.next_request_id (largest_key active + 1);
        last_saved_at = some d.saved_at_epoch;
      },
      active,
    )

unfoldable pub recover_client : ℕ → SavedRequest → Client → Client
recover_client now r client = record client {
  last_seen_epoch = now;
  last_path = some r.path;
  last_status = some 0;
  bytes_sent = client.bytes_sent + r.bytes_sent;
}

unfoldable pub recovered_record : ℕ → SavedRequest → RequestRecord
recovered_record now r = record {
  method = r.method;
  path = r.path;
  ip = r.ip;
  mac = r.mac;
  status = 0;
  finished_epoch = now;
  duration_seconds = now - r.started_epoch;
  bytes_sent = r.bytes_sent;
  interrupted = true;
  recovered_after_restart = true;
}

-- one round of the loop of `_recover_interrupted_requests`
unfoldable pub recover_one : ℕ → SavedRequest → Monitor → Monitor
unfolding recover_client recovered_record modify
recover_one now r m = record m {
  failed_total = m.failed_total + 1;
  recovered_interrupted_total = m.recovered_interrupted_total + 1;
  bytes_total = m.bytes_total + r.bytes_sent;
  clients = modify r.client_key (recover_client now r) m.clients;
  requests = append_left m.max_requests (recovered_record now r) m.requests;
}

unfoldable pub recover : ℕ → Dict ℕ SavedRequest → Monitor → Monitor
recover now [] m = m
recover now ((id, r) ∷ d) m = recover now d (recover_one now r m)

resume : Setup → ℕ → Option (Monitor × Dict ℕ SavedRequest) → Monitor
unfolding recover fresh
resume c now none = fresh c
resume c now (some (m, interrupted)) =
    recover now interrupted (record m { server_start_total = m.server_start_total + 1 })

-- The constructor up to its save: `none` is a state file that is not there, is not configured, or
-- is quarantined as invalid.
unfoldable pub start : Setup → ℕ → Option StateFile → Monitor
unfolding resume restore
start c now none = fresh c
start c now (some file) = resume c now (restore c file)

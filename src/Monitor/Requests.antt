-- ===== src/Monitor/Requests.antt =====
-- `begin`, `set_content_length`, `add_bytes` and `finish` of the status monitor, without the save
-- that follows the first and the last (Durable.antt).
use thinclient.Prelude.{
  ℕ, ◌+◌, ◌-◌, Bool, false, not, Option, none, some, List, ◌∷◌, ltb, leb, nat_eq, take, ◌==◌, ◌&&◌,
  ◌||◌, if◌then◌else◌, ℤ, compare_texts, compare_numbers,
}
use thinclient.Text.{Text, codes, casefold, basename}
use thinclient.Dict.{lookup, erase, insert, modify}
use thinclient.Monitor.{Client, ActiveRequest, RequestRecord, Monitor, at_least_zero}
use thinclient.Monitor.Clients.{client_key, touch_client}

pub record Arrival : Type 0 where
  pub method : Text
  pub path : Text
  pub ip : Text
  pub mac : Option Text
  pub now : ℕ
  pub monotonic_now : ℕ

unfoldable pub new_request : ℕ → Arrival → ActiveRequest
new_request id a = record {
  saved = record {
    id = id;
    method = a.method;
    path = a.path;
    ip = a.ip;
    mac = a.mac;
    client_key = client_key a.ip a.mac;
    started_epoch = a.now;
    bytes_sent = 0;
    content_length = none;
  };
  started_monotonic = a.monotonic_now;
}

-- the new state and the request's identifier
unfoldable pub begin : Arrival → Monitor → Monitor × ℕ
unfolding new_request insert
begin a m =
    let id = m.next_request_id in
    let t = touch_client a.ip a.mac a.path a.now (record m { next_request_id = id + 1 }) in
    (
      record t {
        active = insert id (new_request id a) t.active;
        request_total = t.request_total + 1;
      },
      id,
    )

abbrev pub with_length : ℤ → ActiveRequest → ActiveRequest
with_length length r = record r {
  saved = record r.saved { content_length = some (at_least_zero length) };
}

unfoldable pub set_content_length : ℕ → ℤ → Monitor → Monitor
unfolding modify
set_content_length id length m = record m { active = modify id (with_length length) m.active }

abbrev pub with_bytes : ℤ → ActiveRequest → ActiveRequest
with_bytes count r = record r {
  saved = record r.saved { bytes_sent = r.bytes_sent + at_least_zero count };
}

unfoldable pub add_bytes : ℕ → ℤ → Monitor → Monitor
unfolding modify
add_bytes id count m = record m { active = modify id (with_bytes count) m.active }

-- How a request ended: the status that was sent, if any, whether the peer or the file failed, and
-- the two clocks.
pub record Ending : Type 0 where
  pub status : Option ℕ
  pub interrupted : Bool
  pub finished_epoch : ℕ
  pub finished_monotonic : ℕ

-- int(status or 0)
abbrev pub status_or_zero : Option ℕ → ℕ
status_or_zero none = 0
status_or_zero (some s) = s

abbrev differs : Option ℕ → ℕ → Bool
differs none sent = false
differs (some length) sent = not (nat_eq sent length)

-- a complete answer that stopped before, or ran past, its announced length
unfoldable pub is_short : ActiveRequest → ℕ → Bool
is_short r status =
    r.method == codes "GET" && nat_eq status 200 && differs r.content_length r.bytes_sent

unfoldable pub was_interrupted : ActiveRequest → Ending → Bool
unfolding is_short
was_interrupted r e = is_short r (status_or_zero e.status) || e.interrupted

unfoldable pub is_successful : ActiveRequest → Ending → Bool
unfolding was_interrupted
is_successful r e =
    let status = status_or_zero e.status in
    leb 200 status && ltb status 400 && not (was_interrupted r e)

unfoldable pub is_boot : ActiveRequest → Ending → Bool
unfolding is_successful
is_boot r e =
    is_successful r e
    && nat_eq (status_or_zero e.status) 200
    && r.method == codes "GET"
    && casefold (basename r.path) == codes "filesystem.squashfs"

abbrev pub count : Bool → ℕ
count b = if b then 1 else 0

unfoldable pub finish_client : ActiveRequest → Ending → Client → Client
finish_client r e client = record client {
  last_seen_epoch = e.finished_epoch;
  last_path = some r.path;
  last_status = some (status_or_zero e.status);
  bytes_sent = client.bytes_sent + r.bytes_sent;
  boots = client.boots + count (is_boot r e);
}

unfoldable pub finished_record : ActiveRequest → Ending → RequestRecord
finished_record r e = record {
  method = r.method;
  path = r.path;
  ip = r.ip;
  mac = r.mac;
  status = status_or_zero e.status;
  finished_epoch = e.finished_epoch;
  duration_seconds = e.finished_monotonic - r.started_monotonic;
  bytes_sent = r.bytes_sent;
  interrupted = was_interrupted r e;
  recovered_after_restart = false;
}

-- `deque(maxlen=n).appendleft(x)`
abbrev pub append_left {ℓ} : {A : Type ℓ} → ℕ → A → List A → List A
append_left n x xs = take n (x ∷ xs)

unfoldable pub finish_found : Option ActiveRequest → ℕ → Ending → Monitor → Monitor
unfolding erase modify
finish_found none id e m = m
finish_found (some r) id e m = record m {
  active = erase id m.active;
  successful_total = m.successful_total + count (is_successful r e);
  failed_total = m.failed_total + count (not (is_successful r e));
  bytes_total = m.bytes_total + r.bytes_sent;
  boot_total = m.boot_total + count (is_boot r e);
  clients = modify r.client_key (finish_client r e) m.clients;
  requests = append_left m.max_requests (finished_record r e) m.requests;
}

unfoldable pub finish : ℕ → Ending → Monitor → Monitor
unfolding finish_found lookup
finish id e m = finish_found (lookup id m.active) id e m

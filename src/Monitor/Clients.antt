-- ===== src/Monitor/Clients.antt =====
-- The client table of the status monitor: `_client_key`, `_new_client`, `_merge_clients`,
-- `_touch_client`, and `request_profile` of tools/tc-config-server.py.
use thinclient.Prelude.{
  ℕ, ◌+◌, min, Option, none, some, List, [], ◌∷◌, ◌++◌, ltb, is_some, ◌==◌, ◌||◌, not, ◌&&◌,
  if◌then◌else◌, compare_texts,
}
use thinclient.Text.{Text, codes, casefold, split, is_empty}
use thinclient.Dict.{Dict, lookup, erase, insert_last, trim}
use thinclient.Monitor.{Client, ActiveRequest, Monitor, truthy}

non_empty : List Text → List Text
non_empty [] = []
non_empty (part ∷ parts) = let rest = non_empty parts in if is_empty part then rest else part ∷ rest

-- the part that follows the first "thinclient"
after_thinclient : List Text → Option Text
after_thinclient [] = none
after_thinclient (part ∷ []) = none
after_thinclient (part ∷ next ∷ parts) =
    let rest = after_thinclient (next ∷ parts) in
    if part == codes "thinclient" then some next else rest

known_profile : Option Text → Option Text
known_profile none = none
known_profile (some p) = if p == codes "lite" || p == codes "full" then some p else none

unfoldable pub request_profile : Text → Option Text
unfolding non_empty after_thinclient known_profile casefold split
request_profile path = known_profile (after_thinclient (non_empty (split b'/' (casefold path))))

abbrev pub key_of : Text → Option Text → Text
key_of ip none = codes "ip:" ++ ip
key_of ip (some mac) = codes "mac:" ++ mac

unfoldable pub client_key : Text → Option Text → Text
client_key ip mac = key_of ip (truthy mac)

unfoldable pub new_client : Text → Option Text → ℕ → Client
new_client ip mac now = record {
  ip = ip;
  mac = mac;
  first_seen_epoch = now;
  last_seen_epoch = now;
  last_path = none;
  last_status = none;
  profile = none;
  requests = 0;
  boots = 0;
  bytes_sent = 0;
}

-- the destination takes the activity of a source that was seen later
abbrev later_activity : Client → Client → Client
later_activity dest src =
    if ltb dest.last_seen_epoch src.last_seen_epoch
    then (record dest {
      last_seen_epoch = src.last_seen_epoch;
      last_path = src.last_path;
      last_status = src.last_status;
      profile = src.profile;
    })
    else if not (is_some dest.profile) && is_some src.profile
    then record dest { profile = src.profile }
    else dest

unfoldable pub merge_clients : Client → Client → Client
merge_clients destination source = record (later_activity destination source) {
  first_seen_epoch = min destination.first_seen_epoch source.first_seen_epoch;
  requests = destination.requests + source.requests;
  boots = destination.boots + source.boots;
  bytes_sent = destination.bytes_sent + source.bytes_sent;
}

abbrev pub or_new : Client → Option Client → Client
or_new fresh none = fresh
or_new fresh (some client) = client

abbrev pub merge_found : Client → Option Client → Client
merge_found client none = client
merge_found client (some anonymous) = merge_clients client anonymous

-- the accounting of a transfer that is still in flight moves to the identified device
abbrev rekey_request : Text → Text → Option Text → ActiveRequest → ActiveRequest
rekey_request anonymous_key key mac r =
    if r.client_key == anonymous_key
    then record r { saved = record r.saved { client_key = key; mac = mac } }
    else r

unfoldable pub rekey : Text → Text → Option Text → Dict ℕ ActiveRequest → Dict ℕ ActiveRequest
rekey anonymous_key key mac [] = []
rekey anonymous_key key mac ((id, r) ∷ d) =
    (id, rekey_request anonymous_key key mac r) ∷ rekey anonymous_key key mac d

abbrev pub rekey_found :
    Option Client → Text → Text → Option Text → Dict ℕ ActiveRequest → Dict ℕ ActiveRequest
rekey_found none anonymous_key key mac active = active
rekey_found (some anonymous) anonymous_key key mac active = rekey anonymous_key key mac active

-- the client of the request, and the table without the anonymous entry that it absorbs
abbrev pub Identified : Type 0
Identified = Client × Dict Text Client × Dict ℕ ActiveRequest

unfoldable pub identify : Text → Option Text → ℕ → Monitor → Identified
unfolding rekey client_key
identify ip mac now m =
    let key = client_key ip mac in
    let anonymous_key = client_key ip none in
    let anonymous = lookup anonymous_key m.clients in
    let clients = erase anonymous_key m.clients in
    let client = or_new (new_client ip mac now) (lookup key clients) in
    if is_some (truthy mac)
    then (
      merge_found client anonymous,
      clients,
      rekey_found anonymous anonymous_key key mac m.active,
    )
    else (or_new (new_client ip none now) (lookup key m.clients), m.clients, m.active)

abbrev pub or_else : Option Text → Option Text → Option Text
or_else none b = b
or_else (some a) b = some a

unfoldable pub seen_again : Text → Option Text → Text → ℕ → Client → Client
seen_again ip mac path now client = record client {
  ip = ip;
  mac = or_else (truthy mac) client.mac;
  last_seen_epoch = now;
  last_path = some path;
  profile = or_else (request_profile path) client.profile;
  requests = client.requests + 1;
}

unfoldable pub touch_client : Text → Option Text → Text → ℕ → Monitor → Monitor
unfolding identify seen_again insert_last trim
touch_client ip mac path now m =
    let (client, clients, active) = identify ip mac now m in
    record m {
      clients =
          trim m.max_clients
            (insert_last (client_key ip mac) (seen_again ip mac path now client) clients);
      active = active;
    }

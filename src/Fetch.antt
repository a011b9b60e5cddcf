-- ===== src/Fetch.antt =====
-- The central configuration: `validate` and `fetch` of
-- overlay/usr/local/lib/thinclient/configfetch.py. What curl, openssl, the URL parser and the disk
-- answer is a record; each of their failures is an exception that `fetch` catches.
pub mod Gate
mod Tests
use thinclient.Prelude.{
  Bool, true, false, not, ◌&&◌, ◌||◌, Option, none, some, List, [], ◌∷◌, ◌++◌, any, ◌==◌,
  compare_texts, nat_eq, if◌then◌else◌, pos,
}
use thinclient.Text.{Text, codes, is_empty, starts_with}
use thinclient.Dict.{Dict, lookup}
use thinclient.Value.{
  Value, null, bool, int, float, whole, str, arr, obj, nil, end, is_true, object?, list?,
}
use thinclient.Config.Connections.{Raw, get}

pub data Refusal : Type 0 where
  not_schema_1 : Refusal
  wrong_shape : Refusal
  connection_not_object : Refusal
  legacy_security : Refusal
  unverified_certificates : Refusal
  stored_password : Refusal
  unhashed_password : Refusal

-- value == 1, as Python compares numbers
abbrev pub is_one : Value → Bool
is_one (int (pos n)) = nat_eq n 1
is_one (bool b) = b
is_one (float (whole (pos n))) = nat_eq n 1
is_one _ = false

abbrev is_text : Text → Value → Bool
is_text t (str s) = s == t
is_text t _ = false

abbrev is_hashed : Value → Bool
is_hashed (str s) = starts_with (codes "pbkdf2-sha256$") s
is_hashed _ = false

abbrev refuse_when : Bool → Refusal → List Refusal
refuse_when b r = if b then r ∷ [] else []

-- The errors of a production policy, without repetition, in the order of their messages.
unfoldable pub production_refusals : Raw → List Raw → List Refusal
unfolding get
production_refusals device connections =
    refuse_when
      (any (λ c. is_text (codes "rdp") (get "security" (str (codes "auto")) c)) connections)
      legacy_security
    ++ refuse_when
        (any (λ c. not (is_text (codes "strict") (get "cert_policy" (str (codes "strict")) c)))
          connections)
        unverified_certificates
    ++ refuse_when (any (λ c. is_true (get "password" null c)) connections) stored_password
    ++ refuse_when (not (is_hashed (get "admin_password" (str []) device))) unhashed_password

-- the elements, if each is an object
abbrev all_objects : List Value → Option (List Raw)
all_objects [] = some []
all_objects (v ∷ vs) = join (object? v) (all_objects vs)
  where
    join : Option Raw → Option (List Raw) → Option (List Raw)
    join (some raw) (some raws) = some (raw ∷ raws)
    join _ _ = none

validate_connections : Raw → Option (List Raw) → Bool → List Refusal
unfolding production_refusals
validate_connections device none production = connection_not_object ∷ []
validate_connections device (some connections) production =
    if production then production_refusals device connections else []

validate_parts : Option Raw → Option (List Value) → Bool → List Refusal
unfolding validate_connections
validate_parts (some device) (some vs) production =
    validate_connections device (all_objects vs) production
validate_parts _ _ production = wrong_shape ∷ []

validate_object : Option Raw → Bool → List Refusal
unfolding validate_parts get
validate_object none production = not_schema_1 ∷ []
validate_object (some raw) production =
    if is_one (get "schema" (int (pos 1)) raw)
    then validate_parts (object? (get "device" (obj nil) raw))
        (list? (get "connections" (arr end) raw)) production
    else not_schema_1 ∷ []

unfoldable pub validate : Value → Bool → List Refusal
unfolding validate_object
validate document production = validate_object (object? document) production

abbrev pub none_refused : List Refusal → Bool
none_refused [] = true
none_refused (_ ∷ _) = false

-- policy.json
pub record Policy : Type 0 where
  pub config_url : Text
  pub config_required : Bool
  pub has_public_key : Bool
  pub require_https : Bool
  pub production : Bool

-- the result of `urllib.parse.urlsplit`
pub record Address : Type 0 where
  pub scheme : Text
  pub has_hostname : Bool
  pub has_credentials : Bool

-- What the outside answers. The bytes that were downloaded are decoded twice: by `json.loads`, which
-- knows a byte order mark and UTF-16, and, once they are kept, by `read_json` as a text in UTF-8.
pub record Outside : Type 0 where
  pub urlsplit : Text → Option Address
  pub has_media : Bool
  pub payload_downloaded : Bool
  pub signature_downloaded : Bool
  pub signature_verified : Bool
  pub payload : Option Value
  pub payload_reread : Option Value
  pub remote_written : Bool

pub data State : Type 0 where
  local : State
  current : State
  stale : State
  unavailable : State

pub data Origin : Type 0 where
  factory : Origin
  media : Origin
  central : Origin
  last_known_good : Origin

-- config-status.json, and beside it what `read_json` makes of remote-config.json
pub record Status : Type 0 where
  pub state : State
  pub source : Origin
  pub is_rejected : Bool
  pub required : Bool
  pub authenticated : Bool
  pub remote : Option Value

unfoldable pub decoded : Option Value → Policy → Outside → Address → Option (Value × Bool)
unfolding validate
decoded none p o a = none
decoded (some v) p o a =
    if none_refused (validate v p.production) && o.remote_written
    then some (v, p.has_public_key || (a.scheme == codes "https"))
    else none

-- The body of the `try` once there is a URL: what was fetched and whether it is authenticated;
-- none is an exception.
unfoldable pub retrieve : Policy → Outside → Option Address → Option (Value × Bool)
unfolding decoded
retrieve p o none = none
retrieve p o (some a) =
    let usable =
      ((a.scheme == codes "http") || (a.scheme == codes "https"))
      && a.has_hostname
      && not a.has_credentials in
    let secure = not p.require_https || (a.scheme == codes "https") in
    let signed = not p.has_public_key || (o.signature_downloaded && o.signature_verified) in
    if usable && secure && o.payload_downloaded && signed then decoded o.payload p o a else none

abbrev pub is_good : Option Value → Bool → Bool
is_good none production = false
is_good (some v) production = none_refused (validate v production)

-- the status that the attempt starts from
abbrev pub begun : Policy → Outside → Status → Status
begun p o s = record s {
  state = local;
  source = if o.has_media then media else factory;
  is_rejected = false;
  required = p.config_required;
}

-- the `except` clause
unfoldable pub fall_back : Policy → Status → Status
unfolding validate
fall_back p s =
    if is_good s.remote p.production
    then record s { state = stale; source = last_known_good; is_rejected = true }
    else record s { state = unavailable; is_rejected = true }

unfoldable pub conclude : Policy → Outside → Status → Option (Value × Bool) → Status
unfolding fall_back
conclude p o s none = fall_back p s
conclude p o s (some (v, authentic)) = record s {
  state = current;
  source = central;
  is_rejected = false;
  authenticated = authentic;
  remote = o.payload_reread;
}

-- the ValueError of a required configuration, or the early return
unfoldable pub without_url : Bool → Policy → Status → Status
unfolding fall_back
without_url true p s = fall_back p s
without_url false p s = s

unfoldable pub fetch : Text → Policy → Outside → Status → Status
unfolding conclude retrieve without_url
fetch given p o s =
    let url = if is_empty p.config_url then given else p.config_url in
    if is_empty url
    then without_url p.config_required p (begun p o s)
    else conclude p o (begun p o s) (retrieve p o (o.urlsplit url))

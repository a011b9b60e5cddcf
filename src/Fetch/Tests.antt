-- ===== src/Fetch/Tests.antt =====
-- A signed configuration fetched once.
use thinclient.Prelude.{◌≡◌, refl, true, false, Option, none, some, [], ◌∷◌}
use thinclient.Text.{Text, codes, is_empty}
use thinclient.Value.{Value, str, obj, arr, item, end, field, nil}
use thinclient.Fetch.{
  Policy, Outside, Address, Status, local, current, stale, unavailable, factory, validate, fetch,
  stored_password, unhashed_password,
}
use thinclient.Fetch.Gate.{Holds, fetch-Holds}

abbrev document : Value
document = obj (
    field (codes "connections")
      (arr (item (obj (field (codes "password") (str (codes "x")) nil)) end)) nil)

abbrev policy : Policy
policy = record {
  config_url = codes "https://c/x.json";
  config_required = true;
  has_public_key = true;
  require_https = false;
  production = false;
}

-- a parser that knows one address
abbrev parse : Text → Option Address
parse url =
    some (record { scheme = codes "https"; has_hostname = true; has_credentials = is_empty url })

abbrev outside : Outside
outside = record {
  urlsplit = parse;
  has_media = false;
  payload_downloaded = true;
  signature_downloaded = true;
  signature_verified = true;
  payload = some document;
  payload_reread = some document;
  remote_written = true;
}

abbrev first_boot : Status
first_boot = record {
  state = local;
  source = factory;
  is_rejected = false;
  required = false;
  authenticated = false;
  remote = none;
}

refused_in_production : validate document true ≡ stored_password ∷ unhashed_password ∷ []
unfolding validate
refused_in_production = refl

fetched :
    ((fetch [] policy outside first_boot).state ≡ current)
    × ((fetch [] policy (record outside { signature_verified = false }) first_boot).state
        ≡ unavailable)
    × ((fetch [] policy
          (record outside { payload_downloaded = false })
          (record first_boot { remote = some document })).state
        ≡ stale)
unfolding fetch
fetched = (refl, refl, refl)

-- A document with a byte order mark is reported as current although the kept file cannot be read.
current_unread :
    ((fetch [] policy (record outside { payload_reread = none }) first_boot).state ≡ current)
    × ((fetch [] policy (record outside { payload_reread = none }) first_boot).remote ≡ none)
unfolding fetch
current_unread = (refl, refl)

fetch-Holds_example :
    Holds policy outside
      (fetch [] policy outside first_boot)
      (fetch [] policy outside first_boot).state
fetch-Holds_example = fetch-Holds [] policy outside first_boot

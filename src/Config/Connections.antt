-- ===== src/Config/Connections.antt =====
-- `_normalise_connection`: one entry of "connections" as the program uses it.
use thinclient.Prelude.{
  ℕ, Bool, true, false, not, ◌&&◌, Option, none, some, List, [], ◌∷◌, ◌==◌, compare_texts,
  if◌then◌else◌, pos, String,
}
use thinclient.Text.{Text, codes, strip, is_empty}
use thinclient.Dict.{Dict, lookup}
use thinclient.Value.{Value, null, bool, int, str, arr, end, list?}
use thinclient.Config.{
  Connection, vnc_default_port, rdp_default_port, protocols, cert_policies, securities, codecs,
  networks,
}
use thinclient.Config.Fields.{string, boolean, bounded_int, spelling, enum, display, among}

abbrev pub Raw : Type 0
Raw = Dict Text Value

abbrev pub value_or : Value → Option Value → Value
value_or default none = default
value_or default (some v) = v

-- `conn.get(key)` once the defaults are updated by the entry
unfoldable pub get : String → Value → Raw → Value
unfolding lookup
get key default raw = value_or default (lookup (codes key) raw)

unfoldable pub text_field : String → String → Raw → Text
unfolding get string
text_field key default raw = string (get key (str (codes default)) raw) (codes default) true

unfoldable pub flag : String → Bool → Raw → Bool
unfolding get boolean
flag key default raw = boolean (get key (bool default) raw) default

unfoldable pub choice : String → String → List Text → Raw → Text
unfolding get enum
choice key default choices raw = enum (get key (str (codes default)) raw) (codes default) choices

-- not in (None, "")
abbrev is_supplied : Value → Bool
is_supplied null = false
is_supplied (str s) = not (is_empty s)
is_supplied _ = true

-- An explicit but unknown certificate policy becomes the strict one.
unfoldable pub policy_default : Value → Text
unfolding spelling
policy_default supplied =
    if is_supplied supplied && not (among (spelling supplied) cert_policies)
    then codes "strict"
    else codes "strict"

unfoldable pub cert_policy : Raw → Text
unfolding get enum policy_default
cert_policy raw =
    enum (get "cert_policy" (str (codes "strict")) raw)
      (policy_default (get "cert_policy" null raw)) cert_policies

unfoldable pub arguments : List Value → List Text
unfolding strip
arguments [] = []
arguments (str s ∷ vs) =
    let rest = arguments vs in if is_empty (strip s) then rest else strip s ∷ rest
arguments (_ ∷ vs) = arguments vs

abbrev pub arguments_of : Option (List Value) → List Text
arguments_of none = []
arguments_of (some vs) = arguments vs

unfoldable pub extra_args : Raw → List Text
unfolding get arguments
extra_args raw = arguments_of (list? (get "extra_args" (arr end) raw))

unfoldable pub default_port : Text → ℕ
default_port protocol = if protocol == codes "vnc" then vnc_default_port else rdp_default_port

unfoldable pub normalise_connection : Raw → Connection
unfolding text_field flag choice cert_policy extra_args default_port display bounded_int
normalise_connection raw = record {
  id = text_field "id" "" raw;
  name = text_field "name" "" raw;
  group = text_field "group" "Connections" raw;
  description = text_field "description" "" raw;
  protocol = choice "protocol" "rdp" protocols raw;
  host = text_field "host" "" raw;
  port =
      bounded_int (get "port" null raw) (default_port (choice "protocol" "rdp" protocols raw)) 1
        65535;
  username = text_field "username" "" raw;
  domain = text_field "domain" "" raw;
  password = string (get "password" (str []) raw) [] false;
  prompt_credentials = flag "prompt_credentials" true raw;
  gateway = text_field "gateway" "" raw;
  gateway_username = text_field "gateway_username" "" raw;
  gateway_domain = text_field "gateway_domain" "" raw;
  app = text_field "app" "" raw;
  display = display (get "display" (str (codes "fullscreen")) raw);
  cert_policy = cert_policy raw;
  security = choice "security" "auto" securities raw;
  gfx = choice "gfx" "auto" codecs raw;
  network = choice "network" "auto" networks raw;
  audio_out = flag "audio_out" true raw;
  audio_in = flag "audio_in" true raw;
  redirect_clipboard = flag "redirect_clipboard" true raw;
  redirect_usb_storage = flag "redirect_usb_storage" true raw;
  redirect_usb_devices = flag "redirect_usb_devices" false raw;
  redirect_smartcard = flag "redirect_smartcard" true raw;
  redirect_printers = flag "redirect_printers" true raw;
  auto_reconnect = flag "auto_reconnect" true raw;
  reconnect_delay = bounded_int (get "reconnect_delay" (int (pos 5)) raw) 5 2 120;
  extra_args = extra_args raw;
}

-- ===== src/Config/Layers.antt =====
-- `_normalise_device` and `load`: the layers of configuration merged in order, then the policy that
-- blocks every connection until the configuration from the network is there.
use thinclient.Prelude.{
  Bool, true, false, not, ◌&&◌, ◌||◌, Option, none, some, List, [], ◌∷◌, map, is_some, ◌==◌,
  compare_texts, if◌then◌else◌, pos, String,
}
use thinclient.Text.{Text, codes, is_empty}
use thinclient.Dict.{lookup}
use thinclient.Value.{Value, null, bool, int, str, is_true, object?, list?}
use thinclient.Config.{Device, Connection, device_defaults}
use thinclient.Config.Fields.{string, boolean, bounded_int, among}
use thinclient.Config.Connections.{Raw, get, normalise_connection}
use thinclient.Config.Ids.{assign_connection_ids}

-- `merged`: the previous device updated by the layer's, normalised with the previous as fallback
unfoldable pub normalise_device : Device → Raw → Device
unfolding get string boolean bounded_int
normalise_device previous raw = record {
  hostname_prefix =
      string (get "hostname_prefix" (str previous.hostname_prefix) raw) previous.hostname_prefix
        true;
  keyboard_layout =
      string (get "keyboard_layout" (str previous.keyboard_layout) raw) previous.keyboard_layout
        true;
  keyboard_variant =
      string (get "keyboard_variant" (str previous.keyboard_variant) raw) previous.keyboard_variant
        true;
  timezone = string (get "timezone" (str previous.timezone) raw) previous.timezone true;
  ntp_server = string (get "ntp_server" (str previous.ntp_server) raw) previous.ntp_server true;
  screen_blank_minutes =
      bounded_int (get "screen_blank_minutes" (int (pos previous.screen_blank_minutes)) raw)
        previous.screen_blank_minutes 0 180;
  resolution = string (get "resolution" (str previous.resolution) raw) previous.resolution true;
  admin_password =
      string (get "admin_password" (str previous.admin_password) raw) previous.admin_password false;
  auto_connect =
      string (get "auto_connect" (str previous.auto_connect) raw) previous.auto_connect true;
  allow_settings =
      boolean (get "allow_settings" (bool previous.allow_settings) raw) previous.allow_settings;
  allow_console =
      boolean (get "allow_console" (bool previous.allow_console) raw) previous.allow_console;
  allow_terminal =
      boolean (get "allow_terminal" (bool previous.allow_terminal) raw) previous.allow_terminal;
  session_bar = boolean (get "session_bar" (bool previous.session_bar) raw) previous.session_bar;
  show_ip = boolean (get "show_ip" (bool previous.show_ip) raw) previous.show_ip;
}

-- what `json.load` makes of a file; none where the file is missing or is not JSON
abbrev pub File : Type 0
File = Option Value

-- `_read`: an object, or nothing
abbrev pub read : File → Option Raw
read none = none
read (some v) = object? v

abbrev pub object_at : Option Value → Option Raw
object_at none = none
object_at (some v) = object? v

abbrev pub list_at : Option Value → Option (List Value)
list_at none = none
list_at (some v) = list? v

abbrev pub update_device : Device → Option Raw → Device
update_device device none = device
update_device device (some raw) = normalise_device device raw

abbrev pub update_connections : List Value → Option (List Value) → List Value
update_connections vs none = vs
update_connections vs (some new) = new

-- `cfg` while the layers are merged
pub record Merged : Type 0 where
  pub merged_device : Device
  pub raw_connections : List Value

abbrev pub nothing_read : Merged
nothing_read = record { merged_device = device_defaults; raw_connections = [] }

abbrev pub add_layer : Merged → Option Raw → Merged
add_layer m none = m
add_layer m (some layer) = record {
  merged_device = update_device m.merged_device (object_at (lookup (codes "device") layer));
  raw_connections =
      update_connections m.raw_connections (list_at (lookup (codes "connections") layer));
}

unfoldable pub merge : Merged → List File → Merged
unfolding normalise_device lookup
merge m [] = m
merge m (file ∷ files) = merge (add_layer m (read file)) files

abbrev pub with_entry : Option Raw → List Connection → List Connection
with_entry none cs = cs
with_entry (some raw) cs = normalise_connection raw ∷ cs

-- the entries that are objects, normalised
abbrev pub normalised : List Value → List Connection
normalised [] = []
normalised (v ∷ vs) = with_entry (object? v) (normalised vs)

abbrev pub name_connection : Connection → Connection
name_connection c =
    if is_empty c.name then record c { name = if is_empty c.host then c.id else c.host } else c

abbrev pub ids : List Connection → List Text
ids cs = map (λ c. c.id) cs

pub record Configuration : Type 0 where
  pub device : Device
  pub connections : List Connection
  pub configuration_blocked : Bool

abbrev pub settle : Device → List Connection → Configuration
settle d cs = record {
  device = if among d.auto_connect (ids cs) then d else record d { auto_connect = [] };
  connections = cs;
  configuration_blocked = false;
}

-- what follows the loop over the layers
unfoldable pub settle_merged : Merged → Configuration
unfolding assign_connection_ids normalise_connection
settle_merged m =
    settle m.merged_device
      (map name_connection (assign_connection_ids (normalised m.raw_connections)))

-- what `load` makes of the layers before it looks at the policy
unfoldable pub load_layers : List File → Configuration
unfolding merge settle_merged
load_layers files = settle_merged (merge nothing_read files)

-- the files beside the layers, and whether policy.json exists
pub record Gate : Type 0 where
  pub policy : File
  pub policy_exists : Bool
  pub status : File

abbrev pub field_or_null : String → Option Raw → Value
field_or_null key none = null
field_or_null key (some raw) = get key null raw

-- status.get("state") in ("current", "stale")
abbrev pub is_usable : Value → Bool
is_usable (str s) = among s (codes "current" ∷ codes "stale" ∷ [])
is_usable _ = false

unfoldable pub is_blocked : Gate → Bool
unfolding get
is_blocked g =
    (not (is_some (read g.policy)) && g.policy_exists)
    || (is_true (field_or_null "config_required" (read g.policy))
        && not (is_usable (field_or_null "state" (read g.status))))

abbrev pub block : Configuration → Configuration
block cfg = record {
  device = record cfg.device { auto_connect = [] };
  connections = [];
  configuration_blocked = true;
}

-- `load()` of the machine's own layers
unfoldable pub load : List File → Gate → Configuration
unfolding load_layers is_blocked
load files g = let cfg = load_layers files in if is_blocked g then block cfg else cfg

unfoldable pub find : Text → List Connection → Option Connection
find name [] = none
find name (c ∷ cs) = if c.id == name then some c else find name cs

-- ===== src/Config/Saved.antt =====
-- A configuration that is saved and loaded again: `save` writes the device and the connections, and
-- the file is the last of the layers.
use thinclient.Prelude.{◌≤◌, ◌≡◌, refl, ap, [], ◌∷◌, arith, compare_texts, pos}
use thinclient.Text.{codes, strip}
use thinclient.Value.{bool, int, str, Fields, nil, field, entries}
use thinclient.Config.{Device}
use thinclient.Config.Connections.{Raw, get}
use thinclient.Config.Stable.{IsStripped, string_trimmed, bounded_int_self}
use thinclient.Config.Valid.{bounded_int-bounds}
use thinclient.Config.Layers.{normalise_device}

-- the dictionary of a device
abbrev pub device_raw : Device → Raw
device_raw d =
    (codes "hostname_prefix", str d.hostname_prefix)
    ∷ (codes "keyboard_layout", str d.keyboard_layout)
    ∷ (codes "keyboard_variant", str d.keyboard_variant)
    ∷ (codes "timezone", str d.timezone)
    ∷ (codes "ntp_server", str d.ntp_server)
    ∷ (codes "screen_blank_minutes", int (pos d.screen_blank_minutes))
    ∷ (codes "resolution", str d.resolution)
    ∷ (codes "admin_password", str d.admin_password)
    ∷ (codes "auto_connect", str d.auto_connect)
    ∷ (codes "allow_settings", bool d.allow_settings)
    ∷ (codes "allow_console", bool d.allow_console)
    ∷ (codes "allow_terminal", bool d.allow_terminal)
    ∷ (codes "session_bar", bool d.session_bar)
    ∷ (codes "show_ip", bool d.show_ip)
    ∷ []

pub record IsSettled (d : Device) : Type 0 where
  pub hostname_prefix_trimmed : IsStripped d.hostname_prefix
  pub keyboard_layout_trimmed : IsStripped d.keyboard_layout
  pub keyboard_variant_trimmed : IsStripped d.keyboard_variant
  pub timezone_trimmed : IsStripped d.timezone
  pub ntp_server_trimmed : IsStripped d.ntp_server
  pub resolution_trimmed : IsStripped d.resolution
  pub auto_connect_trimmed : IsStripped d.auto_connect
  pub blanking_le : d.screen_blank_minutes ≤ 180

-- A device with the form of a normalised one reads back as itself, whatever the layers before it
-- made of the device.
pub normalise_device-device_raw :
    (previous d : Device) → IsSettled d → normalise_device previous (device_raw d) ≡ d
unfolding normalise_device
normalise_device-device_raw previous d t = λ i. record {
  hostname_prefix = t.hostname_prefix_trimmed i;
  keyboard_layout = t.keyboard_layout_trimmed i;
  keyboard_variant = t.keyboard_variant_trimmed i;
  timezone = t.timezone_trimmed i;
  ntp_server = t.ntp_server_trimmed i;
  screen_blank_minutes =
      bounded_int_self d.screen_blank_minutes previous.screen_blank_minutes 0 180 (omega arith)
        t.blanking_le i;
  resolution = t.resolution_trimmed i;
  admin_password = d.admin_password;
  auto_connect = t.auto_connect_trimmed i;
  allow_settings = d.allow_settings;
  allow_console = d.allow_console;
  allow_terminal = d.allow_terminal;
  session_bar = d.session_bar;
  show_ip = d.show_ip;
}

pub normalise_device-IsSettled :
    (p : Device) (raw : Raw) → IsSettled p → IsSettled (normalise_device p raw)
unfolding normalise_device
normalise_device-IsSettled p raw t = record {
  hostname_prefix_trimmed =
      string_trimmed (get "hostname_prefix" (str p.hostname_prefix) raw) p.hostname_prefix
        t.hostname_prefix_trimmed;
  keyboard_layout_trimmed =
      string_trimmed (get "keyboard_layout" (str p.keyboard_layout) raw) p.keyboard_layout
        t.keyboard_layout_trimmed;
  keyboard_variant_trimmed =
      string_trimmed (get "keyboard_variant" (str p.keyboard_variant) raw) p.keyboard_variant
        t.keyboard_variant_trimmed;
  timezone_trimmed =
      string_trimmed (get "timezone" (str p.timezone) raw) p.timezone t.timezone_trimmed;
  ntp_server_trimmed =
      string_trimmed (get "ntp_server" (str p.ntp_server) raw) p.ntp_server t.ntp_server_trimmed;
  resolution_trimmed =
      string_trimmed (get "resolution" (str p.resolution) raw) p.resolution t.resolution_trimmed;
  auto_connect_trimmed =
      string_trimmed (get "auto_connect" (str p.auto_connect) raw) p.auto_connect
        t.auto_connect_trimmed;
  blanking_le =
      (bounded_int-bounds (get "screen_blank_minutes" (int (pos p.screen_blank_minutes)) raw)
        p.screen_blank_minutes 0 180 (omega arith) t.blanking_le).1;
}

pub forget_auto_connect : (d : Device) → IsSettled d → IsSettled (record d { auto_connect = [] })
unfolding strip
forget_auto_connect d t = record {
  hostname_prefix_trimmed = t.hostname_prefix_trimmed;
  keyboard_layout_trimmed = t.keyboard_layout_trimmed;
  keyboard_variant_trimmed = t.keyboard_variant_trimmed;
  timezone_trimmed = t.timezone_trimmed;
  ntp_server_trimmed = t.ntp_server_trimmed;
  resolution_trimmed = t.resolution_trimmed;
  auto_connect_trimmed = refl;
  blanking_le = t.blanking_le;
}

abbrev pub fields : Raw → Fields
fields [] = nil
fields ((k, v) ∷ raw) = field k v (fields raw)

pub entries-fields : (raw : Raw) → entries (fields raw) ≡ raw
entries-fields [] = refl
entries-fields ((k, v) ∷ raw) = ap (λ rest. (k, v) ∷ rest) (entries-fields raw)

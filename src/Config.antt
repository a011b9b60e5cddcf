-- ===== src/Config.antt =====
-- Configuration handling: overlay/usr/local/lib/thinclient/tcconfig.py. A normalised device and a
-- normalised connection are records of the keys that the program reads; keys beyond those are
-- carried along by the dictionaries and read by nobody.
pub mod Fields
pub mod Connections
pub mod Ids
pub mod Generated
pub mod Distinct
pub mod Layers
pub mod Valid
pub mod Stable
pub mod Renaming
pub mod Loaded
pub mod Gate
pub mod Saved
pub mod Reload
pub mod Roundtrip
pub mod Nmcli
mod Tests
use thinclient.Prelude.{ℕ, Bool, true, false, List, [], ◌∷◌}
use thinclient.Text.{Text, codes}

pub record Device : Type 0 where
  pub hostname_prefix : Text
  pub keyboard_layout : Text
  pub keyboard_variant : Text
  pub timezone : Text
  pub ntp_server : Text
  pub screen_blank_minutes : ℕ
  pub resolution : Text
  pub admin_password : Text
  pub auto_connect : Text
  pub allow_settings : Bool
  pub allow_console : Bool
  pub allow_terminal : Bool
  pub session_bar : Bool
  pub show_ip : Bool

abbrev pub device_defaults : Device
device_defaults = record {
  hostname_prefix = codes "thin";
  keyboard_layout = codes "us";
  keyboard_variant = [];
  timezone = codes "UTC";
  ntp_server = codes "pool.ntp.org";
  screen_blank_minutes = 0;
  resolution = codes "auto";
  admin_password = [];
  auto_connect = [];
  allow_settings = true;
  allow_console = false;
  allow_terminal = false;
  session_bar = true;
  show_ip = true;
}

pub record Connection : Type 0 where
  pub id : Text
  pub name : Text
  pub group : Text
  pub description : Text
  pub protocol : Text
  pub host : Text
  pub port : ℕ
  pub username : Text
  pub domain : Text
  pub password : Text
  pub prompt_credentials : Bool
  pub gateway : Text
  pub gateway_username : Text
  pub gateway_domain : Text
  pub app : Text
  pub display : Text
  pub cert_policy : Text
  pub security : Text
  pub gfx : Text
  pub network : Text
  pub audio_out : Bool
  pub audio_in : Bool
  pub redirect_clipboard : Bool
  pub redirect_usb_storage : Bool
  pub redirect_usb_devices : Bool
  pub redirect_smartcard : Bool
  pub redirect_printers : Bool
  pub auto_reconnect : Bool
  pub reconnect_delay : ℕ
  pub extra_args : List Text

abbrev pub vnc_default_port : ℕ
vnc_default_port = 5900

abbrev pub rdp_default_port : ℕ
rdp_default_port = 3389

-- CONNECTION_ENUMS
abbrev pub protocols : List Text
protocols = codes "rdp" ∷ codes "vnc" ∷ []

abbrev pub cert_policies : List Text
cert_policies = codes "ignore" ∷ codes "tofu" ∷ codes "strict" ∷ []

abbrev pub securities : List Text
securities = codes "auto" ∷ codes "nla" ∷ codes "tls" ∷ codes "rdp" ∷ []

abbrev pub codecs : List Text
codecs = codes "auto" ∷ codes "avc444" ∷ codes "avc420" ∷ codes "rfx" ∷ codes "none" ∷ []

abbrev pub networks : List Text
networks = codes "auto" ∷ codes "lan" ∷ codes "broadband" ∷ codes "modem" ∷ []

abbrev pub display_modes : List Text
display_modes = codes "fullscreen" ∷ codes "multimon" ∷ codes "window" ∷ []

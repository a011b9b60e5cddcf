-- ===== src/Command/Rdp.antt =====
-- `build_command`.
use thinclient.Prelude.{
  Bool, not, Option, none, some, List, [], ◌∷◌, ◌++◌, ◌&&◌, ◌||◌, ◌==◌, compare_texts,
  if◌then◌else◌, nat_eq, String,
}
use thinclient.Text.{Text, codes, strip, lower, is_empty, starts_with}
use thinclient.Dict.{Dict, lookup}
use thinclient.Config.{Connection, Device}
use thinclient.Config.Ids.{decimal}
use thinclient.Command.{
  Clients, Command, runs, not_installed, arguments_when, bracketed, extra_arguments, has_size,
}
use thinclient.Command.Vnc.{build_vnc_command, display_or_fullscreen}

-- lower case of a setting, or of the one that stands for an empty one
unfoldable pub setting_or : String → Text → Text
unfolding lower
setting_or default setting = lower (if is_empty setting then codes default else setting)

unfoldable pub rdp_target : Connection → Text
unfolding bracketed strip decimal
rdp_target c =
    let target = bracketed (strip c.host) in
    if not (nat_eq c.port 0) && not (nat_eq c.port 3389)
    then target ++ codes ":" ++ decimal c.port
    else target

-- an argument with a value, if there is one
abbrev pub optional : String → Text → List Text
optional prefix value = arguments_when (not (is_empty value)) ((codes prefix ++ value) ∷ [])

-- The secret that is used: the one that was typed in, even if it is empty, or else the stored one.
abbrev pub secret_of : Connection → Option Text → Text
secret_of c none = c.password
secret_of c (some password) = password

-- A blank line answers the prompt for the domain, if no domain is passed.
unfoldable pub stdin_answers : Connection → Text → Text
stdin_answers c secret = (if is_empty c.domain then codes "\n" else []) ++ secret ++ codes "\n"

unfoldable pub credential_arguments : Clients → Text → List Text
credential_arguments clients secret = arguments_when (not (is_empty secret)) (
    (if clients.supports_stdin_credentials then codes "/from-stdin" else codes "/p:" ++ secret)
    ∷ [])

unfoldable pub stdin_text : Clients → Connection → Text → Option Text
unfolding stdin_answers
stdin_text clients c secret =
    if not (is_empty secret) && clients.supports_stdin_credentials
    then some (stdin_answers c secret)
    else none

unfoldable pub rdp_display : Text → List Text
unfolding lower
rdp_display setting =
    let display = display_or_fullscreen setting in
    if display == codes "multimon"
    then codes "/f" ∷ codes "/multimon" ∷ []
    else if display == codes "fullscreen"
    then codes "/f" ∷ codes "+dynamic-resolution" ∷ []
    else if has_size display
    then (codes "/size:" ++ display) ∷ []
    else codes "/size:1280x800" ∷ []

unfoldable pub certificate_arguments : Text → List Text
unfolding setting_or
certificate_arguments setting =
    let policy = setting_or "strict" setting in
    if policy == codes "ignore"
    then codes "/cert:ignore" ∷ []
    else arguments_when (policy == codes "tofu") (codes "/cert:tofu" ∷ [])

unfoldable pub security_arguments : Text → List Text
unfolding setting_or
security_arguments setting =
    let security = setting_or "auto" setting in
    arguments_when (security == codes "nla" || security == codes "tls" || security == codes "rdp")
      ((codes "/sec:" ++ security) ∷ [])

unfoldable pub gateway_arguments : Connection → List Text
gateway_arguments c = arguments_when (not (is_empty c.gateway)) (
    (codes "/g:" ++ c.gateway) ∷ optional "/gu:" c.gateway_username
    ++ optional "/gd:" c.gateway_domain)

unfoldable pub gfx_arguments : Text → List Text
unfolding setting_or
gfx_arguments setting =
    let gfx = setting_or "auto" setting in
    if gfx == codes "auto"
    then codes "/gfx" ∷ []
    else if gfx == codes "avc444"
    then codes "/gfx:AVC444" ∷ []
    else if gfx == codes "avc420"
    then codes "/gfx:AVC420" ∷ []
    else if gfx == codes "rfx"
    then codes "/rfx" ∷ []
    else arguments_when (gfx == codes "none") (codes "-gfx" ∷ [])

unfoldable pub network_arguments : Text → List Text
unfolding setting_or
network_arguments setting =
    let network = setting_or "auto" setting in
    arguments_when
      (network == codes "auto"
        || network == codes "lan"
        || network == codes "broadband"
        || network == codes "modem")
      ((codes "/network:" ++ network) ∷ [])

unfoldable pub device_arguments : Connection → List Text
device_arguments c =
    (if c.redirect_clipboard then codes "+clipboard" else codes "-clipboard")
      ∷ (if c.audio_out
          then codes "/sound:sys:pulse" ∷ codes "/audio-mode:0" ∷ []
          else codes "/audio-mode:2" ∷ [])
    ++ arguments_when c.audio_in (codes "/microphone:sys:pulse" ∷ [])
    ++ arguments_when c.redirect_usb_storage (codes "/drive:USB,/media/tc" ∷ [])
    ++ arguments_when c.redirect_usb_devices (codes "/usb:auto" ∷ [])
    ++ arguments_when c.redirect_smartcard (codes "/smartcard" ∷ [])
    ++ arguments_when c.redirect_printers (codes "/printer" ∷ [])

unfoldable pub resilience_arguments : Connection → List Text
resilience_arguments c =
    arguments_when c.auto_reconnect
      (codes "+auto-reconnect" ∷ codes "/auto-reconnect-max-retries:20" ∷ [])
    ++ codes "+heartbeat" ∷ codes "/timeout:20000" ∷ []

abbrev pub keyboard_layout_ids : Dict Text Text
keyboard_layout_ids =
    (codes "us", codes "0x00000409")
    ∷ (codes "gb", codes "0x00000809")
    ∷ (codes "uk", codes "0x00000809")
    ∷ (codes "th", codes "0x0000041E")
    ∷ (codes "de", codes "0x00000407")
    ∷ (codes "fr", codes "0x0000040C")
    ∷ (codes "es", codes "0x0000040A")
    ∷ (codes "latam", codes "0x0000080A")
    ∷ (codes "it", codes "0x00000410")
    ∷ (codes "jp", codes "0x00000411")
    ∷ (codes "kr", codes "0x00000412")
    ∷ (codes "cn", codes "0x00000804")
    ∷ (codes "ru", codes "0x00000419")
    ∷ (codes "br", codes "0x00000416")
    ∷ []

abbrev pub layout_arguments : Text → Option Text → List Text
layout_arguments layout none =
    arguments_when (starts_with (codes "0x") layout) ((codes "/kbd:layout:" ++ layout) ∷ [])
layout_arguments layout (some id) = (codes "/kbd:layout:" ++ id) ∷ []

unfoldable pub keyboard_arguments : Device → List Text
unfolding strip lower lookup
keyboard_arguments d =
    let layout = lower (strip d.keyboard_layout) in
    layout_arguments layout (lookup layout keyboard_layout_ids)

unfoldable pub rdp_arguments : Clients → Connection → Device → Text → Bool → List Text
unfolding rdp_target credential_arguments rdp_display certificate_arguments security_arguments
    gateway_arguments gfx_arguments network_arguments device_arguments resilience_arguments
    keyboard_arguments extra_arguments
rdp_arguments clients c d secret debug =
    (codes "/v:" ++ rdp_target c) ∷ optional "/u:" c.username
    ++ optional "/d:" c.domain
    ++ credential_arguments clients secret
    ++ rdp_display c.display
    ++ certificate_arguments c.cert_policy
    ++ security_arguments c.security
    ++ gateway_arguments c
    ++ gfx_arguments c.gfx
    ++ network_arguments c.network
    ++ device_arguments c
    ++ resilience_arguments c
    ++ keyboard_arguments d
    ++ optional "/app:program:" c.app
    ++ (codes "/log-level:" ++ (if debug then codes "DEBUG" else codes "WARN"))
      ∷ extra_arguments c.extra_args

unfoldable pub run_rdp : Option Text → Clients → Connection → Device → Text → Bool → Command
unfolding rdp_arguments stdin_text
run_rdp none clients c d secret debug = not_installed
run_rdp (some binary) clients c d secret debug =
    runs (binary ∷ rdp_arguments clients c d secret debug) (stdin_text clients c secret)

unfoldable pub build_command : Clients → Connection → Device → Option Text → Bool → Command
unfolding setting_or build_vnc_command run_rdp
build_command clients c d password debug =
    if setting_or "rdp" c.protocol == codes "vnc"
    then build_vnc_command clients c debug
    else run_rdp clients.freerdp_binary clients c d (secret_of c password) debug

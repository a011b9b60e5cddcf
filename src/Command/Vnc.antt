-- ===== src/Command/Vnc.antt =====
-- `build_vnc_command`.
use thinclient.Prelude.{
  ℕ, Bool, Option, none, some, List, [], ◌∷◌, ◌++◌, ◌||◌, ◌==◌, compare_texts, if◌then◌else◌,
  nat_eq,
}
use thinclient.Text.{Text, codes, strip, lower, is_empty}
use thinclient.Config.{Connection, vnc_default_port}
use thinclient.Config.Ids.{decimal}
use thinclient.Command.{
  Clients, Command, runs, not_installed, arguments_when, bracketed, extra_arguments, has_size,
}

abbrev pub display_or_fullscreen : Text → Text
display_or_fullscreen display = lower (if is_empty display then codes "fullscreen" else display)

unfoldable pub vnc_display : Text → List Text
unfolding lower
vnc_display setting =
    let display = display_or_fullscreen setting in
    if display == codes "fullscreen" || display == codes "multimon"
    then codes "-FullScreen" ∷ []
    else arguments_when (has_size display) (codes "-geometry" ∷ display ∷ [])

quality_arguments : Text → Text → List Text
quality_arguments quality compression =
    codes "-QualityLevel" ∷ quality ∷ codes "-CompressLevel" ∷ compression ∷ []

unfoldable pub vnc_quality : Text → List Text
unfolding lower quality_arguments
vnc_quality setting =
    let network = lower (if is_empty setting then codes "auto" else setting) in
    if network == codes "lan"
    then quality_arguments (codes "9") (codes "0")
    else if network == codes "broadband"
    then quality_arguments (codes "6") (codes "2")
    else if network == codes "modem"
    then quality_arguments (codes "2") (codes "6")
    else []

-- int(conn.get("port") or VNC_DEFAULT_PORT)
abbrev vnc_port : ℕ → ℕ
vnc_port port = if nat_eq port 0 then vnc_default_port else port

unfoldable pub vnc_target : Connection → Text
unfolding bracketed strip decimal
vnc_target c = bracketed (strip c.host) ++ codes "::" ++ decimal (vnc_port c.port)

unfoldable pub vnc_arguments : Connection → Bool → List Text
unfolding vnc_target vnc_display vnc_quality extra_arguments
vnc_arguments c debug =
    vnc_target c ∷ vnc_display c.display
    ++ vnc_quality c.network
    ++ (codes "-Shared" ∷ codes "-AlertOnFatalError=0" ∷ codes "-ReconnectOnError=0" ∷ [])
    ++ arguments_when debug (codes "-Log=*:stderr:100" ∷ [])
    ++ extra_arguments c.extra_args

abbrev run_vnc : Option Text → List Text → Command
run_vnc none arguments = not_installed
run_vnc (some binary) arguments = runs (binary ∷ arguments) none

unfoldable pub build_vnc_command : Clients → Connection → Bool → Command
unfolding vnc_arguments
build_vnc_command clients c debug = run_vnc clients.vnc_binary (vnc_arguments c debug)

-- ===== src/Command/Tests.antt =====
-- The command line of one small connection.
use thinclient.Prelude.{ℕ, negsuc, ◌≡◌, refl, true, false, none, some, List, [], ◌∷◌, ◌++◌, pos}
use thinclient.Text.{codes, is_empty}
use thinclient.Value.{str, int, null, arr, item, end}
use thinclient.Config.{Connection, device_defaults}
use thinclient.Config.Fields.{spelling}
use thinclient.Config.Connections.{Raw, get, normalise_connection}
use thinclient.Command.{Clients, runs, extra_arguments}
use thinclient.Command.Rdp.{build_command, setting_or}
use thinclient.Command.Secrets.{argument_list, with_password, build_command_secret}
use thinclient.Command.Certificates.{
  about_certificates, arguments_of_policy, build_command-certificates,
}
use thinclient.Command.Failure.{occurs, explain_failure, exit_code, lines_from}
use thinclient.Command.Retry.{
  last_of, error_messages, explain_failure_credentials, explain_failure_unknown,
}

abbrev clients : Clients
clients = record {
  freerdp_binary = some (codes "xfreerdp3");
  vnc_binary = some (codes "vncviewer");
  supports_stdin_credentials = true;
}

abbrev entry : Raw
entry =
    (codes "host", str (codes "fd00::1"))
    ∷ (codes "port", int (pos 3390))
    ∷ (codes "cert_policy", str (codes " IGNORE "))
    ∷ []

abbrev lab : Connection
lab = normalise_connection entry

abbrev lab_vnc : Connection
lab_vnc = normalise_connection ((codes "protocol", str (codes "VNC")) ∷ entry)

vnc_runs :
    build_command clients lab_vnc device_defaults none false
    ≡ runs
        (codes "vncviewer"
          ∷ codes "[fd00::1]::3390"
          ∷ codes "-FullScreen"
          ∷ codes "-Shared"
          ∷ codes "-AlertOnFatalError=0"
          ∷ codes "-ReconnectOnError=0"
          ∷ [])
        none
unfolding build_command normalise_connection
vnc_runs = refl

rdp_runs :
    build_command clients lab device_defaults (some (codes "s")) false
    ≡ runs
        (codes "xfreerdp3"
          ∷ codes "/v:[fd00::1]:3390"
          ∷ codes "/from-stdin"
          ∷ codes "/f"
          ∷ codes "+dynamic-resolution"
          ∷ codes "/cert:ignore"
          ∷ codes "/gfx"
          ∷ codes "/network:auto"
          ∷ codes "+clipboard"
          ∷ codes "/sound:sys:pulse"
          ∷ codes "/audio-mode:0"
          ∷ codes "/microphone:sys:pulse"
          ∷ codes "/drive:USB,/media/tc"
          ∷ codes "/smartcard"
          ∷ codes "/printer"
          ∷ codes "+auto-reconnect"
          ∷ codes "/auto-reconnect-max-retries:20"
          ∷ codes "+heartbeat"
          ∷ codes "/timeout:20000"
          ∷ codes "/kbd:layout:0x00000409"
          ∷ codes "/log-level:WARN"
          ∷ [])
        (some (codes "\ns\n"))
unfolding build_command normalise_connection
rdp_runs = refl

build_command_secret_example :
    argument_list
      (build_command clients (with_password (codes "one") lab) device_defaults none false)
    ≡ argument_list
        (build_command clients (with_password [] lab) device_defaults (some (codes "two")) false)
build_command_secret_example =
    build_command_secret clients lab device_defaults (codes "one") [] none (some (codes "two"))
      false refl refl refl

abbrev lenient_entry : Raw
lenient_entry =
    (codes "extra_args", arr (item (str (codes "/cert:tofu")) (item (str (codes "/f")) end)))
    ∷ entry

build_command-certificates_example :
    about_certificates (
      argument_list
        (build_command clients (normalise_connection lenient_entry) device_defaults none true))
    ≡ arguments_of_policy (spelling (get "cert_policy" null lenient_entry))
      ++ about_certificates (extra_arguments (normalise_connection lenient_entry).extra_args)
unfolding normalise_connection setting_or
build_command-certificates_example =
    build_command-certificates clients (codes "xfreerdp3") lenient_entry device_defaults none true
      refl refl refl

two_policies :
    about_certificates (
      argument_list
        (build_command clients (normalise_connection lenient_entry) device_defaults none true))
    ≡ codes "/cert:ignore" ∷ codes "/cert:tofu" ∷ []
unfolding build_command normalise_connection
two_policies = refl

abbrev rejected_log : List ℕ
rejected_log =
    codes "[10:00:01] ERRCONNECT_CONNECT_TRANSPORT_FAILED\r\n[10:00:02] ERRCONNECT_LOGON_FAILURE\n"

abbrev dropped_log : List ℕ
dropped_log = codes "start\n[x] [ERROR][com]: - link lost -\r\n[INFO]: bye"

explains_drop : (explain_failure (some dropped_log) (pos 1)).message ≡ codes "link lost"
unfolding explain_failure
explains_drop = refl

explains_silence : (explain_failure none (negsuc 8)).message ≡ codes "exit code -9"
unfolding explain_failure
explains_silence = refl

explain_failure_credentials_example :
    (explain_failure (some rejected_log) (pos 131)).retryable ≡ false
unfolding occurs
explain_failure_credentials_example = explain_failure_credentials rejected_log (pos 131) refl

explain_failure_unknown_example :
    ((explain_failure (some dropped_log) (pos 1)).retryable ≡ true)
    × ((explain_failure (some dropped_log) (pos 1)).message
        ≡ last_of
            (codes "exit code " ++ exit_code (pos 1))
            (error_messages (lines_from false [] dropped_log)))
    × (is_empty (explain_failure (some dropped_log) (pos 1)).message ≡ false)
unfolding occurs
explain_failure_unknown_example = explain_failure_unknown dropped_log (pos 1) refl

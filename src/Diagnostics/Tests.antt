-- ===== src/Diagnostics/Tests.antt =====
-- The diagnostics on a small network.
use thinclient.Prelude.{
  ℕ, ◌≡◌, refl, true, false, none, some, List, [], ◌∷◌, if◌then◌else◌, ◌==◌, compare_texts,
}
use thinclient.Text.{Text, codes}
use thinclient.Value.{str}
use thinclient.Config.{Connection}
use thinclient.Config.Connections.{Raw, normalise_connection}
use thinclient.Rdp.Transport.{hand_over}
use thinclient.Diagnostics.{
  Names, Network, Ran, ran, timed_out, connected, refused, passed, failed_with,
}
use thinclient.Diagnostics.Endpoint.{endpoint, invalid, split_endpoint, Target, normalize_target}
use thinclient.Diagnostics.Checks.{check_dns}
use thinclient.Diagnostics.Service.{check_protocol}
use thinclient.Diagnostics.Report.{Local, Findings}
use thinclient.Diagnostics.Preflight.{connects, run_preflight, connection_preflight}
use thinclient.Diagnostics.Valid.{IsTarget, normalize_target-IsTarget}
use thinclient.Diagnostics.Resolved.{IsResolved, check_dns-IsResolved}
use thinclient.Diagnostics.Agreement.{AreSame, run_preflight-AreSame}

abbrev names : Names
names = record {
  ip_address = λ s. if s == codes "10.0.0.7" then some s else none;
  is_ipv6_address = λ s. false;
  idna = λ s. some s;
}

abbrev answers : List Text → Ran
answers (command ∷ arguments) =
    if command == codes "/usr/bin/getent"
    then ran true (codes "10.0.0.7 STREAM desk\n10.0.0.7 DGRAM\nfe80 RAW\n") []
    else timed_out
answers [] = timed_out

abbrev banner : List ℕ
banner = codes "RFB 003.008\n"

abbrev office : Network
office = record {
  names = names;
  runner = answers;
  json_loads = λ s. none;
  connector = λ host port. refused (codes "Connection refused\n") (codes "ConnectionRefusedError");
  reconnector = λ host port.
      connected (record { incoming = banner; deliveries = hand_over 5 ∷ hand_over 7 ∷ [] });
  fault_message = [];
  fault_class = codes "OSError";
}

abbrev desk_entry : Raw
desk_entry =
    (codes "host", str (codes "Desk.example."))
    ∷ (codes "protocol", str (codes "vnc"))
    ∷ (codes "name", str (codes "The desk"))
    ∷ []

abbrev desk : Connection
desk = normalise_connection desk_entry

abbrev target : Target
target = record {
  target_name = codes "The desk";
  target_protocol = codes "vnc";
  target_host = codes "desk.example";
  target_port = 5900;
  via_gateway = false;
  configured_host = codes "desk.example";
  configured_port = 5900;
}

endpoints :
    (split_endpoint names 443 true (codes " 10.0.0.7:8443") ≡ endpoint (codes "10.0.0.7") 8443)
    × (split_endpoint names 443 false (codes "desk:8443")
        ≡ invalid (codes "put the server port in the Port field"))
    × (split_endpoint names 443 true (codes "desk:0")
        ≡ invalid (codes "server port must be between 1 and 65535"))
    × (split_endpoint names 443 true (codes "-desk") ≡ invalid (codes "invalid server hostname"))
    × (split_endpoint names 443 true (codes "http://desk")
        ≡ invalid (codes "enter a hostname or IP address, not a URL"))
    × (split_endpoint names 443 true (codes "[::1")
        ≡ invalid (codes "invalid bracketed IPv6 address"))
unfolding split_endpoint
endpoints = (refl, refl, refl, refl, refl, refl)

greeting : check_protocol office target ≡ some (passed (codes "RFB 003.008"))
unfolding check_protocol
greeting = refl

normalize_target-IsTarget_example : IsTarget names desk target
unfolding normalize_target normalise_connection
normalize_target-IsTarget_example = normalize_target-IsTarget names desk target refl

check_dns-IsResolved_example : IsResolved office.names (check_dns office (codes "desk.example"))
check_dns-IsResolved_example = check_dns-IsResolved office (codes "desk.example")

abbrev local : Local
local = record { local_interface = codes "eth0"; local_address = codes "10.0.0.3/24" }

run_preflight-AreSame_example :
    AreSame
      (connection_preflight office desk)
      (run_preflight office local (codes "10.0.0.1") desk).1
run_preflight-AreSame_example = run_preflight-AreSame office local (codes "10.0.0.1") desk

abbrev findings : Findings
findings = record {
  target = target;
  local = local;
  default_gateway = codes "10.0.0.1";
  ping = failed_with (codes "timed out");
  dns = passed (codes "10.0.0.7");
  tcp = failed_with (codes "Connection refused");
  route = some (failed_with (codes "route lookup timed out"));
  protocol =
      some (record { ok = false; detail = codes "skipped because TCP failed"; skipped = true });
}

one_contact :
    (run_preflight office local (codes "10.0.0.1") desk).0
    ≡ connects (codes "10.0.0.7") target.target_port ∷ []
unfolding run_preflight normalise_connection
one_contact = refl

-- ===== src/Diagnostics/Preflight.antt =====
-- `run_preflight`, whose report is the findings, formatted, and `connection_preflight` of
-- overlay/usr/local/lib/thinclient/manager.py, which does the first of the same checks before a
-- session starts.
use thinclient.Prelude.{
  ℕ, Bool, true, false, Option, none, some, List, [], ◌∷◌, ◌++◌, if◌then◌else◌,
}
use thinclient.Text.{Text, codes, is_empty}
use thinclient.Config.{Connection}
use thinclient.Config.Ids.{decimal}
use thinclient.Diagnostics.{Network, Check, failed_with}
use thinclient.Diagnostics.Endpoint.{
  Target, Normalized, normalized, unusable, clean_label, normalize_target,
}
use thinclient.Diagnostics.Checks.{Resolved, check_dns, check_ping, check_tcp, check_route, or_text}
use thinclient.Diagnostics.Service.{check_protocol}
use thinclient.Diagnostics.Report.{Local, Findings}

abbrev pub first_or : Text → List Text → Text
first_or host [] = host
first_or host (a ∷ others) = a

-- the address that is tried
abbrev pub tried_address : Text → Resolved → Text
tried_address host (dns, addresses) = if dns.ok then first_or host addresses else []

-- A connection that is opened: by the check of the port, and by the handshake of the protocol.
pub data Contact : Type 0 where
  connects : Text → ℕ → Contact
  shakes_hands : Text → ℕ → Contact

-- a result, after the contacts that were made for it
abbrev pub Traced {ℓ} : Type ℓ → Type ℓ
Traced A = List Contact × A

-- the check of the port, if the name resolved
unfoldable pub tcp_if : Bool → Network → Text → ℕ → Traced Check
unfolding check_tcp
tcp_if true net address port = (connects address port ∷ [], check_tcp net address port)
tcp_if false net address port = ([], failed_with (codes "skipped because DNS failed"))

abbrev pub skipped_protocol : Check
skipped_protocol = record {
  ok = false;
  detail = codes "skipped because TCP failed";
  skipped = true;
}

-- `check_protocol` opens no connection of its own for a gateway
abbrev pub protocol_contacts : Target → List Contact
protocol_contacts t = if t.via_gateway then [] else shakes_hands t.target_host t.target_port ∷ []

-- the handshake, if the port answered
unfoldable pub protocol_if : Bool → Network → Target → Traced (Option Check)
unfolding check_protocol
protocol_if true net t = (protocol_contacts t, check_protocol net t)
protocol_if false net t = ([], some skipped_protocol)

abbrev pub route_outcome : Network → Text → Check
route_outcome net address =
    if is_empty address
    then failed_with (codes "skipped because DNS failed")
    else (check_route net address).0

abbrev pub with_findings : Option Check → Findings → Option Findings
with_findings none f = none
with_findings (some c) f = some (record f { protocol = some c })

abbrev pub at_address : Target → Text → Target
at_address t address = if is_empty address then t else record t { target_host = address }

-- the outcomes of all checks but the last, once the name has been looked up
abbrev pub first_findings : Network → Local → Text → Target → Resolved → Check → Findings
first_findings net local gateway t r tcp = record {
  target = t;
  local = local;
  default_gateway = gateway;
  ping = check_ping net gateway;
  dns = r.0;
  tcp = tcp;
  route = some (route_outcome net (tried_address t.target_host r));
  protocol = none;
}

-- the checks of a target; none is an exception
unfoldable pub checks : Network → Local → Text → Target → Resolved → Traced (Option Findings)
unfolding check_route check_ping tcp_if protocol_if
checks net local gateway t r =
    let address = tried_address t.target_host r in
    let tcp = tcp_if r.0.ok net address t.target_port in
    let protocol = protocol_if tcp.1.ok net (at_address t address) in
    (tcp.0 ++ protocol.0, with_findings protocol.1 (first_findings net local gateway t r tcp.1))

abbrev refused_target : Text → Target
refused_target name = record {
  target_name = name;
  target_protocol = [];
  target_host = [];
  target_port = 0;
  via_gateway = false;
  configured_host = [];
  configured_port = 0;
}

abbrev pub refused_check : Text → Check
refused_check message = failed_with (codes "invalid target: " ++ message)

abbrev pub nothing_tested : Connection → Text → Findings
nothing_tested c message = record {
  target = refused_target (clean_label c.name);
  local = record { local_interface = []; local_address = [] };
  default_gateway = [];
  ping = refused_check message;
  dns = refused_check message;
  tcp = refused_check message;
  route = none;
  protocol = none;
}

abbrev pub preflight_of :
    Network → Local → Text → Connection → Normalized → Traced (Option Findings)
preflight_of net local gateway c (unusable message) = ([], some (nothing_tested c message))
preflight_of net local gateway c (normalized t) =
    checks net local gateway t (check_dns net t.target_host)

-- with what `check_local_network` answers; the report is the findings, formatted
unfoldable pub run_preflight : Network → Local → Text → Connection → Traced (Option Findings)
unfolding checks normalize_target check_dns clean_label
run_preflight net local gateway c = preflight_of net local gateway c (normalize_target net.names c)

-- How many stages are shown, and the message of the failure.
abbrev pub Preflight : Type 0
Preflight = ℕ × Option Text

abbrev pub tcp_verdict : Target → Check → Preflight
tcp_verdict t c = if c.ok then (2, none) else (
  2,
  some (
      t.target_name
      ++ codes " did not respond on port "
      ++ decimal t.target_port
      ++ codes ": "
      ++ or_text c.detail (codes "connection failed")
      ++ codes ". Check the server, firewall, and network route."),
)

abbrev pub dns_verdict : Network → Target → Resolved → Preflight
dns_verdict net t (dns, addresses) =
    if dns.ok
    then tcp_verdict t (check_tcp net (first_or t.target_host addresses) t.target_port)
    else (
      1,
      some (
          codes "The server name could not be resolved: "
          ++ or_text dns.detail (codes "name not found")
          ++ codes ". Check DNS or the address in Admin > Settings."),
    )

abbrev pub target_verdict : Network → Normalized → Preflight
target_verdict net (unusable message) =
    (0, some (codes "Server settings are incomplete: " ++ message))
target_verdict net (normalized t) = dns_verdict net t (check_dns net t.target_host)

unfoldable pub connection_preflight : Network → Connection → Preflight
unfolding normalize_target check_dns check_tcp decimal
connection_preflight net c = target_verdict net (normalize_target net.names c)

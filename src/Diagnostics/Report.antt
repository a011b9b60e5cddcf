-- ===== src/Diagnostics/Report.antt =====
-- `format_network_report`: what the checks found, as a text that can be copied.
use thinclient.Prelude.{ℕ, ◌-◌, ◌&&◌, Option, none, some, List, [], ◌∷◌, ◌++◌, if◌then◌else◌, leb}
use thinclient.Text.{Text, codes, contains_char}
use thinclient.Config.Ids.{decimal}
use thinclient.Diagnostics.{Check}
use thinclient.Diagnostics.Endpoint.{Target}
use thinclient.Diagnostics.Checks.{or_text}

-- the active interface and its address
pub record Local : Type 0 where
  pub local_interface : Text
  pub local_address : Text

-- what the report is made of
pub record Findings : Type 0 where
  pub target : Target
  pub local : Local
  pub default_gateway : Text
  pub ping : Check
  pub dns : Check
  pub tcp : Check
  pub route : Option Check
  pub protocol : Option Check

abbrev pub outcome_word : Check → Text
outcome_word c = if c.ok then codes "OK" else codes "FAILED"

abbrev pub outcome : Check → Text
outcome c = outcome_word c ++ codes " — " ++ or_text c.detail (codes "no detail")

abbrev pub protocol_outcome : Check → Text
protocol_outcome c =
    (if c.skipped then codes "SKIPPED" else outcome_word c)
    ++ codes " — "
    ++ or_text c.detail (codes "no detail")

abbrev pub host_and_port : Text → ℕ → Text
host_and_port host port =
    if contains_char b':' host
    then b'[' ∷ host ++ codes "]:" ++ decimal port
    else or_text host (codes "not configured") ++ b':' ∷ decimal port

-- str.upper of the names of the protocols, which are ASCII
unfoldable pub upper : Text → Text
upper [] = []
upper (c ∷ s) = (if leb b'a' c && leb c b'z' then c - 32 else c) ∷ upper s

abbrev pub gateway_lines : Target → List Text
gateway_lines t =
    if t.via_gateway
    then (codes "Configured target: "
        ++ t.configured_host
        ++ b':' ∷ decimal t.configured_port
        ++ codes " — private RDP service not tested")
      ∷ (codes "Effective endpoint: "
          ++ t.target_host
          ++ b':' ∷ decimal t.target_port
          ++ codes " — RD Gateway")
      ∷ []
    else []

abbrev pub route_line : Option Check → List Text
route_line none = []
route_line (some c) = (codes "Route to target: " ++ outcome c) ∷ []

abbrev pub protocol_line : Text → Option Check → List Text
protocol_line name none = []
protocol_line name (some c) =
    (upper (or_text name (codes "service")) ++ codes ": " ++ protocol_outcome c) ∷ []

abbrev pub result_lines : Findings → List Text
result_lines f =
    (codes "Local: "
        ++ or_text f.local.local_interface (codes "no active interface")
        ++ codes " — "
        ++ or_text f.local.local_address (codes "no IPv4 address"))
      ∷ (codes "Default gateway: " ++ or_text f.default_gateway (codes "no default gateway"))
      ∷ (codes "Gateway ping (informational): " ++ outcome f.ping)
      ∷ (codes "DNS: " ++ outcome f.dns)
      ∷ route_line f.route
    ++ (codes "TCP " ++ decimal f.target.target_port ++ codes ": " ++ outcome f.tcp)
      ∷ protocol_line f.target.target_protocol f.protocol
    ++ codes "No credentials were sent." ∷ []

unfoldable pub report_lines : Findings → List Text
unfolding decimal upper
report_lines f =
    codes "Network diagnostics"
      ∷ (codes "Target: "
          ++ or_text f.target.target_name (codes "Configured server")
          ++ codes " — "
          ++ host_and_port f.target.target_host f.target.target_port)
      ∷ gateway_lines f.target
    ++ result_lines f

-- "\n".join(lines)
unfoldable pub joined : List Text → Text
joined [] = []
joined (l ∷ []) = l
joined (l ∷ k ∷ ls) = l ++ 10 ∷ joined (k ∷ ls)

unfoldable pub format_network_report : Findings → Text
unfolding report_lines joined
format_network_report f = joined (report_lines f)

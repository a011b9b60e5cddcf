-- ===== src/Presentation/Rows.antt =====
-- `parse_network_report`: the rows that are shown for the text of a report.
use thinclient.Prelude.{
  Bool, false, ◌||◌, Option, none, some, List, [], ◌∷◌, ◌++◌, any, if◌then◌else◌, ◌==◌,
  compare_texts, drop,
}
use thinclient.Text.{Text, codes, is_empty, strip, lower, starts_with}
use thinclient.Dict.{Dict, lookup, insert}
use thinclient.Command.Failure.{occurs, lines_from}
use thinclient.Diagnostics.Endpoint.{cut_at}
use thinclient.Presentation.{upper_case}

pub data RowState : Type 0 where
  is_ok : RowState
  is_failed : RowState
  is_skipped : RowState
  is_info : RowState

pub record Row : Type 0 where
  pub label : Text
  pub state : RowState
  pub row_detail : Text
  pub ping_state : Option RowState

abbrev pub plain_row : Text → RowState × Text → Row
plain_row label (state, detail) = record {
  label = label;
  state = state;
  row_detail = detail;
  ping_state = none;
}

abbrev pub state_of : Text → RowState
state_of upper =
    if starts_with (codes "OK") upper
    then is_ok
    else if starts_with (codes "FAILED") upper
    then is_failed
    else if starts_with (codes "SKIPPED") upper
    then is_skipped
    else is_info

abbrev pub after_dash : Text → Option (Text × Text) → Text
after_dash text none = strip text
after_dash text (some (front, back)) = strip back

-- _outcome(text)
unfoldable pub outcome_row : Text → RowState × Text
unfolding strip upper_case cut_at
outcome_row text = (state_of (upper_case (strip text)), after_dash text (cut_at 0x2014 text))

-- the values by their keys, and the protocol with its value
abbrev pub Parsed : Type 0
Parsed = Dict Text Text × Option (Text × Text)

abbrev result_keys : List Text
result_keys =
    codes "Local"
    ∷ codes "Default gateway"
    ∷ codes "Gateway ping (informational)"
    ∷ codes "DNS"
    ∷ codes "Route to target"
    ∷ []

abbrev is_tcp : Text → Bool
is_tcp key = starts_with (codes "TCP ") key

unfoldable pub keep : Text → Text → Parsed → Parsed
unfolding insert
keep key value (values, protocol) =
    if any (λ k. k == key) result_keys || is_tcp key
    then (insert key value values, protocol)
    else if (key == codes "RDP") || (key == codes "VNC")
    then (values, some (key, value))
    else (values, protocol)

abbrev pub keep_parts : Option (Text × Text) → Parsed → Parsed
keep_parts none p = p
keep_parts (some (key, value)) p = keep (strip key) (strip value) p

unfoldable pub parse_line : Text → Parsed → Parsed
unfolding strip cut_at keep
parse_line raw p = keep_parts (cut_at b':' (strip raw)) p

unfoldable pub parse_lines : List Text → Parsed → Parsed
unfolding parse_line
parse_lines [] p = p
parse_lines (l ∷ ls) p = parse_lines ls (parse_line l p)

abbrev pub value_at : Text → Option Text → Text
value_at default none = default
value_at default (some v) = v

-- the first key of a port
abbrev pub tcp_key : Dict Text Text → Text
tcp_key [] = []
tcp_key ((k, v) ∷ values) = if is_tcp k then k else tcp_key values

abbrev pub local_row : Text → Row
local_row local = plain_row (codes "Network") (
  if occurs (codes "no active") (lower local) || occurs (codes "no ipv") (lower local)
      then is_failed
      else is_ok,
  local,
)

abbrev pub ping_of : Text → RowState × Text
ping_of ping = if is_empty ping then (is_info, codes "not tested") else outcome_row ping

abbrev pub gateway_row : Text → Text → Row
gateway_row gateway ping = record {
  label = codes "Gateway";
  state = if starts_with (codes "no ") (lower gateway) then is_failed else is_ok;
  row_detail = gateway ++ (if is_empty ping then [] else codes " · " ++ (ping_of ping).1);
  ping_state = some (ping_of ping).0;
}

abbrev pub port_label : Text → Text
port_label key = if is_empty key then codes "Server port" else codes "Server port " ++ drop 4 key

abbrev pub handshake_row : Option (Text × Text) → List Row
handshake_row none = []
handshake_row (some (name, value)) = plain_row (name ++ codes " handshake") (outcome_row value) ∷ []

unfoldable pub rows : Parsed → List Row
unfolding outcome_row lookup lower occurs
rows (values, protocol) =
    let value = λ (key default : Text). value_at default (lookup key values) in
    let untested = codes "SKIPPED — not tested" in
    local_row (value (codes "Local") (codes "no active interface — no address"))
    ∷ gateway_row (value (codes "Default gateway") (codes "no default gateway"))
        (value (codes "Gateway ping (informational)") [])
    ∷ plain_row (codes "DNS") (outcome_row (value (codes "DNS") untested))
    ∷ plain_row (codes "Route") (outcome_row (value (codes "Route to target") untested))
    ∷ plain_row (port_label (tcp_key values)) (outcome_row (value (tcp_key values) untested))
    ∷ handshake_row protocol

unfoldable pub parse_network_report : Text → List Row
unfolding rows parse_lines lines_from
parse_network_report report = rows (parse_lines (lines_from false [] report) ([], none))

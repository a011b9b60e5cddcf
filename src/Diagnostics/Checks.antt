-- ===== src/Diagnostics/Checks.antt =====
-- The checks of the network diagnostics: `_detail`, `check_dns`, `check_ping`, `check_tcp`,
-- `parse_route_get`, `check_route` and `check_protocol`.
use thinclient.Prelude.{
  ℕ, Bool, true, false, not, ◌&&◌, Option, none, some, List, [], ◌∷◌, ◌++◌, any, map, leb, nat_eq,
  length, take, if◌then◌else◌, ◌==◌, compare_texts,
}
use thinclient.Text.{Text, codes, is_empty, strip}
use thinclient.Dict.{lookup}
use thinclient.Value.{Value, str, object?, list?}
use thinclient.Config.Connections.{Raw}
use thinclient.Command.Failure.{lines_from}
use thinclient.Diagnostics.{
  Names, Network, Ran, ran, timed_out, not_run, Connected, connected, refused, Check, passed,
  failed_with,
}
use thinclient.Diagnostics.Endpoint.{words_from}

abbrev pub or_text : Text → Text → Text
or_text s default = if is_empty s then default else s

abbrev without_line_feed : ℕ → ℕ
without_line_feed c = if nat_eq c 10 then b' ' else c

-- of an exception's message and its class
unfoldable pub detail_of : Text → Text → Text
unfolding strip
detail_of message class = or_text (take 180 (map without_line_feed (strip message))) class

-- what a command that failed wrote, or what stands for nothing
unfoldable pub complaint : Text → Text → Text
unfolding strip
complaint stderr default = take 180 (strip (or_text stderr default))

-- ", ".join(words)
abbrev pub listed_with_commas : List Text → Text
listed_with_commas [] = []
listed_with_commas (w ∷ []) = w
listed_with_commas (w ∷ v ∷ ws) = w ++ codes ", " ++ listed_with_commas (v ∷ ws)

abbrev pub max_addresses : ℕ
max_addresses = 8

abbrev pub with_address : Text → List Text → List Text
with_address a found = if any (λ b. b == a) found then found else found ++ a ∷ []

abbrev pub first_address : Names → List Text → Option Text
first_address net [] = none
first_address net (field ∷ fields) = net.ip_address field

-- the addresses that the lines begin with, each once
unfoldable pub gather : Names → List Text → List Text → List Text
unfolding words_from
gather net found [] = found
gather net found (line ∷ lines) = elim (first_address net (words_from [] line)) [
  | none ↦ gather net found lines
  | some a ↦ elim (nat_eq (length (with_address a found)) max_addresses) [
    | true ↦ with_address a found
    | false ↦ gather net (with_address a found) lines
  ]
]

-- the outcome with the addresses
abbrev pub Resolved : Type 0
Resolved = Check × List Text

abbrev pub resolved_to : Text → List Text → Resolved
resolved_to stderr [] = (failed_with (complaint stderr (codes "name not found")), [])
resolved_to stderr (a ∷ addresses) = (passed (listed_with_commas (a ∷ addresses)), a ∷ addresses)

abbrev pub looked_up : Names → Ran → Resolved
looked_up net (ran success stdout stderr) = resolved_to stderr (
    if success && not (is_empty (strip stdout))
    then gather net [] (lines_from false [] stdout)
    else [])
looked_up net timed_out = (failed_with (codes "lookup timed out"), [])
looked_up net (not_run message class) = (failed_with (detail_of message class), [])

abbrev pub resolve : Option Text → Names → Ran → Resolved
resolve (some address) net r = (passed (codes "not needed (IP address)"), address ∷ [])
resolve none net r = looked_up net r

unfoldable pub check_dns : Network → Text → Resolved
unfolding gather lines_from strip detail_of complaint
check_dns net host =
    resolve (net.names.ip_address host) net.names
      (net.runner (codes "/usr/bin/getent" ∷ codes "ahosts" ∷ codes "--" ∷ host ∷ []))

abbrev pinged : Ran → Check
pinged (ran success stdout stderr) =
    if success then passed (codes "reachable") else failed_with (codes "no reply")
pinged timed_out = failed_with (codes "timed out")
pinged (not_run message class) = failed_with (detail_of message class)

unfoldable pub check_ping : Network → Text → Check
unfolding detail_of
check_ping net gateway =
    if is_empty gateway
    then failed_with (codes "no default gateway")
    else pinged (
        net.runner
          (codes "/usr/bin/ping" ∷ codes "-c" ∷ codes "1" ∷ codes "-W" ∷ codes "3" ∷ gateway ∷ []))

abbrev pub answering : Connected → Check
answering (connected s) = passed (codes "connected")
answering (refused message class) = failed_with (detail_of message class)

unfoldable pub check_tcp : Network → Text → ℕ → Check
unfolding detail_of
check_tcp net host port =
    if leb 1 port && leb port 65535
    then answering (net.connector host port)
    else failed_with (codes "invalid port")

pub record Route : Type 0 where
  pub interface : Text
  pub source : Text
  pub gateway : Text

abbrev pub no_route : Route
no_route = record { interface = []; source = []; gateway = [] }

abbrev text_or_empty : Option Value → Text
text_or_empty (some (str s)) = s
text_or_empty _ = []

abbrev route_of : Option Raw → Route
route_of none = no_route
route_of (some route) = record {
  interface = text_or_empty (lookup (codes "dev") route);
  source = text_or_empty (lookup (codes "prefsrc") route);
  gateway = text_or_empty (lookup (codes "gateway") route);
}

abbrev first_route : Option (List Value) → Route
first_route (some (v ∷ vs)) = route_of (object? v)
first_route _ = no_route

abbrev routes : Option Value → Route
routes none = no_route
routes (some v) = first_route (list? v)

unfoldable pub parse_route_get : (Text → Option Value) → Text → Route
unfolding lookup
parse_route_get json_loads text = routes (json_loads text)

abbrev is_complete : Route → Bool
is_complete r = not (is_empty r.interface) && not (is_empty r.source)

abbrev described : Route → Check
described r =
    if is_complete r
    then passed (
        r.interface
        ++ codes " from "
        ++ r.source
        ++ (if is_empty r.gateway then [] else codes " via " ++ r.gateway))
    else failed_with (codes "no route to target")

abbrev routed : (Text → Option Value) → Ran → Check × Route
routed json_loads (ran success stdout stderr) =
    if success
    then (described (parse_route_get json_loads stdout), parse_route_get json_loads stdout)
    else (failed_with (complaint stderr (codes "no route to target")), no_route)
routed json_loads timed_out = (failed_with (codes "route lookup timed out"), no_route)
routed json_loads (not_run message class) = (failed_with (detail_of message class), no_route)

abbrev route_to : Option Text → (Text → Option Value) → (List Text → Ran) → Check × Route
route_to none json_loads runner = (failed_with (codes "invalid route address"), no_route)
route_to (some address) json_loads runner =
    routed json_loads
      (runner (codes "/usr/sbin/ip" ∷ codes "-j" ∷ codes "route" ∷ codes "get" ∷ address ∷ []))

unfoldable pub check_route : Network → Text → Check × Route
unfolding parse_route_get detail_of complaint
check_route net address = route_to (net.names.ip_address address) net.json_loads net.runner

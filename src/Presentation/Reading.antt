-- ===== src/Presentation/Reading.antt =====
-- What is read, line by line, from the report of findings.
use thinclient.Prelude.{
  ◌≡◌, refl, sym, ap, ◌∙◌, false, none, some, List, [], ◌∷◌, ◌++◌, append_assoc, if_elim,
}
use thinclient.Text.{Text, codes, lstrip, strip, contains_char}
use thinclient.Dict.{Dict, insert}
use thinclient.Config.Ids.{decimal}
use thinclient.Diagnostics.{Check}
use thinclient.Diagnostics.Endpoint.{Target, cut_at}
use thinclient.Diagnostics.Checks.{or_text}
use thinclient.Diagnostics.Report.{
  Local, Findings, outcome, protocol_outcome, upper, gateway_lines, result_lines,
}
use thinclient.Presentation.Rows.{
  Row, plain_row, Parsed, keep, parse_line, parse_lines, local_row, gateway_row,
}
use thinclient.Presentation.Lines.{IsLine, glued, IsShown}
use thinclient.Presentation.Outcomes.{
  IsFront, front-IsShown, outcome_detail, outcome_state, protocol_state, outcome-IsShown,
  protocol_outcome-IsShown, port_line, parse_line-other, parse_line-keyed,
}

-- the findings of a target whose checks were all made or skipped
abbrev pub checked : Findings → Check → Check → Findings
checked f r h = record f { route = some r; protocol = some h }

abbrev pub local_text : Local → Text
local_text l =
    or_text l.local_interface (codes "no active interface")
    ++ codes " — "
    ++ or_text l.local_address (codes "no IPv4 address")

abbrev pub gateway_text : Text → Text
gateway_text gateway = or_text gateway (codes "no default gateway")

-- the texts of the findings are single lines, and the target is one of RDP or VNC
pub record IsClean (f : Findings) (r h : Check) : Type 0 where
  pub name : IsShown (or_text f.target.target_name (codes "Configured server"))
  pub host : IsShown f.target.target_host
  pub other_host : IsLine f.target.configured_host
  pub interface : IsShown (or_text f.local.local_interface (codes "no active interface"))
  pub address : IsShown (or_text f.local.local_address (codes "no IPv4 address"))
  pub gateway : IsShown (gateway_text f.default_gateway)
  pub ping : IsShown (outcome_detail f.ping)
  pub dns : IsShown (outcome_detail f.dns)
  pub tcp : IsShown (outcome_detail f.tcp)
  pub route : IsShown (outcome_detail r)
  pub protocol : IsShown (outcome_detail h)

-- the name of the protocol in the report
abbrev pub protocol_name : Findings → Text
protocol_name f = upper (or_text f.target.target_protocol (codes "service"))

-- the rows, written from the checks
abbrev pub rows_of : Text → Findings → Check → Check → List Row
rows_of name f r h =
    local_row (local_text f.local)
    ∷ gateway_row (gateway_text f.default_gateway) (outcome f.ping)
    ∷ plain_row (codes "DNS") (outcome_state f.dns, outcome_detail f.dns)
    ∷ plain_row (codes "Route") (outcome_state r, outcome_detail r)
    ∷ plain_row (codes "Server port " ++ decimal f.target.target_port)
        (outcome_state f.tcp, outcome_detail f.tcp)
    ∷ plain_row (name ++ codes " handshake") (protocol_state h, outcome_detail h)
    ∷ []

pub IsFront-append : (v w : Text) → IsShown v → IsLine w → IsFront (v ++ w)
IsFront-append v w h l = record {
  front_line = glued v w h.line l;
  front_left = λ t. ap lstrip (append_assoc v w t) ∙ h.left (w ++ t) ∙ sym (append_assoc v w t);
}

pub local_text-IsShown : (f : Findings) (r h : Check) → IsClean f r h → IsShown (local_text f.local)
local_text-IsShown f r h k =
    front-IsShown _ _ (IsFront-append _ (codes " — ") k.interface refl) k.address

-- a protocol's name as the key of a line
pub record IsName (name : Text) : Type 0 where
  pub name_front : IsFront name
  pub name_strip : strip name ≡ name
  pub name_colon : contains_char b':' name ≡ false
  pub name_kept :
      (value : Text) (values : Dict Text Text)
      → keep name value (values, none) ≡ (values, some (name, value))

pub rdp-IsName : IsName (codes "RDP")
unfolding strip lstrip keep
rdp-IsName = record {
  name_front = record { front_line = refl; front_left = λ s. refl };
  name_strip = refl;
  name_colon = refl;
  name_kept = λ value values. refl;
}

pub vnc-IsName : IsName (codes "VNC")
unfolding strip lstrip keep
vnc-IsName = record {
  name_front = record { front_line = refl; front_left = λ s. refl };
  name_strip = refl;
  name_colon = refl;
  name_kept = λ value values. refl;
}

-- one line and those after it
pub next :
    (l : Text) (ls : List Text) (p q x : Parsed)
    → parse_line l p ≡ q
    → parse_lines ls q ≡ x
    → parse_lines (l ∷ ls) p ≡ x
unfolding parse_lines
next l ls p q x e f = ap (parse_lines ls) e ∙ f

end_of_lines : (p : Parsed) → parse_lines [] p ≡ p
unfolding parse_lines
end_of_lines p = refl

pub title_line : parse_line (codes "Network diagnostics") ([], none) ≡ ([], none)
unfolding parse_line strip cut_at
title_line = refl

pub target_line : (rest : Text) → parse_line (codes "Target" ++ b':' ∷ rest) ([], none) ≡ ([], none)
unfolding lstrip strip keep
target_line rest = parse_line-other (codes "Target") rest ([], none) (λ s. refl) refl (λ v. refl)

configured_line :
    (rest : Text) → parse_line (codes "Configured target" ++ b':' ∷ rest) ([], none) ≡ ([], none)
unfolding lstrip strip keep
configured_line rest =
    parse_line-other (codes "Configured target") rest ([], none) (λ s. refl) refl (λ v. refl)

effective_line :
    (rest : Text) → parse_line (codes "Effective endpoint" ++ b':' ∷ rest) ([], none) ≡ ([], none)
unfolding lstrip strip keep
effective_line rest =
    parse_line-other (codes "Effective endpoint") rest ([], none) (λ s. refl) refl (λ v. refl)

last_line : (p : Parsed) → parse_line (codes "No credentials were sent.") p ≡ p
unfolding parse_line strip cut_at
last_line p = refl

pub parse_lines-gateway_lines :
    (t : Target) (ls : List Text)
    → parse_lines (gateway_lines t ++ ls) ([], none) ≡ parse_lines ls ([], none)
parse_lines-gateway_lines t ls =
    if_elim (λ g. parse_lines (g ++ ls) ([], none) ≡ parse_lines ls ([], none)) t.via_gateway
      (λ e. next _ _ _ _ _ (configured_line _) (next _ _ _ _ _ (effective_line _) refl)) (λ e. refl)

-- the values that are read, by their keys
module _ (f : Findings) (r : Check) where
  abbrev local_value : Dict Text Text
  local_value = (codes "Local", local_text f.local) ∷ []

  abbrev gateway_value : Dict Text Text
  gateway_value = local_value ++ (codes "Default gateway", gateway_text f.default_gateway) ∷ []

  abbrev ping_value : Dict Text Text
  ping_value = gateway_value ++ (codes "Gateway ping (informational)", outcome f.ping) ∷ []

  abbrev dns_value : Dict Text Text
  dns_value = ping_value ++ (codes "DNS", outcome f.dns) ∷ []

  abbrev route_value : Dict Text Text
  route_value = dns_value ++ (codes "Route to target", outcome r) ∷ []

  abbrev pub all_values : Dict Text Text
  all_values = route_value ++ (codes "TCP " ++ decimal f.target.target_port, outcome f.tcp) ∷ []

keyed :
    (key value : Text) (values : Dict Text Text)
    → ((s : Text) → lstrip (key ++ s) ≡ key ++ s)
    → strip key ≡ key
    → contains_char b':' key ≡ false
    → IsLine key
    → IsShown value
    → parse_line (key ++ (codes ": " ++ value)) (values, none) ≡ keep key value (values, none)
keyed key value values l s n h v =
    parse_line-keyed key value (values, none) (record { front_line = h; front_left = l }) s n v

local_line :
    (f : Findings) (r : Check)
    → IsShown (local_text f.local)
    → parse_line (codes "Local" ++ (codes ": " ++ (local_text f.local))) ([], none)
      ≡ (local_value f r, none)
unfolding lstrip strip keep insert
local_line f r h = keyed (codes "Local") (local_text f.local) [] (λ s. refl) refl refl refl h

gateway_line :
    (f : Findings) (r : Check)
    → IsShown (gateway_text f.default_gateway)
    → parse_line
        (codes "Default gateway" ++ (codes ": " ++ (gateway_text f.default_gateway)))
        (local_value f r, none)
      ≡ (gateway_value f r, none)
unfolding lstrip strip keep insert
gateway_line f r h =
    keyed (codes "Default gateway") (gateway_text f.default_gateway) (local_value f r) (λ s. refl)
      refl refl refl h

ping_line :
    (f : Findings) (r : Check)
    → IsShown (outcome f.ping)
    → parse_line
        (codes "Gateway ping (informational)" ++ (codes ": " ++ (outcome f.ping)))
        (gateway_value f r, none)
      ≡ (ping_value f r, none)
unfolding lstrip strip keep insert
ping_line f r h =
    keyed (codes "Gateway ping (informational)") (outcome f.ping) (gateway_value f r) (λ s. refl)
      refl refl refl h

dns_line :
    (f : Findings) (r : Check)
    → IsShown (outcome f.dns)
    → parse_line (codes "DNS" ++ (codes ": " ++ (outcome f.dns))) (ping_value f r, none)
      ≡ (dns_value f r, none)
unfolding lstrip strip keep insert
dns_line f r h = keyed (codes "DNS") (outcome f.dns) (ping_value f r) (λ s. refl) refl refl refl h

route_line_read :
    (f : Findings) (r : Check)
    → IsShown (outcome r)
    → parse_line (codes "Route to target" ++ (codes ": " ++ (outcome r))) (dns_value f r, none)
      ≡ (route_value f r, none)
unfolding lstrip strip keep insert
route_line_read f r h =
    keyed (codes "Route to target") (outcome r) (dns_value f r) (λ s. refl) refl refl refl h

tcp_line :
    (f : Findings) (r : Check)
    → IsShown (outcome f.tcp)
    → parse_line
        (codes "TCP " ++ decimal f.target.target_port ++ codes ": " ++ outcome f.tcp)
        (route_value f r, none)
      ≡ (all_values f r, none)
unfolding keep insert
tcp_line f r h = port_line f.target.target_port (outcome f.tcp) (route_value f r, none) h

protocol_line_read :
    (name value : Text) (values : Dict Text Text)
    → IsName name
    → IsShown value
    → parse_line (name ++ codes ": " ++ value) (values, none) ≡ (values, some (name, value))
protocol_line_read name value values n v =
    ap (λ t. parse_line t (values, none)) (append_assoc name (codes ": ") value)
    ∙ parse_line-keyed name value (values, none) n.name_front n.name_strip n.name_colon v
    ∙ n.name_kept value values

pub parse_lines-result_lines :
    (name : Text) (f : Findings) (r h : Check)
    → IsClean f r h
    → IsName name
    → protocol_name f ≡ name
    → parse_lines (result_lines (checked f r h)) ([], none)
      ≡ (all_values f r, some (name, protocol_outcome h))
parse_lines-result_lines name f r h k n e =
    next _ _ _ _ _ (local_line f r (local_text-IsShown f r h k)) (
      next _ _ _ _ _ (gateway_line f r k.gateway) (
        next _ _ _ _ _ (ping_line f r (outcome-IsShown f.ping k.ping)) (
          next _ _ _ _ _ (dns_line f r (outcome-IsShown f.dns k.dns)) (
            next _ _ _ _ _ (route_line_read f r (outcome-IsShown r k.route)) (
              next _ _ _ _ _ (tcp_line f r (outcome-IsShown f.tcp k.tcp)) (
                next _ _ _ _ _
                  (ap
                      (λ t.
                        parse_line (t ++ codes ": " ++ protocol_outcome h) (all_values f r, none))
                      e
                    ∙ protocol_line_read name (protocol_outcome h) (all_values f r) n
                        (protocol_outcome-IsShown h k.protocol))
                  (next _ _ _ _ _ (last_line (all_values f r, some (name, protocol_outcome h)))
                    (end_of_lines (all_values f r, some (name, protocol_outcome h))))))))))

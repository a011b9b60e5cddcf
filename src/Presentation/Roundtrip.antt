-- ===== src/Presentation/Roundtrip.antt =====
-- The rows that are read back from a report are those of its checks.
use thinclient.Prelude.{
  equal_refl, ◌==◌, compare_texts, ℕ, ◌≡◌, refl, sym, ap, subst, ◌∙◌, none, some, List, [], ◌∷◌,
  ◌++◌, inl, inr, if◌then◌else◌, if_elim, ◌⊎◌,
}
use thinclient.Text.{Text, codes, is_empty, contains_char}
use thinclient.Dict.{lookup}
use thinclient.Config.Ids.{decimal}
use thinclient.Diagnostics.{Check}
use thinclient.Diagnostics.Checks.{or_text}
use thinclient.Diagnostics.Report.{
  Findings, outcome, protocol_outcome, upper, host_and_port, result_lines, report_lines,
  format_network_report,
}
use thinclient.Presentation.Rows.{
  RowState, Row, plain_row, outcome_row, parse_lines, local_row, gateway_row, rows,
  parse_network_report,
}
use thinclient.Presentation.Lines.{
  IsLine, glued, IsShown, decimal-IsShown, AreLines, lines_from-joined,
}
use thinclient.Presentation.Outcomes.{
  outcome_detail, outcome_state, protocol_state, outcome-IsShown, protocol_outcome-IsShown,
  outcome_row-outcome, outcome_row-protocol_outcome,
}
use thinclient.Presentation.Reading.{
  checked, local_text, gateway_text, IsClean, protocol_name, rows_of, local_text-IsShown, IsName,
  rdp-IsName, vnc-IsName, next, title_line, target_line, parse_lines-gateway_lines,
  parse_lines-result_lines, all_values,
}

IsLine-host_and_port : (host : Text) (port : ℕ) → IsShown host → IsLine (host_and_port host port)
IsLine-host_and_port host port h =
    if_elim IsLine (contains_char b':' host)
      (λ e.
        glued (b'[' ∷ host ++ codes "]:") (decimal port)
          (glued (b'[' ∷ host) (codes "]:") h.line refl) digits)
      (λ e.
        glued (or_text host (codes "not configured")) (b':' ∷ decimal port)
          (if_elim IsLine (is_empty host) (λ q. refl) (λ q. h.line)) digits)
  where
    digits : IsLine (decimal port)
    digits = (decimal-IsShown port).line

IsLine-address :
    (prefix host suffix : Text) (port : ℕ)
    → IsLine prefix
    → IsLine host
    → IsLine suffix
    → IsLine (prefix ++ host ++ b':' ∷ decimal port ++ suffix)
IsLine-address prefix host suffix port p h s =
    glued (prefix ++ host ++ b':' ∷ decimal port) suffix
      (glued (prefix ++ host) (b':' ∷ decimal port) (glued prefix host p h)
        (decimal-IsShown port).line)
      s

AreLines-result_lines :
    (name : Text) (f : Findings) (r h : Check)
    → IsClean f r h
    → IsName name
    → protocol_name f ≡ name
    → AreLines (result_lines (checked f r h))
AreLines-result_lines name f r h k n e = (
  glued (codes "Local: ") (local_text f.local) refl (local_text-IsShown f r h k).line,
  (
    glued (codes "Default gateway: ") (gateway_text f.default_gateway) refl k.gateway.line,
    (
      glued (codes "Gateway ping (informational): ") (outcome f.ping) refl
          (outcome-IsShown f.ping k.ping).line,
      (
        glued (codes "DNS: ") (outcome f.dns) refl (outcome-IsShown f.dns k.dns).line,
        (
          glued (codes "Route to target: ") (outcome r) refl (outcome-IsShown r k.route).line,
          (
            glued (codes "TCP " ++ decimal f.target.target_port ++ codes ": ") (outcome f.tcp)
                (glued (codes "TCP " ++ decimal f.target.target_port) (codes ": ")
                  (decimal-IsShown f.target.target_port).line refl)
                (outcome-IsShown f.tcp k.tcp).line,
            (
              glued (protocol_name f ++ codes ": ") (protocol_outcome h)
                  (glued (protocol_name f) (codes ": ")
                    (subst IsLine (sym e) n.name_front.front_line) refl)
                  (protocol_outcome-IsShown h k.protocol).line,
              (refl, refl),
            ),
          ),
        ),
      ),
    ),
  ),
)

AreLines-report_lines :
    (name : Text) (f : Findings) (r h : Check)
    → IsClean f r h
    → IsName name
    → protocol_name f ≡ name
    → AreLines (report_lines (checked f r h))
unfolding report_lines
AreLines-report_lines name f r h k n e =
    let results = AreLines-result_lines name f r h k n e in
    let target =
      glued
        (codes "Target: "
          ++ or_text f.target.target_name (codes "Configured server")
          ++ codes " — ")
        (host_and_port f.target.target_host f.target.target_port)
        (glued (codes "Target: " ++ or_text f.target.target_name (codes "Configured server"))
          (codes " — ") k.name.line refl)
        (IsLine-host_and_port f.target.target_host f.target.target_port k.host) in
    (
      refl,
      if_elim
          (λ g. AreLines (
            (codes "Target: "
                ++ or_text f.target.target_name (codes "Configured server")
                ++ codes " — "
                ++ host_and_port f.target.target_host f.target.target_port)
              ∷ g
            ++ result_lines (checked f r h)))
          f.target.via_gateway
          (λ q. (
            target,
            (
              IsLine-address (codes "Configured target: ") f.target.configured_host
                  (codes " — private RDP service not tested") f.target.configured_port refl
                  k.other_host refl,
              (
                IsLine-address (codes "Effective endpoint: ") f.target.target_host
                    (codes " — RD Gateway") f.target.target_port refl k.host.line refl,
                results,
              ),
            ),
          ))
          (λ q. (target, results)),
    )

-- the rows over what was read back from each outcome
results_shown : Text → Findings → (dns route tcp protocol : RowState × Text) → List Row
results_shown name f dns route tcp protocol =
    local_row (local_text f.local)
    ∷ gateway_row (gateway_text f.default_gateway) (outcome f.ping)
    ∷ plain_row (codes "DNS") dns
    ∷ plain_row (codes "Route") route
    ∷ plain_row (codes "Server port " ++ decimal f.target.target_port) tcp
    ∷ plain_row (name ++ codes " handshake") protocol
    ∷ []

rows-shown :
    (name : Text) (f : Findings) (r h : Check)
    → rows (all_values f r, some (name, protocol_outcome h))
      ≡ results_shown name f
          (outcome_row (outcome f.dns))
          (outcome_row (outcome r))
          (outcome_row (outcome f.tcp))
          (outcome_row (protocol_outcome h))
unfolding rows lookup results_shown
rows-shown name f r h = rw (equal_refl (decimal f.target.target_port)) refl

shown-rows_of :
    (name : Text) (f : Findings) (r h : Check)
    → results_shown name f
        (outcome_state f.dns, outcome_detail f.dns)
        (outcome_state r, outcome_detail r)
        (outcome_state f.tcp, outcome_detail f.tcp)
        (protocol_state h, outcome_detail h)
      ≡ rows_of name f r h
unfolding results_shown
shown-rows_of name f r h = refl

rows_read :
    (name : Text) (f : Findings) (r h : Check)
    → IsClean f r h
    → rows (all_values f r, some (name, protocol_outcome h)) ≡ rows_of name f r h
rows_read name f r h k =
    rows-shown name f r h
    ∙ rw (outcome_row-outcome f.dns k.dns) (
        rw (outcome_row-outcome r k.route) (
          rw (outcome_row-outcome f.tcp k.tcp)
            (rw (outcome_row-protocol_outcome h k.protocol) (shown-rows_of name f r h))))

read_lines :
    (name : Text) (f : Findings) (r h : Check)
    → IsClean f r h
    → IsName name
    → protocol_name f ≡ name
    → parse_lines (report_lines (checked f r h)) ([], none)
      ≡ (all_values f r, some (name, protocol_outcome h))
unfolding report_lines
read_lines name f r h k n e = next _ _ _ _ _ title_line (
    next _ _ _ _ _ (target_line _) (
      parse_lines-gateway_lines f.target (result_lines (checked f r h))
      ∙ parse_lines-result_lines name f r h k n e))

parse_named :
    (name : Text) (f : Findings) (r h : Check)
    → IsClean f r h
    → IsName name
    → protocol_name f ≡ name
    → parse_network_report (format_network_report (checked f r h)) ≡ rows_of name f r h
unfolding parse_network_report format_network_report
parse_named name f r h k n e =
    ap (λ ls. rows (parse_lines ls ([], none)))
      (lines_from-joined (report_lines (checked f r h)) (AreLines-report_lines name f r h k n e))
    ∙ ap rows (read_lines name f r h k n e)
    ∙ rows_read name f r h k

-- what the name of a protocol becomes in a report
abbrev pub title_of : Text → Text
title_of p = if p == codes "vnc" then codes "VNC" else codes "RDP"

-- The rows that are read back from the report of a target are those of its checks: each result row
-- has the state of its check (skipped, ok or failed) and its detail, the port's row has the port, and
-- the handshake's row the protocol's name. The texts in the findings are single lines without white
-- space around them, and the protocol is one of the two.
pub parse_network_report-format_network_report :
    (f : Findings) (r h : Check)
    → IsClean f r h
    → (f.target.target_protocol ≡ codes "rdp") ⊎ (f.target.target_protocol ≡ codes "vnc")
    → parse_network_report (format_network_report (checked f r h))
      ≡ rows_of (title_of f.target.target_protocol) f r h
unfolding upper
parse_network_report-format_network_report f r h k (inl e) =
    parse_named (codes "RDP") f r h k rdp-IsName (ap (λ p. upper (or_text p (codes "service"))) e)
    ∙ ap (λ p. rows_of (title_of p) f r h) (sym e)
parse_network_report-format_network_report f r h k (inr e) =
    parse_named (codes "VNC") f r h k vnc-IsName (ap (λ p. upper (or_text p (codes "service"))) e)
    ∙ ap (λ p. rows_of (title_of p) f r h) (sym e)

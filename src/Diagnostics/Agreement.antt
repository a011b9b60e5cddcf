-- ===== src/Diagnostics/Agreement.antt =====
-- How the checks before a session and the report that a user asks for go together.
use thinclient.Prelude.{
  ℕ, ◌≡◌, refl, ap, Bool, true, false, not, ◌&&◌, Option, some, List, [], arith, is_some, if_elim,
  Bool-cases, inl, inr, ◌==◌, compare_texts,
}
use thinclient.Text.{Text, codes}
use thinclient.Config.{Connection}
use thinclient.Rdp.Transport.{
  Received, bytes, os_error, value_error, out_of_fuel, Outcome, answered, raised_os_error,
  raised_value_error, stalled,
}
use thinclient.Rdp.Bounds.{Bounded, EndsWithin, probe-EndsWithin, recv_from-Bounded}
use thinclient.Diagnostics.{Network, Check, Connected, connected, refused}
use thinclient.Diagnostics.Endpoint.{Target, Normalized, normalized, unusable, normalize_target}
use thinclient.Diagnostics.Checks.{Resolved, check_dns, check_tcp}
use thinclient.Diagnostics.Service.{greeted, vnc_check, rdp_answer, rdp_check, check_protocol}
use thinclient.Diagnostics.Report.{Local, Findings}
use thinclient.Diagnostics.Preflight.{
  Traced, tcp_if, protocol_if, with_findings, at_address, tried_address, first_or, first_findings,
  checks, preflight_of, run_preflight, Preflight, tcp_verdict, dns_verdict, target_verdict,
  connection_preflight,
}

abbrev IsAnswered : Option Check → Type 0
IsAnswered c = (r : Check) × (c ≡ some r)

greeted-IsAnswered :
    (net : Network) (size available : ℕ) (r : Received)
    → Bounded size available r
    → IsAnswered (greeted net r)
greeted-IsAnswered net size available (bytes b s) h = (_, refl)
greeted-IsAnswered net size available os_error h = (_, refl)
greeted-IsAnswered net size available value_error h = absurd h
greeted-IsAnswered net size available out_of_fuel h = absurd h

vnc_check-IsAnswered : (net : Network) (c : Connected) → IsAnswered (vnc_check net c)
vnc_check-IsAnswered net (connected s) =
    greeted-IsAnswered net 12 _ _ (recv_from-Bounded 13 12 [] s (omega arith) (omega arith))
vnc_check-IsAnswered net (refused message class) = (_, refl)

rdp_answer-IsAnswered :
    (net : Network) (most available : ℕ) (o : Outcome)
    → EndsWithin most available o
    → IsAnswered (rdp_answer net o)
rdp_answer-IsAnswered net most available (answered a s) h = (_, refl)
rdp_answer-IsAnswered net most available raised_os_error h = (_, refl)
rdp_answer-IsAnswered net most available raised_value_error h = absurd h
rdp_answer-IsAnswered net most available stalled h = absurd h

rdp_check-IsAnswered : (net : Network) (c : Connected) → IsAnswered (rdp_check net c)
rdp_check-IsAnswered net (connected s) = rdp_answer-IsAnswered net _ _ _ (probe-EndsWithin s)
rdp_check-IsAnswered net (refused message class) = (_, refl)

check_protocol-IsAnswered : (net : Network) (t : Target) → IsAnswered (check_protocol net t)
unfolding check_protocol
check_protocol-IsAnswered net t =
    if_elim {A = Option Check} IsAnswered t.via_gateway (λ e. (_, refl))
      (λ e.
        if_elim {A = Option Check} IsAnswered (t.target_protocol == codes "vnc")
          (λ q. vnc_check-IsAnswered net (net.reconnector t.target_host t.target_port))
          (λ q. rdp_check-IsAnswered net (net.reconnector t.target_host t.target_port)))

-- the checks of a session's preflight, in the words of the report
abbrev pub AreSame : Preflight → Option Findings → Type 0
AreSame p r = (f : Findings) × (r ≡ some f) × (is_some p.1 ≡ not (f.dns.ok && f.tcp.ok))

protocol_if-IsAnswered :
    (b : Bool) (net : Network) (t : Target) → IsAnswered (protocol_if b net t).1
unfolding protocol_if
protocol_if-IsAnswered true net t = check_protocol-IsAnswered net t
protocol_if-IsAnswered false net t = (_, refl)

tcp_verdict-ok : (t : Target) (c : Check) → is_some (tcp_verdict t c).1 ≡ not c.ok
tcp_verdict-ok t c = elim (Bool-cases c.ok) [ inl e ↦ rw e refl | inr e ↦ rw e refl ]

-- the check of the port after a look-up
abbrev pub tcp_of : Network → Target → Resolved → Traced Check
tcp_of net t r = tcp_if r.0.ok net (tried_address t.target_host r) t.target_port

dns_verdict-ok :
    (net : Network) (t : Target) (dns : Check) (addresses : List Text)
    → is_some (dns_verdict net t (dns, addresses)).1
      ≡ not (dns.ok && (tcp_of net t (dns, addresses)).1.ok)
unfolding tcp_if
dns_verdict-ok net t dns addresses = elim (Bool-cases dns.ok) [
  | inl e ↦ rw e (tcp_verdict-ok t (check_tcp net (first_or t.target_host addresses) t.target_port))
  | inr e ↦ rw e refl
]

-- the checks find what the last one adds to the others
pub checks_found :
    (net : Network) (local : Local) (gateway : Text) (t : Target) (r : Resolved)
    → (last : Check) × ((checks net local gateway t r).1
        ≡ some (record (first_findings net local gateway t r (tcp_of net t r).1) {
          protocol = some last;
        }))
unfolding checks
checks_found net local gateway t r =
    let found = first_findings net local gateway t r (tcp_of net t r).1 in
    let (last, e) =
      protocol_if-IsAnswered (tcp_of net t r).1.ok net
        (at_address t (tried_address t.target_host r)) in
    (last, ap (λ p. with_findings p found) e)

checks-AreSame :
    (net : Network) (local : Local) (gateway : Text) (t : Target) (r : Resolved)
    → AreSame (dns_verdict net t r) (checks net local gateway t r).1
checks-AreSame net local gateway t r =
    let (last, e) = checks_found net local gateway t r in
    (
      record (first_findings net local gateway t r (tcp_of net t r).1) { protocol = some last },
      e,
      dns_verdict-ok net t r.0 r.1,
    )

target_verdict-AreSame :
    (net : Network) (local : Local) (gateway : Text) (c : Connection) (n : Normalized)
    → AreSame (target_verdict net n) (preflight_of net local gateway c n).1
target_verdict-AreSame net local gateway c (unusable message) = (_, refl, refl)
target_verdict-AreSame net local gateway c (normalized t) =
    checks-AreSame net local gateway t (check_dns net t.target_host)

-- The report's checks always end with findings, whatever the peer sends: no exception leaves them.
-- And the preflight of a session refuses a connection exactly where, on the same network, these
-- findings have a name that did not resolve or a port that did not answer.
pub run_preflight-AreSame :
    (net : Network) (local : Local) (gateway : Text) (c : Connection)
    → AreSame (connection_preflight net c) (run_preflight net local gateway c).1
unfolding run_preflight connection_preflight
run_preflight-AreSame net local gateway c =
    target_verdict-AreSame net local gateway c (normalize_target net.names c)

-- ===== src/Diagnostics/Service.antt =====
-- `check_protocol`: whether the service behind the port speaks the protocol of the connection.
use thinclient.Prelude.{
  ℕ, zero, suc, Bool, true, false, ◌&&◌, Option, none, some, [], ◌∷◌, ◌++◌, all, leb, nat_eq,
  if◌then◌else◌, ◌==◌, compare_texts, ◌/◌, ◌%◌, ltb, ◌+◌,
}
use thinclient.Text.{Text, codes, strip}
use thinclient.Config.Ids.{decimal}
use thinclient.Rdp.{Bytes, tpkt_header_size, x224_confirm_size, max_tpkt_size}
use thinclient.Rdp.Response.{
  Problem, truncated_confirm, invalid_indicator, indicator_mismatch, unexpected_tpdu,
  no_negotiation, truncated_header, unexpected_kind, invalid_length, length_mismatch,
  unknown_protocol, no_reply, truncated_tpkt_header, invalid_tpkt_header, tpkt_too_short,
  tpkt_too_long, truncated_response, FailureText, listed, code, Answer, error, selected, failure,
}
use thinclient.Rdp.Transport.{
  Received, bytes, os_error, value_error, out_of_fuel, recv_from, Outcome, answered,
  raised_os_error, raised_value_error, stalled, probe,
}
use thinclient.Diagnostics.{Network, Connected, connected, refused, Check, passed, failed_with}
use thinclient.Diagnostics.Checks.{detail_of}
use thinclient.Diagnostics.Endpoint.{Target}

abbrev hex_digit : ℕ → Text
hex_digit d = if ltb d 10 then (b'0' + d) ∷ [] else (55 + d) ∷ []

-- the last digits, so many of them
abbrev hex : ℕ → ℕ → Text
hex zero n = []
hex (suc width) n = hex width (n / 16) ++ hex_digit (n % 16)

-- "%d of %d"
abbrev counted : ℕ → ℕ → Text
counted n m = decimal n ++ codes " of " ++ decimal m

-- the text of an error, whose bytes and payload have two and eight hexadecimal digits
unfoldable pub problem_text : Problem → Text
unfolding decimal
problem_text (truncated_confirm n) =
    codes "truncated X.224 Connection Confirm (" ++ counted n x224_confirm_size ++ codes " bytes)"
problem_text (invalid_indicator n) = codes "invalid X.224 length indicator " ++ decimal n
problem_text (indicator_mismatch n m) =
    codes "X.224 length indicator "
    ++ decimal n
    ++ codes " does not match "
    ++ decimal m
    ++ codes " body bytes"
problem_text (unexpected_tpdu n) =
    codes "unexpected X.224 TPDU type 0x" ++ hex 2 n ++ codes " (expected 0xD0)"
problem_text no_negotiation = codes "no negotiation response (server may be very old RDP)"
problem_text truncated_header = codes "truncated negotiation response header"
problem_text (unexpected_kind n) = codes "unexpected response type 0x" ++ hex 2 n
problem_text (invalid_length n) =
    codes "invalid negotiation response length " ++ decimal n ++ codes " (expected 8)"
problem_text (length_mismatch n m) =
    codes "negotiation response length "
    ++ decimal n
    ++ codes " does not match "
    ++ decimal m
    ++ codes " bytes"
problem_text (unknown_protocol n) = codes "unknown selected RDP protocol 0x" ++ hex 8 n
problem_text no_reply = codes "server closed the connection without replying"
problem_text (truncated_tpkt_header n) =
    codes "truncated TPKT header (" ++ counted n tpkt_header_size ++ codes " bytes)"
problem_text (invalid_tpkt_header n m) =
    codes "invalid TPKT header (version "
    ++ decimal n
    ++ codes ", reserved "
    ++ decimal m
    ++ codes ")"
problem_text (tpkt_too_short n) =
    codes "invalid TPKT length "
    ++ decimal n
    ++ codes " (minimum is "
    ++ decimal (tpkt_header_size + x224_confirm_size)
    ++ codes ")"
problem_text (tpkt_too_long n) =
    codes "invalid TPKT length "
    ++ decimal n
    ++ codes " (maximum accepted is "
    ++ decimal max_tpkt_size
    ++ codes ")"
problem_text (truncated_response n m) =
    codes "truncated TPKT response (" ++ counted n m ++ codes " body bytes)"

abbrev failure_detail : FailureText → Text
failure_detail (listed s) = s
failure_detail (code n) = codes "code " ++ decimal n

unfoldable pub negotiated : Answer → Check
unfolding problem_text
negotiated (selected name description raw) = passed (name ++ codes " — " ++ description)
negotiated (failure f raw) = failed_with (failure_detail f)
negotiated (error problem) = failed_with (problem_text problem)

-- Whether the twelve bytes are "RFB ddd.ddd\n"; \d of a bytes pattern is an ASCII digit.
abbrev digit? : ℕ → Bool
digit? c = leb b'0' c && leb c b'9'

abbrev pub is_banner : Bytes → Bool
is_banner (r ∷ f ∷ b ∷ s ∷ d ∷ e ∷ g ∷ p ∷ h ∷ i ∷ j ∷ n ∷ []) =
    ((r ∷ f ∷ b ∷ s ∷ []) == codes "RFB ")
    && all digit? (d ∷ e ∷ g ∷ h ∷ i ∷ j ∷ [])
    && nat_eq p b'.'
    && nat_eq n 10
is_banner _ = false

abbrev pub broken_connection : Network → Check
broken_connection net = failed_with (detail_of net.fault_message net.fault_class)

abbrev pub greeted : Network → Received → Option Check
greeted net (bytes banner s) = some (
    if is_banner banner
    then passed (strip banner)
    else failed_with (codes "port is open but no VNC banner was received"))
greeted net os_error = some (broken_connection net)
greeted net value_error = none
greeted net out_of_fuel = none

-- An exception other than OSError leaves the check: then there is no outcome.
abbrev pub vnc_check : Network → Connected → Option Check
vnc_check net (connected s) = greeted net (recv_from 13 12 [] s)
vnc_check net (refused message class) = some (failed_with (detail_of message class))

abbrev pub rdp_answer : Network → Outcome → Option Check
rdp_answer net (answered a s) = some (negotiated a)
rdp_answer net raised_os_error = some (broken_connection net)
rdp_answer net raised_value_error = none
rdp_answer net stalled = none

abbrev pub rdp_check : Network → Connected → Option Check
rdp_check net (connected s) = rdp_answer net (probe (some s)).1
rdp_check net (refused message class) = some (failed_with (detail_of message class))

abbrev through_gateway : Check
through_gateway = record {
  ok = true;
  detail = codes "skipped; private RDP service not tested through gateway";
  skipped = true;
}

unfoldable pub check_protocol : Network → Target → Option Check
unfolding detail_of recv_from probe negotiated strip
check_protocol net t =
    if t.via_gateway
    then some through_gateway
    else if t.target_protocol == codes "vnc"
    then vnc_check net (net.reconnector t.target_host t.target_port)
    else rdp_check net (net.reconnector t.target_host t.target_port)

-- ===== src/Command/Failure.antt =====
-- `explain_failure`: what the log of the remote desktop client says about a session that ended, and
-- whether connecting again may help.
use thinclient.Prelude.{
  ℕ, suc, Bool, true, false, ◌&&◌, ◌||◌, Option, none, some, List, [], ◌∷◌, ◌++◌, String, nat_eq,
  drop, leb, if◌then◌else◌, ℤ, pos, negsuc,
}
use thinclient.Text.{Text, codes, is_empty, starts_with}
use thinclient.Config.Ids.{decimal}

-- an entry of FAILURE_HINTS
pub record Hint : Type 0 where
  pub token : Text
  pub hint_message : Text
  pub may_retry : Bool

abbrev hint : String → String → Bool → Hint
hint t m b = record { token = codes t; hint_message = codes m; may_retry = b }

pub record Failure : Type 0 where
  pub message : Text
  pub retryable : Bool

-- the hints that come first: the account or the credentials are refused
abbrev pub credential_hints : List Hint
credential_hints =
    hint "ERRCONNECT_ACCOUNT_LOCKED_OUT"
      "That account is locked out. An administrator has to unlock it." false
    ∷ hint "ERRCONNECT_ACCOUNT_DISABLED" "That account is disabled." false
    ∷ hint "ERRCONNECT_ACCOUNT_EXPIRED" "That account has expired." false
    ∷ hint "ERRCONNECT_PASSWORD_MUST_CHANGE"
        "The password must be changed before signing in. Change it on a full PC first." false
    ∷ hint "ERRCONNECT_PASSWORD_EXPIRED" "The password has expired." false
    ∷ hint "ERRCONNECT_PASSWORD_CERTAINLY_EXPIRED"
        "The server rejected the credentials. Check the username, password and domain - and that this client's clock matches the server."
        false
    ∷ hint "ERRCONNECT_LOGON_FAILURE" "Wrong username or password (or the wrong domain)." false
    ∷ hint "ERRCONNECT_INSUFFICIENT_PRIVILEGES"
        "That account is not allowed to sign in remotely. Add it to Remote Desktop Users." false
    ∷ hint "ERRCONNECT_AUTHENTICATION_FAILED"
        "Authentication failed. With NLA this is usually the password, the domain, or a client clock more than five minutes out."
        false
    ∷ []

abbrev pub other_hints : List Hint
other_hints =
    hint "ERRCONNECT_DNS_NAME_NOT_FOUND"
      "The server name could not be resolved. Check DNS, or use an IP address." true
    ∷ hint "ERRCONNECT_CONNECT_TRANSPORT_FAILED"
        "Could not reach the server. Check the address, the network and the firewall." true
    ∷ hint "ERRCONNECT_CONNECT_CANCELLED"
        "No username or password was supplied, and this server requires them before it will connect."
        false
    ∷ hint "ERRINFO_LOGOFF_BY_USER" "You signed out of the remote session." false
    ∷ hint "ERRINFO_IDLE_TIMEOUT" "The remote session timed out." false
    ∷ hint "ERRINFO_DISCONNECTED_BY_OTHER_CONNECTION"
        "Someone else signed in and took over this session." false
    ∷ hint "ERRINFO_RPC_INITIATED_DISCONNECT" "An administrator disconnected the session." false
    ∷ hint "ERRINFO_LICENSE" "The server refused a licence. Check RDS licensing and CALs." false
    ∷ hint "SEC_E_NO_CREDENTIALS" "No credentials were supplied." false
    ∷ hint "tlsv1 alert" "The secure channel was rejected by the server during the handshake." false
    ∷ hint "certificate" "The server certificate was not accepted." false
    ∷ hint "failed to open display" "The local display is not available." false
    ∷ []

abbrev pub failure_hints : List Hint
failure_hints = credential_hints ++ other_hints

-- token in text
unfoldable pub occurs : Text → Text → Bool
occurs t [] = is_empty t
occurs t (c ∷ s) = starts_with t (c ∷ s) || occurs t s

-- where str.splitlines ends a line
abbrev pub is_line_end : ℕ → Bool
is_line_end c =
    (leb 10 c && leb c 13)
    || (leb 28 c && leb c 30)
    || nat_eq c 0x85
    || nat_eq c 0x2028
    || nat_eq c 0x2029

-- str.splitlines: the flag says that a carriage return was just read, to which a line feed belongs
unfoldable pub lines_from : Bool → Text → Text → List Text
lines_from after_return current [] = if is_empty current then [] else current ∷ []
lines_from after_return current (c ∷ s) = elim (after_return && nat_eq c 10) [
  | true ↦ lines_from false current s
  | false ↦ elim (is_line_end c) [
    | true ↦ current ∷ lines_from (nat_eq c 13) [] s
    | false ↦ lines_from false (current ++ c ∷ []) s
  ]
]

-- line.rsplit("]:", 1)[-1], or the line
unfoldable pub last_part : Text → Text → Text
last_part best [] = best
last_part best (c ∷ s) = last_part (if starts_with (codes "]:") (c ∷ s) then drop 1 s else best) s

-- one of the characters of " -\t"
abbrev is_filler : ℕ → Bool
is_filler c = nat_eq c b' ' || nat_eq c b'-' || nat_eq c 9

unfoldable pub strip_filler_left : Text → Text
strip_filler_left [] = []
strip_filler_left (c ∷ s) = let rest = strip_filler_left s in if is_filler c then rest else c ∷ s

unfoldable pub strip_filler_right : Text → Text
strip_filler_right [] = []
strip_filler_right (c ∷ s) =
    let rest = strip_filler_right s in if is_filler c && is_empty rest then [] else c ∷ rest

unfoldable pub error_message : Text → Text
unfolding occurs last_part strip_filler_left strip_filler_right
error_message line =
    if occurs (codes "[ERROR]") line
    then strip_filler_right (strip_filler_left (last_part line line))
    else []

-- "%d" of an exit code
abbrev pub exit_code : ℤ → Text
exit_code (pos n) = decimal n
exit_code (negsuc n) = codes "-" ++ decimal (suc n)

-- the last line that has an error message, or else the exit code
unfoldable pub fallback : List Text → Text → Text
unfolding error_message
fallback [] default = default
fallback (line ∷ lines) default =
    fallback lines (if is_empty (error_message line) then default else error_message line)

unfoldable pub unexplained : Text → ℤ → Failure
unfolding lines_from fallback decimal
unexplained text code = record {
  message = fallback (lines_from false [] text) (codes "exit code " ++ exit_code code);
  retryable = true;
}

-- the first hint whose token is in the text, or else what follows the loop
unfoldable pub first_hint : List Hint → Text → Failure → Failure
unfolding occurs
first_hint [] text otherwise = otherwise
first_hint (h ∷ hs) text otherwise =
    let rest = first_hint hs text otherwise in
    if occurs h.token text
    then record { message = h.hint_message; retryable = h.may_retry }
    else rest

-- the contents of the log, if it can be read
abbrev pub log_text : Option Text → Text
log_text none = []
log_text (some text) = text

unfoldable pub explain_failure : Option Text → ℤ → Failure
unfolding first_hint unexplained
explain_failure log code = first_hint failure_hints (log_text log) (unexplained (log_text log) code)

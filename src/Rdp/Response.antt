-- ===== src/Rdp/Response.antt =====
-- `parse_response` of overlay/usr/local/lib/thinclient/rdpprobe.py. A problem carries the numbers
-- that its message shows.
use thinclient.Prelude.{ℕ, ◌+◌, ◌-◌, not, [], ◌∷◌, ltb, nat_eq, drop, length, ◌||◌, if◌then◌else◌}
use thinclient.Text.{Text, codes}
use thinclient.Rdp.{Bytes, unpack_le16, unpack_le32, byte_at, x224_confirm_size}

pub data Problem : Type 0 where
  truncated_confirm : ℕ → Problem
  invalid_indicator : ℕ → Problem
  indicator_mismatch : ℕ → ℕ → Problem
  unexpected_tpdu : ℕ → Problem
  no_negotiation : Problem
  truncated_header : Problem
  unexpected_kind : ℕ → Problem
  invalid_length : ℕ → Problem
  length_mismatch : ℕ → ℕ → Problem
  unknown_protocol : ℕ → Problem
  no_reply : Problem
  truncated_tpkt_header : ℕ → Problem
  invalid_tpkt_header : ℕ → ℕ → Problem
  tpkt_too_short : ℕ → Problem
  tpkt_too_long : ℕ → Problem
  truncated_response : ℕ → ℕ → Problem

pub data FailureText : Type 0 where
  listed : Text → FailureText
  code : ℕ → FailureText

pub data Answer : Type 0 where
  error : Problem → Answer
  selected : (name description : Text) → (raw : ℕ) → Answer
  failure : FailureText → (raw : ℕ) → Answer

-- PROTOCOLS[payload]
unfoldable pub select_protocol : ℕ → Answer
select_protocol p =
    if nat_eq p 0
    then selected (codes "RDP") (codes "legacy RDP security - no TLS") p
    else if nat_eq p 1
    then selected (codes "TLS") (codes "TLS 1.x, server certificate, no CredSSP") p
    else if nat_eq p 2
    then selected (codes "HYBRID") (codes "NLA / CredSSP - credentials required before the desktop")
        p
    else if nat_eq p 8
    then selected (codes "HYBRID_EX") (codes "NLA with Early User Authorization") p
    else error (unknown_protocol p)

-- FAILURE_CODES.get(payload, "code %d" % payload)
unfoldable pub failure_text : ℕ → FailureText
failure_text p =
    if nat_eq p 1
    then listed (codes "SSL_REQUIRED_BY_SERVER - the server insists on TLS/NLA")
    else if nat_eq p 2
    then listed (codes "SSL_NOT_ALLOWED_BY_SERVER - the server refuses TLS")
    else if nat_eq p 3
    then listed (codes "SSL_CERT_NOT_ON_SERVER - the server has no usable certificate")
    else if nat_eq p 4
    then listed (codes "INCONSISTENT_FLAGS")
    else if nat_eq p 5
    then listed (codes "HYBRID_REQUIRED_BY_SERVER - NLA is mandatory")
    else if nat_eq p 6
    then listed (codes "SSL_WITH_USER_AUTH_REQUIRED_BY_SERVER")
    else code p

-- the bytes after the fixed X.224 header
unfoldable pub parse_negotiation : Bytes → Answer
unfolding select_protocol failure_text
parse_negotiation [] = error no_negotiation
parse_negotiation (kind ∷ flags ∷ l0 ∷ l1 ∷ rest) =
    let declared_length = unpack_le16 l0 l1 in
    let payload = unpack_le32 rest in
    if not (nat_eq kind 0x02 || nat_eq kind 0x03)
    then error (unexpected_kind kind)
    else if not (nat_eq declared_length 8)
    then error (invalid_length declared_length)
    else if not (nat_eq (4 + length rest) declared_length)
    then error (length_mismatch declared_length (4 + length rest))
    else if nat_eq kind 0x02
    then select_protocol payload
    else failure (failure_text payload) payload
parse_negotiation _ = error truncated_header

unfoldable pub parse_response : Bytes → Answer
unfolding parse_negotiation
parse_response body =
    let length_indicator = byte_at 0 body in
    let kind = byte_at 1 body in
    if ltb (length body) x224_confirm_size
    then error (truncated_confirm (length body))
    else if ltb length_indicator (x224_confirm_size - 1)
    then error (invalid_indicator length_indicator)
    else if not (nat_eq (length_indicator + 1) (length body))
    then error (indicator_mismatch length_indicator (length body))
    else if not (nat_eq kind 0xD0)
    then error (unexpected_tpdu kind)
    else parse_negotiation (drop x224_confirm_size body)

-- ===== src/Rdp/Answers.antt =====
-- What the probe reads in a Connection Confirm.
use thinclient.Prelude.{
  ℕ, ◌+◌, ◌≤◌, ◌<◌, ◌≡◌, ◌≢◌, ap, ◌⊎◌, ◌∷◌, arith, length, drop, refl, sym, subst, nat_eq,
  nat_eq_iff, if_elim, Bool-cases, inl, inr, false,
}
use thinclient.Text.{Text, codes}
use thinclient.Rdp.{Bytes, unpack_le16, unpack_le32, byte_at, pack_le32}
use thinclient.Rdp.Response.{
  Answer, Problem, FailureText, truncated_confirm, invalid_indicator, indicator_mismatch,
  unexpected_tpdu, error, unknown_protocol, listed, code, selected, failure, select_protocol,
  failure_text, parse_negotiation, parse_response,
}

-- the confirm of a server that follows the protocol: `kind` is 2 for a selection, 3 for a failure
abbrev pub confirm : (kind flags payload : ℕ) → (a b c d e : ℕ) → Bytes
confirm kind flags payload a b c d e =
    14 ∷ 0xD0 ∷ a ∷ b ∷ c ∷ d ∷ e ∷ kind ∷ flags ∷ 8 ∷ 0 ∷ pack_le32 payload

le32_round : (n : ℕ) → n < 4294967296 → unpack_le32 (pack_le32 n) ≡ n
le32_round n h = omega arith

-- what the probe is to say of a selection of a protocol
pub data Chosen (payload : ℕ) (answer : Answer) : Type 0 where
  legacy :
      payload ≡ 0
      → answer ≡ selected (codes "RDP") (codes "legacy RDP security - no TLS") 0
      → Chosen payload answer
  tls :
      payload ≡ 1
      → answer ≡ selected (codes "TLS") (codes "TLS 1.x, server certificate, no CredSSP") 1
      → Chosen payload answer
  nla :
      payload ≡ 2
      → answer
        ≡ selected
            (codes "HYBRID")
            (codes "NLA / CredSSP - credentials required before the desktop")
            2
      → Chosen payload answer
  early_user :
      payload ≡ 8
      → answer ≡ selected (codes "HYBRID_EX") (codes "NLA with Early User Authorization") 8
      → Chosen payload answer
  nothing_known :
      payload ≢ 0
      → payload ≢ 1
      → payload ≢ 2
      → payload ≢ 8
      → answer ≡ error (unknown_protocol payload)
      → Chosen payload answer

-- what the probe is to say of a failure
pub data Refused (payload : ℕ) (answer : Answer) : Type 0 where
  tls_required :
      payload ≡ 1
      → answer ≡ failure (listed (codes "SSL_REQUIRED_BY_SERVER - the server insists on TLS/NLA")) 1
      → Refused payload answer
  tls_refused :
      payload ≡ 2
      → answer ≡ failure (listed (codes "SSL_NOT_ALLOWED_BY_SERVER - the server refuses TLS")) 2
      → Refused payload answer
  no_certificate :
      payload ≡ 3
      → answer
        ≡ failure (listed (codes "SSL_CERT_NOT_ON_SERVER - the server has no usable certificate")) 3
      → Refused payload answer
  inconsistent :
      payload ≡ 4
      → answer ≡ failure (listed (codes "INCONSISTENT_FLAGS")) 4
      → Refused payload answer
  nla_required :
      payload ≡ 5
      → answer ≡ failure (listed (codes "HYBRID_REQUIRED_BY_SERVER - NLA is mandatory")) 5
      → Refused payload answer
  user_auth_required :
      payload ≡ 6
      → answer ≡ failure (listed (codes "SSL_WITH_USER_AUTH_REQUIRED_BY_SERVER")) 6
      → Refused payload answer
  not_listed :
      (payload ≡ 0) ⊎ (7 ≤ payload)
      → answer ≡ failure (code payload) payload
      → Refused payload answer

apart : (p n : ℕ) → nat_eq p n ≡ false → p ≢ n
apart p n h e = ground (arith, h, e)

others :
    (p : ℕ)
    → nat_eq p 1 ≡ false
    → nat_eq p 2 ≡ false
    → nat_eq p 3 ≡ false
    → nat_eq p 4 ≡ false
    → nat_eq p 5 ≡ false
    → nat_eq p 6 ≡ false
    → (p ≡ 0) ⊎ (7 ≤ p)
others p e1 e2 e3 e4 e5 e6 = elim (Bool-cases (nat_eq p 0)) [
  | inl e ↦ inl ((nat_eq_iff p 0).0 e)
  | inr e ↦ inr (ground (arith, e, e1, e2, e3, e4, e5, e6))
]

select_protocol-Chosen : (p : ℕ) → Chosen p (select_protocol p)
unfolding select_protocol
select_protocol-Chosen p =
    if_elim {A = Answer} (Chosen p) (nat_eq p 0)
      (λ e0. legacy ((nat_eq_iff p 0).0 e0) (
        ap (selected (codes "RDP") (codes "legacy RDP security - no TLS")) ((nat_eq_iff p 0).0 e0)))
      (λ e0.
        if_elim {A = Answer} (Chosen p) (nat_eq p 1)
          (λ e1. tls ((nat_eq_iff p 1).0 e1) (
            ap (selected (codes "TLS") (codes "TLS 1.x, server certificate, no CredSSP"))
              ((nat_eq_iff p 1).0 e1)))
          (λ e1.
            if_elim {A = Answer} (Chosen p) (nat_eq p 2)
              (λ e2. nla ((nat_eq_iff p 2).0 e2) (
                ap
                  (selected (codes "HYBRID")
                    (codes "NLA / CredSSP - credentials required before the desktop"))
                  ((nat_eq_iff p 2).0 e2)))
              (λ e2.
                if_elim {A = Answer} (Chosen p) (nat_eq p 8)
                  (λ e8. early_user ((nat_eq_iff p 8).0 e8) (
                    ap (selected (codes "HYBRID_EX") (codes "NLA with Early User Authorization"))
                      ((nat_eq_iff p 8).0 e8)))
                  (λ e8.
                    nothing_known (apart p 0 e0) (apart p 1 e1) (apart p 2 e2) (apart p 8 e8)
                      refl))))

failure_text-Refused : (p : ℕ) → Refused p (failure (failure_text p) p)
unfolding failure_text
failure_text-Refused p =
    if_elim {A = FailureText} (λ text. Refused p (failure text p)) (nat_eq p 1)
      (λ e1. tls_required ((nat_eq_iff p 1).0 e1) (
        ap (failure (listed (codes "SSL_REQUIRED_BY_SERVER - the server insists on TLS/NLA")))
          ((nat_eq_iff p 1).0 e1)))
      (λ e1.
        if_elim {A = FailureText} (λ text. Refused p (failure text p)) (nat_eq p 2)
          (λ e2. tls_refused ((nat_eq_iff p 2).0 e2) (
            ap (failure (listed (codes "SSL_NOT_ALLOWED_BY_SERVER - the server refuses TLS")))
              ((nat_eq_iff p 2).0 e2)))
          (λ e2.
            if_elim {A = FailureText} (λ text. Refused p (failure text p)) (nat_eq p 3)
              (λ e3. no_certificate ((nat_eq_iff p 3).0 e3) (
                ap
                  (failure (
                    listed (codes "SSL_CERT_NOT_ON_SERVER - the server has no usable certificate")))
                  ((nat_eq_iff p 3).0 e3)))
              (λ e3.
                if_elim {A = FailureText} (λ text. Refused p (failure text p)) (nat_eq p 4)
                  (λ e4.
                    inconsistent ((nat_eq_iff p 4).0 e4)
                      (ap (failure (listed (codes "INCONSISTENT_FLAGS"))) ((nat_eq_iff p 4).0 e4)))
                  (λ e4.
                    if_elim {A = FailureText} (λ text. Refused p (failure text p)) (nat_eq p 5)
                      (λ e5. nla_required ((nat_eq_iff p 5).0 e5) (
                        ap (failure (listed (codes "HYBRID_REQUIRED_BY_SERVER - NLA is mandatory")))
                          ((nat_eq_iff p 5).0 e5)))
                      (λ e5.
                        if_elim {A = FailureText} (λ text. Refused p (failure text p)) (nat_eq p 6)
                          (λ e6. user_auth_required ((nat_eq_iff p 6).0 e6) (
                            ap (failure (listed (codes "SSL_WITH_USER_AUTH_REQUIRED_BY_SERVER")))
                              ((nat_eq_iff p 6).0 e6)))
                          (λ e6. not_listed (others p e1 e2 e3 e4 e5 e6) refl))))))

-- Whatever the flags and the bytes of the X.224 header that are not looked at, a whole confirm that
-- selects the protocol 0, 1, 2 or 8 is read as the selection of RDP, TLS, HYBRID or HYBRID_EX with its
-- number, and one that selects any other as the error of an unknown protocol with its number; a whole
-- confirm of a failure is read as a failure with its code and the text that belongs to the codes 1 to
-- 6, or the bare code for any other.
pub parse_response-confirm :
    (flags payload a b c d e : ℕ)
    → payload < 4294967296
    → Chosen payload (parse_response (confirm 2 flags payload a b c d e))
      × Refused payload (parse_response (confirm 3 flags payload a b c d e))
unfolding parse_response
parse_response-confirm flags payload a b c d e h = (
  subst (λ p. Chosen payload (select_protocol p)) (sym (le32_round payload h))
      (select_protocol-Chosen payload),
  subst (λ p. Refused payload (failure (failure_text p) p)) (sym (le32_round payload h))
      (failure_text-Refused payload),
)

-- the shape of a body from which a result is taken
pub record Confirms (kind raw : ℕ) (body : Bytes) : Type 0 where
  pub whole : length body ≡ 15
  pub indicator : byte_at 0 body ≡ 14
  pub tpdu : byte_at 1 body ≡ 0xD0
  pub answer_kind : byte_at 7 body ≡ kind
  pub answer_length : unpack_le16 (byte_at 9 body) (byte_at 10 body) ≡ 8
  pub answer_value : unpack_le32 (drop 11 body) ≡ raw

abbrev pub IsKnown : ℕ → Type 0
IsKnown raw = (raw ≡ 0) ⊎ (raw ≡ 1) ⊎ (raw ≡ 2) ⊎ (raw ≡ 8)

select_protocol_sound :
    (p raw : ℕ) (name description : Text)
    → select_protocol p ≡ selected name description raw
    → (raw ≡ p) × IsKnown raw
unfolding select_protocol
select_protocol_sound p raw name description h = ground arith

parse_negotiation-selected :
    (neg : Bytes) (name description : Text) (raw : ℕ)
    → parse_negotiation neg ≡ selected name description raw
    → (length neg ≡ 8)
      × (byte_at 0 neg ≡ 2)
      × (unpack_le16 (byte_at 2 neg) (byte_at 3 neg) ≡ 8)
      × (unpack_le32 (drop 4 neg) ≡ raw)
      × IsKnown raw
unfolding parse_negotiation
parse_negotiation-selected (kind ∷ flags ∷ l0 ∷ l1 ∷ rest) name description raw h =
    let (same, known) =
      select_protocol_sound (unpack_le32 rest) raw name description (ground arith) in
    (ground arith, ground arith, ground arith, ground arith, known)
parse_negotiation-selected _ name description raw h = ground arith

parse_negotiation_failure :
    (neg : Bytes) (text : FailureText) (raw : ℕ)
    → parse_negotiation neg ≡ failure text raw
    → (length neg ≡ 8)
      × (byte_at 0 neg ≡ 3)
      × (unpack_le16 (byte_at 2 neg) (byte_at 3 neg) ≡ 8)
      × (unpack_le32 (drop 4 neg) ≡ raw)
      × (text ≡ failure_text raw)
unfolding parse_negotiation
parse_negotiation_failure (kind ∷ flags ∷ l0 ∷ l1 ∷ rest) text raw h = ground arith
parse_negotiation_failure _ text raw h = ground arith

-- what the checks of the X.224 header have established unless they fail
module _ (body : Bytes) (r : Answer) (not_error : (p : Problem) → r ≢ error p) where
  header_checked :
      parse_response body ≡ r
      → (byte_at 0 body + 1 ≡ length body)
        × (byte_at 1 body ≡ 0xD0)
        × (7 ≤ length body)
        × (parse_negotiation (drop 7 body) ≡ r)
  unfolding parse_response
  header_checked h = ground (
    arith,
    not_error (truncated_confirm (length body)),
    not_error (invalid_indicator (byte_at 0 body)),
    not_error (indicator_mismatch (byte_at 0 body) (length body)),
    not_error (unexpected_tpdu (byte_at 1 body)),
  )

confirms :
    (body : Bytes) (kind raw : ℕ)
    → (byte_at 0 body + 1 ≡ length body) × (byte_at 1 body ≡ 0xD0) × (7 ≤ length body)
    → (length (drop 7 body) ≡ 8)
      × (byte_at 0 (drop 7 body) ≡ kind)
      × (unpack_le16 (byte_at 2 (drop 7 body)) (byte_at 3 (drop 7 body)) ≡ 8)
      × (unpack_le32 (drop 4 (drop 7 body)) ≡ raw)
    → Confirms kind raw body
confirms (a ∷ b ∷ c ∷ d ∷ e ∷ f ∷ g ∷ neg) kind raw h n = record {
  whole = omega arith;
  indicator = omega arith;
  tpdu = h.1;
  answer_kind = n.1;
  answer_length = n.2;
  answer_value = n.3;
}
confirms _ kind raw h n = absurd (omega arith)

-- A body that is read as a selection is a whole, well-formed confirm of fifteen bytes that selects
-- one of the four known protocols, and the number that is returned is the one in the body.
pub parse_response-selected :
    (body : Bytes) (name description : Text) (raw : ℕ)
    → parse_response body ≡ selected name description raw
    → Confirms 2 raw body × IsKnown raw
parse_response-selected body name description raw h =
    let (indicator, tpdu, enough, rest) = header_checked body _ (λ p e. cc) h in
    let n = parse_negotiation-selected (drop 7 body) name description raw rest in
    (confirms body 2 raw (indicator, tpdu, enough) (n.0, n.1, n.2, n.3), n.4)

-- A body that is read as a failure is a whole, well-formed confirm with the failure's number, and
-- the text is the one for that number.
pub parse_response-failure :
    (body : Bytes) (text : FailureText) (raw : ℕ)
    → parse_response body ≡ failure text raw
    → Confirms 3 raw body × (text ≡ failure_text raw)
parse_response-failure body text raw h =
    let (indicator, tpdu, enough, rest) = header_checked body _ (λ p e. cc) h in
    let n = parse_negotiation_failure (drop 7 body) text raw rest in
    (confirms body 3 raw (indicator, tpdu, enough) (n.0, n.1, n.2, n.3), n.4)

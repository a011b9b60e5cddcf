-- ===== src/Password/Laws.antt =====
-- Hashing and verifying a password.
use thinclient.Prelude.{
  ℕ, ◌≡◌, refl, sym, ap, ◌∙◌, Bool, true, false, ◌&&◌, Option, none, some, List, [], ◌∷◌, ◌++◌,
  arith, leb, nat_eq, length, ℤ, pos, negsuc, if◌then◌else◌, if_elim, ◌==◌, compare_texts,
  equal_refl, ◌≢◌, ◌↔◌,
}
use thinclient.Text.{Text, codes, is_empty, starts_with, contains_char, split, int_of_text}
use thinclient.Diagnostics.Endpoint.{cut_at}
use thinclient.Password.{
  Hashes, Verdict, verdict, type_error, is_ascii, compare_digest, marker, iterations, stored_hash,
  hash_password, caught, compared, with_rounds, verify_fields, verify_old, verify_password,
}

split-end : (sep : ℕ) (s : Text) → contains_char sep s ≡ false → split sep s ≡ s ∷ []
unfolding split
split-end sep [] h = refl
split-end sep (c ∷ s) h =
    rw (split-end sep s (ground (arith, h))) (rw (other sep c (ground (arith, h))) refl)
  where
    other : (sep c : ℕ) → nat_eq sep c ≡ false → nat_eq c sep ≡ false
    other sep c h = ground (arith, h)

split-field :
    (sep : ℕ) (a s : Text)
    → contains_char sep a ≡ false
    → split sep (a ++ sep ∷ s) ≡ a ∷ split sep s
unfolding split
split-field sep [] s h = rw (same sep) refl
  where
    same : (sep : ℕ) → nat_eq sep sep ≡ true
    same sep = ground arith
split-field sep (c ∷ a) s h =
    rw (split-field sep a s (ground (arith, h))) (rw (other sep c (ground (arith, h))) refl)
  where
    other : (sep c : ℕ) → nat_eq sep c ≡ false → nat_eq c sep ≡ false
    other sep c h = ground (arith, h)

-- What the library documents: the digest of SHA-256 has 64 hexadecimal digits.
pub record AreHexDigests (h : Hashes) : Type 0 where
  pub digest_length : (p s d : Text) (n : ℕ) → h.pbkdf2 p s n ≡ some d → length d ≡ 64
  pub digest_ascii : (p s d : Text) (n : ℕ) → h.pbkdf2 p s n ≡ some d → is_ascii d ≡ true
  pub digest_plain : (p s d : Text) (n : ℕ) → h.pbkdf2 p s n ≡ some d → contains_char b'$' d ≡ false

stored_fields :
    (salt digest : Text)
    → contains_char b'$' salt ≡ false
    → contains_char b'$' digest ≡ false
    → split b'$' (stored_hash salt digest)
      ≡ codes "pbkdf2-sha256" ∷ codes "600000" ∷ salt ∷ digest ∷ []
stored_fields salt digest s d =
    split-field b'$' (codes "pbkdf2-sha256") (codes "600000" ++ b'$' ∷ salt ++ b'$' ∷ digest) refl
    ∙ ap (λ l. codes "pbkdf2-sha256" ∷ l)
        (split-field b'$' (codes "600000") (salt ++ b'$' ∷ digest) refl
          ∙ ap (λ l. codes "600000" ∷ l)
              (split-field b'$' salt digest s ∙ ap (λ l. salt ∷ l) (split-end b'$' digest d)))

verify_password-stored :
    (h : Hashes) (salt digest plain : Text)
    → verify_password h (stored_hash salt digest) plain
      ≡ verify_fields h (split b'$' (stored_hash salt digest)) plain
unfolding verify_password
verify_password-stored h salt digest plain = refl

rounds_read : int_of_text (codes "600000") ≡ some (pos iterations)
unfolding int_of_text
rounds_read = refl

with_rounds-match :
    (h : Hashes) (attempt salt d e : Text)
    → length salt ≡ 32
    → length d ≡ 64
    → is_ascii d ≡ true
    → is_ascii e ≡ true
    → h.pbkdf2 attempt salt iterations ≡ some e
    → with_rounds h attempt (some (pos iterations)) salt d ≡ verdict (e == d)
with_rounds-match h attempt salt d e s l a b q = rw s (rw l (rw q (rw a (rw b refl))))

-- A password that was hashed is verified by comparing digests: of the password itself it is
-- accepted, and of another attempt exactly where its digest under the same salt is the same. The
-- salt has the 32 hexadecimal digits of 16 bytes, and the digests are those of the hash function.
pub verify_password-hash_password :
    (h : Hashes) (salt plain attempt d e : Text)
    → AreHexDigests h
    → length salt ≡ 32
    → contains_char b'$' salt ≡ false
    → h.pbkdf2 plain salt iterations ≡ some d
    → h.pbkdf2 attempt salt iterations ≡ some e
    → (stored : Text) × (hash_password h salt plain ≡ some stored)
      × (verify_password h stored plain ≡ verdict true)
      × (verify_password h stored attempt ≡ verdict (e == d))
unfolding hash_password
verify_password-hash_password h salt plain attempt d e hex l s p q = (
  stored_hash salt d,
  rw p refl,
  checked plain d p ∙ ap verdict (equal_refl d),
  checked attempt e q,
)
  where
    checked :
        (other x : Text)
        → h.pbkdf2 other salt iterations ≡ some x
        → verify_password h (stored_hash salt d) other ≡ verdict (x == d)
    checked other x r =
        verify_password-stored h salt d other
        ∙ ap (λ fs. verify_fields h fs other)
            (stored_fields salt d s (hex.digest_plain plain salt d iterations p))
        ∙ ap (λ n. with_rounds h other n salt d) rounds_read
        ∙ with_rounds-match h other salt d x l (hex.digest_length plain salt d iterations p)
            (hex.digest_ascii plain salt d iterations p)
            (hex.digest_ascii other salt x iterations r) r

caught-verdict : (v : Verdict) → caught v ≢ type_error
caught-verdict (verdict b) e = ground (arith, e)
caught-verdict type_error e = ground (arith, e)

compared-verdict : (actual : Option Text) (digest : Text) → compared actual digest ≢ type_error
compared-verdict none digest e = ground (arith, e)
compared-verdict (some a) digest e = caught-verdict (compare_digest a digest) e

verify_fields-verdict :
    (h : Hashes) (fields : List Text) (plain : Text) → verify_fields h fields plain ≢ type_error
verify_fields-verdict h [] plain e = ground (arith, e)
verify_fields-verdict h (a ∷ []) plain e = ground (arith, e)
verify_fields-verdict h (a ∷ b ∷ []) plain e = ground (arith, e)
verify_fields-verdict h (a ∷ b ∷ c ∷ []) plain e = ground (arith, e)
verify_fields-verdict h (a ∷ b ∷ c ∷ d ∷ []) plain e = rounds_verdict (int_of_text b) e
  where
    rounds_verdict : (n : Option ℤ) → with_rounds h plain n c d ≢ type_error
    rounds_verdict none r = ground (arith, r)
    rounds_verdict (some (negsuc n)) r = ground (arith, r)
    rounds_verdict (some (pos n)) r =
        if_elim {A = Verdict} (λ v. v ≢ type_error)
          (leb 100000 n && leb n 2000000 && nat_eq (length c) 32 && nat_eq (length d) 64)
          (λ q. compared-verdict (h.pbkdf2 plain c n) d) (λ q u. ground (arith, u)) r
verify_fields-verdict h (a ∷ b ∷ c ∷ d ∷ x ∷ xs) plain e = ground (arith, e)

-- where the tests of a verification lead to an exception
raised :
    (empty marked ascii : Bool) (v : Verdict) (same : Bool)
    → v ≢ type_error
    → (if empty
        then verdict true
        else if marked
        then v
        else if ascii
        then verdict same
        else type_error)
      ≡ type_error
    → (empty ≡ false) × (marked ≡ false) × (ascii ≡ false)
raised true marked ascii v same n e = absurd (ground (arith, e))
raised false true ascii v same n e = absurd (n e)
raised false false true v same n e = absurd (ground (arith, e))
raised false false false v same n e = (refl, refl, refl)

-- Verifying raises an exception exactly where a password is stored in plain text and it or the attempt
-- has a character beyond ASCII. (Where the stored text is not of the old hashed form.)
pub verify_password_raises :
    (h : Hashes) (stored plain : Text)
    → starts_with (codes "sha256$") stored ≡ false
    → (verify_password h stored plain ≡ type_error) ↔ (
        (is_empty stored ≡ false)
        × (starts_with marker stored ≡ false)
        × ((is_ascii stored && is_ascii plain) ≡ false))
unfolding verify_password
verify_password_raises h stored plain old = (
  λ e.
      raised (is_empty stored) (starts_with marker stored) (is_ascii stored && is_ascii plain) _
        (stored == plain) (verify_fields-verdict h (split b'$' stored) plain)
        (sym (
            ap
              (λ o.
                if is_empty stored
                then verdict true
                else if starts_with marker stored
                then verify_fields h (split b'$' stored) plain
                else if o
                then verify_old h (cut_at b'$' stored) plain
                else compare_digest stored plain)
              old)
          ∙ e),
  λ e. rw e.0 (rw e.1 (rw old (rw e.2 refl))),
)

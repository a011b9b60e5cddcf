-- ===== src/Password/Tests.antt =====
-- Passwords under a toy hash function, whose digest is the password padded with zeros.
use thinclient.Prelude.{
  ℕ, zero, suc, ◌≡◌, ◌↔◌, refl, subst, arith, ◌&&◌, Bool, true, false, some, [], ◌∷◌, length,
  if◌then◌else◌, ◌==◌, compare_texts,
}
use thinclient.Text.{Text, codes, contains_char, is_empty, starts_with}
use thinclient.Password.{
  Hashes, verdict, type_error, is_ascii, marker, hash_password, verify_password,
}
use thinclient.Password.Laws.{AreHexDigests, verify_password-hash_password, verify_password_raises}

abbrev zeros : ℕ → Text
zeros zero = []
zeros (suc n) = b'0' ∷ zeros n

abbrev salt : Text
salt = zeros 32

-- what the toy makes of a password: two digests that differ
abbrev digest : Text → Text
digest plain = if plain == codes "secret" then zeros 64 else b'1' ∷ zeros 63

abbrev toy : Hashes
toy = record { pbkdf2 = λ plain s n. some (digest plain); sha256 = λ s. zeros 64 }

digests :
    (plain : Text)
    → (length (digest plain) ≡ 64)
      × (is_ascii (digest plain) ≡ true)
      × (contains_char b'$' (digest plain) ≡ false)
digests plain = by_test (plain == codes "secret")
  where
    by_test :
        (b : Bool)
        → (length (if b then zeros 64 else b'1' ∷ zeros 63) ≡ 64)
          × (is_ascii (if b then zeros 64 else b'1' ∷ zeros 63) ≡ true)
          × (contains_char b'$' (if b then zeros 64 else b'1' ∷ zeros 63) ≡ false)
    by_test true = (refl, refl, refl)
    by_test false = (refl, refl, refl)

text_of : (a b : Text) → some a ≡ some b → a ≡ b
text_of a b h = ground (arith, h)

toy-AreHexDigests : AreHexDigests toy
toy-AreHexDigests = record {
  digest_length = λ p s d n e. subst (λ x. length x ≡ 64) (text_of (digest p) d e) (digests p).0;
  digest_ascii = λ p s d n e. subst (λ x. is_ascii x ≡ true) (text_of (digest p) d e) (digests p).1;
  digest_plain =
      λ p s d n e. subst (λ x. contains_char b'$' x ≡ false) (text_of (digest p) d e) (digests p).2;
}

verify_password-hash_password_example :
    (stored : Text) × (hash_password toy salt (codes "secret") ≡ some stored)
    × (verify_password toy stored (codes "secret") ≡ verdict true)
    × (verify_password toy stored (codes "guess")
        ≡ verdict (digest (codes "guess") == digest (codes "secret")))
verify_password-hash_password_example =
    verify_password-hash_password toy salt (codes "secret") (codes "guess")
      (digest (codes "secret")) (digest (codes "guess")) toy-AreHexDigests refl refl refl refl

guess_differs : (digest (codes "guess") == digest (codes "secret")) ≡ false
guess_differs = refl

verify_password_raises_example :
    (verify_password toy (codes "pässword") (codes "pässword") ≡ type_error) ↔ (
      (is_empty (codes "pässword") ≡ false)
      × (starts_with marker (codes "pässword") ≡ false)
      × ((is_ascii (codes "pässword") && is_ascii (codes "pässword")) ≡ false))
verify_password_raises_example =
    verify_password_raises toy (codes "pässword") (codes "pässword") refl

right_password_raises : verify_password toy (codes "pässword") (codes "pässword") ≡ type_error
unfolding verify_password
right_password_raises = refl

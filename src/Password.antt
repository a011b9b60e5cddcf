-- ===== src/Password.antt =====
-- The administrator's password: `hash_password` and `verify_password` of
-- overlay/usr/local/lib/thinclient/tcconfig.py. The hash functions are a record.
pub mod Laws
mod Tests
use thinclient.Prelude.{
  ℕ, Bool, true, false, not, ◌&&◌, ◌||◌, Option, none, some, List, [], ◌∷◌, ◌++◌, all, ltb, leb,
  nat_eq, length, ℤ, pos, negsuc, if◌then◌else◌, ◌==◌, compare_texts,
}
use thinclient.Text.{Text, codes, is_empty, starts_with, split, int_of_text}
use thinclient.Diagnostics.Endpoint.{cut_at}

-- `pbkdf2_hmac("sha256", plain.encode(), bytes.fromhex(salt), rounds).hex()`, none where it raises
-- ValueError, and `sha256(text.encode()).hexdigest()`.
pub record Hashes : Type 0 where
  pub pbkdf2 : Text → Text → ℕ → Option Text
  pub sha256 : Text → Text

-- a verdict, or a TypeError
pub data Verdict : Type 0 where
  verdict : Bool → Verdict
  type_error : Verdict

abbrev pub is_ascii : Text → Bool
is_ascii s = all (λ c. ltb c 128) s

-- secrets.compare_digest on two texts
abbrev pub compare_digest : Text → Text → Verdict
compare_digest a b = if is_ascii a && is_ascii b then verdict (a == b) else type_error

abbrev pub marker : Text
marker = codes "pbkdf2-sha256$"

abbrev pub iterations : ℕ
iterations = 600000

-- a stored hash from a salt and a digest
abbrev pub stored_hash : Text → Text → Text
stored_hash salt digest = marker ++ (codes "600000" ++ b'$' ∷ salt ++ b'$' ∷ digest)

abbrev hashed : Text → Option Text → Option Text
hashed salt none = none
hashed salt (some digest) = some (stored_hash salt digest)

-- with the salt that `token_hex(16)` gives
unfoldable pub hash_password : Hashes → Text → Text → Option Text
hash_password h salt plain = hashed salt (h.pbkdf2 plain salt iterations)

-- the clause that catches ValueError and TypeError
abbrev pub caught : Verdict → Verdict
caught (verdict b) = verdict b
caught type_error = verdict false

abbrev pub compared : Option Text → Text → Verdict
compared none digest = verdict false
compared (some actual) digest = caught (compare_digest actual digest)

abbrev pub with_rounds : Hashes → Text → Option ℤ → Text → Text → Verdict
with_rounds h plain none salt digest = verdict false
with_rounds h plain (some (negsuc n)) salt digest = verdict false
with_rounds h plain (some (pos rounds)) salt digest =
    if leb 100000 rounds
      && leb rounds 2000000
      && nat_eq (length salt) 32
      && nat_eq (length digest) 64
    then compared (h.pbkdf2 plain salt rounds) digest
    else verdict false

abbrev pub verify_fields : Hashes → List Text → Text → Verdict
verify_fields h (name ∷ rounds ∷ salt ∷ digest ∷ []) plain =
    with_rounds h plain (int_of_text rounds) salt digest
verify_fields h _ plain = verdict false

abbrev pub verify_salted : Hashes → Option (Text × Text) → Text → Verdict
verify_salted h none plain = verdict false
verify_salted h (some (salt, digest)) plain = compare_digest (h.sha256 (salt ++ plain)) digest

-- split("$", 2)
abbrev pub verify_old : Hashes → Option (Text × Text) → Text → Verdict
verify_old h none plain = verdict false
verify_old h (some (name, rest)) plain = verify_salted h (cut_at b'$' rest) plain

unfoldable pub verify_password : Hashes → Text → Text → Verdict
unfolding split int_of_text cut_at
verify_password h stored plain =
    if is_empty stored
    then verdict true
    else if starts_with marker stored
    then verify_fields h (split b'$' stored) plain
    else if starts_with (codes "sha256$") stored
    then verify_old h (cut_at b'$' stored) plain
    else compare_digest stored plain

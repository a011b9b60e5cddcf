-- ===== src/Text/Laws.antt =====
-- Stripping white space and lowering case a second time changes nothing.
use thinclient.Prelude.{
  ℕ, ◌≡◌, refl, ap, ◌∙◌, false, ◌&&◌, [], ◌∷◌, arith, Bool-cases, inl, inr, pos, negsuc, some, none,
}
use thinclient.Text.{
  Text, codes, is_empty, is_space, lstrip, rstrip, strip, lower_char, lower, split, casefold,
  basename, int_of_text,
}

-- a text that does not begin with white space
abbrev Trimmed : Text → Type 0
Trimmed [] = Unit
Trimmed (c ∷ s) = is_space c ≡ false

lstrip-Trimmed : (s : Text) → Trimmed (lstrip s)
unfolding lstrip
lstrip-Trimmed [] = tt
lstrip-Trimmed (c ∷ s) = elim (Bool-cases (is_space c)) [
  | inl e ↦ rw e (lstrip-Trimmed s)
  | inr e ↦ rw e e
]

lstrip_of_Trimmed : (s : Text) → Trimmed s → lstrip s ≡ s
unfolding lstrip
lstrip_of_Trimmed [] h = refl
lstrip_of_Trimmed (c ∷ s) h = rw h

rstrip-Trimmed : (s : Text) → Trimmed s → Trimmed (rstrip s)
unfolding rstrip
rstrip-Trimmed [] h = tt
rstrip-Trimmed (c ∷ s) h = rw h h

rstrip_idem : (s : Text) → rstrip (rstrip s) ≡ rstrip s
unfolding rstrip
rstrip_idem [] = refl
rstrip_idem (c ∷ s) = elim (Bool-cases (is_space c && is_empty (rstrip s))) [
  | inl e ↦ rw e
  | inr e ↦ rw e (rw (rstrip_idem s) (rw e))
]

pub strip_idem : (s : Text) → strip (strip s) ≡ strip s
unfolding strip
strip_idem s =
    ap rstrip (lstrip_of_Trimmed _ (rstrip-Trimmed _ (lstrip-Trimmed s))) ∙ rstrip_idem (lstrip s)

lower_char_idem : (c : ℕ) → lower_char (lower_char c) ≡ lower_char c
unfolding lower_char
lower_char_idem c = ground arith

pub lower_idem : (s : Text) → lower (lower s) ≡ lower s
unfolding lower
lower_idem [] = refl
lower_idem (c ∷ s) = cc (lower_char_idem c, lower_idem s)

is_space-lower : (c : ℕ) → is_space (lower_char c) ≡ is_space c
unfolding is_space lower_char
is_space-lower c = ground arith

lstrip-lower : (s : Text) → lstrip (lower s) ≡ lower (lstrip s)
unfolding lstrip lower
lstrip-lower [] = refl
lstrip-lower (c ∷ s) = elim (Bool-cases (is_space c)) [
  | inl e ↦ rw (is_space-lower c) (rw e (lstrip-lower s))
  | inr e ↦ rw (is_space-lower c) (rw e refl)
]

is_empty-lower : (s : Text) → is_empty (lower s) ≡ is_empty s
unfolding lower
is_empty-lower [] = refl
is_empty-lower (c ∷ s) = refl

rstrip-lower : (s : Text) → rstrip (lower s) ≡ lower (rstrip s)
unfolding rstrip lower
rstrip-lower [] = refl
rstrip-lower (c ∷ s) = rw (rstrip-lower s) (
    rw (is_space-lower c) (
      rw (is_empty-lower (rstrip s)) (elim (Bool-cases (is_space c && is_empty (rstrip s))) [
        | inl e ↦ rw e refl
        | inr e ↦ rw e refl
      ])))

-- A text that was stripped and then lowered is not changed by doing both again.
pub lower-strip_idem : (s : Text) → lower (strip (lower (strip s))) ≡ lower (strip s)
unfolding strip
lower-strip_idem s =
    ap lower (
      ap rstrip (lstrip-lower (strip s))
      ∙ rstrip-lower (lstrip (strip s))
      ∙ ap lower (strip_idem s))
    ∙ lower_idem (strip s)

strip_runs : strip (codes "  a b ") ≡ codes "a b"
unfolding strip
strip_runs = refl

split_runs : split b'/' (codes "/a//b") ≡ codes "" ∷ codes "a" ∷ codes "" ∷ codes "b" ∷ []
unfolding split
split_runs = refl

basename_runs : casefold (basename (codes "/x/FileSystem.ſquashfs")) ≡ codes "filesystem.squashfs"
unfolding basename casefold
basename_runs = refl

int_runs :
    (int_of_text (codes " 1_000\n") ≡ some (pos 1000))
    × (int_of_text (codes "-7") ≡ some (negsuc 6))
    × (int_of_text (codes "1__0") ≡ none)
    × (int_of_text (0x663 ∷ []) ≡ some (pos 3))
    × (int_of_text (codes "+") ≡ none)
unfolding int_of_text
int_runs = (refl, refl, refl, refl, refl)

-- ===== src/Config/Fields.antt =====
-- The coercions of single values: `_string`, `_boolean`, `_bounded_int`, `_enum`, `_display`.
use thinclient.Prelude.{
  ℕ, min, max, Bool, true, false, ◌&&◌, ◌||◌, Option, none, some, List, [], ◌∷◌, any, all, length,
  leb, nat_eq, ◌==◌, compare_texts, if◌then◌else◌, ℤ, pos, negsuc,
}
use thinclient.Text.{Text, codes, strip, lower, split, int_of_text}
use thinclient.Value.{Value, bool, int, float, str, whole}
use thinclient.Config.{display_modes}

-- value in choices
abbrev pub among : Text → List Text → Bool
among t choices = any (λ c. c == t) choices

-- the flag asks for the white space around the text to be removed
unfoldable pub string : Value → Text → Bool → Text
unfolding strip
string (str s) default stripped = if stripped then strip s else s
string _ default stripped = default

abbrev spelt_boolean : Text → Bool → Bool
spelt_boolean s default =
    if among s (codes "true" ∷ codes "yes" ∷ codes "on" ∷ codes "1" ∷ [])
    then true
    else if among s (codes "false" ∷ codes "no" ∷ codes "off" ∷ codes "0" ∷ [])
    then false
    else default

unfoldable pub boolean : Value → Bool → Bool
unfolding strip lower
boolean (bool b) default = b
boolean (int (pos n)) default = if nat_eq n 0 then false else if nat_eq n 1 then true else default
boolean (str s) default = spelt_boolean (lower (strip s)) default
boolean _ default = default

-- min(maximum, max(minimum, n)), for bounds that are not negative
abbrev pub clamp : ℤ → ℕ → ℕ → ℕ
clamp (pos n) minimum maximum = min maximum (max minimum n)
clamp (negsuc n) minimum maximum = min maximum minimum

abbrev pub clamp_or : Option ℤ → ℕ → ℕ → ℕ → ℕ
clamp_or none default minimum maximum = default
clamp_or (some n) default minimum maximum = clamp n minimum maximum

unfoldable pub bounded_int : Value → ℕ → ℕ → ℕ → ℕ
unfolding int_of_text
bounded_int (int n) default minimum maximum = clamp n minimum maximum
bounded_int (float (whole n)) default minimum maximum = clamp n minimum maximum
bounded_int (str s) default minimum maximum = clamp_or (int_of_text s) default minimum maximum
bounded_int _ default minimum maximum = default

-- a value as a choice is spelt
unfoldable pub spelling : Value → Text
unfolding string lower
spelling value = lower (string value [] true)

unfoldable pub enum : Value → Text → List Text → Text
unfolding spelling
enum value default choices = let s = spelling value in if among s choices then s else default

abbrev is_digit : ℕ → Bool
is_digit c = leb b'0' c && leb c b'9'

-- [1-9][0-9]{1,4}
abbrev is_extent : Text → Bool
is_extent [] = false
is_extent (c ∷ s) =
    leb b'1' c && leb c b'9' && all is_digit s && leb 1 (length s) && leb (length s) 4

abbrev are_extents : List Text → Bool
are_extents (w ∷ h ∷ []) = is_extent w && is_extent h
are_extents _ = false

-- DISPLAY_SIZE.fullmatch
unfoldable pub is_display_size : Text → Bool
unfolding split
is_display_size s = are_extents (split b'x' s)

unfoldable pub display : Value → Text
unfolding spelling is_display_size
display value =
    let s = spelling value in
    if among s display_modes || is_display_size s then s else codes "fullscreen"

-- ===== src/Text.antt =====
-- Python's `str` as the list of its code points, with the methods that the program calls:
-- `strip`, `lower`, `casefold`, `split`, and `int` of a text. White space and decimal digits are
-- those of Unicode. `lower` and `casefold` change exactly the characters whose image is ASCII, and
-- leave the others alone: the program only compares the results with ASCII texts, which no other
-- image equals.
pub mod Laws
use Prim.Native.Char.{code}
use thinclient.Prelude.{
  ℕ, ◌+◌, ◌-◌, ◌*◌, String, Bool, true, false, not, ◌&&◌, ◌||◌, Option, none, some, List, [], ◌∷◌,
  ◌++◌, map, ltb, leb, nat_eq, any, length, if◌then◌else◌, ℤ, pos, negate,
}

abbrev pub Text : Type 0
Text = List ℕ

-- a literal
abbrev pub codes : String → Text
codes String.[] = []
codes (String.◌∷◌ c s) = code c ∷ codes s

abbrev pub is_empty : Text → Bool
is_empty [] = true
is_empty (_ ∷ _) = false

abbrev between : ℕ → ℕ → ℕ → Bool
between lo hi c = leb lo c && leb c hi

-- str.isspace
unfoldable pub is_space : ℕ → Bool
is_space c =
    between 9 13 c
    || between 28 32 c
    || nat_eq c 0x85
    || nat_eq c 0xA0
    || nat_eq c 0x1680
    || between 0x2000 0x200A c
    || between 0x2028 0x2029 c
    || nat_eq c 0x202F
    || nat_eq c 0x205F
    || nat_eq c 0x3000

unfoldable pub lstrip : Text → Text
unfolding is_space
lstrip [] = []
lstrip (c ∷ s) = let rest = lstrip s in if is_space c then rest else c ∷ s

unfoldable pub rstrip : Text → Text
unfolding is_space
rstrip [] = []
rstrip (c ∷ s) = let rest = rstrip s in if is_space c && is_empty rest then [] else c ∷ rest

-- str.strip()
unfoldable pub strip : Text → Text
unfolding lstrip rstrip
strip s = rstrip (lstrip s)

-- the Kelvin sign is the one character beyond ASCII whose lower case is ASCII
unfoldable pub lower_char : ℕ → ℕ
lower_char c = if between b'A' b'Z' c then c + 32 else if nat_eq c 0x212A then b'k' else c

-- str.lower()
unfoldable pub lower : Text → Text
unfolding lower_char
lower = map lower_char

unfoldable pub casefold_char : ℕ → Text
unfolding lower_char
casefold_char c =
    if nat_eq c 0xDF || nat_eq c 0x1E9E
    then codes "ss"
    else if nat_eq c 0x17F
    then codes "s"
    else if nat_eq c 0xFB00
    then codes "ff"
    else if nat_eq c 0xFB01
    then codes "fi"
    else if nat_eq c 0xFB02
    then codes "fl"
    else if nat_eq c 0xFB03
    then codes "ffi"
    else if nat_eq c 0xFB04
    then codes "ffl"
    else if nat_eq c 0xFB05 || nat_eq c 0xFB06
    then codes "st"
    else lower_char c ∷ []

-- str.casefold()
unfoldable pub casefold : Text → Text
unfolding casefold_char
casefold [] = []
casefold (c ∷ s) = casefold_char c ++ casefold s

-- the fields so far before those that follow a separator
abbrev glue : Bool → ℕ → List Text → List Text
glue true c fields = [] ∷ fields
glue false c [] = (c ∷ []) ∷ []
glue false c (f ∷ fields) = (c ∷ f) ∷ fields

-- s.split(sep), for a separator of one character
unfoldable pub split : ℕ → Text → List Text
split sep [] = [] ∷ []
split sep (c ∷ s) = glue (nat_eq c sep) c (split sep s)

-- the last of the fields of `split`
abbrev last_field : Text → List Text → Text
last_field t [] = t
last_field t (f ∷ fields) = last_field f fields

-- os.path.basename, on the server's POSIX system
unfoldable pub basename : Text → Text
unfolding split
basename path = last_field [] (split b'/' path)

abbrev pub starts_with : Text → Text → Bool
starts_with [] s = true
starts_with (c ∷ p) [] = false
starts_with (c ∷ p) (d ∷ s) = nat_eq c d && starts_with p s

abbrev pub contains_char : ℕ → Text → Bool
contains_char c s = any (nat_eq c) s

-- where the runs of ten decimal digits begin
abbrev digit_zeros : List ℕ
digit_zeros =
    0x30 ∷ 0x660 ∷ 0x6f0 ∷ 0x7c0 ∷ 0x966 ∷ 0x9e6 ∷ 0xa66 ∷ 0xae6 ∷ 0xb66 ∷ 0xbe6 ∷ 0xc66 ∷ 0xce6
    ∷ 0xd66 ∷ 0xde6 ∷ 0xe50 ∷ 0xed0 ∷ 0xf20 ∷ 0x1040 ∷ 0x1090 ∷ 0x17e0 ∷ 0x1810 ∷ 0x1946 ∷ 0x19d0
    ∷ 0x1a80 ∷ 0x1a90 ∷ 0x1b50 ∷ 0x1bb0 ∷ 0x1c40 ∷ 0x1c50 ∷ 0xa620 ∷ 0xa8d0 ∷ 0xa900 ∷ 0xa9d0
    ∷ 0xa9f0 ∷ 0xaa50 ∷ 0xabf0 ∷ 0xff10 ∷ 0x104a0 ∷ 0x10d30 ∷ 0x11066 ∷ 0x110f0 ∷ 0x11136 ∷ 0x111d0
    ∷ 0x112f0 ∷ 0x11450 ∷ 0x114d0 ∷ 0x11650 ∷ 0x116c0 ∷ 0x11730 ∷ 0x118e0 ∷ 0x11950 ∷ 0x11c50
    ∷ 0x11d50 ∷ 0x11da0 ∷ 0x16a60 ∷ 0x16ac0 ∷ 0x16b50 ∷ 0x1d7ce ∷ 0x1d7d8 ∷ 0x1d7e2 ∷ 0x1d7ec
    ∷ 0x1d7f6 ∷ 0x1e140 ∷ 0x1e2f0 ∷ 0x1e950 ∷ 0x1fbf0 ∷ []

digit_among : List ℕ → ℕ → Option ℕ
digit_among [] c = none
digit_among (z ∷ zs) c =
    let rest = digit_among zs c in if between z (z + 9) c then some (c - z) else rest

unfoldable pub digit_value : ℕ → Option ℕ
unfolding digit_among
digit_value c = digit_among digit_zeros c

-- Digits with single underscores between them; the flag says that a digit was just read.
unfoldable pub number_from : ℕ → Bool → Text → Option ℕ
unfolding digit_value
number_from n after_digit [] = if after_digit then some n else none
number_from n after_digit (c ∷ s) = elim (nat_eq c b'_') [
  | true ↦ elim after_digit [ true ↦ number_from n false s | false ↦ none ]
  | false ↦ elim (digit_value c) [ none ↦ none | some d ↦ number_from (n * 10 + d) true s ]
]

abbrev count_digits : Text → ℕ
count_digits [] = 0
count_digits (c ∷ s) = (if nat_eq c b'_' then 0 else 1) + count_digits s

-- the interpreter refuses to read more decimal digits than this
abbrev pub max_str_digits : ℕ
max_str_digits = 4300

unfoldable pub unsigned : Text → Option ℕ
unfolding number_from
unsigned s = if ltb max_str_digits (count_digits s) then none else number_from 0 false s

abbrev map_option {ℓ κ} : {A : Type ℓ} {B : Type κ} → (A → B) → Option A → Option B
map_option f none = none
map_option f (some a) = some (f a)

signed : Text → Option ℤ
unfolding unsigned
signed [] = none
signed (c ∷ s) =
    if nat_eq c b'+'
    then map_option pos (unsigned s)
    else if nat_eq c b'-'
    then map_option negate (unsigned s)
    else map_option pos (unsigned (c ∷ s))

-- int(s) of a text; `none` is the ValueError
unfoldable pub int_of_text : Text → Option ℤ
unfolding signed strip
int_of_text s = signed (strip s)

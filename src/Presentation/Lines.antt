-- ===== src/Presentation/Lines.antt =====
-- Texts of one line: what joining, splitting, stripping and cutting do with them.
use thinclient.Prelude.{
  ℕ, zero, suc, ◌≡◌, refl, sym, ap, ◌∙◌, Bool, true, false, not, ◌&&◌, some, List, [], ◌∷◌, ◌++◌,
  all, arith, append-nil, append_assoc, ltb, leb, nat_eq, ◌/◌, Bool-cases, inl, inr,
}
use thinclient.Text.{Text, is_empty, is_space, lstrip, rstrip, strip, contains_char}
use thinclient.Config.Ids.{last_digit, decimal_on, decimal}
use thinclient.Config.Generated.{decimal_on_last, decimal_on_more}
use thinclient.Command.Failure.{is_line_end, lines_from}
use thinclient.Diagnostics.Endpoint.{cut_at}
use thinclient.Diagnostics.Report.{joined}

-- without a character that ends a line
abbrev pub IsLine : Text → Type 0
IsLine s = all (λ c. not (is_line_end c)) s ≡ true

pub all-append :
    (p : ℕ → Bool) (s t : Text) → all p s ≡ true → all p t ≡ true → all p (s ++ t) ≡ true
all-append p [] t h k = k
all-append p (c ∷ s) t h k = ground (arith, h, all-append p s t (ground (arith, h)) k)

pub glued : (s t : Text) → IsLine s → IsLine t → IsLine (s ++ t)
glued s t h k = all-append (λ c. not (is_line_end c)) s t h k

-- one line, with no white space around it, and not empty
pub record IsShown (s : Text) : Type 0 where
  pub line : IsLine s
  pub left : (t : Text) → lstrip (s ++ t) ≡ s ++ t
  pub right : rstrip s ≡ s
  pub filled : is_empty s ≡ false

pub strip_of_IsShown : (s : Text) → IsShown s → strip s ≡ s
unfolding strip
strip_of_IsShown s h =
    ap strip (sym (append-nil s)) ∙ ap rstrip (h.left []) ∙ ap rstrip (append-nil s) ∙ h.right

pub is_empty-append : (p v : Text) → is_empty v ≡ false → is_empty (p ++ v) ≡ false
is_empty-append [] v h = h
is_empty-append (c ∷ p) v h = refl

pub rstrip-append : (p v : Text) → is_empty (rstrip v) ≡ false → rstrip (p ++ v) ≡ p ++ rstrip v
unfolding rstrip
rstrip-append [] v e = refl
rstrip-append (c ∷ p) v e =
    rw (rstrip-append p v e) (rw (is_empty-append p (rstrip v) e) (ground arith))

pub rstrip-shown : (p v : Text) → rstrip v ≡ v → is_empty v ≡ false → rstrip (p ++ v) ≡ p ++ v
rstrip-shown p v h e = rstrip-append p v (ap is_empty h ∙ e) ∙ ap (λ t. p ++ t) h

cut_at-here : (sep : ℕ) (rest : Text) → cut_at sep (sep ∷ rest) ≡ some ([], rest)
unfolding cut_at
cut_at-here sep rest = ground arith

cut_at-later :
    (sep c : ℕ) (s front back : Text)
    → nat_eq sep c ≡ false
    → cut_at sep s ≡ some (front, back)
    → cut_at sep (c ∷ s) ≡ some (c ∷ front, back)
unfolding cut_at
cut_at-later sep c s front back h e = ground (arith, h, e)

pub cut_at-append :
    (sep : ℕ) (key rest : Text)
    → contains_char sep key ≡ false
    → cut_at sep (key ++ sep ∷ rest) ≡ some (key, rest)
cut_at-append sep [] rest h = cut_at-here sep rest
cut_at-append sep (c ∷ key) rest h =
    cut_at-later sep c (key ++ sep ∷ rest) key rest (ground (arith, h))
      (cut_at-append sep key rest (ground (arith, h)))

-- the digits of a number
abbrev digit : ℕ → Bool
digit c = leb b'0' c && leb c b'9'

last_digit-digit : (n : ℕ) → digit (last_digit n) ≡ true
last_digit-digit n = ground arith

decimal_on-digits : (fuel n : ℕ) → all digit (decimal_on fuel n) ≡ true
unfolding decimal_on
decimal_on-digits zero n = ground (arith, last_digit-digit n)
decimal_on-digits (suc fuel) n = elim (Bool-cases (ltb n 10)) [
  | inl e ↦ rw (decimal_on_last fuel n e) (ground (arith, last_digit-digit n))
  | inr e ↦ rw (decimal_on_more fuel n e) (
      all-append digit (decimal_on fuel (n / 10)) (last_digit n ∷ [])
        (decimal_on-digits fuel (n / 10)) (ground (arith, last_digit-digit n)))
]

decimal_on-filled : (fuel n : ℕ) → is_empty (decimal_on fuel n) ≡ false
unfolding decimal_on
decimal_on-filled zero n = refl
decimal_on-filled (suc fuel) n = elim (Bool-cases (ltb n 10)) [
  | inl e ↦ rw (decimal_on_last fuel n e) refl
  | inr e ↦
      rw (decimal_on_more fuel n e)
        (is_empty-append (decimal_on fuel (n / 10)) (last_digit n ∷ []) refl)
]

IsLine-digits : (s : Text) → all digit s ≡ true → IsLine s
IsLine-digits [] h = refl
IsLine-digits (c ∷ s) h = ground (arith, h, IsLine-digits s (ground (arith, h)))

space-digit : (c : ℕ) → digit c ≡ true → is_space c ≡ false
unfolding is_space
space-digit c h = ground (arith, h)

lstrip-digits : (s t : Text) → all digit s ≡ true → is_empty s ≡ false → lstrip (s ++ t) ≡ s ++ t
unfolding lstrip
lstrip-digits [] t h e = absurd (ground (arith, e))
lstrip-digits (c ∷ s) t h e = rw (space-digit c (ground (arith, h))) refl

rstrip-digits : (s : Text) → all digit s ≡ true → rstrip s ≡ s
unfolding rstrip
rstrip-digits [] h = refl
rstrip-digits (c ∷ s) h =
    rw (space-digit c (ground (arith, h))) (ap (λ t. c ∷ t) (rstrip-digits s (ground (arith, h))))

pub decimal-IsShown : (n : ℕ) → IsShown (decimal n)
unfolding decimal
decimal-IsShown n = record {
  line = IsLine-digits (decimal_on n n) (decimal_on-digits n n);
  left = λ t. lstrip-digits (decimal_on n n) t (decimal_on-digits n n) (decimal_on-filled n n);
  right = rstrip-digits (decimal_on n n) (decimal_on-digits n n);
  filled = decimal_on-filled n n;
}

contains_char-digits : (s : Text) → all digit s ≡ true → contains_char b':' s ≡ false
contains_char-digits [] h = refl
contains_char-digits (c ∷ s) h = ground (arith, h, contains_char-digits s (ground (arith, h)))

pub contains_char-decimal : (n : ℕ) → contains_char b':' (decimal n) ≡ false
unfolding decimal
contains_char-decimal n = contains_char-digits (decimal_on n n) (decimal_on-digits n n)

-- lines, the last of which is not empty
abbrev pub AreLines : List Text → Type 0
AreLines [] = Unit
AreLines (l ∷ []) = IsLine l × (is_empty l ≡ false)
AreLines (l ∷ k ∷ ls) = IsLine l × AreLines (k ∷ ls)

lines_from-line :
    (current l s : Text)
    → IsLine l
    → lines_from false current (l ++ s) ≡ lines_from false (current ++ l) s
unfolding lines_from
lines_from-line current [] s h = ap (λ t. lines_from false t s) (sym (append-nil current))
lines_from-line current (c ∷ l) s h =
    lines_from-next current c (l ++ s) (ground (arith, h))
    ∙ lines_from-line (current ++ c ∷ []) l s (ground (arith, h))
    ∙ ap (λ t. lines_from false t s) (append_assoc current (c ∷ []) l)
  where
    lines_from-next :
        (current : Text) (c : ℕ) (s : Text)
        → is_line_end c ≡ false
        → lines_from false current (c ∷ s) ≡ lines_from false (current ++ c ∷ []) s
    lines_from-next current c s e = ground (arith, e)

lines_from-last : (l : Text) → IsLine l → is_empty l ≡ false → lines_from false [] l ≡ l ∷ []
unfolding lines_from
lines_from-last l h e =
    ap (lines_from false []) (sym (append-nil l)) ∙ lines_from-line [] l [] h ∙ rw e refl

lines_from-feed : (l s : Text) → lines_from false l (10 ∷ s) ≡ l ∷ lines_from false [] s
unfolding lines_from
lines_from-feed l s = refl

pub lines_from-joined : (ls : List Text) → AreLines ls → lines_from false [] (joined ls) ≡ ls
unfolding joined lines_from
lines_from-joined [] h = refl
lines_from-joined (l ∷ []) h = lines_from-last l h.0 h.1
lines_from-joined (l ∷ k ∷ ls) h =
    lines_from-line [] l (10 ∷ joined (k ∷ ls)) h.0
    ∙ lines_from-feed l (joined (k ∷ ls))
    ∙ ap (λ t. l ∷ t) (lines_from-joined (k ∷ ls) h.1)

-- a text that begins with a character that is shown
pub begins-IsShown :
    (c : ℕ) (s : Text)
    → IsLine (c ∷ s)
    → is_space c ≡ false
    → rstrip (c ∷ s) ≡ c ∷ s
    → IsShown (c ∷ s)
unfolding lstrip
begins-IsShown c s l h r = record { line = l; left = λ t. rw h refl; right = r; filled = refl }

-- ===== src/Config/Nmcli.antt =====
-- `parse_nmcli_terse`: one row of `nmcli -t`, whose fields NetworkManager escapes with backslashes.
use thinclient.Prelude.{
  ℕ, ◌≡◌, refl, ap, ◌∙◌, Bool, true, false, ◌||◌, List, [], ◌∷◌, ◌++◌, nat_eq, if◌then◌else◌, arith,
  append-nil, append_assoc, Bool-cases, inl, inr, sym,
}
use thinclient.Text.{Text}

-- the loop over the characters, with `escaped`, `current` and the fields still to come
unfoldable pub parse_from : Bool → Text → Text → List Text
parse_from escaped current [] = (if escaped then current ++ b'\\' ∷ [] else current) ∷ []
parse_from true current (c ∷ s) = parse_from false (current ++ c ∷ []) s
parse_from false current (c ∷ s) = elim (nat_eq c b'\\') [
  | true ↦ parse_from true current s
  | false ↦ elim (nat_eq c b':') [
    | true ↦ current ∷ parse_from false [] s
    | false ↦ parse_from false (current ++ c ∷ []) s
  ]
]

unfoldable pub parse_nmcli_terse : Text → List Text
unfolding parse_from
parse_nmcli_terse line = parse_from false [] line

-- a field as NetworkManager documents it: a backslash before each colon and each backslash
abbrev pub escape : Text → Text
escape [] = []
escape (c ∷ s) =
    let rest = escape s in if nat_eq c b'\\' || nat_eq c b':' then b'\\' ∷ c ∷ rest else c ∷ rest

-- the fields of a row after the first
abbrev pub more_fields : List Text → Text
more_fields [] = []
more_fields (f ∷ fs) = b':' ∷ escape f ++ more_fields fs

abbrev pub row : Text → List Text → Text
row f fs = escape f ++ more_fields fs

parse_from_escaped :
    (current : Text) (c : ℕ) (s : Text)
    → parse_from false current (b'\\' ∷ c ∷ s) ≡ parse_from false (current ++ c ∷ []) s
unfolding parse_from
parse_from_escaped current c s = refl

parse_from_plain :
    (current : Text) (c : ℕ) (s : Text)
    → (nat_eq c b'\\' || nat_eq c b':') ≡ false
    → parse_from false current (c ∷ s) ≡ parse_from false (current ++ c ∷ []) s
unfolding parse_from
parse_from_plain current c s h = ground arith

parse_from-escape :
    (current f rest : Text)
    → parse_from false current (escape f ++ rest) ≡ parse_from false (current ++ f) rest
parse_from-escape current [] rest = ap (λ t. parse_from false t rest) (sym (append-nil current))
parse_from-escape current (c ∷ f) rest =
    let later =
      parse_from-escape (current ++ c ∷ []) f rest
      ∙ ap (λ t. parse_from false t rest) (append_assoc current (c ∷ []) f) in
    elim (Bool-cases (nat_eq c b'\\' || nat_eq c b':')) [
      | inl e ↦ rw e (parse_from_escaped current c (escape f ++ rest) ∙ later)
      | inr e ↦ rw e (parse_from_plain current c (escape f ++ rest) e ∙ later)
    ]

parse_from-more_fields :
    (current : Text) (fs : List Text) → parse_from false current (more_fields fs) ≡ current ∷ fs
unfolding parse_from
parse_from-more_fields current [] = refl
parse_from-more_fields current (f ∷ fs) =
    ap (λ rest. current ∷ rest)
      (parse_from-escape [] f (more_fields fs) ∙ parse_from-more_fields f fs)

-- Whatever colons and backslashes the fields of a row hold, parsing the row that NetworkManager
-- prints for them gives back exactly these fields.
pub parse_nmcli_terse-row : (f : Text) (fs : List Text) → parse_nmcli_terse (row f fs) ≡ f ∷ fs
unfolding parse_nmcli_terse
parse_nmcli_terse-row f fs = parse_from-escape [] f (more_fields fs) ∙ parse_from-more_fields f fs

-- ===== src/Command/Retry.antt =====
-- When a session that ended is connected again.
use thinclient.Prelude.{
  ◌≡◌, refl, sym, ap, if◌then◌else◌, ◌∙◌, Bool, true, false, some, List, [], ◌∷◌, ◌++◌, any, Every,
  arith, Bool-cases, inl, inr, ℤ,
}
use thinclient.Text.{Text, codes, is_empty}
use thinclient.Command.Failure.{
  Hint, Failure, credential_hints, other_hints, failure_hints, occurs, error_message, fallback,
  exit_code, lines_from, unexplained, first_hint, explain_failure,
}

-- one of the tokens is in the text
abbrev pub mentions : List Hint → Text → Bool
mentions hints text = any (λ h. occurs h.token text) hints

first_hint-front :
    (front back : List Hint) (text : Text) (otherwise : Failure)
    → Every (λ h. h.may_retry ≡ false) front
    → mentions front text ≡ true
    → (first_hint (front ++ back) text otherwise).retryable ≡ false
unfolding first_hint
first_hint-front [] back text otherwise h m = ground arith
first_hint-front (hint ∷ front) back text otherwise h m =
    elim (Bool-cases (occurs hint.token text)) [
      | inl e ↦ rw e h.0
      | inr e ↦ rw e (first_hint-front front back text otherwise h.1 (ground arith))
    ]

-- A log that mentions any of the nine errors of an account or of its credentials is never retried,
-- whatever else it mentions: no reconnecting client walks an account towards a lockout.
pub explain_failure_credentials :
    (text : Text) (code : ℤ)
    → mentions credential_hints text ≡ true
    → (explain_failure (some text) code).retryable ≡ false
unfolding explain_failure
explain_failure_credentials text code h =
    first_hint-front credential_hints other_hints text (unexplained text code)
      (refl, (refl, (refl, (refl, (refl, (refl, (refl, (refl, (refl, tt))))))))) h

-- the error messages that the lines have, in their order
abbrev pub error_messages : List Text → List Text
error_messages [] = []
error_messages (line ∷ lines) =
    if is_empty (error_message line)
    then error_messages lines
    else error_message line ∷ error_messages lines

abbrev pub last_of : Text → List Text → Text
last_of default [] = default
last_of default (m ∷ []) = m
last_of default (m ∷ n ∷ ms) = last_of default (n ∷ ms)

last_of-cons : (default m : Text) (ms : List Text) → last_of m ms ≡ last_of default (m ∷ ms)
last_of-cons default m [] = refl
last_of-cons default m (n ∷ []) = refl
last_of-cons default m (n ∷ k ∷ ms) =
    last_of-cons default m (k ∷ ms) ∙ last_of-drop default m n k ms
  where
    last_of-drop :
        (default m n k : Text) (ms : List Text)
        → last_of default (m ∷ k ∷ ms) ≡ last_of default (k ∷ ms)
    last_of-drop default m n k ms = refl

fallback-last :
    (lines : List Text) (default : Text)
    → fallback lines default ≡ last_of default (error_messages lines)
unfolding fallback
fallback-last [] default = refl
fallback-last (line ∷ lines) default = elim (Bool-cases (is_empty (error_message line))) [
  | inl e ↦ rw e (fallback-last lines default)
  | inr e ↦ rw e (
      fallback-last lines (error_message line)
      ∙ last_of-cons default (error_message line) (error_messages lines))
]

last_of-supplied :
    (lines : List Text) (default : Text)
    → is_empty default ≡ false
    → is_empty (last_of default (error_messages lines)) ≡ false
last_of-supplied [] default h = h
last_of-supplied (line ∷ lines) default h = elim (Bool-cases (is_empty (error_message line))) [
  | inl e ↦ rw e (last_of-supplied lines default h)
  | inr e ↦ rw e (
      ap is_empty (sym (last_of-cons default (error_message line) (error_messages lines)))
      ∙ last_of-supplied lines (error_message line) e)
]

first_hint-none :
    (hints : List Hint) (text : Text) (otherwise : Failure)
    → mentions hints text ≡ false
    → first_hint hints text otherwise ≡ otherwise
unfolding first_hint
first_hint-none [] text otherwise h = refl
first_hint-none (hint ∷ hints) text otherwise h = elim (Bool-cases (occurs hint.token text)) [
  | inl e ↦ ground arith
  | inr e ↦ rw e (first_hint-none hints text otherwise (ground arith))
]

-- A session whose log mentions none of the known errors is retried, and the message that is shown is
-- the last of the log's error messages, or else the exit code; it is never empty.
pub explain_failure_unknown :
    (text : Text) (code : ℤ)
    → mentions failure_hints text ≡ false
    → ((explain_failure (some text) code).retryable ≡ true)
      × ((explain_failure (some text) code).message
          ≡ last_of
              (codes "exit code " ++ exit_code code)
              (error_messages (lines_from false [] text)))
      × (is_empty (explain_failure (some text) code).message ≡ false)
unfolding explain_failure unexplained
explain_failure_unknown text code h =
    let same = first_hint-none failure_hints text (unexplained text code) h in
    let lines = lines_from false [] text in
    let last =
      ap (λ f. f.message) same ∙ fallback-last lines (codes "exit code " ++ exit_code code) in
    (
      ap (λ f. f.retryable) same,
      last,
      ap is_empty last ∙ last_of-supplied lines (codes "exit code " ++ exit_code code) refl,
    )

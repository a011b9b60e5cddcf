-- ===== src/Presentation/Outcomes.antt =====
-- What is read back from one line of a report.
use thinclient.Prelude.{
  ℕ, ◌≡◌, refl, sym, ap, ◌∙◌, false, ◌∷◌, ◌++◌, append_assoc, Bool-cases, inl, inr, if◌then◌else◌,
  if_elim,
}
use thinclient.Text.{Text, codes, lstrip, rstrip, strip, contains_char}
use thinclient.Config.Ids.{decimal}
use thinclient.Diagnostics.{Check}
use thinclient.Diagnostics.Endpoint.{cut_at}
use thinclient.Diagnostics.Checks.{or_text}
use thinclient.Diagnostics.Report.{outcome, protocol_outcome}
use thinclient.Presentation.{upper_case}
use thinclient.Presentation.Rows.{
  RowState, is_ok, is_failed, is_skipped, outcome_row, Parsed, keep, keep_parts, parse_line,
}
use thinclient.Presentation.Lines.{
  IsLine, glued, is_empty-append, IsShown, strip_of_IsShown, rstrip-append, rstrip-shown,
  cut_at-append, decimal-IsShown, contains_char-decimal,
}

-- what stands before a text that is shown
pub record IsFront (p : Text) : Type 0 where
  pub front_line : IsLine p
  pub front_left : (s : Text) → lstrip (p ++ s) ≡ p ++ s

pub front-IsShown : (p v : Text) → IsFront p → IsShown v → IsShown (p ++ v)
front-IsShown p v f h = record {
  line = glued p v f.front_line h.line;
  left = λ t. ap lstrip (append_assoc p v t) ∙ f.front_left (v ++ t) ∙ sym (append_assoc p v t);
  right = rstrip-shown p v h.right h.filled;
  filled = is_empty-append p v h.filled;
}

pub shown-IsFront : (v : Text) → IsShown v → IsFront v
shown-IsFront v h = record { front_line = h.line; front_left = h.left }

-- the words of a check
abbrev pub outcome_detail : Check → Text
outcome_detail c = or_text c.detail (codes "no detail")

abbrev pub outcome_state : Check → RowState
outcome_state c = if c.ok then is_ok else is_failed

abbrev pub protocol_state : Check → RowState
protocol_state c = if c.skipped then is_skipped else outcome_state c

-- the parts of a line with a value
pub parse_line-keyed :
    (key value : Text) (p : Parsed)
    → IsFront key
    → strip key ≡ key
    → contains_char b':' key ≡ false
    → IsShown value
    → parse_line (key ++ (codes ": " ++ value)) p ≡ keep key value p
unfolding parse_line strip lstrip
parse_line-keyed key value p f s n v =
    ap (λ t. keep_parts (cut_at b':' t) p) whole
    ∙ ap (λ t. keep_parts t p) (cut_at-append b':' key (b' ' ∷ value) n)
    ∙ ap (λ t. keep t (strip (b' ' ∷ value)) p) s
    ∙ ap (λ t. keep key t p) (strip_of_IsShown value v)
  where
    whole : strip (key ++ (codes ": " ++ value)) ≡ key ++ (codes ": " ++ value)
    whole =
        ap rstrip (f.front_left (codes ": " ++ value))
        ∙ rstrip-shown key (codes ": " ++ value) (rstrip-shown (codes ": ") value v.right v.filled)
            refl

pub outcome-IsShown : (c : Check) → IsShown (outcome_detail c) → IsShown (outcome c)
unfolding lstrip
outcome-IsShown c h =
    if_elim (λ w. IsShown (w ++ codes " — " ++ outcome_detail c)) c.ok
      (λ e.
        front-IsShown (codes "OK — ") (outcome_detail c)
          (record { front_line = refl; front_left = λ s. refl }) h)
      (λ e.
        front-IsShown (codes "FAILED — ") (outcome_detail c)
          (record { front_line = refl; front_left = λ s. refl }) h)

pub protocol_outcome-IsShown :
    (c : Check) → IsShown (outcome_detail c) → IsShown (protocol_outcome c)
unfolding lstrip
protocol_outcome-IsShown c h =
    if_elim (λ w. IsShown (w ++ codes " — " ++ outcome_detail c)) c.skipped
      (λ e.
        front-IsShown (codes "SKIPPED — ") (outcome_detail c)
          (record { front_line = refl; front_left = λ s. refl }) h)
      (λ e. outcome-IsShown c h)

-- what is read back from an outcome
pub outcome_row-outcome :
    (c : Check)
    → IsShown (outcome_detail c)
    → outcome_row (outcome c) ≡ (outcome_state c, outcome_detail c)
unfolding outcome_row upper_case cut_at
outcome_row-outcome c h =
    rw (strip_of_IsShown (outcome c) (outcome-IsShown c h)) (elim (Bool-cases c.ok) [
      | inl e ↦ rw e (rw (strip_of_IsShown (outcome_detail c) h) refl)
      | inr e ↦ rw e (rw (strip_of_IsShown (outcome_detail c) h) refl)
    ])

pub outcome_row-protocol_outcome :
    (c : Check)
    → IsShown (outcome_detail c)
    → outcome_row (protocol_outcome c) ≡ (protocol_state c, outcome_detail c)
unfolding outcome_row upper_case cut_at
outcome_row-protocol_outcome c h = elim (Bool-cases c.skipped) [
  | inl e ↦
      rw (strip_of_IsShown (protocol_outcome c) (protocol_outcome-IsShown c h))
        (rw e (rw (strip_of_IsShown (outcome_detail c) h) refl))
  | inr e ↦ rw e (outcome_row-outcome c h)
]

-- the key of the port, of a service and of the local network
pub port_line :
    (port : ℕ) (value : Text) (p : Parsed)
    → IsShown value
    → parse_line (codes "TCP " ++ decimal port ++ codes ": " ++ value) p
      ≡ keep (codes "TCP " ++ decimal port) value p
unfolding lstrip strip
port_line port value p v =
    ap (λ t. parse_line t p) (append_assoc (codes "TCP " ++ decimal port) (codes ": ") value)
    ∙ parse_line-keyed (codes "TCP " ++ decimal port) value p
        (record {
          front_line =
              (front-IsShown (codes "TCP ") (decimal port) tcp (decimal-IsShown port)).line;
          front_left = λ s. refl;
        })
        (strip_of_IsShown (codes "TCP " ++ decimal port)
          (front-IsShown (codes "TCP ") (decimal port) tcp (decimal-IsShown port)))
        (contains_char-decimal port) v
  where
    tcp : IsFront (codes "TCP ")
    tcp = record { front_line = refl; front_left = λ s. refl }

-- a line whose key is not kept
pub parse_line-other :
    (key rest : Text) (p : Parsed)
    → ((s : Text) → lstrip (key ++ s) ≡ key ++ s)
    → contains_char b':' key ≡ false
    → ((v : Text) → keep (strip key) v p ≡ p)
    → parse_line (key ++ b':' ∷ rest) p ≡ p
unfolding parse_line strip rstrip
parse_line-other key rest p l n ignored =
    ap (λ t. keep_parts (cut_at b':' t) p)
      (ap rstrip (l (b':' ∷ rest)) ∙ rstrip-append key (b':' ∷ rest) refl)
    ∙ ap (λ t. keep_parts t p) (cut_at-append b':' key (rstrip rest) n)
    ∙ ignored (strip (rstrip rest))

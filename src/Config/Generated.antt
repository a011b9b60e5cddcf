-- ===== src/Config/Generated.antt =====
-- The generated identifiers "conn1", "conn2", ... differ from each other, so that the loop for a
-- free one ends: its fuel is more than the identifiers that are taken.
use thinclient.Prelude.{
  subst, ℕ, zero, suc, ◌+◌, ◌*◌, ◌/◌, ◌-◌, ◌≤◌, ◌<◌, ◌≡◌, ◌≢◌, refl, sym, ap, ◌∙◌, true, false,
  List, [], ◌∷◌, ◌++◌, length, ltb, arith, Bool-cases, inl, inr, ◌==◌, compare_texts, equal_iff,
  if◌then◌else◌,
}
use thinclient.Text.{Text}
use thinclient.Config.Fields.{among}
use thinclient.Config.Ids.{last_digit, decimal_on, decimal, generated, next_free}

-- the number that decimal digits stand for, after those that were read before
abbrev value_from : ℕ → Text → ℕ
value_from n [] = n
value_from n (c ∷ s) = value_from (n * 10 + (c - b'0')) s

value_from-append : (n : ℕ) (s t : Text) → value_from n (s ++ t) ≡ value_from (value_from n s) t
value_from-append n [] t = refl
value_from-append n (c ∷ s) t = value_from-append (n * 10 + (c - b'0')) s t

pub decimal_on_last : (fuel n : ℕ) → ltb n 10 ≡ true → decimal_on (suc fuel) n ≡ last_digit n ∷ []
unfolding decimal_on
decimal_on_last fuel n h = ground arith

pub decimal_on_more :
    (fuel n : ℕ)
    → ltb n 10 ≡ false
    → decimal_on (suc fuel) n ≡ decimal_on fuel (n / 10) ++ last_digit n ∷ []
unfolding decimal_on
decimal_on_more fuel n h = ground arith

value_from-decimal_on : (fuel n : ℕ) → n ≤ fuel → value_from 0 (decimal_on fuel n) ≡ n
unfolding decimal_on
value_from-decimal_on zero n h = omega arith
value_from-decimal_on (suc fuel) n h = elim (Bool-cases (ltb n 10)) [
  | inl e ↦ ap (value_from 0) (decimal_on_last fuel n e) ∙ ground arith
  | inr e ↦
      ap (value_from 0) (decimal_on_more fuel n e)
      ∙ value_from-append 0 (decimal_on fuel (n / 10)) (last_digit n ∷ [])
      ∙ ground (arith, value_from-decimal_on fuel (n / 10))
]

after_conn : Text → Text
after_conn (a ∷ b ∷ c ∷ d ∷ s) = s
after_conn _ = []

generated_inj : (m n : ℕ) → generated m ≡ generated n → m ≡ n
unfolding generated decimal after_conn
generated_inj m n h =
    sym (value_from-decimal_on m m (omega arith))
    ∙ ap (λ t. value_from 0 (after_conn t)) h
    ∙ value_from-decimal_on n n (omega arith)

-- the texts but one
abbrev without : Text → List Text → List Text
without t [] = []
without t (s ∷ taken) = if s == t then without t taken else s ∷ without t taken

length-without : (t : Text) (taken : List Text) → length (without t taken) ≤ length taken
length-without t [] = omega arith
length-without t (s ∷ taken) = ground (arith, length-without t taken)

length-without_lt :
    (t : Text) (taken : List Text) → among t taken ≡ true → length (without t taken) < length taken
length-without_lt t [] h = ground arith
length-without_lt t (s ∷ taken) h =
    ground (arith, length-without t taken, length-without_lt t taken)

among-without : (t s : Text) (taken : List Text) → t ≢ s → among s (without t taken) ≡ among s taken
among-without t s [] h = refl
among-without t s (r ∷ taken) h =
    ground (arith, among-without t s taken h, equal_iff r t, equal_iff r s)

next_free_taken :
    (fuel : ℕ) (taken : List Text) (n : ℕ)
    → among (generated n) taken ≡ true
    → next_free (suc fuel) taken n ≡ next_free fuel taken (suc n)
unfolding next_free
next_free_taken fuel taken n h = ground arith

next_free_here :
    (fuel : ℕ) (taken : List Text) (n : ℕ)
    → among (generated n) taken ≡ false
    → next_free (suc fuel) taken n ≡ n
unfolding next_free
next_free_here fuel taken n h = ground arith

next_free-cong :
    (fuel : ℕ) (taken rest : List Text) (n : ℕ)
    → ((m : ℕ) → n ≤ m → among (generated m) rest ≡ among (generated m) taken)
    → next_free fuel rest n ≡ next_free fuel taken n
unfolding next_free
next_free-cong zero taken rest n h = refl
next_free-cong (suc fuel) taken rest n h = elim (Bool-cases (among (generated n) taken)) [
  | inl e ↦
      next_free_taken fuel rest n (h n (omega arith) ∙ e)
      ∙ next_free-cong fuel taken rest (suc n) (λ m le. h m (omega arith))
      ∙ sym (next_free_taken fuel taken n e)
  | inr e ↦ next_free_here fuel rest n (h n (omega arith) ∙ e) ∙ sym (next_free_here fuel taken n e)
]

next_free_ge : (fuel : ℕ) (taken : List Text) (n : ℕ) → n ≤ next_free fuel taken n
unfolding next_free
next_free_ge zero taken n = omega arith
next_free_ge (suc fuel) taken n = elim (Bool-cases (among (generated n) taken)) [
  | inl e ↦ rw (next_free_taken fuel taken n e) (omega (arith, next_free_ge fuel taken (suc n)))
  | inr e ↦ rw (next_free_here fuel taken n e) (omega arith)
]

-- With more fuel than there are identifiers taken, the loop ends at a number whose identifier is
-- not taken.
pub next_free_lem :
    (fuel : ℕ) (taken : List Text) (n : ℕ)
    → length taken < fuel
    → among (generated (next_free fuel taken n)) taken ≡ false
next_free_lem zero taken n h = ground arith
next_free_lem (suc fuel) taken n h = elim (Bool-cases (among (generated n) taken)) [
  | inl e ↦
      let differ : (m : ℕ) → suc n ≤ m → generated n ≢ generated m =
        (λ m le same. ground (arith, generated_inj n m same)) in
      let fewer =
        next_free_lem fuel (without (generated n) taken) (suc n)
          (omega (arith, length-without_lt (generated n) taken e)) in
      let same =
        next_free-cong fuel taken (without (generated n) taken) (suc n)
          (λ m le. among-without (generated n) (generated m) taken (differ m le)) in
      rw (next_free_taken fuel taken n e) (
        sym (
          among-without (generated n) (generated (next_free fuel taken (suc n))) taken
            (differ _ (next_free_ge fuel taken (suc n))))
        ∙ subst (λ m. among (generated m) (without (generated n) taken) ≡ false) same fewer)
  | inr e ↦ rw (next_free_here fuel taken n e) e
]

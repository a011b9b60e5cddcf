-- ===== src/Rdp/Pieces.antt =====
-- Cutting a byte string into pieces.
use thinclient.Prelude.{
  ℕ, zero, suc, ◌-◌, ◌≤◌, ◌≡◌, refl, ap, ◌∙◌, ◌⊎◌, [], ◌∷◌, ◌++◌, arith, length, take, drop, inl,
  inr,
}
use thinclient.Rdp.{Bytes}

pub List-cases : (xs : Bytes) → (xs ≡ []) ⊎ ((x : ℕ) × (l : Bytes) × (xs ≡ x ∷ l))
List-cases [] = inl refl
List-cases (x ∷ l) = inr (x, l, refl)

pub drop-nil : (n : ℕ) → drop {A = ℕ} n [] ≡ []
drop-nil zero = refl
drop-nil (suc n) = refl

pub take-nil : (n : ℕ) → take {A = ℕ} n [] ≡ []
take-nil zero = refl
take-nil (suc n) = refl

pub take-split :
    (k n : ℕ) (xs : Bytes)
    → k ≤ n
    → take k xs ++ take (n - length (take k xs)) (drop k xs) ≡ take n xs
take-split zero n xs h = ap (λ m. take m xs) (omega arith)
take-split (suc k) zero xs h = absurd (omega arith)
take-split (suc k) (suc n) [] h = take-nil _
take-split (suc k) (suc n) (x ∷ xs) h =
    ap (λ l. x ∷ l)
      (ap (λ m. take k xs ++ take m (drop k xs)) (omega arith) ∙ take-split k n xs (omega arith))

pub drop-split :
    (k n : ℕ) (xs : Bytes) → k ≤ n → drop (n - length (take k xs)) (drop k xs) ≡ drop n xs
drop-split zero n xs h = ap (λ m. drop m xs) (omega arith)
drop-split (suc k) zero xs h = absurd (omega arith)
drop-split (suc k) (suc n) [] h = drop-nil _
drop-split (suc k) (suc n) (x ∷ xs) h =
    ap (λ m. drop m (drop k xs)) (omega arith) ∙ drop-split k n xs (omega arith)

pub take-positive : (k x : ℕ) (xs : Bytes) → 1 ≤ k → take k (x ∷ xs) ≡ x ∷ take (k - 1) xs
take-positive zero x xs h = absurd (omega arith)
take-positive (suc k) x xs h = ap (λ m. x ∷ take m xs) (omega arith)

pub drop-append : (xs ys : Bytes) → drop (length xs) (xs ++ ys) ≡ ys
drop-append [] ys = refl
drop-append (x ∷ xs) ys = drop-append xs ys

pub take-append : (xs ys : Bytes) → take (length xs) (xs ++ ys) ≡ xs
take-append [] ys = refl
take-append (x ∷ xs) ys = ap (λ l. x ∷ l) (take-append xs ys)

-- ===== src/Prelude/Equality.antt =====
-- Python's `==` on the values that the program compares, as an interface with its law.
use Prim.Native.Nat.{ℕ}
use mathlib.Core.Path.{◌≡◌, refl}
use mathlib.Core.Logic.{◌↔◌}
use mathlib.Core.Bool.{Bool, true, false, ◌&&◌}
use mathlib.Core.List.{List, [], ◌∷◌}
use native.Mathlib.Omega.{arith}
use thinclient.Prelude.Tests.{nat_eq, nat_eq_iff}

-- values of a type that the program tells apart
pub record Comparable {ℓ} (K : Type ℓ) : Type ℓ where
  pub same? : K → K → Bool
  pub same?-iff : (x y : K) → (same? x y ≡ true) ↔ (x ≡ y)

infix 50 ◌==◌
abbrev pub ◌==◌ {ℓ} : {K : Type ℓ} ⦃c : Comparable K⦄ → K → K → Bool
◌==◌ ⦃c⦄ x y = c.same? x y

module _ {ℓ} {K : Type ℓ} ⦃c : Comparable K⦄ where
  pub equal_iff : (x y : K) → ((x == y) ≡ true) ↔ (x ≡ y)
  equal_iff x y = c.same?-iff x y

  pub equal_refl : (x : K) → (x == x) ≡ true
  equal_refl x = (equal_iff x x).1 refl

abbrev pub list_eq : List ℕ → List ℕ → Bool
list_eq [] [] = true
list_eq (x ∷ xs) (y ∷ ys) = nat_eq x y && list_eq xs ys
list_eq _ _ = false

pub list_eq_iff : (xs ys : List ℕ) → (list_eq xs ys ≡ true) ↔ (xs ≡ ys)
list_eq_iff [] [] = ground arith
list_eq_iff (x ∷ xs) (y ∷ ys) = ground (arith, list_eq_iff xs ys, nat_eq_iff x y)
list_eq_iff [] (y ∷ ys) = ground arith
list_eq_iff (x ∷ xs) [] = ground arith

instance abbrev pub compare_numbers : Comparable ℕ
compare_numbers = record { same? = nat_eq; same?-iff = nat_eq_iff }

instance abbrev pub compare_texts : Comparable (List ℕ)
compare_texts = record { same? = list_eq; same?-iff = list_eq_iff }

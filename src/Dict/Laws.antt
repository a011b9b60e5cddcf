-- ===== src/Dict/Laws.antt =====
-- Sizes, sums and membership under the operations of a dictionary.
use thinclient.Prelude.{
  ℕ, ◌+◌, ◌≤◌, ◌≡◌, ◌≢◌, refl, sym, Option, none, some, List, [], ◌∷◌, ◌++◌, arith, Comparable,
  ◌==◌, equal_iff, if◌then◌else◌, length, sum_by, Every, sum_by-append, Bool-cases, inl, inr,
  is_some, Every-append,
}
use thinclient.Dict.{Dict, lookup, erase, insert_last, modify, trim}

-- what a value that may be missing counts for
abbrev pub worth {κ} : {V : Type κ} → (V → ℕ) → Option V → ℕ
worth f none = 0
worth f (some v) = f v

abbrev pub total {ℓ κ} : {K : Type ℓ} {V : Type κ} → (V → ℕ) → Dict K V → ℕ
total f d = sum_by (λ e. f e.1) d

abbrev pub Lacks {ℓ κ} : {K : Type ℓ} {V : Type κ} → K → Dict K V → Type ℓ
Lacks k d = Every (λ e. e.0 ≢ k) d

-- no key stands twice
abbrev pub Unique {ℓ κ} : {K : Type ℓ} {V : Type κ} → Dict K V → Type ℓ
Unique [] = Unit
Unique ((k, v) ∷ d) = Lacks k d × Unique d

module _ {ℓ κ} {K : Type ℓ} {V : Type κ} ⦃e : Comparable K⦄ where
  pub total-erase :
      (f : V → ℕ) (k : K) (d : Dict K V) → total f (erase k d) + worth f (lookup k d) ≡ total f d
  unfolding erase lookup
  total-erase f k [] = omega arith
  total-erase f k ((j, v) ∷ d) = ground (arith, total-erase f k d)

  pub total-insert_last :
      (f : V → ℕ) (k : K) (v : V) (d : Dict K V)
      → total f (insert_last k v d) + worth f (lookup k d) ≡ total f d + f v
  unfolding insert_last
  total-insert_last f k v d =
      omega (arith, sum_by-append (λ e. f e.1) (erase k d) ((k, v) ∷ []), total-erase f k d)

  pub length-erase :
      (k : K) (d : Dict K V)
      → length (erase k d) + (if is_some (lookup k d) then 1 else 0) ≡ length d
  unfolding erase lookup
  length-erase k [] = omega arith
  length-erase k ((j, v) ∷ d) = ground (arith, length-erase k d)

  pub length-modify : (k : K) (g : V → V) (d : Dict K V) → length (modify k g d) ≡ length d
  unfolding modify
  length-modify k g [] = refl
  length-modify k g ((j, v) ∷ d) = ground (arith, length-modify k g d)

  pub total-modify :
      (f : V → ℕ) (g : V → V) (n : ℕ) (k : K) (d : Dict K V)
      → ((v : V) → f (g v) ≡ f v + n)
      → total f (modify k g d) ≡ total f d + (if is_some (lookup k d) then n else 0)
  unfolding modify lookup
  total-modify f g n k [] h = omega arith
  total-modify f g n k ((j, v) ∷ d) h = ground (arith, h v, total-modify f g n k d h)

  pub lookup-of_Lacks : (k : K) (d : Dict K V) → Lacks k d → lookup k d ≡ none
  unfolding lookup
  lookup-of_Lacks k [] h = refl
  lookup-of_Lacks k ((j, v) ∷ d) h = ground (arith, equal_iff j k, h.0, lookup-of_Lacks k d h.1)

  pub Every-erase {ℓ'} :
      (P : K × V → Type ℓ') (k : K) (d : Dict K V) → Every P d → Every P (erase k d)
  unfolding erase
  Every-erase P k [] h = tt
  Every-erase P k ((j, v) ∷ d) h = elim (Bool-cases (j == k)) [
    | inl same ↦ rw same h.1
    | inr other ↦ rw other (h.0, Every-erase P k d h.1)
  ]

  pub Every-modify {ℓ'} :
      (P : K × V → Type ℓ') (k : K) (g : V → V) (d : Dict K V)
      → ((j : K) (v : V) → P (j, v) → P (j, g v))
      → Every P d
      → Every P (modify k g d)
  unfolding modify
  Every-modify P k g [] keep h = tt
  Every-modify P k g ((j, v) ∷ d) keep h = elim (Bool-cases (j == k)) [
    | inl same ↦ rw same (keep j v h.0, h.1)
    | inr other ↦ rw other (h.0, Every-modify P k g d keep h.1)
  ]

  pub Lacks-erase : (i k : K) (d : Dict K V) → Lacks i d → Lacks i (erase k d)
  Lacks-erase i k d h = Every-erase (λ e. e.0 ≢ i) k d h

  pub Unique-erase : (k : K) (d : Dict K V) → Unique d → Unique (erase k d)
  unfolding erase
  Unique-erase k [] h = tt
  Unique-erase k ((j, v) ∷ d) h = ground (arith, Unique-erase k d h.1, Lacks-erase j k d h.0)

  pub Lacks-erase_self : (k : K) (d : Dict K V) → Unique d → Lacks k (erase k d)
  unfolding erase
  Lacks-erase_self k [] h = tt
  Lacks-erase_self k ((j, v) ∷ d) h = elim (Bool-cases (j == k)) [
    | inl same ↦ rw same (rw (← (equal_iff j k).0 same) h.0)
    | inr other ↦ rw other (ground (arith, equal_iff j k), Lacks-erase_self k d h.1)
  ]

  pub lookup-append :
      (k : K) (c d : Dict K V)
      → lookup k (c ++ d) ≡ (if is_some (lookup k c) then lookup k c else lookup k d)
  unfolding lookup
  lookup-append k [] d = refl
  lookup-append k ((j, v) ∷ c) d = ground (arith, lookup-append k c d)

  pub Lacks-modify : (i k : K) (g : V → V) (d : Dict K V) → Lacks i d → Lacks i (modify k g d)
  Lacks-modify i k g d h = Every-modify (λ e. e.0 ≢ i) k g d (λ j v q. q) h

  pub Unique-modify : (k : K) (g : V → V) (d : Dict K V) → Unique d → Unique (modify k g d)
  unfolding modify
  Unique-modify k g [] h = tt
  Unique-modify k g ((j, v) ∷ d) h =
      ground (arith, Unique-modify k g d h.1, Lacks-modify j k g d h.0)

module _ {ℓ κ} {K : Type ℓ} {V : Type κ} where
  pub Unique-snoc :
      (k : K) (v : V) (d : Dict K V) → Lacks k d → Unique d → Unique (d ++ (k, v) ∷ [])
  Unique-snoc k v [] h u = (tt, tt)
  Unique-snoc k v ((j, w) ∷ d) h u = (
    Every-append (λ e. e.0 ≢ j) d ((k, v) ∷ []) u.0 ((λ p. h.0 (sym p)), tt),
    Unique-snoc k v d h.1 u.1,
  )

module _ {ℓ} {A : Type ℓ} where
  pub length-trim : (n : ℕ) (d : List A) → length (trim n d) ≤ n
  unfolding trim
  length-trim n [] = omega arith
  length-trim n (x ∷ d) = ground (arith, length-trim n d)

  pub trim_of_le : (n : ℕ) (d : List A) → length d ≤ n → trim n d ≡ d
  unfolding trim
  trim_of_le n [] h = refl
  trim_of_le n (x ∷ d) h = ground arith

  pub sum_by-trim : (f : A → ℕ) (n : ℕ) (d : List A) → sum_by f (trim n d) ≤ sum_by f d
  unfolding trim
  sum_by-trim f n [] = omega arith
  sum_by-trim f n (x ∷ d) = ground (arith, sum_by-trim f n d)

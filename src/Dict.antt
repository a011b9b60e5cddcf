-- ===== src/Dict.antt =====
-- Python's insertion-ordered `dict` and `OrderedDict` as the list of its items, oldest first.
pub mod Laws
use thinclient.Prelude.{
  ℕ, ◌+◌, Bool, Option, none, some, List, [], ◌∷◌, ◌++◌, Comparable, ◌==◌, if◌then◌else◌, ltb,
  length,
}

abbrev pub Dict {ℓ κ} : Type ℓ → Type κ → Type (ℓ ⊔ κ)
Dict K V = List (K × V)

module _ {ℓ κ} {K : Type ℓ} {V : Type κ} ⦃e : Comparable K⦄ where
  -- d.get(k)
  unfoldable pub lookup : K → Dict K V → Option V
  lookup k [] = none
  lookup k ((j, v) ∷ d) = if j == k then some v else lookup k d

  -- d.pop(k, None), without its result
  unfoldable pub erase : K → Dict K V → Dict K V
  erase k [] = []
  erase k ((j, v) ∷ d) = if j == k then d else (j, v) ∷ erase k d

  -- d[k] = v: an old key keeps its place, a new one goes to the end
  unfoldable pub insert : K → V → Dict K V → Dict K V
  insert k v [] = (k, v) ∷ []
  insert k v ((j, w) ∷ d) = if j == k then (j, v) ∷ d else (j, w) ∷ insert k v d

  -- d[k] = v; d.move_to_end(k)
  unfoldable pub insert_last : K → V → Dict K V → Dict K V
  unfolding erase
  insert_last k v d = erase k d ++ (k, v) ∷ []

  -- the object at `k`, if there is one, changed in place
  unfoldable pub modify : K → (V → V) → Dict K V → Dict K V
  modify k f [] = []
  modify k f ((j, v) ∷ d) = if j == k then (j, f v) ∷ d else (j, v) ∷ modify k f d

module _ {ℓ} {A : Type ℓ} where
  -- while len(d) > n: d.popitem(last=False)
  unfoldable pub trim : ℕ → List A → List A
  trim n [] = []
  trim n (x ∷ d) = let rest = trim n d in if ltb n (length (x ∷ d)) then rest else x ∷ d

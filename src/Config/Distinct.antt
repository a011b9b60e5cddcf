-- ===== src/Config/Distinct.antt =====
-- What `_assign_connection_ids` promises: no two connections share an identifier, none is without
-- one, the first connection with an explicit identifier keeps it, and nothing else changes.
use thinclient.Prelude.{
  ℕ, suc, ◌≡◌, ◌≢◌, refl, ap, ◌∙◌, Bool, true, false, not, ◌&&◌, ◌||◌, List, [], ◌∷◌, ◌++◌, length,
  arith, Bool-cases, inl, inr, compare_texts, equal_iff, if◌then◌else◌, Every, Every-map,
}
use thinclient.Text.{Text, is_empty}
use thinclient.Config.{Connection}
use thinclient.Config.Fields.{among}
use thinclient.Config.Ids.{
  generated, next_free, set_id, assign_from, explicit_ids, assign_connection_ids,
}
use thinclient.Config.Generated.{next_free_lem}

abbrev pub keeps : List Text → Connection → Bool
keeps used c = not (is_empty c.id) && not (among c.id used)

abbrev pub free_number : List Text → List Text → ℕ → ℕ
free_number reserved used next = next_free (suc (length (reserved ++ used))) (reserved ++ used) next

among-append : (t : Text) (xs ys : List Text) → among t (xs ++ ys) ≡ (among t xs || among t ys)
among-append t [] ys = refl
among-append t (x ∷ xs) ys = ground (arith, among-append t xs ys)

free_number_lem :
    (reserved used : List Text) (next : ℕ)
    → (among (generated (free_number reserved used next)) reserved ≡ false)
      × (among (generated (free_number reserved used next)) used ≡ false)
free_number_lem reserved used next = ground (
  arith,
  next_free_lem (suc (length (reserved ++ used))) (reserved ++ used) next (omega arith),
  among-append (generated (free_number reserved used next)) reserved used,
)

-- what the loop leaves of its first connection, and its identifier
abbrev pub named : List Text → List Text → ℕ → Connection → Connection
named reserved used next c =
    if keeps used c then c else set_id c (generated (free_number reserved used next))

abbrev pub following : List Text → List Text → ℕ → Connection → ℕ
following reserved used next c = if keeps used c then next else suc (free_number reserved used next)

pub assign_from_step :
    (reserved used : List Text) (next : ℕ) (c : Connection) (cs : List Connection)
    → assign_from reserved used next (c ∷ cs)
      ≡ named reserved used next c
        ∷ assign_from reserved
            ((named reserved used next c).id ∷ used)
            (following reserved used next c)
            cs
unfolding assign_from
assign_from_step reserved used next c cs = elim (Bool-cases (keeps used c)) [
  | inl e ↦ ground arith
  | inr e ↦ ground arith
]

named_unused :
    (reserved used : List Text) (next : ℕ) (c : Connection)
    → among (named reserved used next c).id used ≡ false
named_unused reserved used next c = elim (Bool-cases (keeps used c)) [
  | inl e ↦ rw e (ground arith)
  | inr e ↦ rw e (free_number_lem reserved used next).1
]

generated_supplied : (n : ℕ) → is_empty (generated n) ≡ false
unfolding generated
generated_supplied n = refl

named_supplied :
    (reserved used : List Text) (next : ℕ) (c : Connection)
    → is_empty (named reserved used next c).id ≡ false
named_supplied reserved used next c = elim (Bool-cases (keeps used c)) [
  | inl e ↦ rw e (ground arith)
  | inr e ↦ rw e (generated_supplied _)
]

abbrev pub Fresh : List Text → Connection → Type 0
Fresh used c = among c.id used ≡ false

-- every identifier differs from those after it and is not empty
abbrev pub Distinct : List Connection → Type 0
Distinct [] = Unit
Distinct (c ∷ cs) = (is_empty c.id ≡ false) × Every (λ d. d.id ≢ c.id) cs × Distinct cs

Fresh-tail : (t : Text) (used : List Text) (c : Connection) → Fresh (t ∷ used) c → Fresh used c
Fresh-tail t used c h = ground arith

Fresh-differs : (t : Text) (used : List Text) (c : Connection) → Fresh (t ∷ used) c → c.id ≢ t
Fresh-differs t used c h = ground (arith, equal_iff t c.id)

assign_from-Fresh :
    (reserved used : List Text) (next : ℕ) (cs : List Connection)
    → Every (Fresh used) (assign_from reserved used next cs)
unfolding assign_from
assign_from-Fresh reserved used next [] = tt
assign_from-Fresh reserved used next (c ∷ cs) = rw (assign_from_step reserved used next c cs) (
  named_unused reserved used next c,
  Every-map _ (Fresh used) _ (Fresh-tail _ used) (
      assign_from-Fresh reserved ((named reserved used next c).id ∷ used)
        (following reserved used next c) cs),
)

assign_from-Distinct :
    (reserved used : List Text) (next : ℕ) (cs : List Connection)
    → Distinct (assign_from reserved used next cs)
unfolding assign_from
assign_from-Distinct reserved used next [] = tt
assign_from-Distinct reserved used next (c ∷ cs) = rw (assign_from_step reserved used next c cs) (
  named_supplied reserved used next c,
  Every-map _ (λ d. d.id ≢ (named reserved used next c).id) _ (Fresh-differs _ used)
      (assign_from-Fresh reserved ((named reserved used next c).id ∷ used)
        (following reserved used next c) cs),
  assign_from-Distinct reserved ((named reserved used next c).id ∷ used)
      (following reserved used next c) cs,
)

-- Whatever identifiers the connections come with, afterwards every connection has one, it is not
-- empty, and no two are the same.
pub assign_connection_ids-Distinct : (cs : List Connection) → Distinct (assign_connection_ids cs)
unfolding assign_connection_ids
assign_connection_ids-Distinct cs = assign_from-Distinct (explicit_ids cs) [] 1 cs

named_differs :
    (reserved used : List Text) (next : ℕ) (c d : Connection)
    → among c.id reserved ≡ true
    → d.id ≢ c.id
    → (named reserved used next d).id ≢ c.id
named_differs reserved used next c d h other = elim (Bool-cases (keeps used d)) [
  | inl e ↦ rw e other
  | inr e ↦ rw e (λ same.
      ground (arith, h, (free_number_lem reserved used next).0, ap (λ t. among t reserved) same))
]

assign_from-first :
    (reserved used : List Text) (next : ℕ) (front : List Connection) (c : Connection)
    (back : List Connection)
    → is_empty c.id ≡ false
    → among c.id reserved ≡ true
    → among c.id used ≡ false
    → Every (λ d. d.id ≢ c.id) front
    → (before : List Connection) × (after : List Connection) × (assign_from reserved used next
          (front ++ c ∷ back)
        ≡ before ++ c ∷ after)
      × (length before ≡ length front)
assign_from-first reserved used next [] c back supplied r u h = (
  [],
  assign_from reserved (c.id ∷ used) next back,
  assign_from_step reserved used next c back ∙ rw supplied (rw u refl),
  refl,
)
assign_from-first reserved used next (d ∷ front) c back supplied r u h =
    let d' = named reserved used next d in
    let rest =
      assign_from-first reserved (d'.id ∷ used) (following reserved used next d) front c back
        supplied r
        (ground (arith, u, equal_iff d'.id c.id, named_differs reserved used next c d r h.0)) h.1 in
    (
      d' ∷ rest.0,
      rest.1,
      assign_from_step reserved used next d (front ++ c ∷ back) ∙ ap (λ cs. d' ∷ cs) rest.2,
      ap suc rest.3,
    )

explicit_among :
    (front : List Connection) (c : Connection) (back : List Connection)
    → is_empty c.id ≡ false
    → among c.id (explicit_ids (front ++ c ∷ back)) ≡ true
explicit_among [] c back h = rw h (ground (arith, equal_iff c.id c.id))
explicit_among (d ∷ front) c back h = elim (Bool-cases (is_empty d.id)) [
  | inl e ↦ rw e (explicit_among front c back h)
  | inr e ↦ rw e (ground (arith, explicit_among front c back h))
]

-- A connection that has an identifier, where no connection before it has the same one, comes out
-- unchanged and at the same place: no generated identifier ever takes it from it.
pub assign_connection_ids_first :
    (front : List Connection) (c : Connection) (back : List Connection)
    → is_empty c.id ≡ false
    → Every (λ d. d.id ≢ c.id) front
    → (before : List Connection) × (after : List Connection) × (assign_connection_ids
          (front ++ c ∷ back)
        ≡ before ++ c ∷ after)
      × (length before ≡ length front)
unfolding assign_connection_ids
assign_connection_ids_first front c back supplied h =
    assign_from-first (explicit_ids (front ++ c ∷ back)) [] 1 front c back supplied
      (explicit_among front c back supplied) refl h

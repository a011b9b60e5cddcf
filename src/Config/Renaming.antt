-- ===== src/Config/Renaming.antt =====
-- What the identifiers and the names that `load` gives to connections leave as it was.
use thinclient.Prelude.{
  ℕ, ◌≡◌, ◌≢◌, refl, sym, ap, ◌∙◌, inl, inr, false, Option, none, some, List, [], ◌∷◌, map, arith,
  Bool-cases, compare_texts, Every,
}
use thinclient.Text.{Text, is_empty}
use thinclient.Value.{Value, object?}
use thinclient.Config.{Connection}
use thinclient.Config.Connections.{Raw, normalise_connection}
use thinclient.Config.Ids.{generated, set_id, assign_from, assign_connection_ids, explicit_ids}
use thinclient.Config.Distinct.{Distinct, named, following, assign_from_step, keeps, free_number}
use thinclient.Config.Valid.{IsValid}
use thinclient.Config.Layers.{with_entry, normalised, name_connection}

-- a property of the settings, that the identifier and the name do not change
module _ (P : Connection → Type 0)
    (renamed : (c : Connection) (n : ℕ) → P c → P (set_id c (generated n))) where
  assign_from-Every :
      (reserved used : List Text) (next : ℕ) (cs : List Connection)
      → Every P cs
      → Every P (assign_from reserved used next cs)
  unfolding assign_from
  assign_from-Every reserved used next [] h = tt
  assign_from-Every reserved used next (c ∷ cs) h = rw (assign_from_step reserved used next c cs) (
    elim (Bool-cases (keeps used c)) [
      | inl e ↦ rw e h.0
      | inr e ↦ rw e (renamed c (free_number reserved used next) h.0)
    ],
    assign_from-Every reserved ((named reserved used next c).id ∷ used)
        (following reserved used next c) cs h.1,
  )

  pub assign_connection_ids-Every :
      (cs : List Connection) → Every P cs → Every P (assign_connection_ids cs)
  unfolding assign_connection_ids
  assign_connection_ids-Every cs h = assign_from-Every (explicit_ids cs) [] 1 cs h

pub Every-name_connection :
    (P Q : Connection → Type 0) (cs : List Connection)
    → ((c : Connection) → P c → Q (name_connection c))
    → Every P cs
    → Every Q (map name_connection cs)
Every-name_connection P Q [] f h = tt
Every-name_connection P Q (c ∷ cs) f h = (f c h.0, Every-name_connection P Q cs f h.1)

pub set_id-IsValid : (c : Connection) (t : Text) → IsValid c → IsValid (set_id c t)
set_id-IsValid c t v = record {
  protocol_known = v.protocol_known;
  policy_known = v.policy_known;
  security_known = v.security_known;
  gfx_known = v.gfx_known;
  network_known = v.network_known;
  display_known = v.display_known;
  port_ge = v.port_ge;
  port_le = v.port_le;
  delay_ge = v.delay_ge;
  delay_le = v.delay_le;
  arguments_supplied = v.arguments_supplied;
}

pub name_connection-IsValid : (c : Connection) → IsValid c → IsValid (name_connection c)
name_connection-IsValid c v = elim (Bool-cases (is_empty c.name)) [
  | inl e ↦ rw e (record {
    protocol_known = v.protocol_known;
    policy_known = v.policy_known;
    security_known = v.security_known;
    gfx_known = v.gfx_known;
    network_known = v.network_known;
    display_known = v.display_known;
    port_ge = v.port_ge;
    port_le = v.port_le;
    delay_ge = v.delay_ge;
    delay_le = v.delay_le;
    arguments_supplied = v.arguments_supplied;
  })
  | inr e ↦ rw e v
]

with_entry-Every :
    (P : Connection → Type 0) (o : Option Raw) (cs : List Connection)
    → ((raw : Raw) → P (normalise_connection raw))
    → Every P cs
    → Every P (with_entry o cs)
with_entry-Every P none cs f h = h
with_entry-Every P (some raw) cs f h = (f raw, h)

pub normalised-Every :
    (P : Connection → Type 0) (vs : List Value)
    → ((raw : Raw) → P (normalise_connection raw))
    → Every P (normalised vs)
normalised-Every P [] f = tt
normalised-Every P (v ∷ vs) f =
    with_entry-Every P (object? v) (normalised vs) f (normalised-Every P vs f)

pub id-name_connection : (c : Connection) → (name_connection c).id ≡ c.id
id-name_connection c = elim (Bool-cases (is_empty c.name)) [ inl e ↦ rw e refl | inr e ↦ rw e refl ]

pub Distinct-name_connection :
    (cs : List Connection) → Distinct cs → Distinct (map name_connection cs)
Distinct-name_connection [] h = tt
Distinct-name_connection (c ∷ cs) h = (
  ap is_empty (id-name_connection c) ∙ h.0,
  Every-name_connection (λ d. d.id ≢ c.id) (λ d. d.id ≢ (name_connection c).id) cs
      (λ d other same. other (sym (id-name_connection d) ∙ same ∙ id-name_connection c)) h.1,
  Distinct-name_connection cs h.2,
)

pub Distinct-supplied : (cs : List Connection) → Distinct cs → Every (λ c. is_empty c.id ≡ false) cs
Distinct-supplied [] h = tt
Distinct-supplied (c ∷ cs) h = (h.0, Distinct-supplied cs h.2)

pub name_connection_supplied :
    (c : Connection) → is_empty c.id ≡ false → is_empty (name_connection c).name ≡ false
name_connection_supplied c h = ground arith

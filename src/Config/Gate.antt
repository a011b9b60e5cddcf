-- ===== src/Config/Gate.antt =====
-- The gate in `load`: when the policy keeps every connection back.
use thinclient.Prelude.{
  ◌≡◌, ◌≢◌, refl, ◌⊎◌, inl, inr, true, false, not, ◌&&◌, Option, none, some, List, [], ◌∷◌, is_some,
  arith, ap, sym, ◌∙◌, Bool-cases, ◌==◌, compare_texts, equal_iff,
}
use thinclient.Text.{Text, codes}
use thinclient.Value.{Value, null, bool, int, float, str, arr, obj, is_true}
use thinclient.Config.Fields.{among}
use thinclient.Config.Connections.{Raw}
use thinclient.Config.Layers.{
  File, read, load_layers, Gate, is_blocked, load, field_or_null, is_usable,
}

-- what the policy and the status file say; `is_true` is what Python makes of a value in a condition
abbrev policy_field : Gate → Value
policy_field g = field_or_null "config_required" (read g.policy)

abbrev status_field : Gate → Value
status_field g = field_or_null "state" (read g.status)

-- a policy file that is there but is not an object, or a policy whose `config_required` is true beside
-- a status file whose state is neither "current" nor "stale"
abbrev pub Blocks : Gate → Type 0
Blocks g =
    ((g.policy_exists ≡ true) × (read g.policy ≡ none))
    ⊎ ((is_true (policy_field g) ≡ true)
        × (status_field g ≢ str (codes "current"))
        × (status_field g ≢ str (codes "stale")))

-- no policy file or one that is an object, and a policy whose `config_required` is not true or a
-- status file whose state is "current" or "stale"
abbrev pub Opens : Gate → Type 0
Opens g =
    ((g.policy_exists ≡ false) ⊎ (is_some (read g.policy) ≡ true))
    × ((is_true (policy_field g) ≡ false)
        ⊎ ((status_field g ≡ str (codes "current")) ⊎ (status_field g ≡ str (codes "stale"))))

unusable_state :
    (v : Value) → is_usable v ≡ false → (v ≢ str (codes "current")) × (v ≢ str (codes "stale"))
unusable_state v h =
    ((λ e. ground (arith, sym h ∙ ap is_usable e)), (λ e. ground (arith, sym h ∙ ap is_usable e)))

usable_text :
    (s : Text)
    → among s (codes "current" ∷ codes "stale" ∷ []) ≡ true
    → (s ≡ codes "current") ⊎ (s ≡ codes "stale")
usable_text s h = elim (Bool-cases (codes "current" == s)) [
  | inl e ↦ inl (sym ((equal_iff (codes "current") s).0 e))
  | inr e ↦ inr (elim (Bool-cases (codes "stale" == s)) [
    | inl k ↦ sym ((equal_iff (codes "stale") s).0 k)
    | inr k ↦ absurd (none_of e k h)
  ])
]
  where
    none_of :
        (codes "current" == s) ≡ false
        → (codes "stale" == s) ≡ false
        → among s (codes "current" ∷ codes "stale" ∷ []) ≡ true
        → ⊥
    none_of e k h = ground (arith, e, k, h)

usable_state :
    (v : Value) → is_usable v ≡ true → (v ≡ str (codes "current")) ⊎ (v ≡ str (codes "stale"))
usable_state null h = ground (arith, h)
usable_state (bool b) h = ground (arith, h)
usable_state (int n) h = ground (arith, h)
usable_state (float x) h = ground (arith, h)
usable_state (str s) h = elim (usable_text s h) [ inl e ↦ inl (ap str e) | inr e ↦ inr (ap str e) ]
usable_state (arr vs) h = ground (arith, h)
usable_state (obj fs) h = ground (arith, h)

not_read : (o : Option Raw) → is_some o ≡ false → o ≡ none
not_read none h = refl
not_read (some r) h = absurd (ground (arith, h))

is_blocked_readable :
    (g : Gate)
    → (not (is_some (read g.policy)) && g.policy_exists) ≡ false
    → (g.policy_exists ≡ false) ⊎ (is_some (read g.policy) ≡ true)
    → (Blocks g × (is_blocked g ≡ true)) ⊎ (Opens g × (is_blocked g ≡ false))
unfolding is_blocked
is_blocked_readable g clear r = elim (Bool-cases (is_true (policy_field g))) [
  | inl t ↦ elim (Bool-cases (is_usable (status_field g))) [
    | inl u ↦ inr ((r, inr (usable_state (status_field g) u)), rw clear (rw t (rw u refl)))
    | inr u ↦
        let other = unusable_state (status_field g) u in
        inl (inr (t, other.0, other.1), rw clear (rw t (rw u refl)))
  ]
  | inr t ↦ inr ((r, inl t), rw clear (rw t refl))
]

is_blocked_lem :
    (g : Gate) → (Blocks g × (is_blocked g ≡ true)) ⊎ (Opens g × (is_blocked g ≡ false))
unfolding is_blocked
is_blocked_lem g = elim (Bool-cases (is_some (read g.policy))) [
  | inl readable ↦ is_blocked_readable g (rw readable refl) (inr readable)
  | inr unreadable ↦ elim (Bool-cases g.policy_exists) [
    | inl there ↦
        inl (inl (there, not_read (read g.policy) unreadable), rw unreadable (rw there refl))
    | inr absent ↦ is_blocked_readable g (rw absent (rw unreadable refl)) (inl absent)
  ]
]

-- Exactly two things block the connections of a machine: a policy file that is there but is not an
-- object, and a policy whose `config_required` is true while the status file's state is neither
-- "current" nor "stale" (or there is none). Then no connection is left, none starts by itself, and the
-- configuration says that it is blocked; otherwise the configuration is what its files give.
pub load_gate :
    (files : List File) (g : Gate)
    → (Blocks g
        × ((load files g).connections ≡ [])
        × ((load files g).device.auto_connect ≡ [])
        × ((load files g).configuration_blocked ≡ true))
      ⊎ (Opens g × (load files g ≡ load_layers files))
unfolding load
load_gate files g = elim (is_blocked_lem g) [
  | inl h ↦ rw h.1 (inl (h.0, refl, refl, refl))
  | inr h ↦ rw h.1 (inr (h.0, refl))
]

-- ===== src/Fetch/Gate.antt =====
-- What the state of the central configuration guarantees.
use thinclient.Prelude.{
  ◌≡◌, refl, ap, ◌∙◌, Bool, true, false, not, ◌&&◌, ◌||◌, Option, none, some, arith, Bool-cases,
  inl, inr, ◌==◌, compare_texts, if◌then◌else◌,
}
use thinclient.Text.{Text, codes, is_empty}
use thinclient.Value.{Value}
use thinclient.Fetch.{
  Policy, Outside, Address, Status, State, local, current, stale, unavailable, none_refused,
  validate, decoded, retrieve, is_good, begun, fall_back, conclude, without_url, fetch,
}

-- what holds of the configuration that is in use, by the state that is reported
abbrev pub Holds : Policy → Outside → Status → State → Type 0
Holds p o s local = p.config_required ≡ false
Holds p o s current =
    (is_good o.payload p.production ≡ true)
    × ((not p.has_public_key || o.signature_verified) ≡ true)
    × ((not p.has_public_key || s.authenticated) ≡ true)
    × ((not p.require_https || s.authenticated) ≡ true)
Holds p o s stale = is_good s.remote p.production ≡ true
Holds p o s unavailable = is_good s.remote p.production ≡ false

fall_back-Holds :
    (p : Policy) (o : Outside) (s : Status) → Holds p o (fall_back p s) (fall_back p s).state
unfolding fall_back
fall_back-Holds p o s = elim (Bool-cases (is_good s.remote p.production)) [
  | inl e ↦ rw e e
  | inr e ↦ rw e e
]

decoded-Holds :
    (v : Option Value) (p : Policy) (o : Outside) (a : Address) (s : Status)
    → o.payload ≡ v
    → (not p.has_public_key || o.signature_verified) ≡ true
    → (not p.require_https || (a.scheme == codes "https")) ≡ true
    → Holds p o (conclude p o s (decoded v p o a)) (conclude p o s (decoded v p o a)).state
unfolding decoded conclude
decoded-Holds none p o a s same signed secure = fall_back-Holds p o s
decoded-Holds (some v) p o a s same signed secure =
    elim (Bool-cases (none_refused (validate v p.production) && o.remote_written)) [
      | inl e ↦
          rw e (
            ap (λ x. is_good x p.production) same ∙ ground arith,
            signed,
            ground arith,
            ground arith,
          )
      | inr e ↦ rw e (fall_back-Holds p o s)
    ]

abbrev is_usable_url : Policy → Outside → Address → Bool
is_usable_url p o a =
    (((a.scheme == codes "http") || (a.scheme == codes "https"))
      && a.has_hostname
      && not a.has_credentials)
    && (not p.require_https || (a.scheme == codes "https"))
    && o.payload_downloaded
    && (not p.has_public_key || (o.signature_downloaded && o.signature_verified))

retrieve-Holds :
    (a : Option Address) (p : Policy) (o : Outside) (s : Status)
    → Holds p o (conclude p o s (retrieve p o a)) (conclude p o s (retrieve p o a)).state
unfolding retrieve conclude
retrieve-Holds none p o s = fall_back-Holds p o s
retrieve-Holds (some a) p o s = elim (Bool-cases (is_usable_url p o a)) [
  | inl e ↦ rw e (decoded-Holds o.payload p o a s refl (ground arith) (ground arith))
  | inr e ↦ rw e (fall_back-Holds p o s)
]

without_url-Holds :
    (required : Bool) (p : Policy) (o : Outside) (s : Status)
    → p.config_required ≡ required
    → s.state ≡ local
    → Holds p o (without_url required p s) (without_url required p s).state
unfolding without_url
without_url-Holds true p o s r l = fall_back-Holds p o s
without_url-Holds false p o s r l = rw l r

-- The state that `fetch` reports is true. "local" is only reported where no central configuration is
-- required; "current" only where the document that was just downloaded is valid, its signature was
-- verified if there is a key, and it is marked authenticated if there is a key or HTTPS is required;
-- "stale" only where a valid one can be read from the kept file; and "unavailable" only where none can.
pub fetch-Holds :
    (given : Text) (p : Policy) (o : Outside) (s : Status)
    → Holds p o (fetch given p o s) (fetch given p o s).state
unfolding fetch
fetch-Holds given p o s =
    let url = if is_empty p.config_url then given else p.config_url in
    elim (Bool-cases (is_empty url)) [
      | inl e ↦ rw e (without_url-Holds p.config_required p o (begun p o s) refl refl)
      | inr e ↦ rw e (retrieve-Holds (o.urlsplit url) p o (begun p o s))
    ]

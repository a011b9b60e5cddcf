-- ===== src/Config/Valid.antt =====
-- Every normalised connection is within the bounds and the choices that the rest of the program
-- relies on, whatever JSON it was made of, and no spelling weakens a certificate policy.
use thinclient.Prelude.{
  ℕ, ◌≤◌, ◌≡◌, refl, ap, ◌∙◌, true, false, ◌||◌, Option, none, some, List, [], ◌∷◌, arith,
  Bool-cases, inl, inr, ◌==◌, compare_texts, equal_iff, if◌then◌else◌, ℤ, pos, negsuc, Every,
  String,
}
use thinclient.Text.{Text, codes, is_empty, strip, int_of_text}
use thinclient.Dict.{lookup}
use thinclient.Value.{Value, null, bool, int, float, str, arr, obj, whole, not_whole, list?, end}
use thinclient.Config.{
  Connection, protocols, cert_policies, securities, codecs, networks, display_modes,
}
use thinclient.Config.Fields.{
  among, clamp, clamp_or, bounded_int, enum, spelling, display, is_display_size,
}
use thinclient.Config.Connections.{
  Raw, get, value_or, choice, policy_default, cert_policy, arguments, arguments_of, extra_args,
  default_port, normalise_connection,
}

abbrev pub IsDisplay : Text → Type 0
IsDisplay s = (among s display_modes || is_display_size s) ≡ true

-- what the program relies on of the settings of a connection
pub record IsValid (c : Connection) : Type 0 where
  pub protocol_known : among c.protocol protocols ≡ true
  pub policy_known : among c.cert_policy cert_policies ≡ true
  pub security_known : among c.security securities ≡ true
  pub gfx_known : among c.gfx codecs ≡ true
  pub network_known : among c.network networks ≡ true
  pub display_known : IsDisplay c.display
  pub port_ge : 1 ≤ c.port
  pub port_le : c.port ≤ 65535
  pub delay_ge : 2 ≤ c.reconnect_delay
  pub delay_le : c.reconnect_delay ≤ 120
  pub arguments_supplied : Every (λ t. is_empty t ≡ false) c.extra_args

clamp-bounds : (n : ℤ) (lo hi : ℕ) → lo ≤ hi → (lo ≤ clamp n lo hi) × (clamp n lo hi ≤ hi)
clamp-bounds (pos n) lo hi h = ground arith
clamp-bounds (negsuc n) lo hi h = ground arith

clamp_or-bounds :
    (n : Option ℤ) (default lo hi : ℕ)
    → lo ≤ default
    → default ≤ hi
    → (lo ≤ clamp_or n default lo hi) × (clamp_or n default lo hi ≤ hi)
clamp_or-bounds none default lo hi l h = (l, h)
clamp_or-bounds (some n) default lo hi l h = clamp-bounds n lo hi (omega arith)

-- A bounded integer is always within its bounds, for any JSON value at all, if its default is.
pub bounded_int-bounds :
    (v : Value) (default lo hi : ℕ)
    → lo ≤ default
    → default ≤ hi
    → (lo ≤ bounded_int v default lo hi) × (bounded_int v default lo hi ≤ hi)
unfolding bounded_int
bounded_int-bounds null default lo hi l h = (l, h)
bounded_int-bounds (bool b) default lo hi l h = (l, h)
bounded_int-bounds (int n) default lo hi l h = clamp-bounds n lo hi (omega arith)
bounded_int-bounds (float (whole n)) default lo hi l h = clamp-bounds n lo hi (omega arith)
bounded_int-bounds (float not_whole) default lo hi l h = (l, h)
bounded_int-bounds (str s) default lo hi l h = clamp_or-bounds (int_of_text s) default lo hi l h
bounded_int-bounds (arr vs) default lo hi l h = (l, h)
bounded_int-bounds (obj fs) default lo hi l h = (l, h)

enum-among :
    (v : Value) (default : Text) (choices : List Text)
    → among default choices ≡ true
    → among (enum v default choices) choices ≡ true
unfolding enum
enum-among v default choices h = elim (Bool-cases (among (spelling v) choices)) [
  | inl e ↦ rw e e
  | inr e ↦ rw e h
]

choice-among :
    (key default : String) (choices : List Text) (raw : Raw)
    → among (codes default) choices ≡ true
    → among (choice key default choices raw) choices ≡ true
unfolding choice
choice-among key default choices raw h =
    enum-among (get key (str (codes default)) raw) (codes default) choices h

display-IsDisplay : (v : Value) → IsDisplay (display v)
unfolding display
display-IsDisplay v =
    elim (Bool-cases (among (spelling v) display_modes || is_display_size (spelling v))) [
      | inl e ↦ rw e e
      | inr e ↦ rw e refl
    ]

policy_default_strict : (v : Value) → policy_default v ≡ codes "strict"
unfolding policy_default
policy_default_strict v = ground arith

cert_policy-among : (raw : Raw) → among (cert_policy raw) cert_policies ≡ true
unfolding cert_policy
cert_policy-among raw =
    enum-among (get "cert_policy" (str (codes "strict")) raw)
      (policy_default (get "cert_policy" null raw)) cert_policies
      (ap (λ t. among t cert_policies) (policy_default_strict (get "cert_policy" null raw)))

default_port-bounds : (t : Text) → (1 ≤ default_port t) × (default_port t ≤ 65535)
unfolding default_port
default_port-bounds t = elim (Bool-cases (t == codes "vnc")) [
  | inl e ↦ rw e (omega arith, omega arith)
  | inr e ↦ rw e (omega arith, omega arith)
]

arguments-supplied : (vs : List Value) → Every (λ t. is_empty t ≡ false) (arguments vs)
unfolding arguments
arguments-supplied [] = tt
arguments-supplied (str s ∷ vs) = elim (Bool-cases (is_empty (strip s))) [
  | inl e ↦ rw e (arguments-supplied vs)
  | inr e ↦ rw e (e, arguments-supplied vs)
]
arguments-supplied (null ∷ vs) = arguments-supplied vs
arguments-supplied (bool _ ∷ vs) = arguments-supplied vs
arguments-supplied (int _ ∷ vs) = arguments-supplied vs
arguments-supplied (float _ ∷ vs) = arguments-supplied vs
arguments-supplied (arr _ ∷ vs) = arguments-supplied vs
arguments-supplied (obj _ ∷ vs) = arguments-supplied vs

arguments_of-supplied :
    (vs : Option (List Value)) → Every (λ t. is_empty t ≡ false) (arguments_of vs)
arguments_of-supplied none = tt
arguments_of-supplied (some vs) = arguments-supplied vs

extra_args-supplied : (raw : Raw) → Every (λ t. is_empty t ≡ false) (extra_args raw)
unfolding extra_args
extra_args-supplied raw = arguments_of-supplied (list? (get "extra_args" (arr end) raw))

port-bounds :
    (raw : Raw) → (1 ≤ (normalise_connection raw).port) × ((normalise_connection raw).port ≤ 65535)
unfolding normalise_connection
port-bounds raw =
    let protocol = choice "protocol" "rdp" protocols raw in
    bounded_int-bounds (get "port" null raw) (default_port protocol) 1 65535
      (default_port-bounds protocol).0 (default_port-bounds protocol).1

delay-bounds :
    (raw : Raw)
    → (2 ≤ (normalise_connection raw).reconnect_delay)
      × ((normalise_connection raw).reconnect_delay ≤ 120)
unfolding normalise_connection
delay-bounds raw =
    bounded_int-bounds (get "reconnect_delay" (int (pos 5)) raw) 5 2 120 (omega arith) (omega arith)

-- Whatever an entry of "connections" holds, the normalised connection has a known protocol,
-- certificate policy, security, codec, network and display mode or size, a port from 1 to 65535, a
-- reconnect delay from 2 to 120 seconds, and no empty extra argument.
pub normalise_connection-IsValid : (raw : Raw) → IsValid (normalise_connection raw)
unfolding normalise_connection
normalise_connection-IsValid raw = record {
  protocol_known = choice-among "protocol" "rdp" protocols raw refl;
  policy_known = cert_policy-among raw;
  security_known = choice-among "security" "auto" securities raw refl;
  gfx_known = choice-among "gfx" "auto" codecs raw refl;
  network_known = choice-among "network" "auto" networks raw refl;
  display_known = display-IsDisplay (get "display" (str (codes "fullscreen")) raw);
  port_ge = (port-bounds raw).0;
  port_le = (port-bounds raw).1;
  delay_ge = (delay-bounds raw).0;
  delay_le = (delay-bounds raw).1;
  arguments_supplied = extra_args-supplied raw;
}

-- the choice that a text spells, among three, the last of which is the default
abbrev pub one_of : Text → Text → Text → Text → Text
one_of a b c s = if a == s then a else if b == s then b else c

one_of-among : (a b c s : Text) → (if among s (a ∷ b ∷ c ∷ []) then s else c) ≡ one_of a b c s
one_of-among a b c s = ground (arith, equal_iff a s, equal_iff b s, equal_iff c s)

enum_policy :
    (v : Value)
    → enum v (codes "strict") cert_policies
      ≡ one_of (codes "ignore") (codes "tofu") (codes "strict") (spelling v)
unfolding enum
enum_policy v = one_of-among (codes "ignore") (codes "tofu") (codes "strict") (spelling v)

policy_at :
    (o : Option Value)
    → one_of
        (codes "ignore")
        (codes "tofu")
        (codes "strict")
        (spelling (value_or (str (codes "strict")) o))
      ≡ one_of (codes "ignore") (codes "tofu") (codes "strict") (spelling (value_or null o))
unfolding spelling
policy_at none = refl
policy_at (some v) = refl

-- The certificate policy of a normalised connection is the lenient "ignore" exactly if the entry
-- spells that policy, up to case and surrounding white space; anything else is "tofu", if it is
-- spelt, or "strict".
pub cert_policy_lem :
    (raw : Raw)
    → (normalise_connection raw).cert_policy
      ≡ one_of
          (codes "ignore")
          (codes "tofu")
          (codes "strict")
          (spelling (get "cert_policy" null raw))
unfolding normalise_connection cert_policy get
cert_policy_lem raw =
    ap (λ d. enum (get "cert_policy" (str (codes "strict")) raw) d cert_policies)
      (policy_default_strict (get "cert_policy" null raw))
    ∙ enum_policy (get "cert_policy" (str (codes "strict")) raw)
    ∙ policy_at (lookup (codes "cert_policy") raw)

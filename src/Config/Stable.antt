-- ===== src/Config/Stable.antt =====
-- A connection that is written to a file and read again.
use thinclient.Prelude.{
  ℕ, ◌≤◌, ◌≡◌, refl, subst, equal_iff, ap, true, false, ◌||◌, Option, none, some, List, [], ◌∷◌,
  arith, Bool-cases, inl, inr, ◌==◌, compare_texts, pos, Every, String,
}
use thinclient.Text.{Text, codes, is_empty, strip}
use thinclient.Text.Laws.{strip_idem, lower-strip_idem}
use thinclient.Value.{Value, null, bool, int, float, str, arr, obj, Items, item, end, items, list?}
use thinclient.Config.{
  Connection, protocols, cert_policies, securities, codecs, networks, display_modes,
}
use thinclient.Config.Fields.{among, bounded_int, enum, spelling, display, string, is_display_size}
use thinclient.Config.Connections.{
  Raw, get, choice, default_port, policy_default, cert_policy, arguments, arguments_of, extra_args,
  normalise_connection, text_field,
}
use thinclient.Config.Valid.{IsValid, IsDisplay}

abbrev pub texts : List Text → Items
texts [] = end
texts (t ∷ ts) = item (str t) (texts ts)

-- the dictionary of a connection, as `json.dumps` writes it and `json.load` reads it
abbrev pub to_raw : Connection → Raw
to_raw c =
    (codes "id", str c.id)
    ∷ (codes "name", str c.name)
    ∷ (codes "group", str c.group)
    ∷ (codes "description", str c.description)
    ∷ (codes "protocol", str c.protocol)
    ∷ (codes "host", str c.host)
    ∷ (codes "port", int (pos c.port))
    ∷ (codes "username", str c.username)
    ∷ (codes "domain", str c.domain)
    ∷ (codes "password", str c.password)
    ∷ (codes "prompt_credentials", bool c.prompt_credentials)
    ∷ (codes "gateway", str c.gateway)
    ∷ (codes "gateway_username", str c.gateway_username)
    ∷ (codes "gateway_domain", str c.gateway_domain)
    ∷ (codes "app", str c.app)
    ∷ (codes "display", str c.display)
    ∷ (codes "cert_policy", str c.cert_policy)
    ∷ (codes "security", str c.security)
    ∷ (codes "gfx", str c.gfx)
    ∷ (codes "network", str c.network)
    ∷ (codes "audio_out", bool c.audio_out)
    ∷ (codes "audio_in", bool c.audio_in)
    ∷ (codes "redirect_clipboard", bool c.redirect_clipboard)
    ∷ (codes "redirect_usb_storage", bool c.redirect_usb_storage)
    ∷ (codes "redirect_usb_devices", bool c.redirect_usb_devices)
    ∷ (codes "redirect_smartcard", bool c.redirect_smartcard)
    ∷ (codes "redirect_printers", bool c.redirect_printers)
    ∷ (codes "auto_reconnect", bool c.auto_reconnect)
    ∷ (codes "reconnect_delay", int (pos c.reconnect_delay))
    ∷ (codes "extra_args", arr (texts c.extra_args))
    ∷ []

abbrev pub IsStripped : Text → Type 0
IsStripped t = strip t ≡ t

-- texts that come out of `spelling` as they went in
abbrev IsSpelt : Text → Type 0
IsSpelt t = spelling (str t) ≡ t

-- what a connection has besides its validity once it is normalised
pub record IsTrimmed (c : Connection) : Type 0 where
  pub id_trimmed : IsStripped c.id
  pub name_trimmed : IsStripped c.name
  pub group_trimmed : IsStripped c.group
  pub description_trimmed : IsStripped c.description
  pub host_trimmed : IsStripped c.host
  pub username_trimmed : IsStripped c.username
  pub domain_trimmed : IsStripped c.domain
  pub gateway_trimmed : IsStripped c.gateway
  pub gateway_username_trimmed : IsStripped c.gateway_username
  pub gateway_domain_trimmed : IsStripped c.gateway_domain
  pub app_trimmed : IsStripped c.app
  pub display_trimmed : IsSpelt c.display
  pub arguments_trimmed : Every IsStripped c.extra_args

pub string_trimmed :
    (v : Value) (default : Text) → IsStripped default → IsStripped (string v default true)
unfolding string
string_trimmed (str s) default h = strip_idem s
string_trimmed null default h = h
string_trimmed (bool b) default h = h
string_trimmed (int n) default h = h
string_trimmed (float f) default h = h
string_trimmed (arr vs) default h = h
string_trimmed (obj fs) default h = h

text_field_trimmed :
    (key default : String) (raw : Raw)
    → IsStripped (codes default)
    → IsStripped (text_field key default raw)
unfolding text_field
text_field_trimmed key default raw h =
    string_trimmed (get key (str (codes default)) raw) (codes default) h

enum_self :
    (s default : Text) (choices : List Text)
    → Every IsSpelt choices
    → among s choices ≡ true
    → enum (str s) default choices ≡ s
unfolding enum
enum_self s default choices h e = rw (among_spelt s choices h e) (rw e refl)
  where
    among_spelt :
        (s : Text) (choices : List Text)
        → Every IsSpelt choices
        → among s choices ≡ true
        → IsSpelt s
    among_spelt s [] h e = ground arith
    among_spelt s (c ∷ cs) h e = elim (Bool-cases (c == s)) [
      | inl same ↦ subst IsSpelt ((equal_iff c s).0 same) h.0
      | inr other ↦ among_spelt s cs h.1 (ground arith)
    ]

display_self : (s : Text) → IsDisplay s → IsSpelt s → display (str s) ≡ s
unfolding display
display_self s h e = rw e (rw h refl)

pub bounded_int_self :
    (n default lo hi : ℕ) → lo ≤ n → n ≤ hi → bounded_int (int (pos n)) default lo hi ≡ n
unfolding bounded_int
bounded_int_self n default lo hi l h = ground arith

arguments_self :
    (ts : List Text)
    → Every IsStripped ts
    → Every (λ t. is_empty t ≡ false) ts
    → arguments (items (texts ts)) ≡ ts
unfolding arguments
arguments_self [] h e = refl
arguments_self (t ∷ ts) h e = rw h.0 (rw e.0 (ap (λ rest. t ∷ rest) (arguments_self ts h.1 e.1)))

arguments_trimmed_lem : (vs : List Value) → Every IsStripped (arguments vs)
unfolding arguments
arguments_trimmed_lem [] = tt
arguments_trimmed_lem (str s ∷ vs) = elim (Bool-cases (is_empty (strip s))) [
  | inl e ↦ rw e (arguments_trimmed_lem vs)
  | inr e ↦ rw e (strip_idem s, arguments_trimmed_lem vs)
]
arguments_trimmed_lem (null ∷ vs) = arguments_trimmed_lem vs
arguments_trimmed_lem (bool _ ∷ vs) = arguments_trimmed_lem vs
arguments_trimmed_lem (int _ ∷ vs) = arguments_trimmed_lem vs
arguments_trimmed_lem (float _ ∷ vs) = arguments_trimmed_lem vs
arguments_trimmed_lem (arr _ ∷ vs) = arguments_trimmed_lem vs
arguments_trimmed_lem (obj _ ∷ vs) = arguments_trimmed_lem vs

spelling-IsSpelt : (v : Value) → IsSpelt (spelling v)
unfolding spelling string
spelling-IsSpelt (str s) = lower-strip_idem s
spelling-IsSpelt null = refl
spelling-IsSpelt (bool b) = refl
spelling-IsSpelt (int n) = refl
spelling-IsSpelt (float f) = refl
spelling-IsSpelt (arr vs) = refl
spelling-IsSpelt (obj fs) = refl

display-IsSpelt : (v : Value) → IsSpelt (display v)
unfolding display spelling
display-IsSpelt v =
    elim (Bool-cases (among (spelling v) display_modes || is_display_size (spelling v))) [
      | inl e ↦ rw e (spelling-IsSpelt v)
      | inr e ↦ rw e refl
    ]

extra_args_trimmed : (raw : Raw) → Every IsStripped (extra_args raw)
unfolding extra_args
extra_args_trimmed raw = arguments_of_trimmed (list? (get "extra_args" (arr end) raw))
  where
    arguments_of_trimmed : (vs : Option (List Value)) → Every IsStripped (arguments_of vs)
    arguments_of_trimmed none = tt
    arguments_of_trimmed (some vs) = arguments_trimmed_lem vs

pub normalise_connection-IsTrimmed : (raw : Raw) → IsTrimmed (normalise_connection raw)
unfolding normalise_connection
normalise_connection-IsTrimmed raw = record {
  id_trimmed = text_field_trimmed "id" "" raw refl;
  name_trimmed = text_field_trimmed "name" "" raw refl;
  group_trimmed = text_field_trimmed "group" "Connections" raw refl;
  description_trimmed = text_field_trimmed "description" "" raw refl;
  host_trimmed = text_field_trimmed "host" "" raw refl;
  username_trimmed = text_field_trimmed "username" "" raw refl;
  domain_trimmed = text_field_trimmed "domain" "" raw refl;
  gateway_trimmed = text_field_trimmed "gateway" "" raw refl;
  gateway_username_trimmed = text_field_trimmed "gateway_username" "" raw refl;
  gateway_domain_trimmed = text_field_trimmed "gateway_domain" "" raw refl;
  app_trimmed = text_field_trimmed "app" "" raw refl;
  display_trimmed = display-IsSpelt (get "display" (str (codes "fullscreen")) raw);
  arguments_trimmed = extra_args_trimmed raw;
}

policy_self : (c : Connection) → IsValid c → cert_policy (to_raw c) ≡ c.cert_policy
unfolding cert_policy
policy_self c v =
    enum_self c.cert_policy (policy_default (str c.cert_policy)) cert_policies
      (refl, (refl, (refl, tt))) v.policy_known

-- A connection with the form of a normalised one reads back as itself: nothing is changed, added
-- or lost on the way through its dictionary.
pub normalise_connection-to_raw :
    (c : Connection) → IsValid c → IsTrimmed c → normalise_connection (to_raw c) ≡ c
unfolding normalise_connection
normalise_connection-to_raw c v t = λ i. record {
  id = t.id_trimmed i;
  name = t.name_trimmed i;
  group = t.group_trimmed i;
  description = t.description_trimmed i;
  protocol = enum_self c.protocol (codes "rdp") protocols (refl, (refl, tt)) v.protocol_known i;
  host = t.host_trimmed i;
  port =
      bounded_int_self c.port (default_port (choice "protocol" "rdp" protocols (to_raw c))) 1 65535
        v.port_ge v.port_le i;
  username = t.username_trimmed i;
  domain = t.domain_trimmed i;
  password = c.password;
  prompt_credentials = c.prompt_credentials;
  gateway = t.gateway_trimmed i;
  gateway_username = t.gateway_username_trimmed i;
  gateway_domain = t.gateway_domain_trimmed i;
  app = t.app_trimmed i;
  display = display_self c.display v.display_known t.display_trimmed i;
  cert_policy = policy_self c v i;
  security =
      enum_self c.security (codes "auto") securities (refl, (refl, (refl, (refl, tt))))
        v.security_known i;
  gfx =
      enum_self c.gfx (codes "auto") codecs (refl, (refl, (refl, (refl, (refl, tt))))) v.gfx_known
        i;
  network =
      enum_self c.network (codes "auto") networks (refl, (refl, (refl, (refl, tt)))) v.network_known
        i;
  audio_out = c.audio_out;
  audio_in = c.audio_in;
  redirect_clipboard = c.redirect_clipboard;
  redirect_usb_storage = c.redirect_usb_storage;
  redirect_usb_devices = c.redirect_usb_devices;
  redirect_smartcard = c.redirect_smartcard;
  redirect_printers = c.redirect_printers;
  auto_reconnect = c.auto_reconnect;
  reconnect_delay = bounded_int_self c.reconnect_delay 5 2 120 v.delay_ge v.delay_le i;
  extra_args = arguments_self c.extra_args t.arguments_trimmed v.arguments_supplied i;
}

-- ===== src/Command/Certificates.antt =====
-- What the certificate policy of a connection makes of the command line.
use thinclient.Prelude.{
  ◌≡◌, refl, ap, ◌∙◌, Bool, false, Option, none, some, List, [], ◌∷◌, ◌++◌, ◌||◌, arith, Bool-cases,
  inl, inr, ◌==◌, compare_texts, if◌then◌else◌, if_elim, not,
}
use thinclient.Text.{Text, codes, is_empty, starts_with, lower, strip}
use thinclient.Dict.{lookup}
use thinclient.Value.{null}
use thinclient.Config.{Connection, Device}
use thinclient.Config.Fields.{spelling}
use thinclient.Config.Connections.{Raw, get, normalise_connection}
use thinclient.Config.Valid.{one_of, cert_policy_lem}
use thinclient.Command.{Clients, arguments_when, extra_arguments}
use thinclient.Command.Rdp.{
  setting_or, optional, rdp_target, rdp_display, security_arguments, gateway_arguments,
  gfx_arguments, network_arguments, device_arguments, resilience_arguments, keyboard_layout_ids,
  layout_arguments, keyboard_arguments, secret_of, credential_arguments, certificate_arguments,
  rdp_arguments, run_rdp, build_command,
}
use thinclient.Command.Secrets.{argument_list}

-- what the policy of a connection makes of the command line
abbrev pub arguments_of_policy : Text → List Text
arguments_of_policy s =
    if codes "ignore" == s
    then codes "/cert:ignore" ∷ []
    else if codes "tofu" == s
    then codes "/cert:tofu" ∷ []
    else []

certificate_one_of :
    (s : Text)
    → certificate_arguments (one_of (codes "ignore") (codes "tofu") (codes "strict") s)
      ≡ arguments_of_policy s
unfolding certificate_arguments
certificate_one_of s = elim (Bool-cases (codes "ignore" == s)) [
  | inl e ↦ rw e refl
  | inr e ↦ rw e (elim (Bool-cases (codes "tofu" == s)) [ inl f ↦ rw f refl | inr f ↦ rw f refl ])
]

-- the arguments about certificates
abbrev pub about_certificates : List Text → List Text
about_certificates [] = []
about_certificates (a ∷ others) =
    if starts_with (codes "/cert:") a
    then a ∷ about_certificates others
    else about_certificates others

about_certificates-append :
    (xs ys : List Text)
    → about_certificates (xs ++ ys) ≡ about_certificates xs ++ about_certificates ys
about_certificates-append [] ys = refl
about_certificates-append (a ∷ xs) ys = elim (Bool-cases (starts_with (codes "/cert:") a)) [
  | inl e ↦ rw e (ap (λ l. a ∷ l) (about_certificates-append xs ys))
  | inr e ↦ rw e (about_certificates-append xs ys)
]

arguments_of_policy-kept :
    (s : Text) → about_certificates (arguments_of_policy s) ≡ arguments_of_policy s
arguments_of_policy-kept s = ground arith

abbrev IsSilent : List Text → Type 0
IsSilent xs = about_certificates xs ≡ []

silent-append :
    (xs ys : List Text) → IsSilent xs → about_certificates (xs ++ ys) ≡ about_certificates ys
silent-append xs ys h = about_certificates-append xs ys ∙ ap (λ l. l ++ about_certificates ys) h

IsSilent-when : (b : Bool) (xs : List Text) → IsSilent xs → IsSilent (arguments_when b xs)
IsSilent-when b xs h = if_elim {A = List Text} IsSilent b (λ e. h) (λ e. refl)

IsSilent-both : (xs ys : List Text) → IsSilent xs → IsSilent ys → IsSilent (xs ++ ys)
IsSilent-both xs ys h k = silent-append xs ys h ∙ k

-- the other parts of the command line
credential_arguments-IsSilent :
    (clients : Clients) (secret : Text) → IsSilent (credential_arguments clients secret)
unfolding credential_arguments
credential_arguments-IsSilent clients secret = ground arith

rdp_display-IsSilent : (setting : Text) → IsSilent (rdp_display setting)
unfolding rdp_display
rdp_display-IsSilent setting = ground arith

security_arguments-IsSilent : (setting : Text) → IsSilent (security_arguments setting)
unfolding security_arguments
security_arguments-IsSilent setting =
    let security = setting_or "auto" setting in
    IsSilent-when (security == codes "nla" || security == codes "tls" || security == codes "rdp")
      ((codes "/sec:" ++ security) ∷ []) refl

gateway_user-IsSilent : (value : Text) → IsSilent (optional "/gu:" value)
gateway_user-IsSilent value = ground arith

gateway_domain-IsSilent : (value : Text) → IsSilent (optional "/gd:" value)
gateway_domain-IsSilent value = ground arith

gateway_arguments-IsSilent : (c : Connection) → IsSilent (gateway_arguments c)
unfolding gateway_arguments
gateway_arguments-IsSilent c =
    IsSilent-when (not (is_empty c.gateway))
      ((codes "/g:" ++ c.gateway) ∷ optional "/gu:" c.gateway_username
        ++ optional "/gd:" c.gateway_domain)
      (IsSilent-both ((codes "/g:" ++ c.gateway) ∷ optional "/gu:" c.gateway_username)
        (optional "/gd:" c.gateway_domain) (gateway_user-IsSilent c.gateway_username)
        (gateway_domain-IsSilent c.gateway_domain))

gfx_arguments-IsSilent : (setting : Text) → IsSilent (gfx_arguments setting)
unfolding gfx_arguments
gfx_arguments-IsSilent setting = ground arith

network_arguments-IsSilent : (setting : Text) → IsSilent (network_arguments setting)
unfolding network_arguments
network_arguments-IsSilent setting =
    let network = setting_or "auto" setting in
    IsSilent-when
      (network == codes "auto"
        || network == codes "lan"
        || network == codes "broadband"
        || network == codes "modem")
      ((codes "/network:" ++ network) ∷ []) refl

device_arguments-IsSilent : (c : Connection) → IsSilent (device_arguments c)
unfolding device_arguments
device_arguments-IsSilent c = ground arith

resilience_arguments-IsSilent : (c : Connection) → IsSilent (resilience_arguments c)
unfolding resilience_arguments
resilience_arguments-IsSilent c = ground arith

layout_arguments-IsSilent :
    (layout : Text) (id : Option Text) → IsSilent (layout_arguments layout id)
layout_arguments-IsSilent layout none =
    IsSilent-when (starts_with (codes "0x") layout) ((codes "/kbd:layout:" ++ layout) ∷ []) refl
layout_arguments-IsSilent layout (some id) = refl

keyboard_arguments-IsSilent : (d : Device) → IsSilent (keyboard_arguments d)
unfolding keyboard_arguments
keyboard_arguments-IsSilent d =
    let layout = lower (strip d.keyboard_layout) in
    layout_arguments-IsSilent layout (lookup layout keyboard_layout_ids)

user-IsSilent : (value : Text) → IsSilent (optional "/u:" value)
user-IsSilent value = ground arith

domain-IsSilent : (value : Text) → IsSilent (optional "/d:" value)
domain-IsSilent value = ground arith

app-IsSilent : (value : Text) → IsSilent (optional "/app:program:" value)
app-IsSilent value = ground arith

append-nil : (xs : List Text) → xs ++ [] ≡ xs
append-nil [] = refl
append-nil (a ∷ xs) = ap (λ l. a ∷ l) (append-nil xs)

silent_end :
    (xs ys : List Text) → IsSilent ys → about_certificates (xs ++ ys) ≡ about_certificates xs
silent_end xs ys h =
    about_certificates-append xs ys
    ∙ ap (λ l. about_certificates xs ++ l) h
    ∙ append-nil (about_certificates xs)

-- what stands before the policy and what stands after it
up_to_policy :
    (clients : Clients) (c : Connection) (secret : Text)
    → about_certificates (
        (codes "/v:" ++ rdp_target c) ∷ optional "/u:" c.username
        ++ optional "/d:" c.domain
        ++ credential_arguments clients secret
        ++ rdp_display c.display
        ++ certificate_arguments c.cert_policy)
      ≡ about_certificates (certificate_arguments c.cert_policy)
up_to_policy clients c secret =
    let user = (codes "/v:" ++ rdp_target c) ∷ optional "/u:" c.username in
    let domain = user ++ optional "/d:" c.domain in
    let credentials = domain ++ credential_arguments clients secret in
    let display = credentials ++ rdp_display c.display in
    silent-append display (certificate_arguments c.cert_policy) (
      IsSilent-both credentials (rdp_display c.display)
        (IsSilent-both domain (credential_arguments clients secret)
          (IsSilent-both user (optional "/d:" c.domain) (user-IsSilent c.username)
            (domain-IsSilent c.domain))
          (credential_arguments-IsSilent clients secret))
        (rdp_display-IsSilent c.display))

rdp_arguments-certificates :
    (clients : Clients) (c : Connection) (d : Device) (secret : Text) (debug : Bool)
    → about_certificates (rdp_arguments clients c d secret debug)
      ≡ about_certificates (certificate_arguments c.cert_policy)
        ++ about_certificates (extra_arguments c.extra_args)
unfolding rdp_arguments
rdp_arguments-certificates clients c d secret debug =
    let policy =
      (codes "/v:" ++ rdp_target c) ∷ optional "/u:" c.username
      ++ optional "/d:" c.domain
      ++ credential_arguments clients secret
      ++ rdp_display c.display
      ++ certificate_arguments c.cert_policy in
    let security = policy ++ security_arguments c.security in
    let gateway = security ++ gateway_arguments c in
    let gfx = gateway ++ gfx_arguments c.gfx in
    let network = gfx ++ network_arguments c.network in
    let devices = network ++ device_arguments c in
    let resilience = devices ++ resilience_arguments c in
    let keyboard = resilience ++ keyboard_arguments d in
    let app = keyboard ++ optional "/app:program:" c.app in
    let log = codes "/log-level:" ++ (if debug then codes "DEBUG" else codes "WARN") in
    about_certificates-append app (log ∷ extra_arguments c.extra_args)
    ∙ ap (λ l. l ++ about_certificates (extra_arguments c.extra_args))
        (silent_end keyboard (optional "/app:program:" c.app) (app-IsSilent c.app)
          ∙ silent_end resilience (keyboard_arguments d) (keyboard_arguments-IsSilent d)
          ∙ silent_end devices (resilience_arguments c) (resilience_arguments-IsSilent c)
          ∙ silent_end network (device_arguments c) (device_arguments-IsSilent c)
          ∙ silent_end gfx (network_arguments c.network) (network_arguments-IsSilent c.network)
          ∙ silent_end gateway (gfx_arguments c.gfx) (gfx_arguments-IsSilent c.gfx)
          ∙ silent_end security (gateway_arguments c) (gateway_arguments-IsSilent c)
          ∙ silent_end policy (security_arguments c.security)
              (security_arguments-IsSilent c.security)
          ∙ up_to_policy clients c secret)

-- The arguments about certificates (those that start with "/cert:") on the whole FreeRDP command line
-- of a normalised entry are, in order, the one that the entry's certificate policy asks for
-- ("/cert:ignore" exactly if it spells that policy, "/cert:tofu" for that one, up to case and
-- surrounding white space, and none for anything else) and then those among the entry's extra
-- arguments; nothing else on the line is about certificates, provided that the client's own path is
-- not.
pub build_command-certificates :
    (clients : Clients) (binary : Text) (raw : Raw) (d : Device) (password : Option Text)
    (debug : Bool)
    → clients.freerdp_binary ≡ some binary
    → starts_with (codes "/cert:") binary ≡ false
    → (setting_or "rdp" (normalise_connection raw).protocol == codes "vnc") ≡ false
    → about_certificates
        (argument_list (build_command clients (normalise_connection raw) d password debug))
      ≡ arguments_of_policy (spelling (get "cert_policy" null raw))
        ++ about_certificates (extra_arguments (normalise_connection raw).extra_args)
unfolding build_command run_rdp
build_command-certificates clients binary raw d password debug installed plain rdp =
    let c = normalise_connection raw in
    let arguments = rdp_arguments clients c d (secret_of c password) debug in
    let policy =
      ap certificate_arguments (cert_policy_lem raw)
      ∙ certificate_one_of (spelling (get "cert_policy" null raw)) in
    rw rdp (
      rw installed (
        rw plain (
          rdp_arguments-certificates clients c d (secret_of c password) debug
          ∙ ap (λ l. about_certificates l ++ about_certificates (extra_arguments c.extra_args))
              policy
          ∙ ap (λ l. l ++ about_certificates (extra_arguments c.extra_args))
              (arguments_of_policy-kept (spelling (get "cert_policy" null raw))))))

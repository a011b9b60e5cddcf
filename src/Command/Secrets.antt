-- ===== src/Command/Secrets.antt =====
-- Where the password goes.
use thinclient.Prelude.{
  ℕ, ◌≡◌, refl, ap, Bool, true, false, Option, none, some, List, [], ◌∷◌, ◌++◌, arith, Bool-cases,
  inl, inr, ◌==◌, compare_texts, if◌then◌else◌, nat_eq, nat_eq_iff,
}
use thinclient.Text.{Text, codes, is_empty, split, contains_char}
use thinclient.Config.{Connection, Device}
use thinclient.Command.{Clients, Command, runs, not_installed}
use thinclient.Command.Vnc.{build_vnc_command, vnc_arguments, vnc_target}
use thinclient.Command.Rdp.{
  setting_or, stdin_answers, secret_of, rdp_target, gateway_arguments, device_arguments,
  resilience_arguments, credential_arguments, rdp_arguments, run_rdp, build_command,
}

-- what the process list shows
abbrev pub argument_list : Command → List Text
argument_list (runs arguments input) = arguments
argument_list not_installed = []

credential_arguments_same :
    (clients : Clients) (p q : Text)
    → clients.supports_stdin_credentials ≡ true
    → is_empty p ≡ false
    → is_empty q ≡ false
    → credential_arguments clients p ≡ credential_arguments clients q
unfolding credential_arguments
credential_arguments_same clients p q s hp hq = rw s (rw hp (rw hq refl))

-- the connection with another stored password
abbrev pub with_password : Text → Connection → Connection
with_password x c = record c { password = x }

rdp_arguments_same :
    (clients : Clients) (c : Connection) (d : Device) (x y p q : Text) (debug : Bool)
    → credential_arguments clients p ≡ credential_arguments clients q
    → rdp_arguments clients (with_password x c) d p debug
      ≡ rdp_arguments clients (with_password y c) d q debug
unfolding rdp_arguments rdp_target gateway_arguments device_arguments resilience_arguments
rdp_arguments_same clients c d x y p q debug h = rw h refl

run_rdp_same :
    (binary : Option Text) (clients : Clients) (c : Connection) (d : Device) (x y p q : Text)
    (debug : Bool)
    → credential_arguments clients p ≡ credential_arguments clients q
    → argument_list (run_rdp binary clients (with_password x c) d p debug)
      ≡ argument_list (run_rdp binary clients (with_password y c) d q debug)
unfolding run_rdp
run_rdp_same none clients c d x y p q debug h = refl
run_rdp_same (some binary) clients c d x y p q debug h =
    ap (λ arguments. binary ∷ arguments) (rdp_arguments_same clients c d x y p q debug h)

-- If the client reads credentials from its standard input, the process list tells nothing of the
-- password but that there is one: whatever passwords are stored in the connection and typed in, any
-- two that are in use, neither of them empty, give the same argument list, of FreeRDP and of VNC.
pub build_command_secret :
    (clients : Clients) (c : Connection) (d : Device) (x y : Text) (u v : Option Text)
    (debug : Bool)
    → clients.supports_stdin_credentials ≡ true
    → is_empty (secret_of (with_password x c) u) ≡ false
    → is_empty (secret_of (with_password y c) v) ≡ false
    → argument_list (build_command clients (with_password x c) d u debug)
      ≡ argument_list (build_command clients (with_password y c) d v debug)
unfolding build_command build_vnc_command vnc_arguments vnc_target
build_command_secret clients c d x y u v debug s hp hq =
    elim (Bool-cases (setting_or "rdp" c.protocol == codes "vnc")) [
      | inl e ↦ rw e refl
      | inr e ↦ rw e (
          run_rdp_same clients.freerdp_binary clients c d x y (secret_of (with_password x c) u)
            (secret_of (with_password y c) v) debug (credential_arguments_same clients _ _ s hp hq))
    ]

split_of_plain :
    (sep : ℕ) (s rest : Text)
    → contains_char sep s ≡ false
    → split sep (s ++ sep ∷ rest) ≡ s ∷ split sep rest
unfolding split
split_of_plain sep [] rest h = rw ((nat_eq_iff sep sep).1 refl) refl
split_of_plain sep (c ∷ s) rest h =
    let apart : nat_eq c sep ≡ false = ground arith in
    rw apart (rw (split_of_plain sep s rest (ground arith)) refl)

-- the lines that FreeRDP reads: one for the domain, if none was passed, then the password
abbrev pub expected_lines : Connection → Text → List Text
expected_lines c secret = (if is_empty c.domain then [] ∷ [] else []) ++ secret ∷ [] ∷ []

-- A password without a line break is read by the prompt for the password: the lines on standard
-- input are a blank one for the domain, exactly if no domain is passed, the password, and nothing
-- after the last line break.
pub stdin_answers_lem :
    (c : Connection) (secret : Text)
    → contains_char b'\n' secret ≡ false
    → split b'\n' (stdin_answers c secret) ≡ expected_lines c secret
unfolding stdin_answers split
stdin_answers_lem c secret h = elim (Bool-cases (is_empty c.domain)) [
  | inl e ↦ rw e (ap (λ lines. [] ∷ lines) (split_of_plain b'\n' secret [] h))
  | inr e ↦ rw e (split_of_plain b'\n' secret [] h)
]

-- ===== src/Command.antt =====
-- The command lines of the remote desktop clients: `build_command` and `build_vnc_command` of
-- overlay/usr/local/lib/thinclient/tcconfig.py. They are given a connection that `load` made, so
-- that a setting is never missing; an empty text still counts as missing where the code says so.
pub mod Vnc
pub mod Rdp
pub mod Secrets
pub mod Certificates
pub mod Failure
pub mod Retry
mod Tests
use thinclient.Prelude.{
  ℕ, Bool, Option, none, some, List, [], ◌∷◌, ◌++◌, not, ◌&&◌, if◌then◌else◌, any, nat_eq, String,
}
use thinclient.Text.{Text, codes, is_empty, strip, starts_with, contains_char}
use thinclient.Config.Ids.{decimal}

-- what the command depends on outside the configuration
pub record Clients : Type 0 where
  pub freerdp_binary : Option Text
  pub vnc_binary : Option Text
  pub supports_stdin_credentials : Bool

-- The argument list and the text for standard input, or the RuntimeError that no client is
-- installed.
pub data Command : Type 0 where
  runs : List Text → Option Text → Command
  not_installed : Command

abbrev pub arguments_when : Bool → List Text → List Text
arguments_when b args = if b then args else []

-- An IPv6 literal is put in brackets.
unfoldable pub bracketed : Text → Text
bracketed host =
    if contains_char b':' host && not (starts_with (codes "[") host)
    then codes "[" ++ host ++ codes "]"
    else host

-- the arguments that are not blank, stripped
unfoldable pub extra_arguments : List Text → List Text
unfolding strip
extra_arguments [] = []
extra_arguments (t ∷ ts) =
    let rest = extra_arguments ts in if is_empty (strip t) then rest else strip t ∷ rest

-- "x" in display
abbrev pub has_size : Text → Bool
has_size display = contains_char b'x' display

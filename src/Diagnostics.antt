-- ===== src/Diagnostics.antt =====
-- The network diagnostics: overlay/usr/local/lib/thinclient/networkdiag.py. What `ipaddress`, the
-- idna codec, `subprocess.run`, `json.loads` and `socket.create_connection` answer is a record.
pub mod Endpoint
pub mod Checks
pub mod Service
pub mod Report
pub mod Preflight
pub mod Valid
pub mod Resolved
pub mod Agreement
pub mod Careful
mod Tests
use thinclient.Prelude.{ℕ, Bool, true, false, Option, List, []}
use thinclient.Text.{Text, codes}
use thinclient.Value.{Value}
use thinclient.Rdp.Transport.{Socket}

-- A finished command with whether it returned 0 and what it wrote to its two outputs; one that ran
-- out of time; or another exception, with its message and the name of its class.
pub data Ran : Type 0 where
  ran : Bool → Text → Text → Ran
  timed_out : Ran
  not_run : Text → Text → Ran

-- a connection, or the message and the class of the exception
pub data Connected : Type 0 where
  connected : Socket → Connected
  refused : Text → Text → Connected

-- `str(ipaddress.ip_address(s))`, whether `IPv6Address(s)` accepts, and
-- `s.encode("idna").decode("ascii")`, each none where it raises.
pub record Names : Type 0 where
  pub ip_address : Text → Option Text
  pub is_ipv6_address : Text → Bool
  pub idna : Text → Option Text

-- What commands answer, and the
-- connections that are made to look whether the port answers and to talk to the service, with the
-- message and the class of the OSError that a `recv` raises.
pub record Network : Type 0 where
  pub names : Names
  pub runner : List Text → Ran
  pub json_loads : Text → Option Value
  pub connector : Text → ℕ → Connected
  pub reconnector : Text → ℕ → Connected
  pub fault_message : Text
  pub fault_class : Text

-- the outcome of a check
pub record Check : Type 0 where
  pub ok : Bool
  pub detail : Text
  pub skipped : Bool

abbrev pub passed : Text → Check
passed d = record { ok = true; detail = d; skipped = false }

abbrev pub failed_with : Text → Check
failed_with d = record { ok = false; detail = d; skipped = false }

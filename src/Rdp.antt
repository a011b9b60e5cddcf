-- ===== src/Rdp.antt =====
-- The credential-free RDP negotiation probe: overlay/usr/local/lib/thinclient/rdpprobe.py.
-- Bytes are numbers, a byte string is their list, and `struct` formats are written out.
pub mod Request
pub mod Response
pub mod Transport
pub mod Wire
pub mod Answers
pub mod Pieces
pub mod Rounds
pub mod Fragments
pub mod Bounds
mod Tests
use thinclient.Prelude.{ℕ, zero, suc, ◌+◌, ◌*◌, ◌/◌, ◌%◌, List, [], ◌∷◌}

abbrev pub Bytes : Type 0
Bytes = List ℕ

-- struct.pack("<H"), ("<I") and ("!H")
abbrev pub pack_le16 : ℕ → Bytes
pack_le16 n = n % 256 ∷ n / 256 % 256 ∷ []

abbrev pub pack_le32 : ℕ → Bytes
pack_le32 n = n % 256 ∷ n / 256 % 256 ∷ n / 65536 % 256 ∷ n / 16777216 % 256 ∷ []

abbrev pub pack_be16 : ℕ → Bytes
pack_be16 n = n / 256 % 256 ∷ n % 256 ∷ []

abbrev pub unpack_le16 : ℕ → ℕ → ℕ
unpack_le16 a b = a + 256 * b

abbrev pub unpack_be16 : ℕ → ℕ → ℕ
unpack_be16 a b = 256 * a + b

-- of the first four bytes
abbrev pub unpack_le32 : Bytes → ℕ
unpack_le32 (a ∷ b ∷ c ∷ d ∷ _) = a + 256 * b + 65536 * c + 16777216 * d
unpack_le32 _ = 0

-- body[i], where the index is in range
abbrev pub byte_at : ℕ → Bytes → ℕ
byte_at i [] = 0
byte_at zero (x ∷ xs) = x
byte_at (suc i) (x ∷ xs) = byte_at i xs

abbrev pub tpkt_header_size : ℕ
tpkt_header_size = 4

abbrev pub x224_confirm_size : ℕ
x224_confirm_size = 7

abbrev pub tpkt_wire_max : ℕ
tpkt_wire_max = 0xFFFF

abbrev pub max_tpkt_size : ℕ
max_tpkt_size = 4 * 1024

-- ===== src/Rdp/Wire.antt =====
-- The bytes of the connection request.
use thinclient.Prelude.{
  ℕ, ◌+◌, ◌≤◌, ◌<◌, ◌≡◌, refl, none, some, arith, length, drop, Every, pos, negsuc,
}
use thinclient.Rdp.{Bytes, unpack_be16, unpack_le16, unpack_le32, byte_at}
use thinclient.Rdp.Request.{connection_request, negotiation_request, x224_request, tpkt}

-- How [MS-RDPBCGR] lets a server read a request: a TPKT header that gives the whole length, an
-- X.224 header that gives the length after itself, and a negotiation request of eight bytes.
pub record Requests (b : Bytes) (protocols : ℕ) : Type 0 where
  pub are_bytes : Every (λ x. x < 256) b
  pub version : (byte_at 0 b ≡ 3) × (byte_at 1 b ≡ 0)
  pub whole_length : unpack_be16 (byte_at 2 b) (byte_at 3 b) ≡ length b
  pub x224_length : byte_at 4 b + 5 ≡ length b
  pub is_request : byte_at 5 b ≡ 0xE0
  pub negotiation : (byte_at 11 b ≡ 1) × (unpack_le16 (byte_at 13 b) (byte_at 14 b) + 11 ≡ length b)
  pub asked : unpack_le32 (drop 15 b) ≡ protocols

-- The request for any 32-bit set of protocols is well formed and asks for exactly these; any other
-- number is refused.
pub connection_request_lem :
    (protocols : ℕ)
    → (protocols < 4294967296
        → (b : Bytes) × (connection_request (pos protocols) ≡ some b) × Requests b protocols)
      × (4294967296 ≤ protocols → connection_request (pos protocols) ≡ none)
      × (connection_request (negsuc protocols) ≡ none)
unfolding connection_request
connection_request_lem n = (
  (λ h. (tpkt (x224_request (negotiation_request n)), ground arith, reads h)),
  (λ h. ground arith),
  refl,
)
  where
    reads : n < 4294967296 → Requests (tpkt (x224_request (negotiation_request n))) n
    reads h = record {
      are_bytes = omega arith;
      version = (refl, refl);
      whole_length = refl;
      x224_length = refl;
      is_request = refl;
      negotiation = (refl, refl);
      asked = omega arith;
    }

-- ===== src/Rdp/Request.antt =====
-- `connection_request` of overlay/usr/local/lib/thinclient/rdpprobe.py.
use thinclient.Prelude.{
  ℕ, ◌+◌, Option, none, some, ◌∷◌, ◌++◌, ltb, length, if◌then◌else◌, ℤ, pos, negsuc,
}
use thinclient.Rdp.{Bytes, pack_le16, pack_le32, pack_be16, tpkt_header_size}

abbrev pub protocol_tls : ℕ
protocol_tls = 1

abbrev pub protocol_hybrid : ℕ
protocol_hybrid = 2

abbrev pub protocol_hybrid_ex : ℕ
protocol_hybrid_ex = 8

-- the three flags joined
abbrev pub requested_protocols : ℕ
requested_protocols = 11

-- struct.pack("<BBHI", 0x01, 0x00, 8, requested)
unfoldable pub negotiation_request : ℕ → Bytes
negotiation_request requested = 0x01 ∷ 0x00 ∷ (pack_le16 8 ++ pack_le32 requested)

unfoldable pub x224_request : Bytes → Bytes
x224_request neg_req = (6 + length neg_req) ∷ 0xE0 ∷ 0 ∷ 0 ∷ 0 ∷ 0 ∷ 0x00 ∷ neg_req

unfoldable pub tpkt : Bytes → Bytes
tpkt x224 = 3 ∷ 0 ∷ (pack_be16 (tpkt_header_size + length x224) ++ x224)

-- `none` is the ValueError
unfoldable pub connection_request : ℤ → Option Bytes
unfolding negotiation_request x224_request tpkt
connection_request (negsuc n) = none
connection_request (pos requested) =
    if ltb 0xFFFFFFFF requested
    then none
    else some (tpkt (x224_request (negotiation_request requested)))

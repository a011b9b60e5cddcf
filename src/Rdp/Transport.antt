-- ===== src/Rdp/Transport.antt =====
-- `_recv_exact` and `probe` of overlay/usr/local/lib/thinclient/rdpprobe.py over a peer's stream.
-- The operating system decides how many of the bytes a `recv` hands over, at least one of them
-- while the peer has bytes left, and may raise OSError instead; a peer that has none left has
-- closed the connection.
use thinclient.Prelude.{
  ℕ, zero, suc, ◌+◌, ◌-◌, min, max, Bool, true, false, not, Option, none, some, List, [], ◌∷◌, ◌++◌,
  ltb, nat_eq, take, drop, length, ◌||◌, if◌then◌else◌, pos,
}
use thinclient.Rdp.{
  Bytes, byte_at, unpack_be16, tpkt_header_size, x224_confirm_size, tpkt_wire_max, max_tpkt_size,
}
use thinclient.Rdp.Request.{connection_request, requested_protocols}
use thinclient.Rdp.Response.{
  Problem, Answer, error, no_reply, truncated_tpkt_header, invalid_tpkt_header, tpkt_too_short,
  tpkt_too_long, truncated_response, parse_response,
}

-- what one `recv` does: hand over about so many bytes, or raise OSError
pub data Delivery : Type 0 where
  hand_over : ℕ → Delivery
  fault : Delivery

pub record Socket : Type 0 where
  pub incoming : Bytes
  pub deliveries : List Delivery

-- how many of the bytes `recv(n)` hands over, for n ≥ 1
abbrev pub portion : ℕ → ℕ → ℕ
portion k n = min n (max 1 k)

pub deliver : ℕ → Bytes → List Delivery → Option (Bytes × Socket)
deliver n incoming [] =
    some (take n incoming, record { incoming = drop n incoming; deliveries = [] })
deliver n incoming (fault ∷ ds) = none
deliver n incoming (hand_over k ∷ ds) = some (
  take (portion k n) incoming,
  record { incoming = drop (portion k n) incoming; deliveries = ds },
)

unfoldable pub recv : ℕ → Socket → Option (Bytes × Socket)
unfolding deliver
recv n s = deliver n s.incoming s.deliveries

pub data Received : Type 0 where
  bytes : Bytes → Socket → Received
  os_error : Received
  value_error : Received
  out_of_fuel : Received

abbrev is_none_left : Bytes → Bool
is_none_left [] = true
is_none_left (_ ∷ _) = false

-- while len(data) < size: chunk = recv(size - len(data)); if not chunk: break; data.extend(chunk)
unfoldable pub recv_from : ℕ → ℕ → Bytes → Socket → Received
recv_from zero size received s =
    if ltb (length received) size then out_of_fuel else bytes received s
recv_from (suc fuel) size received s = elim (ltb (length received) size) [
  | false ↦ bytes received s
  | true ↦ elim (recv (size - length received) s) [
    | none ↦ os_error
    | some (chunk, s') ↦ elim (is_none_left chunk) [
      | true ↦ bytes received s'
      | false ↦ recv_from fuel size (received ++ chunk) s'
    ]
  ]
]

unfoldable pub recv_exact : ℕ → Socket → Received
unfolding recv_from recv
recv_exact size s = if ltb max_tpkt_size size then value_error else recv_from (size + 1) size [] s

-- How a probe ends: with an answer, by OSError or by ValueError, and with the socket it closes.
pub data Outcome : Type 0 where
  answered : Answer → Socket → Outcome
  raised_os_error : Outcome
  raised_value_error : Outcome
  stalled : Outcome

abbrev pub after_body : ℕ → Received → Outcome
after_body expected (bytes body s) =
    if ltb (length body) expected
    then answered (error (truncated_response (length body) expected)) s
    else answered (parse_response body) s
after_body expected os_error = raised_os_error
after_body expected value_error = raised_value_error
after_body expected out_of_fuel = stalled

abbrev pub packet_length : Bytes → ℕ
packet_length header = unpack_be16 (byte_at 2 header) (byte_at 3 header)

-- why the header is refused, if it is
unfoldable pub header_problem : Bytes → Option Problem
header_problem header =
    let version = byte_at 0 header in
    let reserved = byte_at 1 header in
    let total = packet_length header in
    if nat_eq (length header) 0
    then some no_reply
    else if ltb (length header) tpkt_header_size
    then some (truncated_tpkt_header (length header))
    else if not (nat_eq version 3) || not (nat_eq reserved 0)
    then some (invalid_tpkt_header version reserved)
    else if ltb total (tpkt_header_size + x224_confirm_size)
    then some (tpkt_too_short total)
    else if ltb tpkt_wire_max total || ltb max_tpkt_size total
    then some (tpkt_too_long total)
    else none

abbrev pub read_body : Option Problem → ℕ → Socket → Outcome
read_body (some problem) total s = answered (error problem) s
read_body none total s =
    after_body (total - tpkt_header_size) (recv_exact (total - tpkt_header_size) s)

unfoldable pub after_header : Received → Outcome
unfolding header_problem
after_header (bytes header s) = read_body (header_problem header) (packet_length header) s
after_header os_error = raised_os_error
after_header value_error = raised_value_error
after_header out_of_fuel = stalled

-- The bytes that are sent, and the outcome. `none` is a connection that could not be made, or
-- that broke while the request was sent.
unfoldable pub probe : Option Socket → Option Bytes × Outcome
unfolding after_header connection_request recv_exact parse_response
probe none = (none, raised_os_error)
probe (some s) =
    (connection_request (pos requested_protocols), after_header (recv_exact tpkt_header_size s))

-- ===== src/Rdp/Fragments.antt =====
-- However the peer's bytes are cut into pieces, the probe reads the same answer.
use thinclient.Prelude.{
  ℕ, zero, suc, ◌+◌, ◌-◌, ◌≤◌, ◌<◌, ◌≡◌, refl, sym, ap, ◌∙◌, true, false, none, some, List, [], ◌∷◌,
  ◌++◌, arith, length, take, drop, ltb, Bool-cases, inl, inr, append-nil, append_assoc,
  length-append, Every, pos, ◌/◌, ◌%◌, length-take,
}
use thinclient.Rdp.{Bytes, max_tpkt_size, pack_be16, unpack_be16}
use thinclient.Rdp.Request.{connection_request, requested_protocols, tpkt}
use thinclient.Rdp.Response.{parse_response}
use thinclient.Rdp.Transport.{
  Delivery, hand_over, fault, Socket, recv, portion, bytes, recv_from, recv_exact, answered,
  after_header, after_body, header_problem, packet_length, read_body, probe,
}
use thinclient.Rdp.Pieces.{
  List-cases, drop-nil, take-nil, take-split, drop-split, take-positive, drop-append, take-append,
}
use thinclient.Rdp.Rounds.{recv_from-enough, recv_from-closed, recv_from-more}

abbrev pub IsDelivered : Delivery → Type 0
IsDelivered (hand_over k) = Unit
IsDelivered fault = ⊥

-- the connection does not break
abbrev pub Steady : Socket → Type 0
Steady s = Every IsDelivered s.deliveries

-- a `recv` on a steady connection hands over some of the next bytes
record Chunk (n : ℕ) (s : Socket) : Type 0 where
  size : ℕ
  positive : 1 ≤ size
  bounded : size ≤ n
  rest : Socket
  result : recv n s ≡ some (take size s.incoming, rest)
  left : rest.incoming ≡ drop size s.incoming
  steady : Steady rest

deliver_some :
    (n : ℕ) (incoming : Bytes) (ds : List Delivery)
    → 1 ≤ n
    → Every IsDelivered ds
    → Chunk n (record { incoming = incoming; deliveries = ds })
unfolding recv
deliver_some n incoming [] h a = record {
  size = n;
  positive = h;
  bounded = omega arith;
  rest = record { incoming = drop n incoming; deliveries = [] };
  result = refl;
  left = refl;
  steady = tt;
}
deliver_some n incoming (hand_over k ∷ ds) h a = record {
  size = portion k n;
  positive = omega arith;
  bounded = omega arith;
  rest = record { incoming = drop (portion k n) incoming; deliveries = ds };
  result = refl;
  left = refl;
  steady = a.1;
}
deliver_some n incoming (fault ∷ ds) h a = absurd a.0

-- the wanted bytes, or all of them if the peer closes before
record Reads (fuel size : ℕ) (received : Bytes) (s : Socket) : Type 0 where
  rest : Socket
  result :
      recv_from fuel size received s
      ≡ bytes (received ++ take (size - length received) s.incoming) rest
  left : rest.incoming ≡ drop (size - length received) s.incoming
  steady : Steady rest

enough_read :
    (fuel size : ℕ) (received : Bytes) (s : Socket)
    → ltb (length received) size ≡ false
    → Steady s
    → Reads (suc fuel) size received s
enough_read fuel size received s e steady =
    let none_wanted : size - length received ≡ 0 = ground arith in
    record {
      rest = s;
      result =
          recv_from-enough fuel size received s s e
          ∙ rw none_wanted (ap (λ l. bytes l s) (sym (append-nil received)));
      left = rw none_wanted refl;
      steady = steady;
    }

-- the peer has closed
closed_read :
    (fuel size : ℕ) (received : Bytes) (s : Socket)
    → ltb (length received) size ≡ true
    → s.incoming ≡ []
    → Chunk (size - length received) s
    → Reads (suc fuel) size received s
closed_read fuel size received s e empty c = record {
  rest = c.rest;
  result =
      recv_from-closed fuel size received s c.rest e (
        c.result
        ∙ ap (λ l. some (take c.size l, c.rest)) empty
        ∙ ap (λ l. some (l, c.rest)) (take-nil c.size))
      ∙ ap (λ l. bytes l c.rest)
          (sym (
            ap (λ l. received ++ take (size - length received) l) empty
            ∙ ap (λ l. received ++ l) (take-nil (size - length received))
            ∙ append-nil received));
  left =
      c.left
      ∙ ap (drop c.size) empty
      ∙ drop-nil c.size
      ∙ sym (ap (drop (size - length received)) empty ∙ drop-nil (size - length received));
  steady = c.steady;
}

-- a piece was read, and the rest of the loop reads the rest
more_read :
    (fuel size : ℕ) (received : Bytes) (s : Socket) (x : ℕ) (xs : Bytes)
    → ltb (length received) size ≡ true
    → s.incoming ≡ x ∷ xs
    → (c : Chunk (size - length received) s)
    → Reads fuel size (received ++ take c.size s.incoming) c.rest
    → Reads (suc fuel) size received s
more_read fuel size received s x xs e some_left c r =
    let chunk = take c.size s.incoming in
    let wanted = size - length received in
    let first : chunk ≡ x ∷ take (c.size - 1) xs =
      ap (take c.size) some_left ∙ take-positive c.size x xs c.positive in
    let less : size - length (received ++ chunk) ≡ wanted - length chunk =
      omega (arith, length-append received chunk) in
    record {
      rest = r.rest;
      result =
          recv_from-more fuel size received s c.rest x (take (c.size - 1) xs) e
            (c.result ∙ ap (λ l. some (l, c.rest)) first)
          ∙ ap (λ l. recv_from fuel size (received ++ l) c.rest) (sym first)
          ∙ r.result
          ∙ ap (λ l. bytes l r.rest)
              (append_assoc received chunk _
                ∙ ap (λ l. received ++ l)
                    (ap (λ m. chunk ++ take m c.rest.incoming) less
                      ∙ ap (λ l. chunk ++ take (wanted - length chunk) l) c.left
                      ∙ take-split c.size wanted s.incoming c.bounded));
      left =
          r.left
          ∙ ap (λ m. drop m c.rest.incoming) less
          ∙ ap (drop (wanted - length chunk)) c.left
          ∙ drop-split c.size wanted s.incoming c.bounded;
      steady = r.steady;
    }

recv_from-Reads :
    (fuel size : ℕ) (received : Bytes) (s : Socket)
    → size - length received < fuel
    → Steady s
    → Reads fuel size received s
recv_from-Reads zero size received s h steady = absurd (omega arith)
recv_from-Reads (suc fuel) size received s h steady =
    elim (Bool-cases (ltb (length received) size)) [
      | inr e ↦ enough_read fuel size received s e steady
      | inl e ↦
          let c =
            deliver_some (size - length received) s.incoming s.deliveries (ground arith) steady in
          elim (List-cases s.incoming) [
            | inl empty ↦ closed_read fuel size received s e empty c
            | inr (x, xs, some_left) ↦ more_read fuel size received s x xs e some_left c (
                recv_from-Reads fuel size (received ++ take c.size s.incoming) c.rest
                  (shorter x xs some_left c) c.steady)
          ]
    ]
  where
    shorter :
        (x : ℕ) (xs : Bytes) (some_left : s.incoming ≡ x ∷ xs)
        (c : Chunk (size - length received) s)
        → size - length (received ++ take c.size s.incoming) < fuel
    shorter x xs some_left c = omega (
      arith,
      c.positive,
      length-append received (take c.size s.incoming),
      length-take c.size s.incoming,
      ap length some_left,
      h,
    )

-- On a connection that does not break, `_recv_exact` of at most 4096 bytes returns the next `size`
-- bytes, or all that the peer sent before it closed, however they are cut into pieces.
pub recv_exact_lem :
    (size : ℕ) (s : Socket)
    → size ≤ max_tpkt_size
    → Steady s
    → (rest : Socket) × (recv_exact size s ≡ bytes (take size s.incoming) rest)
      × (rest.incoming ≡ drop size s.incoming)
      × Steady rest
unfolding recv_exact
recv_exact_lem size s h steady =
    let r = recv_from-Reads (size + 1) size [] s (omega arith) steady in
    let small : ltb max_tpkt_size size ≡ false = ground arith in
    let whole : size - 0 ≡ size = omega arith in
    (
      r.rest,
      rw small (r.result ∙ ap (λ n. bytes (take n s.incoming) r.rest) whole),
      r.left ∙ ap (λ n. drop n s.incoming) whole,
      r.steady,
    )

after_body-whole :
    (n : ℕ) (body : Bytes) (s : Socket)
    → length body ≡ n
    → after_body n (bytes body s) ≡ answered (parse_response body) s
after_body-whole n body s e = ground arith

-- the header of a packet with `n` bytes behind it is accepted
after_header-packet :
    (n : ℕ) (s : Socket)
    → 7 ≤ n
    → n + 4 ≤ max_tpkt_size
    → after_header (bytes (3 ∷ 0 ∷ pack_be16 (4 + n)) s) ≡ after_body n (recv_exact n s)
unfolding after_header
after_header-packet n s low high =
    let whole : unpack_be16 ((4 + n) / 256 % 256) ((4 + n) % 256) ≡ 4 + n = omega arith in
    let back : 4 + n - 4 ≡ n = omega arith in
    let accepted : header_problem (3 ∷ 0 ∷ pack_be16 (4 + n)) ≡ none =
      unfold header_problem in rw whole (ground arith) in
    ap (λ p. read_body p (packet_length (3 ∷ 0 ∷ pack_be16 (4 + n))) s) accepted
    ∙ ap (λ t. read_body none t s) whole
    ∙ ap (λ m. after_body m (recv_exact m s)) back

-- If the connection does not break and the peer sends a packet of 11 to 4096 bytes with a correct
-- header, and anything after it, the probe has sent the request for TLS, HYBRID and HYBRID_EX and
-- answers with the reading of the packet's body, however the bytes are cut into pieces.
pub probe_lem :
    (body more : Bytes) (deliveries : List Delivery)
    → 7 ≤ length body
    → length body + 4 ≤ max_tpkt_size
    → Every IsDelivered deliveries
    → let peer : Socket = record { incoming = tpkt body ++ more; deliveries = deliveries } in
      (rest : Socket) × (probe (some peer)
        ≡ (connection_request (pos requested_protocols), answered (parse_response body) rest))
      × (rest.incoming ≡ more)
unfolding probe tpkt
probe_lem body more deliveries low high steady =
    let peer : Socket = record {
      incoming = 3 ∷ 0 ∷ (pack_be16 (4 + length body) ++ body) ++ more;
      deliveries = deliveries;
    } in
    let (s, header, left, steady') = recv_exact_lem 4 peer (omega arith) steady in
    let (rest, whole, left', steady'') = recv_exact_lem (length body) s (omega arith) steady' in
    let read : recv_exact (length body) s ≡ bytes body rest =
      whole
      ∙ ap (λ l. bytes (take (length body) l) rest) left
      ∙ ap (λ l. bytes l rest) (take-append body more) in
    (
      rest,
      ap (λ r. (connection_request (pos requested_protocols), r))
          (ap after_header header
            ∙ after_header-packet (length body) s low high
            ∙ ap (after_body (length body)) read
            ∙ after_body-whole (length body) body rest refl),
      left' ∙ ap (drop (length body)) left ∙ drop-append body more,
    )

-- ===== src/Rdp/Bounds.antt =====
-- What a hostile peer can make the probe do.
use thinclient.Prelude.{
  ℕ, zero, suc, ◌+◌, ◌-◌, ◌≤◌, ◌<◌, ◌≡◌, refl, true, false, Option, none, some, List, [], ◌∷◌, ◌++◌,
  arith, length, ltb, Bool-cases, inl, inr, length-append, length-take, length-drop, subst,
}
use thinclient.Rdp.{Bytes, max_tpkt_size}
use thinclient.Rdp.Response.{Problem}
use thinclient.Rdp.Transport.{
  Delivery, hand_over, fault, Socket, recv, portion, Received, bytes, os_error, value_error,
  out_of_fuel, recv_from, recv_exact, Outcome, answered, raised_os_error, raised_value_error,
  stalled, packet_length, header_problem, read_body, after_header, after_body, probe,
}
use thinclient.Rdp.Rounds.{
  Piece, broken, closed, chunk, piece, recv_from-enough, recv_from-closed, recv_from-more,
  recv_from-fault,
}

-- A receive returns at most the bytes that were asked for and leaves the others, or it raises
-- OSError; it neither runs forever nor meets its own ValueError.
abbrev pub Bounded : ℕ → ℕ → Received → Type 0
Bounded size available (bytes b s) = (length b ≤ size) × (length b + length s.incoming ≡ available)
Bounded size available os_error = Unit
Bounded size available value_error = ⊥
Bounded size available out_of_fuel = ⊥

length-deliver :
    (n : ℕ) (incoming : Bytes) (ds : List Delivery) (rest : Socket) (b : Bytes)
    → recv n (record { incoming = incoming; deliveries = ds }) ≡ some (b, rest)
    → (length b ≤ n) × (length b + length rest.incoming ≡ length incoming)
unfolding recv
length-deliver n incoming [] rest b h =
    ground (arith, length-take n incoming, length-drop n incoming)
length-deliver n incoming (hand_over k ∷ ds) rest b h =
    ground (arith, length-take (portion k n) incoming, length-drop (portion k n) incoming)
length-deliver n incoming (fault ∷ ds) rest b h = cc

-- the cases of one round, with the rest of the loop given
round_Bounded :
    (fuel size : ℕ) (received : Bytes) (s : Socket) (r : Option (Bytes × Socket))
    → Piece r
    → recv (size - length received) s ≡ r
    → ltb (length received) size ≡ true
    → ((x : ℕ) (xs : Bytes) (rest : Socket)
        → length (received ++ x ∷ xs) ≤ size
        → length received < length (received ++ x ∷ xs)
        → Bounded size
            (length (received ++ x ∷ xs) + length rest.incoming)
            (recv_from fuel size (received ++ x ∷ xs) rest))
    → Bounded size (length received + length s.incoming) (recv_from (suc fuel) size received s)
round_Bounded fuel size received s _ broken eq e loop =
    rw (recv_from-fault fuel size received s s e eq) tt
round_Bounded fuel size received s _ (closed rest) eq e loop =
    let (small, same) =
      length-deliver (size - length received) s.incoming s.deliveries rest [] eq in
    rw (recv_from-closed fuel size received s rest e eq) (ground arith, omega arith)
round_Bounded fuel size received s _ (chunk x xs rest) eq e loop =
    let (small, same) =
      length-deliver (size - length received) s.incoming s.deliveries rest (x ∷ xs) eq in
    let joined = length-append received (x ∷ xs) in
    let sum : length (received ++ x ∷ xs) + length rest.incoming
        ≡ length received + length s.incoming =
      omega (arith, joined, same) in
    rw (recv_from-more fuel size received s rest x xs e eq)
      (rw (← sum) (loop x xs rest (ground (arith, joined)) (omega (arith, joined))))

pub recv_from-Bounded :
    (fuel size : ℕ) (received : Bytes) (s : Socket)
    → size - length received < fuel
    → length received ≤ size
    → Bounded size (length received + length s.incoming) (recv_from fuel size received s)
recv_from-Bounded zero size received s h le = absurd (omega arith)
recv_from-Bounded (suc fuel) size received s h le = elim (Bool-cases (ltb (length received) size)) [
  | inr e ↦ rw (recv_from-enough fuel size received s s e) (le, refl)
  | inl e ↦
      round_Bounded fuel size received s _ (piece (recv (size - length received) s)) refl e
        (λ x xs rest le' more.
          recv_from-Bounded fuel size (received ++ x ∷ xs) rest (omega arith) le')
]

recv_exact-Bounded :
    (size : ℕ) (s : Socket)
    → size ≤ max_tpkt_size
    → Bounded size (length s.incoming) (recv_exact size s)
unfolding recv_exact
recv_exact-Bounded size s h =
    let small : ltb max_tpkt_size size ≡ false = ground arith in
    let all : 0 + length s.incoming ≡ length s.incoming = omega arith in
    rw small (
      subst (λ n. Bounded size n (recv_from (size + 1) size [] s)) all
        (recv_from-Bounded (size + 1) size [] s (omega arith) (omega arith)))

-- A probe ends with an answer or with OSError, and has taken at most `most` of the peer's bytes.
abbrev pub EndsWithin : ℕ → ℕ → Outcome → Type 0
EndsWithin most available (answered a rest) = available ≤ length rest.incoming + most
EndsWithin most available raised_os_error = Unit
EndsWithin most available raised_value_error = ⊥
EndsWithin most available stalled = ⊥

after_body-EndsWithin :
    (n available : ℕ) (r : Received)
    → Bounded n available r
    → EndsWithin n available (after_body n r)
after_body-EndsWithin n available (bytes b s) h = elim (Bool-cases (ltb (length b) n)) [
  | inl e ↦ rw e (omega arith)
  | inr e ↦ rw e (omega arith)
]
after_body-EndsWithin n available os_error h = tt
after_body-EndsWithin n available value_error h = h
after_body-EndsWithin n available out_of_fuel h = h

EndsWithin-weaken :
    (n available n' available' : ℕ) (o : Outcome)
    → available' + n ≤ available + n'
    → EndsWithin n available o
    → EndsWithin n' available' o
EndsWithin-weaken n available n' available' (answered a rest) le h = omega arith
EndsWithin-weaken n available n' available' raised_os_error le h = tt
EndsWithin-weaken n available n' available' raised_value_error le h = h
EndsWithin-weaken n available n' available' stalled le h = h

header_in_bounds :
    (header : Bytes)
    → header_problem header ≡ none
    → (11 ≤ packet_length header) × (packet_length header ≤ max_tpkt_size)
unfolding header_problem
header_in_bounds header h = ground arith

read_body-EndsWithin :
    (available total : ℕ) (problem : Option Problem) (s : Socket)
    → available ≤ length s.incoming + 4
    → (problem ≡ none → (11 ≤ total) × (total ≤ max_tpkt_size))
    → EndsWithin max_tpkt_size available (read_body problem total s)
read_body-EndsWithin available total (some problem) s h bounds = omega arith
read_body-EndsWithin available total none s h bounds =
    let (low, high) = bounds refl in
    EndsWithin-weaken (total - 4) (length s.incoming) max_tpkt_size available _ (omega arith) (
      after_body-EndsWithin (total - 4) (length s.incoming) (recv_exact (total - 4) s)
        (recv_exact-Bounded (total - 4) s (omega arith)))

after_header-EndsWithin :
    (available : ℕ) (r : Received)
    → Bounded 4 available r
    → EndsWithin max_tpkt_size available (after_header r)
unfolding after_header
after_header-EndsWithin available (bytes b s) h =
    read_body-EndsWithin available (packet_length b) (header_problem b) s (omega arith)
      (header_in_bounds b)
after_header-EndsWithin available os_error h = tt
after_header-EndsWithin available value_error h = h
after_header-EndsWithin available out_of_fuel h = h

-- Whatever the peer sends and however the connection behaves, the probe ends with an answer or
-- with OSError, never with its own ValueError, and takes at most 4096 of the peer's bytes.
pub probe-EndsWithin :
    (s : Socket) → EndsWithin max_tpkt_size (length s.incoming) (probe (some s)).1
unfolding probe
probe-EndsWithin s =
    after_header-EndsWithin (length s.incoming) (recv_exact 4 s)
      (recv_exact-Bounded 4 s (omega arith))

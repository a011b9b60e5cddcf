-- ===== src/Rdp/Rounds.antt =====
-- One round of the loop of `_recv_exact`, case by case.
use thinclient.Prelude.{
  ℕ, suc, ◌-◌, ◌≡◌, true, false, Option, none, some, [], ◌∷◌, ◌++◌, arith, length, ltb,
}
use thinclient.Rdp.{Bytes}
use thinclient.Rdp.Transport.{Socket, recv, bytes, os_error, recv_from}

-- one round of the loop
module _ (fuel size : ℕ) (received : Bytes) (s s' : Socket) where
  pub recv_from-enough :
      ltb (length received) size ≡ false → recv_from (suc fuel) size received s ≡ bytes received s
  unfolding recv_from
  recv_from-enough e = ground arith

  pub recv_from-closed :
      ltb (length received) size ≡ true
      → recv (size - length received) s ≡ some ([], s')
      → recv_from (suc fuel) size received s ≡ bytes received s'
  unfolding recv_from
  recv_from-closed e r = ground arith

  pub recv_from-more :
      (x : ℕ) (chunk : Bytes)
      → ltb (length received) size ≡ true
      → recv (size - length received) s ≡ some (x ∷ chunk, s')
      → recv_from (suc fuel) size received s ≡ recv_from fuel size (received ++ x ∷ chunk) s'
  unfolding recv_from
  recv_from-more x chunk e r = ground arith

  pub recv_from-fault :
      ltb (length received) size ≡ true
      → recv (size - length received) s ≡ none
      → recv_from (suc fuel) size received s ≡ os_error
  unfolding recv_from
  recv_from-fault e r = ground arith

-- what a `recv` returned
pub data Piece : Option (Bytes × Socket) → Type 0 where
  broken : Piece none
  closed : (rest : Socket) → Piece (some ([], rest))
  chunk : (x : ℕ) (xs : Bytes) (rest : Socket) → Piece (some (x ∷ xs, rest))

pub piece : (r : Option (Bytes × Socket)) → Piece r
piece none = broken
piece (some ([], rest)) = closed rest
piece (some (x ∷ xs, rest)) = chunk x xs rest

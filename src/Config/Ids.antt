-- ===== src/Config/Ids.antt =====
-- `_assign_connection_ids`. The loop that looks for a free generated identifier runs on fuel: one
-- more than the identifiers that are taken is enough (Config/Generated).
use thinclient.Prelude.{
  ℕ, zero, suc, ◌+◌, ◌/◌, ◌%◌, true, false, not, ◌&&◌, List, [], ◌∷◌, ◌++◌, length, ltb,
  if◌then◌else◌,
}
use thinclient.Text.{Text, codes, is_empty}
use thinclient.Config.{Connection}
use thinclient.Config.Fields.{among}

abbrev pub last_digit : ℕ → ℕ
last_digit n = b'0' + n % 10

-- the fuel is at least the number
unfoldable pub decimal_on : ℕ → ℕ → Text
decimal_on zero n = last_digit n ∷ []
decimal_on (suc fuel) n = elim (ltb n 10) [
  | true ↦ last_digit n ∷ []
  | false ↦ decimal_on fuel (n / 10) ++ last_digit n ∷ []
]

-- "%d" % n
unfoldable pub decimal : ℕ → Text
unfolding decimal_on
decimal n = decimal_on n n

-- "conn%d" % n
unfoldable pub generated : ℕ → Text
unfolding decimal
generated n = codes "conn" ++ decimal n

unfoldable pub next_free : ℕ → List Text → ℕ → ℕ
unfolding generated
next_free zero taken n = n
next_free (suc fuel) taken n = elim (among (generated n) taken) [
  | true ↦ next_free fuel taken (suc n)
  | false ↦ n
]

abbrev pub set_id : Connection → Text → Connection
set_id c name = record c { id = name }

-- the loop over the connections, with the sets `reserved` and `used` and the next number to try
unfoldable pub assign_from : List Text → List Text → ℕ → List Connection → List Connection
unfolding next_free
assign_from reserved used next [] = []
assign_from reserved used next (c ∷ cs) = elim (not (is_empty c.id) && not (among c.id used)) [
  | true ↦ c ∷ assign_from reserved (c.id ∷ used) next cs
  | false ↦
      let taken = reserved ++ used in
      let n = next_free (suc (length taken)) taken next in
      set_id c (generated n) ∷ assign_from reserved (generated n ∷ used) (suc n) cs
]

-- the explicit identifiers
abbrev pub explicit_ids : List Connection → List Text
explicit_ids [] = []
explicit_ids (c ∷ cs) = let rest = explicit_ids cs in if is_empty c.id then rest else c.id ∷ rest

unfoldable pub assign_connection_ids : List Connection → List Connection
unfolding assign_from
assign_connection_ids cs = assign_from (explicit_ids cs) [] 1 cs

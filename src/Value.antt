-- ===== src/Value.antt =====
-- The values of a decoded JSON document, as `json.load` hands them to the program.
-- A float is either a whole number or one that `is_integer` refuses (a fraction, an infinity, NaN).
use thinclient.Prelude.{
  Bool, true, false, Option, none, some, List, [], ◌∷◌, ℤ, pos, negsuc, nat_eq, not,
}
use thinclient.Text.{Text, is_empty}
use thinclient.Dict.{Dict}

pub data Float : Type 0 where
  whole : ℤ → Float
  not_whole : Float

mutual
  pub data Value : Type 0 where
    null : Value
    bool : Bool → Value
    int : ℤ → Value
    float : Float → Value
    str : Text → Value
    arr : Items → Value
    obj : Fields → Value

  pub data Items : Type 0 where
    end : Items
    item : Value → Items → Items

  pub data Fields : Type 0 where
    nil : Fields
    field : Text → Value → Fields → Fields

abbrev pub items : Items → List Value
items end = []
items (item v vs) = v ∷ items vs

abbrev pub entries : Fields → Dict Text Value
entries nil = []
entries (field k v fs) = (k, v) ∷ entries fs

abbrev is_zero : ℤ → Bool
is_zero (pos n) = nat_eq n 0
is_zero (negsuc n) = false

-- bool(v)
abbrev pub is_true : Value → Bool
is_true null = false
is_true (bool b) = b
is_true (int n) = not (is_zero n)
is_true (float (whole n)) = not (is_zero n)
is_true (float not_whole) = true
is_true (str s) = not (is_empty s)
is_true (arr end) = false
is_true (arr (item _ _)) = true
is_true (obj nil) = false
is_true (obj (field _ _ _)) = true

-- the dictionary of an object, or none
abbrev pub object? : Value → Option (Dict Text Value)
object? (obj fs) = some (entries fs)
object? _ = none

-- the elements of a list, or none
abbrev pub list? : Value → Option (List Value)
list? (arr vs) = some (items vs)
list? _ = none

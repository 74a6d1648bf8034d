-- ===== src/Exec/Compare.antt =====
-- `compare` of ferrite-exec/src/eval.rs, with the orders of the types that it compares.
pub mod Mirror
mod Examples
use ferrite.Prelude.{
  ℕ, ◌/◌, ◌%◌, ◌^◌, Bool, true, false, ◌||◌, Option, none, some, List, [], ◌∷◌, ◌==◌, if◌then◌else◌,
}
use Prim.Native.Nat.{compare as nat_compare, Ordering}
use ferrite.Prelude.Int.{ℤ, pos, neg_of, int_compare}
use ferrite.Common.Error.{Message, type_mismatch, exec, Result, ok, err}
use ferrite.Common.Value.{
  Value, null, boolean, int4, int8, float8, text, timestamp, uuid, json, DataType, is_null, is_nan,
}

-- What the processor does with floats, on bit patterns.
pub record Machine : Type 0 where
  pub from_int : ℤ → ℕ
  pub add : ℕ → ℕ → ℕ
  pub sub : ℕ → ℕ → ℕ
  pub mul : ℕ → ℕ → ℕ
  pub div : ℕ → ℕ → ℕ
  pub rem : ℕ → ℕ → ℕ

-- The type of a value, where `null` has been matched before.
abbrev pub type_of : Value → DataType
type_of null = DataType.text
type_of (boolean b) = DataType.boolean
type_of (int4 v) = DataType.int4
type_of (int8 v) = DataType.int8
type_of (float8 v) = DataType.float8
type_of (text s) = DataType.text
type_of (timestamp v) = DataType.timestamp
type_of (uuid v) = DataType.uuid
type_of (json s) = DataType.json

-- Byte by byte.
abbrev pub text_compare : List ℕ → List ℕ → Ordering
text_compare [] [] = Ordering.eq
text_compare [] (b ∷ bs) = Ordering.lt
text_compare (a ∷ as') [] = Ordering.gt
text_compare (a ∷ as') (b ∷ bs) =
    let rest = text_compare as' bs in
    elim (nat_compare a b) [
      | Ordering.lt ↦ Ordering.lt
      | Ordering.eq ↦ rest
      | Ordering.gt ↦ Ordering.gt
    ]

abbrev pub bool_compare : Bool → Bool → Ordering
bool_compare false true = Ordering.lt
bool_compare true false = Ordering.gt
bool_compare a b = Ordering.eq

-- The sign and the magnitude of a float that is not a NaN, in the order of its value.
abbrev pub float_key : ℕ → ℤ
float_key bits = if bits / 2 ^ 63 == 0 then pos (bits % 2 ^ 63) else neg_of (bits % 2 ^ 63)

abbrev pub partial_cmp : ℕ → ℕ → Option Ordering
partial_cmp a b =
    if is_nan a || is_nan b then none else some (int_compare (float_key a) (float_key b))

-- The arms that compare two values of one kind.
pub same_kind : Value → Value → Option Ordering
same_kind (boolean a) (boolean b) = some (bool_compare a b)
same_kind (text a) (text b) = some (text_compare a b)
same_kind (json a) (json b) = some (text_compare a b)
same_kind (uuid a) (uuid b) = some (nat_compare a b)
same_kind (timestamp a) (timestamp b) = some (int_compare a b)
same_kind (int4 a) (int4 b) = some (int_compare a b)
same_kind (int8 a) (int8 b) = some (int_compare a b)
same_kind (int4 a) (int8 b) = some (int_compare a b)
same_kind (int8 a) (int4 b) = some (int_compare a b)
same_kind _ _ = none

nan_order : Option Ordering → Result (Option Ordering)
nan_order none = err (exec (Message.text "cannot order NaN against a number"))
nan_order (some o) = ok (some o)

float_order : Option ℕ → Option ℕ → Value → Value → Result (Option Ordering)
unfolding nan_order
float_order (some a) (some b) left right = nan_order (partial_cmp a b)
float_order _ _ left right = err (type_mismatch (type_of left) (type_of right))

or_floats : Option Ordering → Result (Option Ordering) → Result (Option Ordering)
or_floats none floats = floats
or_floats (some o) floats = ok (some o)

module _ (m : Machine) where
  abbrev pub as_float : Value → Option ℕ
  as_float (int4 v) = some (m.from_int v)
  as_float (int8 v) = some (m.from_int v)
  as_float (float8 v) = some v
  as_float _ = none

  -- `none` is the comparison with a null.
  unfoldable pub compare : Value → Value → Result (Option Ordering)
  unfolding same_kind or_floats float_order
  compare left right =
      if is_null left || is_null right
      then ok none
      else or_floats (same_kind left right)
          (float_order (as_float left) (as_float right) left right)

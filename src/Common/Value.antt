-- ===== src/Common/Value.antt =====
-- ferrite-common/src/value.rs: scalar values, their types, and rows.
use ferrite.Prelude.{
  ℕ, ◌*◌, ◌%◌, ◌^◌, Bool, true, false, not, ◌&&◌, ◌||◌, Option, none, some, List, [], ◌∷◌, ltb,
  ◌==◌, if◌then◌else◌, same_list,
}
use ferrite.Prelude.Int.{ℤ, same_int}

pub data DataType : Type 0 where
  boolean int4 int8 float8 text timestamp uuid json : DataType

-- A float is its bit pattern, and a text is its UTF-8 bytes.
pub data Value : Type 0 where
  null : Value
  boolean : Bool → Value
  int4 : ℤ → Value
  int8 : ℤ → Value
  float8 : ℕ → Value
  text : List ℕ → Value
  timestamp : ℤ → Value
  uuid : ℕ → Value
  json : List ℕ → Value

abbrev pub data_type : Value → Option DataType
data_type null = none
data_type (boolean b) = some DataType.boolean
data_type (int4 v) = some DataType.int4
data_type (int8 v) = some DataType.int8
data_type (float8 v) = some DataType.float8
data_type (text s) = some DataType.text
data_type (timestamp v) = some DataType.timestamp
data_type (uuid v) = some DataType.uuid
data_type (json s) = some DataType.json

abbrev pub is_null : Value → Bool
is_null null = true
is_null _ = false

pub record Row : Type 0 where
  pub values : List Value

abbrev pub is_nan : ℕ → Bool
is_nan bits = ltb (2047 * 2 ^ 52) (bits % 2 ^ 63)

-- The equality of floats: a NaN equals nothing, and the two zeros are equal.
pub same_float : ℕ → ℕ → Bool
same_float a b =
    if is_nan a || is_nan b then false else a == b || (a % 2 ^ 63 == 0 && b % 2 ^ 63 == 0)

-- The derived `PartialEq`.
unfoldable pub same_value : Value → Value → Bool
unfolding same_float
same_value null null = true
same_value (boolean a) (boolean b) = if a then b else not b
same_value (int4 a) (int4 b) = same_int a b
same_value (int8 a) (int8 b) = same_int a b
same_value (float8 a) (float8 b) = same_float a b
same_value (text a) (text b) = same_list a b
same_value (timestamp a) (timestamp b) = same_int a b
same_value (uuid a) (uuid b) = a == b
same_value (json a) (json b) = same_list a b
same_value _ _ = false

unfoldable pub same_values : List Value → List Value → Bool
same_values [] [] = true
same_values [] (w ∷ ws) = false
same_values (v ∷ vs) [] = false
same_values (v ∷ vs) (w ∷ ws) = same_value v w && same_values vs ws

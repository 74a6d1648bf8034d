-- ===== src/Storage/Codec/Rows.antt =====
-- Rows and values of ferrite-storage/src/codec.rs.
pub mod RoundTrip
pub mod Truncation
pub mod Examples
use ferrite.Prelude.{
  ℕ, ◌+◌, ◌%◌, ◌^◌, ◌<◌, ◌≡◌, Bool, true, false, not, List, [], ◌∷◌, length, ◌==◌, if◌then◌else◌,
}
use ferrite.Prelude.Int.{IsI32, IsI64, i32_to_u32, u32_to_i32, i64_to_u64, u64_to_i64}
use ferrite.Common.Error.{Message, FerriteError, storage, Result, ok, err}
use ferrite.Common.Error
use ferrite.Common.Value.{
  Value, null, boolean, int4, int8, float8, text, timestamp, uuid, json, Row,
}
use ferrite.Storage.Codec.Reader.{
  Bytes, Reader, pure, fail, ◌>>=◌, is_empty, take, u8, u16, u32, u64, u128, repeat,
}
use ferrite.Storage.Codec.Writer
use ferrite.Storage.Codec.Writer.{Writer}
use ferrite.Storage.Codec.Text.{is_utf8}

abbrev pub tag_null : ℕ
tag_null = 0

abbrev pub tag_boolean : ℕ
tag_boolean = 1

abbrev pub tag_int4 : ℕ
tag_int4 = 2

abbrev pub tag_int8 : ℕ
tag_int8 = 3

abbrev pub tag_float8 : ℕ
tag_float8 = 4

abbrev pub tag_text : ℕ
tag_text = 5

abbrev pub tag_timestamp : ℕ
tag_timestamp = 6

abbrev pub tag_uuid : ℕ
tag_uuid = 7

abbrev pub tag_json : ℕ
tag_json = 8

from_bool : Bool → ℕ
from_bool true = 1
from_bool false = 0

pub encode_value : Writer → Value → Writer
unfolding from_bool
encode_value w null = Writer.u8 w tag_null
encode_value w (boolean b) = Writer.u8 (Writer.u8 w tag_boolean) (from_bool b)
encode_value w (int4 v) = Writer.u32 (Writer.u8 w tag_int4) (i32_to_u32 v)
encode_value w (int8 v) = Writer.u64 (Writer.u8 w tag_int8) (i64_to_u64 v)
encode_value w (float8 v) = Writer.u64 (Writer.u8 w tag_float8) v
encode_value w (text s) = Writer.len_prefixed (Writer.u8 w tag_text) s
encode_value w (timestamp v) = Writer.u64 (Writer.u8 w tag_timestamp) (i64_to_u64 v)
encode_value w (uuid v) = Writer.u128 (Writer.u8 w tag_uuid) v
encode_value w (json s) = Writer.len_prefixed (Writer.u8 w tag_json) s

-- `for value in &row.values`
pub encode_values : Writer → List Value → Writer
encode_values w [] = w
encode_values w (v ∷ vs) = encode_values (encode_value w v) vs

pub encode_row : Row → Bytes
encode_row row = encode_values (Writer.u16 [] (length row.values % 2 ^ 16)) row.values

abbrev pub invalid_utf8 : FerriteError
invalid_utf8 = storage (Message.text "corrupt row encoding: invalid utf-8 in text value")

abbrev pub trailing_bytes : FerriteError
trailing_bytes = storage (Message.text "corrupt row encoding: trailing bytes after row")

abbrev pub unknown_tag : ℕ → FerriteError
unknown_tag t = storage (Message.with_number "corrupt row encoding: unknown value tag" t)

from_utf8 : Bytes → Reader Bytes
from_utf8 bytes = if is_utf8 bytes then pure bytes else fail invalid_utf8

pub decode_string : Reader Bytes
unfolding from_utf8
decode_string = do len ← u32; bytes ← take len; from_utf8 bytes

decode_tagged : ℕ → Reader Value
decode_tagged tag =
    if tag == tag_null
    then pure null
    else if tag == tag_boolean
    then (do b ← u8; pure (boolean (not (b == 0))))
    else if tag == tag_int4
    then (do v ← u32; pure (int4 (u32_to_i32 v)))
    else if tag == tag_int8
    then (do v ← u64; pure (int8 (u64_to_i64 v)))
    else if tag == tag_float8
    then (do v ← u64; pure (float8 v))
    else if tag == tag_text
    then (do s ← decode_string; pure (text s))
    else if tag == tag_timestamp
    then (do v ← u64; pure (timestamp (u64_to_i64 v)))
    else if tag == tag_uuid
    then (do v ← u128; pure (uuid v))
    else if tag == tag_json
    then (do s ← decode_string; pure (json s))
    else fail (unknown_tag tag)

pub decode_value : Reader Value
unfolding decode_tagged
decode_value = do tag ← u8; decode_tagged tag

-- The test of `is_empty` behind the values.
finish_row : Result (List Value × Bytes) → Result Row
finish_row (ok (values, rest)) =
    if is_empty rest then ok (record { values = values }) else err trailing_bytes
finish_row (err e) = err e

read_values : Reader (List Value)
read_values = do count ← u16; repeat count decode_value

pub decode_row : Bytes → Result Row
unfolding finish_row read_values
decode_row bytes = finish_row (read_values bytes)

-- The values that the types of the source allow, with texts below 4 GiB.
abbrev pub IsValue : Value → Type 0
IsValue null = Unit
IsValue (boolean b) = Unit
IsValue (int4 v) = IsI32 v
IsValue (int8 v) = IsI64 v
IsValue (float8 v) = v < 2 ^ 64
IsValue (text s) = (is_utf8 s ≡ true) × (length s < 2 ^ 32)
IsValue (timestamp v) = IsI64 v
IsValue (uuid v) = v < 2 ^ 128
IsValue (json s) = (is_utf8 s ≡ true) × (length s < 2 ^ 32)

-- ===== src/Storage/Codec/Rows/RoundTrip.antt =====
-- Decoding a row that `encode_row` of ferrite-storage/src/codec.rs wrote.
use ferrite.Prelude.{
  ◌<◌, ltb, if◌then◌else◌, All, ◌%◌, ◌^◌, ◌<◌, ◌≡◌, refl, ap, ◌∙◌, true, false, List, [], ◌∷◌, ◌++◌,
  arith, append_assoc, append-nil, length, All, ltb, if◌then◌else◌,
}
use native.Mathlib.Nat.{mod-eq_of_lt}
use ferrite.Prelude.Int.{
  i32_to_u32-lt, u32_to_i32-i32_to_u32, i64_to_u64-lt, u64_to_i64-i64_to_u64, u32_to_i32,
  u64_to_i64,
}
use ferrite.Common.Error.{ok, err}
use ferrite.Common.Value.{
  Value, null, boolean, int4, int8, float8, text, timestamp, uuid, json, Row,
}
use ferrite.Storage.Codec.Reader.{Bytes, take, u32}
use ferrite.Storage.Codec.Reader.Parses.{
  Parses, Parses-eq, Parses-pure, Parses-bind, Parses-map, Parses-take, Parses-u8, Parses-u32,
  Parses-u64, Parses-u128, concat, bind-ok,
}
use ferrite.Storage.Codec.Reader.Counted.{counted, is_empty-unread, take-announced}
use ferrite.Storage.Codec.Writer
use ferrite.Storage.Codec.Writer.{to_le}
use ferrite.Storage.Codec.Text.{is_utf8}
use ferrite.Storage.Codec.Rows.{
  encode_value, encode_values, encode_row, decode_row, encode_row, trailing_bytes, from_utf8,
  decode_string, decode_tagged, decode_value, decode_row, trailing_bytes, IsValue,
}

-- What one value adds to the buffer.
abbrev pub value_bytes : Value → Bytes
value_bytes v = encode_value [] v

encode_value-append : (w : Bytes) (v : Value) → encode_value w v ≡ w ++ value_bytes v
unfolding encode_value Writer.u8 Writer.u32 Writer.u64 Writer.u128 Writer.len_prefixed Writer.bytes
encode_value-append w null = refl
encode_value-append w (boolean b) = simp append_assoc
encode_value-append w (text s) = simp append_assoc
encode_value-append w (json s) = simp append_assoc
encode_value-append w _ = simp append_assoc

encode_values-append :
    (w : Bytes) (vs : List Value) → encode_values w vs ≡ w ++ concat value_bytes vs
unfolding encode_values
encode_values-append w [] = simp append-nil
encode_values-append w (v ∷ vs) =
    encode_values-append (encode_value w v) vs
    ∙ rw (encode_value-append w v) (append_assoc w (value_bytes v) (concat value_bytes vs))

-- A row is its count of values and their encodings.
pub encode_row-bytes :
    (row : Row)
    → encode_row row ≡ to_le 2 (length row.values % 2 ^ 16) ++ concat value_bytes row.values
unfolding encode_row Writer.u16
encode_row-bytes row = encode_values-append _ row.values

Parses-string :
    (s : Bytes)
    → is_utf8 s ≡ true
    → length s < 2 ^ 32
    → Parses decode_string (to_le 4 (length s % 2 ^ 32) ++ s) s
unfolding decode_string
Parses-string s valid fits = record {
  at = λ rest.
      rw (mod-eq_of_lt fits, append_assoc (to_le 4 (length s)) s rest)
        (bind-ok u32 _ ((Parses-u32 (length s) fits).at (s ++ rest))
          ∙ bind-ok (take (length s)) from_utf8 ((Parses-take (length s) s refl).at rest)
          ∙ rw valid);
}

Parses-value : (v : Value) → IsValue v → Parses decode_value (value_bytes v) v
unfolding decode_value encode_value Writer.u8 Writer.u32 Writer.u64 Writer.u128 Writer.len_prefixed
    Writer.bytes
Parses-value null h = Parses-bind decode_tagged (Parses-u8 0) (Parses-pure null)
Parses-value (boolean true) h = Parses-bind decode_tagged (Parses-u8 1) (Parses-map _ (Parses-u8 1))
Parses-value (boolean false) h =
    Parses-bind decode_tagged (Parses-u8 1) (Parses-map _ (Parses-u8 0))
Parses-value (int4 v) h = Parses-bind decode_tagged (Parses-u8 2) (
    Parses-eq (Parses-map (λ x. int4 (u32_to_i32 x)) (Parses-u32 _ (i32_to_u32-lt v h)))
      (ap int4 (u32_to_i32-i32_to_u32 v h)))
Parses-value (int8 v) h = Parses-bind decode_tagged (Parses-u8 3) (
    Parses-eq (Parses-map (λ x. int8 (u64_to_i64 x)) (Parses-u64 _ (i64_to_u64-lt v h)))
      (ap int8 (u64_to_i64-i64_to_u64 v h)))
Parses-value (float8 v) h =
    Parses-bind decode_tagged (Parses-u8 4) (Parses-map float8 (Parses-u64 v h))
Parses-value (text s) h =
    Parses-bind decode_tagged (Parses-u8 5) (Parses-map text (Parses-string s h.0 h.1))
Parses-value (timestamp v) h = Parses-bind decode_tagged (Parses-u8 6) (
    Parses-eq (Parses-map (λ x. timestamp (u64_to_i64 x)) (Parses-u64 _ (i64_to_u64-lt v h)))
      (ap timestamp (u64_to_i64-i64_to_u64 v h)))
Parses-value (uuid v) h =
    Parses-bind decode_tagged (Parses-u8 7) (Parses-map uuid (Parses-u128 v h))
Parses-value (json s) h =
    Parses-bind decode_tagged (Parses-u8 8) (Parses-map json (Parses-string s h.0 h.1))

value_bytes-pos : (v : Value) → IsValue v → 0 < length (value_bytes v)
unfolding encode_value Writer.u8 Writer.u32 Writer.u64 Writer.u128 Writer.len_prefixed Writer.bytes
value_bytes-pos null h = omega arith
value_bytes-pos _ h = omega arith

-- For a row of valid values, decode_row on the encoded row gives the row, unless its count of
-- values wrapped at 65,536: then it is refused for trailing bytes.
pub decode_row-encode_row :
    (row : Row)
    → All IsValue row.values
    → decode_row (encode_row row)
      ≡ (if ltb (length row.values) (2 ^ 16) then ok row else err trailing_bytes)
unfolding decode_row
decode_row-encode_row row h =
    rw
      (
        encode_row-bytes row,
        counted decode_value value_bytes IsValue Parses-value row.values h,
        is_empty-unread decode_value value_bytes IsValue value_bytes-pos row.values h,
      )
      (ground (arith, take-announced row.values))

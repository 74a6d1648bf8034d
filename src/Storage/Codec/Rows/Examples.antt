-- ===== src/Storage/Codec/Rows/Examples.antt =====
-- A row, there and back.
use ferrite.Prelude.{◌≡◌, refl, true, [], ◌∷◌, All, arith}
use ferrite.Prelude.Int.{negsuc, i32_to_u32}
use ferrite.Common.Error.{ok, err}
use ferrite.Common.Value.{null, boolean, int4, text, Row}
use ferrite.Storage.Codec.Reader.{◌>>=◌, is_empty, take, from_le, u8, u16, repeat}
use ferrite.Storage.Codec.Writer
use ferrite.Storage.Codec.Text.{is_utf8}
use ferrite.Storage.Codec.Rows.{
  encode_value, encode_values, encode_row, decode_value, decode_row, IsValue, trailing_bytes,
}
use ferrite.Storage.Codec.Rows.RoundTrip.{decode_row-encode_row}
use ferrite.Storage.Codec.Rows.Truncation.{decode_row-append}

-- The text is the two bytes of "é".
abbrev small_row : Row
small_row = record { values = null ∷ boolean true ∷ int4 (negsuc 0) ∷ text (0xc3 ∷ 0xa9 ∷ []) ∷ [] }

accented : is_utf8 (0xc3 ∷ 0xa9 ∷ []) ≡ true
unfolding is_utf8
accented = refl

small_row-IsValue : All IsValue small_row.values
small_row-IsValue = (tt, (tt, (omega arith, ((accented, omega arith), tt))))

decode_row-encode_row_example : decode_row (encode_row small_row) ≡ ok small_row
decode_row-encode_row_example = decode_row-encode_row small_row small_row-IsValue

encode_row_runs :
    encode_row small_row
    ≡ 4 ∷ 0 ∷ 0 ∷ 1 ∷ 1 ∷ 2 ∷ 255 ∷ 255 ∷ 255 ∷ 255 ∷ 5 ∷ 2 ∷ 0 ∷ 0 ∷ 0 ∷ 0xc3 ∷ 0xa9 ∷ []
unfolding encode_row encode_values encode_value i32_to_u32 Writer.u8 Writer.u16 Writer.u32
    Writer.len_prefixed Writer.bytes Writer.to_le
encode_row_runs = refl

pub decode_row_runs : decode_row (1 ∷ 0 ∷ 1 ∷ 7 ∷ []) ≡ ok (record { values = boolean true ∷ [] })
unfolding decode_row decode_value ◌>>=◌ take from_le u8 u16 repeat is_empty
decode_row_runs = refl

decode_row-append_example : decode_row (1 ∷ 0 ∷ 1 ∷ 7 ∷ 0 ∷ []) ≡ err trailing_bytes
decode_row-append_example = decode_row-append (1 ∷ 0 ∷ 1 ∷ 7 ∷ []) [] 0 _ decode_row_runs

-- ===== src/Storage/Codec/Rows/Truncation.antt =====
-- `decode_row` of ferrite-storage/src/codec.rs takes its whole input.
use ferrite.Prelude.{ℕ, ◌≡◌, refl, List, [], ◌∷◌, ◌++◌}
use ferrite.Common.Error.{Result, ok, err}
use ferrite.Common.Value.{Value, Row}
use ferrite.Storage.Codec.Reader.{Bytes, is_empty, is_empty}
use ferrite.Storage.Codec.Reader.Stable.{IsStable, reader_rules}
use ferrite.Storage.Codec.Rows.{
  finish_row, decode_string, decode_tagged, decode_value, read_values, finish_row, decode_row,
  trailing_bytes,
}

IsStable-string : IsStable decode_string
unfolding decode_string
IsStable-string = search reader_rules

IsStable-tagged : (tag : ℕ) → IsStable (decode_tagged tag)
unfolding decode_tagged
IsStable-tagged tag = search (reader_rules, IsStable-string) depth 24

pub IsStable-value : IsStable decode_value
unfolding decode_value
IsStable-value = search (reader_rules, IsStable-tagged)

IsStable-values : IsStable read_values
unfolding read_values
IsStable-values = search (reader_rules, IsStable-value)

finish_row-append :
    (src more : Bytes) (x : ℕ) (row : Row) (r : Result (List Value × Bytes))
    → read_values src ≡ r
    → finish_row r ≡ ok row
    → finish_row (read_values (src ++ x ∷ more)) ≡ err trailing_bytes
unfolding finish_row is_empty
finish_row-append src more x row (ok (values, [])) e h =
    rw (IsStable-values.at src (x ∷ more) values [] e, finish_row)
finish_row-append src more x row (ok (values, b ∷ rest)) e h = cc
finish_row-append src more x row (err y) e h = cc

-- Bytes behind an accepted row make decode_row refuse the input for trailing bytes: no accepted
-- input is a proper prefix of another.
pub decode_row-append :
    (src more : Bytes) (x : ℕ) (row : Row)
    → decode_row src ≡ ok row
    → decode_row (src ++ x ∷ more) ≡ err trailing_bytes
unfolding decode_row
decode_row-append src more x row h = finish_row-append src more x row (read_values src) refl h

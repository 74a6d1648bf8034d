-- ===== src/Exec/Conform.antt =====
-- `fill_added_columns`, `conform_row` and `widen` of ferrite-exec/src/executor.rs: stored rows against a
-- schema that has grown, and rows on their way to the storage against their schema.
pub mod Accepted
use ferrite.Prelude.{
  ℕ, Bool, true, false, Option, none, some, List, [], ◌∷◌, ◌++◌, map, length, drop, ◌==◌,
  if◌then◌else◌,
}
use ferrite.Common.Error.{Message, exec, type_mismatch, Result, ok, err, ◌>>=◌}
use ferrite.Common.Value.{Value, null, int4, int8, float8, DataType, Row, data_type}
use ferrite.Common.Schema.{ColumnDef, ColumnDefault, constant_value, Schema, same_type}
use ferrite.Exec.Compare.{Machine}

-- The constant default of a column, or a null.
filler : Option ColumnDefault → Value
filler none = null
filler (some default) = elim (constant_value default) [ none ↦ null | some v ↦ v ]

unfoldable pub fill_added_columns : Schema → Row → Row
unfolding filler
fill_added_columns schema row = record {
  values = row.values ++ map (λ c. filler c.default) (drop (length row.values) schema.columns);
}

module _ (m : Machine) where
  pub widen : Value → DataType → Option Value
  widen (int4 v) DataType.int8 = some (int8 v)
  widen (int4 v) DataType.float8 = some (float8 (m.from_int v))
  widen (int8 v) DataType.float8 = some (float8 (m.from_int v))
  widen _ _ = none

  widened : Option Value → DataType → DataType → Result Value
  widened (some v) expected actual = ok v
  widened none expected actual = err (type_mismatch expected actual)

  typed_value : ColumnDef → Value → Option DataType → Result Value
  unfolding same_type widen widened
  typed_value column value none =
      if column.nullable
      then ok value
      else err (exec (Message.with_text "the column is not nullable" column.name))
  typed_value column value (some actual) =
      if same_type actual column.data_type
      then ok value
      else widened (widen value column.data_type) column.data_type actual

  conform_values : List ColumnDef → List Value → Result (List Value)
  unfolding typed_value
  conform_values (c ∷ cs) (v ∷ vs) =
      typed_value c v (data_type v) >>= λ w. conform_values cs vs >>= λ ws. ok (w ∷ ws)
  conform_values _ vs = ok vs

  unfoldable pub conform_row : Schema → Row → List ℕ → Result Row
  unfolding conform_values
  conform_row schema row table =
      if length row.values == length schema.columns
      then (conform_values schema.columns row.values >>= λ vs. ok (record { values = vs }))
      else err
          (exec (Message.with_text "the row has not as many values as the table columns" table))

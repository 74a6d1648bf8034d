-- ===== src/Common/Schema.antt =====
-- ferrite-common/src/schema.rs: columns and their defaults.
use ferrite.Prelude.{
  ℕ, Bool, true, false, not, ◌&&◌, Option, none, some, List, [], ◌∷◌, suc, same_list, if◌then◌else◌,
}
use ferrite.Common.Value.{DataType, Value, same_value}

pub data ColumnDefault : Type 0 where
  constant : Value → ColumnDefault
  current_timestamp : ColumnDefault

-- The constant of a default, where it has one.
abbrev pub constant_value : ColumnDefault → Option Value
constant_value (constant v) = some v
constant_value current_timestamp = none

pub record ColumnDef : Type 0 where
  pub name : List ℕ
  pub data_type : DataType
  pub nullable : Bool
  pub default : Option ColumnDefault

abbrev pub with_default : ColumnDef → ColumnDefault → ColumnDef
with_default c d = record c { default = some d }

pub record Schema : Type 0 where
  pub columns : List ColumnDef

abbrev pub position_of : List ℕ → List ColumnDef → Option ℕ
position_of name [] = none
position_of name (c ∷ cs) =
    let rest = position_of name cs in
    if same_list c.name name then some 0 else elim rest [ none ↦ none | some i ↦ some (suc i) ]

abbrev pub column_index : Schema → List ℕ → Option ℕ
column_index schema name = position_of name schema.columns

-- The derived equality of schemas.
unfoldable pub same_type : DataType → DataType → Bool
same_type DataType.boolean DataType.boolean = true
same_type DataType.int4 DataType.int4 = true
same_type DataType.int8 DataType.int8 = true
same_type DataType.float8 DataType.float8 = true
same_type DataType.text DataType.text = true
same_type DataType.timestamp DataType.timestamp = true
same_type DataType.uuid DataType.uuid = true
same_type DataType.json DataType.json = true
same_type _ _ = false

same_default : Option ColumnDefault → Option ColumnDefault → Bool
same_default none none = true
same_default (some (constant a)) (some (constant b)) = same_value a b
same_default (some current_timestamp) (some current_timestamp) = true
same_default _ _ = false

same_column : ColumnDef → ColumnDef → Bool
unfolding same_type same_default
same_column a b =
    same_list a.name b.name
    && same_type a.data_type b.data_type
    && (if a.nullable then b.nullable else not b.nullable)
    && same_default a.default b.default

same_columns : List ColumnDef → List ColumnDef → Bool
unfolding same_column
same_columns [] [] = true
same_columns [] (b ∷ bs) = false
same_columns (a ∷ rest) [] = false
same_columns (a ∷ rest) (b ∷ bs) = same_column a b && same_columns rest bs

unfoldable pub same_schema : Schema → Schema → Bool
unfolding same_columns
same_schema a b = same_columns a.columns b.columns

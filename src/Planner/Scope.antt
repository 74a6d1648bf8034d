-- ===== src/Planner/Scope.antt =====
-- ferrite-planner/src/scope.rs: the columns that an expression may refer to.
pub mod Join
use ferrite.Prelude.{
  ℕ, zero, suc, Bool, true, false, ◌&&◌, Option, none, some, List, [], ◌∷◌, ◌++◌, map, get_elem?,
  length, same_list, ◌==◌, if◌then◌else◌,
}
use ferrite.Common.Error.{Message, plan, column_not_found, Result, ok, err}
use ferrite.Common.Schema.{ColumnDef, Schema}
use ferrite.Planner.Named.{ColumnRef, shown}

pub record ScopeColumn : Type 0 where
  pub qualifiers : List (List ℕ)
  pub column : ColumnDef

pub record Scope : Type 0 where
  pub columns : List ScopeColumn

abbrev pub empty : Scope
empty = record { columns = [] }

abbrev pub for_relation : Schema → List (List ℕ) → Scope
for_relation schema qualifiers = record {
  columns = map (λ c. record { qualifiers = qualifiers; column = c }) schema.columns;
}

abbrev pub anonymous : Schema → Scope
anonymous schema = for_relation schema []

abbrev pub concat : Scope → Scope → Scope
concat left right = record { columns = left.columns ++ right.columns }

abbrev pub made_nullable : ScopeColumn → ScopeColumn
made_nullable entry = record entry { column = record entry.column { nullable = true } }

abbrev pub nullable : Scope → Scope
nullable scope = record { columns = map made_nullable scope.columns }

abbrev pub contains : List ℕ → List (List ℕ) → Bool
contains name [] = false
contains name (q ∷ qs) = let rest = contains name qs in if same_list q name then true else rest

-- Whether a reference names a column.
abbrev pub names : ColumnRef → ScopeColumn → Bool
names reference entry = same_list entry.column.name reference.name && elim reference.qualifier [
  | none ↦ true
  | some qualifier ↦ contains qualifier entry.qualifiers
]

-- The positions, from `first` on, of the columns that pass a test.
abbrev pub positions_from : (ScopeColumn → Bool) → ℕ → List ScopeColumn → List ℕ
positions_from test first [] = []
positions_from test first (entry ∷ rest) =
    let later = positions_from test (suc first) rest in if test entry then first ∷ later else later

abbrev pub candidates : Scope → ColumnRef → List ℕ
candidates scope reference = positions_from (names reference) 0 scope.columns

abbrev pub can_resolve : Scope → ColumnRef → Bool
can_resolve scope reference = length (candidates scope reference) == 1

abbrev pub the_only : ColumnRef → List ℕ → Result ℕ
the_only reference [] = err (column_not_found (Message.with_text "" (shown reference)))
the_only reference (position ∷ []) = ok position
the_only reference (position ∷ other ∷ more) =
    err (plan (Message.with_text "column reference is ambiguous" (shown reference)))

abbrev pub resolve : Scope → ColumnRef → Result ℕ
resolve scope reference = the_only reference (candidates scope reference)

abbrev pub or_out_of_range : ℕ → Option ScopeColumn → Result ColumnDef
or_out_of_range position none = err (plan (Message.with_number "column out of range" position))
or_out_of_range position (some entry) = ok entry.column

abbrev pub column_at : Scope → ℕ → Result ColumnDef
column_at scope position = or_out_of_range position (get_elem? scope.columns position)

abbrev pub positions_for : Scope → List ℕ → List ℕ
positions_for scope qualifier =
    positions_from (λ entry. contains qualifier entry.qualifiers) 0 scope.columns

abbrev pub schema : Scope → Schema
schema scope = record { columns = map (λ entry. entry.column) scope.columns }

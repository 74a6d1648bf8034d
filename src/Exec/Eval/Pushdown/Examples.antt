-- ===== src/Exec/Eval/Pushdown/Examples.antt =====
-- The theorems on pushed predicates at a join of two tables.
use ferrite.Prelude.{
  ℕ, ◌≡◌, refl, false, none, some, List, [], ◌∷◌, ◌++◌, length, replicate, length-replicate,
  same_list,
}
use ferrite.Prelude.Int.{pos}
use ferrite.Common.Error.{ok, err, plan, Message}
use ferrite.Common.Value.{null, int4, int8, DataType}
use ferrite.Common.Schema.{ColumnDef}
use ferrite.Planner.Named.{Expr, column, literal, and, eq, referenced_columns}
use ferrite.Planner.Scope.{Scope, for_relation, resolve}
use ferrite.Planner.Logical.{
  TableSource, JoinType, LogicalPlan, scan, join, filter, join_scope, split_conjunction,
}
use ferrite.Planner.Rules.{left, side, optimize}
use ferrite.Planner.Rules.Relation.{Table}
use ferrite.Planner.Rules.Relation.Widths.{Wide}
use ferrite.Planner.Bind.{Lowering}
use ferrite.Exec.Eval.Examples.{machine, scalars}
use ferrite.Exec.Eval.Locality.{Slotless}
use ferrite.Exec.Eval.Pushdown.{evaluated, evaluated-side_left, evaluated-side_right}
use ferrite.Exec.Eval.Pushdown.Keeps.{keeps, keeps_all, keeps_all-split_conjunction}
use ferrite.Exec.Eval.Pushdown.Plans.{IsFrom, rows}
use ferrite.Exec.Eval.Pushdown.Optimized.{rows-optimize}

abbrev lowering : Lowering
lowering = record {
  parse_uuid = λ s. ok 0;
  parse_timestamp = λ s. ok (pos 0);
  from_int = λ v. 0;
  width = λ q. ok 1;
}

abbrev int_column : List ℕ → ColumnDef
int_column name = record {
  name = name;
  data_type = DataType.int8;
  nullable = false;
  default = none;
}

-- A table `u` with a column `i`, and a table `p` with the columns `a` and `t`.
abbrev users : TableSource
users = record {
  id = 1;
  name = 117 ∷ [];
  alias = none;
  schema = record { columns = int_column (105 ∷ []) ∷ [] };
}

abbrev posts : TableSource
posts = record {
  id = 2;
  name = 112 ∷ [];
  alias = none;
  schema = record { columns = int_column (97 ∷ []) ∷ int_column (116 ∷ []) ∷ [] };
}

abbrev named : ℕ → Expr
named c = column (record { qualifier = none; name = c ∷ [] })

abbrev is_seven : Expr
is_seven = eq (named 105) (literal (int4 (pos 7)))

abbrev by_author : Expr
by_author = eq (named 105) (named 97)

abbrev titled : Expr
titled = eq (named 116) (literal (int4 (pos 3)))

abbrev users_scope : Scope
users_scope = for_relation users.schema ((117 ∷ []) ∷ [])

abbrev posts_scope : Scope
posts_scope = for_relation posts.schema ((112 ∷ []) ∷ [])

evaluated-side_left_example :
    evaluated machine scalars lowering
      (join_scope JoinType.left users_scope posts_scope)
      ((int8 (pos 7) ∷ []) ++ (null ∷ null ∷ []))
      is_seven
    ≡ evaluated machine scalars lowering users_scope (int8 (pos 7) ∷ []) is_seven
unfolding Slotless referenced_columns same_list
evaluated-side_left_example =
    evaluated-side_left machine scalars lowering JoinType.left users_scope posts_scope
      (int8 (pos 7) ∷ []) (null ∷ null ∷ []) is_seven refl (tt, tt) (refl, tt) refl

evaluated-side_right_example :
    evaluated machine scalars lowering
      (join_scope JoinType.right users_scope posts_scope)
      ((null ∷ []) ++ (int8 (pos 1) ∷ int8 (pos 3) ∷ []))
      titled
    ≡ evaluated machine scalars lowering posts_scope (int8 (pos 1) ∷ int8 (pos 3) ∷ []) titled
unfolding Slotless referenced_columns same_list
evaluated-side_right_example =
    evaluated-side_right machine scalars lowering JoinType.right users_scope posts_scope (null ∷ [])
      (int8 (pos 1) ∷ int8 (pos 3) ∷ []) titled refl (tt, tt) (refl, tt) refl refl

keeps_all-split_conjunction_example :
    keeps_all machine scalars lowering users_scope
      (split_conjunction (and is_seven is_seven))
      (int8 (pos 7) ∷ [])
    ≡ keeps machine scalars lowering users_scope (and is_seven is_seven) (int8 (pos 7) ∷ [])
keeps_all-split_conjunction_example =
    keeps_all-split_conjunction machine scalars lowering users_scope (and is_seven is_seven)
      (int8 (pos 7) ∷ [])

-- A row of sevens in each table.
abbrev tables : TableSource → Table
tables source = replicate (length source.schema.columns) (int8 (pos 7)) ∷ []

tables-Wide : (source : TableSource) → Wide (length source.schema.columns) (tables source)
tables-Wide source = (length-replicate (length source.schema.columns) (int8 (pos 7)), tt)

-- FROM u LEFT JOIN p ON i = a AND t = 3 WHERE i = 7
abbrev query : LogicalPlan
query =
    filter (join (scan users none) (scan posts none) JoinType.left (some (and by_author titled)))
      is_seven

query-IsFrom : IsFrom query
unfolding Slotless referenced_columns same_list
query-IsFrom =
    ((tt, tt, (((tt, tt), (tt, tt)), (refl, (refl, (refl, tt))))), ((tt, tt), (refl, tt)))

rows-optimize_example :
    rows machine scalars lowering tables (optimize query)
    ≡ rows machine scalars lowering tables query
rows-optimize_example = rows-optimize machine scalars lowering tables tables-Wide query query-IsFrom

-- The condition on `u` sinks into its scan, and that on `p` into the side that is padded.
pushed_query :
    optimize query
    ≡ join (scan users (some is_seven)) (scan posts (some titled)) JoinType.left (some by_author)
unfolding optimize referenced_columns same_list
pushed_query = refl

-- A name in three tables, two of them on one side: it is ambiguous in the join, and pushed.
abbrev thrice : Expr
thrice = eq (named 105) (literal (int8 (pos 7)))

ambiguous :
    resolve
      (join_scope JoinType.inner users_scope (join_scope JoinType.inner users_scope users_scope))
      (record { qualifier = none; name = 105 ∷ [] })
    ≡ err (plan (Message.with_text "column reference is ambiguous" (105 ∷ [])))
unfolding same_list
ambiguous = refl

pushed_ambiguous :
    side thrice users_scope (join_scope JoinType.inner users_scope users_scope) ≡ some left
unfolding referenced_columns same_list
pushed_ambiguous = refl

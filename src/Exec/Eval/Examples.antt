-- ===== src/Exec/Eval/Examples.antt =====
-- The theorems on `eval` at concrete expressions and rows.
use ferrite.Prelude.{◌≡◌, refl, true, ◌↔◌, [], ◌∷◌}
use ferrite.Prelude.Int.{pos, ◌+ℤ◌}
use ferrite.Common.Error.{ok, err}
use ferrite.Common.Value.{null, boolean, int4, int8, Row}
use ferrite.Planner.Expr.{BinaryOp, is_arithmetic, PhysExpr, column, literal, binary}
use ferrite.Exec.Compare.{Machine, compare}
use ferrite.Exec.Arithmetic.{out_of_range, is_concat}
use ferrite.Exec.Eval.{Scalars, eval, eval_predicate, matches}
use ferrite.Exec.Eval.Logic.{conj, disj, not_and, eval_predicate-and}
use ferrite.Exec.Eval.Range.Evaluation.{Literals, RowInRange}
use ferrite.Exec.Eval.Range.Exact.{four, eval-exact_result}

abbrev pub machine : Machine
machine = record {
  from_int = λ v. 0;
  add = λ a b. a;
  sub = λ a b. a;
  mul = λ a b. a;
  div = λ a b. a;
  rem = λ a b. a;
}

abbrev pub scalars : Scalars
scalars = record { cast = λ v t. ok v; call = λ f vs. ok null; lowercase = λ s. s; chars = λ s. s }

-- A row of a null, a truth and a number.
abbrev row : Row
row = record { values = null ∷ boolean true ∷ int4 (pos 7) ∷ [] }

abbrev two_billion : PhysExpr
two_billion = literal (int4 (pos 2000000000))

abbrev is_seven : PhysExpr
is_seven = binary (column 2) BinaryOp.equal (literal (int8 (pos 7)))

not_and_example :
    eval machine scalars (PhysExpr.not (conj (column 0) is_seven)) row
    ≡ eval machine scalars (disj (PhysExpr.not (column 0)) (PhysExpr.not is_seven)) row
not_and_example = not_and machine scalars (column 0) is_seven row

eval_predicate-and_example :
    (eval_predicate machine scalars (conj (column 1) is_seven) row ≡ ok true) ↔ (
      (eval_predicate machine scalars (column 1) row ≡ ok true)
      × (eval_predicate machine scalars is_seven row ≡ ok true))
eval_predicate-and_example = eval_predicate-and machine scalars (column 1) is_seven row

row-InRange : RowInRange row.values
row-InRange = ((tt, (tt, (refl, tt))))

-- Four thousand million do not fit four bytes.
eval-exact_result_example :
    eval machine scalars (binary two_billion BinaryOp.plus two_billion) row ≡ err out_of_range
unfolding eval ◌+ℤ◌
eval-exact_result_example =
    eval-exact_result machine scalars (λ v t h. h) (λ f vs h. tt) row row-InRange BinaryOp.plus
      two_billion two_billion four four (pos 2000000000) (pos 2000000000) refl
      (unfold Literals in refl) refl refl

-- The sum of two numbers of four bytes is a number of four bytes or an error.
too_wide :
    eval machine scalars (binary two_billion BinaryOp.plus two_billion) row ≡ err out_of_range
unfolding eval is_arithmetic is_concat ◌+ℤ◌
too_wide = refl

in_range :
    eval machine scalars (binary two_billion BinaryOp.plus (column 2)) row
    ≡ ok (int4 (pos 2000000007))
unfolding eval is_arithmetic is_concat ◌+ℤ◌
in_range = refl

-- A null and a number that is seven.
unknown : eval machine scalars (conj (column 0) is_seven) row ≡ ok null
unfolding eval is_arithmetic compare matches
unknown = refl

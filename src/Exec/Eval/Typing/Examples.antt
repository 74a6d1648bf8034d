-- ===== src/Exec/Eval/Typing/Examples.antt =====
-- The theorem on inferred types at a sum over a column.
use ferrite.Prelude.{◌≡◌, refl, true, none, [], ◌∷◌, same_list}
use ferrite.Prelude.Int.{pos}
use ferrite.Common.Error.{ok}
use ferrite.Common.Value.{null, int4, int8, DataType, Row}
use ferrite.Planner.Expr.{BinaryOp, is_arithmetic}
use ferrite.Planner.Named.{Expr, column, literal, binary}
use ferrite.Planner.Scope.{Scope}
use ferrite.Planner.Infer.{infer}
use ferrite.Planner.Bind.{Lowering, bind}
use ferrite.Exec.Eval.{Scalars}
use ferrite.Exec.Eval.Examples.{machine}
use ferrite.Exec.Eval.Typing.{pair}
use ferrite.Exec.Eval.Typing.Operators.{Typed}
use ferrite.Exec.Eval.Typing.Soundness.{infer-Typed}

abbrev scalars : Scalars
scalars = record {
  cast = λ v t. ok null;
  call = λ f vs. ok null;
  lowercase = λ s. s;
  chars = λ s. s;
}

abbrev lowering : Lowering
lowering = record {
  parse_uuid = λ s. ok 0;
  parse_timestamp = λ s. ok (pos 0);
  from_int = λ v. 0;
  width = λ q. ok 1;
}

-- One nullable column `i` of bigints.
abbrev numbers : Scope
numbers = record {
  columns =
      record {
        qualifiers = [];
        column = record {
          name = 105 ∷ [];
          data_type = DataType.int8;
          nullable = true;
          default = none;
        };
      }
      ∷ [];
}

abbrev row : Row
row = record { values = int8 (pos 35) ∷ [] }

-- i + 7
abbrev sum : Expr
sum =
    binary (column (record { qualifier = none; name = 105 ∷ [] })) BinaryOp.plus
      (literal (int4 (pos 7)))

sum_type : infer sum numbers ≡ ok (pair DataType.int8 true)
unfolding infer is_arithmetic same_list
sum_type = refl

infer-Typed_example : Typed machine scalars row DataType.int8 true (bind lowering sum numbers)
infer-Typed_example =
    infer-Typed machine scalars lowering (λ v t. refl) numbers row (refl, tt) sum DataType.int8 true
      (tt, tt) sum_type

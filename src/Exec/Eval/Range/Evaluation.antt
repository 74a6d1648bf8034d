-- ===== src/Exec/Eval/Range/Evaluation.antt =====
-- The values that `eval` of ferrite-exec/src/eval.rs returns, and the widths of their types.
use ferrite.Prelude.{ℕ, zero, suc, Bool, true, false, Option, none, some, List, [], ◌∷◌, get_elem?}
use ferrite.Common.Error.{Result}
use ferrite.Common.Value.{Value, null, text, DataType, Row}
use ferrite.Planner.Expr.{
  ScalarFunc, PhysExpr, column, literal, binary, like, case, cast, function, in_subquery, OptExpr,
  absent, present, Exprs, nil, cons, Branches, end, branch,
}
use ferrite.Exec.Compare.{Machine}
use ferrite.Exec.Eval.{
  Scalars, like_values, like_result, matched_text, or_out_of_bounds, taken, not_value, or_null,
  eval, eval_opt, eval_args, eval_branches,
}
use ferrite.Exec.Eval.Range.{
  InRange, Ensures, Ensures-bind, any_result, connective_InRange, binary_value-InRange,
}

abbrev pub RowInRange : List Value → Type 0
RowInRange [] = Unit
RowInRange (v ∷ vs) = InRange v × RowInRange vs

abbrev OptInRange : Option Value → Type 0
OptInRange none = Unit
OptInRange (some v) = InRange v

-- The literals of an expression fit their types.
unfoldable mutual
  pub Literals : PhysExpr → Type 0
  Literals (column i) = Unit
  Literals (literal v) = InRange v
  Literals (binary a op b) = Literals a × Literals b
  Literals (PhysExpr.not e) = Literals e
  Literals (PhysExpr.is_null e) = Literals e
  Literals (like a b n c) = Literals a × Literals b
  Literals (case o bs e) = OptLiterals o × BranchLiterals bs × OptLiterals e
  Literals (cast e t) = Literals e
  Literals (function f args) = ArgLiterals args
  Literals (in_subquery e n) = Literals e

  pub OptLiterals : OptExpr → Type 0
  OptLiterals absent = Unit
  OptLiterals (present e) = Literals e

  pub ArgLiterals : Exprs → Type 0
  ArgLiterals nil = Unit
  ArgLiterals (cons e es) = Literals e × ArgLiterals es

  pub BranchLiterals : Branches → Type 0
  BranchLiterals end = Unit
  BranchLiterals (branch w t bs) = Literals w × Literals t × BranchLiterals bs

or_out_of_bounds-InRange :
    (vs : List Value) (i at : ℕ)
    → RowInRange vs
    → Ensures InRange (or_out_of_bounds at (get_elem? vs i))
unfolding or_out_of_bounds
or_out_of_bounds-InRange [] i at h = tt
or_out_of_bounds-InRange (v ∷ vs) zero at h = h.0
or_out_of_bounds-InRange (v ∷ vs) (suc i) at h = or_out_of_bounds-InRange vs i at h.1

or_null-InRange : (o : Option Value) → OptInRange o → InRange (or_null o)
unfolding or_null
or_null-InRange none h = tt
or_null-InRange (some v) h = h

not_value-InRange : (b : Option Bool) → InRange (not_value b)
unfolding not_value
not_value-InRange none = tt
not_value-InRange (some b) = tt

like_result-InRange : (n : Bool) (o : Option Bool) → InRange (like_result n o)
unfolding like_result
like_result-InRange n none = tt
like_result-InRange n (some b) = tt

like_values-InRange :
    (m : Machine) (sc : Scalars) (n c : Bool) (s p : Value)
    → Ensures InRange (like_values m sc n c s p)
unfolding like_values
like_values-InRange m sc n c (text s) (text p) = like_result-InRange n (matched_text m sc c s p)
like_values-InRange m sc n c _ null = tt
like_values-InRange m sc n c _ _ = tt

module _ (m : Machine) (sc : Scalars)
    (cast_in_range : (v : Value) (t : DataType) → InRange v → Ensures InRange (sc.cast v t))
    (call_in_range : (f : ScalarFunc) (vs : List Value)
      → RowInRange vs
      → Ensures InRange (sc.call f vs))
    (row : Row) (fits : RowInRange row.values) where
  mutual
    unfolding eval Literals

    eval_fits : (e : PhysExpr) → Literals e → Ensures InRange (eval m sc e row)
    eval_fits (column i) h = or_out_of_bounds-InRange row.values i i fits
    eval_fits (literal v) h = h
    eval_fits (binary a op b) h =
        binary_value-InRange m sc op (eval m sc a row) (eval m sc b row) (eval_fits a h.0)
    eval_fits (PhysExpr.not e) h =
        connective_InRange m (eval m sc e row) _ (λ b. not_value-InRange b)
    eval_fits (PhysExpr.is_null e) h =
        Ensures-bind (λ v. Unit) InRange (eval m sc e row) _ (any_result m (eval m sc e row))
          (λ v k. tt)
    eval_fits (like a b n c) h =
        Ensures-bind (λ v. Unit) InRange (eval m sc a row) _ (any_result m (eval m sc a row))
          (λ s k.
            Ensures-bind (λ v. Unit) InRange (eval m sc b row) _ (any_result m (eval m sc b row))
              (λ p j. like_values-InRange m sc n c s p))
    eval_fits (case o bs e) h =
        Ensures-bind OptInRange InRange (eval_opt m sc o row) _ (opt_fits o h.0) (λ v k.
          branches_fits v bs _ h.1 (
            Ensures-bind OptInRange InRange (eval_opt m sc e row) _ (opt_fits e h.2)
              or_null-InRange))
    eval_fits (cast e t) h =
        Ensures-bind InRange InRange (eval m sc e row) _ (eval_fits e h)
          (λ v k. cast_in_range v t k)
    eval_fits (function f args) h =
        Ensures-bind RowInRange InRange (eval_args m sc args row) _ (args_fits args h)
          (λ vs k. call_in_range f vs k)
    eval_fits (in_subquery e n) h = tt

    opt_fits : (o : OptExpr) → OptLiterals o → Ensures OptInRange (eval_opt m sc o row)
    opt_fits absent h = tt
    opt_fits (present e) h =
        Ensures-bind InRange OptInRange (eval m sc e row) _ (eval_fits e h) (λ v k. k)

    args_fits : (es : Exprs) → ArgLiterals es → Ensures RowInRange (eval_args m sc es row)
    args_fits nil h = tt
    args_fits (cons e es) h =
        Ensures-bind InRange RowInRange (eval m sc e row) _ (eval_fits e h.0) (λ v k.
          Ensures-bind RowInRange RowInRange (eval_args m sc es row) _ (args_fits es h.1)
            (λ vs j. (k, j)))

    branches_fits :
        (o : Option Value) (bs : Branches) (e : Result Value)
        → BranchLiterals bs
        → Ensures InRange e
        → Ensures InRange (eval_branches m sc o bs e row)
    branches_fits o end e h k = k
    branches_fits o (branch w t bs) e h k =
        Ensures-bind (λ v. Unit) InRange (eval m sc w row) _ (any_result m (eval m sc w row))
          (λ v j.
            Ensures-bind (λ b. Unit) InRange (taken m sc o v) _ (any_result m (taken m sc o v))
              (λ b i.
                elim b
                  as (λ q.
                    Ensures InRange
                      (elim q [ true ↦ eval m sc t row | false ↦ eval_branches m sc o bs e row ])) [
                        | true ↦ eval_fits t h.1
                        | false ↦ branches_fits o bs e h.2 k
                      ]))

  -- If the row and the literals of an expression hold integers within the widths of their types,
  -- and cast and the scalar functions keep to them, then whatever eval returns does.
  pub eval-InRange : (e : PhysExpr) → Literals e → Ensures InRange (eval m sc e row)
  eval-InRange e h = eval_fits e h

-- ===== src/Exec/Eval/Typing/Operators.antt =====
-- The types of the values that the operators of ferrite-exec/src/eval.rs give.
use Prim.Native.Nat.{Ordering}
use ferrite.Prelude.{
  ℕ, zero, suc, ◌≡◌, refl, subst, Bool, true, false, Option, none, some, List, [], ◌∷◌, get_elem?,
  arith,
}
use ferrite.Common.Error.{FerriteError, Result, ok, err, ◌>>=◌}
use ferrite.Common.Value.{Value, null, text, DataType, Row}
use ferrite.Planner.Expr.{BinaryOp, is_arithmetic, is_comparison, PhysExpr}
use ferrite.Planner.Named.{Expr, binary, case, function}
use ferrite.Planner.Scope.{ScopeColumn}
use ferrite.Exec.Compare.{Machine, compare}
use ferrite.Exec.Eval.{
  Scalars, eval, binary_value, as_bool, and_then, or_then, and_values, or_values, matched_value,
  like_values, like_result, matched_text, not_value, or_out_of_bounds,
}
use ferrite.Exec.Eval.Range.{Ensures}
use ferrite.Exec.Eval.Typing.{Fits}

-- A truth value or a null.
abbrev pub Truth : Value → Type 0
Truth v = Fits DataType.boolean true v

pub impossible : {A : Type 0} → false ≡ true → A
impossible h = cc

pub impossible_result : {A B : Type 0} {f : FerriteError} {a : B} → err f ≡ ok a → A
impossible_result h = cc

pub not_comparison : (op : BinaryOp) → is_arithmetic op ≡ true → is_comparison op ≡ false
unfolding is_arithmetic is_comparison
not_comparison op h = ground arith

anything : {A : Type 0} (r : Result A) → Ensures (λ a. Unit) r
anything (ok a) = tt
anything (err e) = tt

pub always :
    {A B : Type 0} (Q : B → Type 0) (r : Result A) (f : A → Result B)
    → ((a : A) → Ensures Q (f a))
    → Ensures Q (r >>= f)
always Q (ok a) f h = h a
always Q (err e) f h = tt

and_values-Truth : (a b : Option Bool) → Truth (and_values a b)
unfolding and_values
and_values-Truth a (some false) = refl
and_values-Truth (some true) (some true) = refl
and_values-Truth (some false) (some true) = refl
and_values-Truth none (some true) = refl
and_values-Truth a none = refl

or_values-Truth : (a b : Option Bool) → Truth (or_values a b)
unfolding or_values
or_values-Truth a (some true) = refl
or_values-Truth (some true) (some false) = refl
or_values-Truth (some false) (some false) = refl
or_values-Truth none (some false) = refl
or_values-Truth a none = refl

and_then-Truth : (a : Option Bool) (r : Result Value) → Ensures Truth (and_then a r)
unfolding and_then
and_then-Truth (some false) r = refl
and_then-Truth (some true) r =
    always Truth r _ (λ v. always Truth (as_bool v) _ (λ b. and_values-Truth (some true) b))
and_then-Truth none r =
    always Truth r _ (λ v. always Truth (as_bool v) _ (λ b. and_values-Truth none b))

or_then-Truth : (a : Option Bool) (r : Result Value) → Ensures Truth (or_then a r)
unfolding or_then
or_then-Truth (some true) r = refl
or_then-Truth (some false) r =
    always Truth r _ (λ v. always Truth (as_bool v) _ (λ b. or_values-Truth (some false) b))
or_then-Truth none r =
    always Truth r _ (λ v. always Truth (as_bool v) _ (λ b. or_values-Truth none b))

pub not_value-Truth : (b : Option Bool) → Truth (not_value b)
unfolding not_value
not_value-Truth none = refl
not_value-Truth (some b) = refl

matched-Truth : (op : BinaryOp) (o : Option Ordering) → Truth (matched_value op o)
unfolding matched_value
matched-Truth op none = refl
matched-Truth op (some o) = refl

like_result-Truth : (n : Bool) (o : Option Bool) → Truth (like_result n o)
unfolding like_result
like_result-Truth n none = refl
like_result-Truth n (some b) = refl

-- The columns of a row have the declared types, and nulls where they are allowed.
abbrev pub RowFits : List ScopeColumn → List Value → Type 0
RowFits [] [] = Unit
RowFits (c ∷ cs) (v ∷ vs) = Fits c.column.data_type c.column.nullable v × RowFits cs vs
RowFits _ _ = ⊥

pub column-Fits :
    (cs : List ScopeColumn) (vs : List Value) (i k : ℕ) (c : ScopeColumn)
    → RowFits cs vs
    → get_elem? cs i ≡ some c
    → Ensures (Fits c.column.data_type c.column.nullable) (or_out_of_bounds k (get_elem? vs i))
unfolding or_out_of_bounds
column-Fits [] vs i k c h e = cc
column-Fits (d ∷ cs) [] i k c h e = tt
column-Fits (d ∷ cs) (v ∷ vs) zero k c h e =
    let same : d ≡ c = cc in subst (λ x. Fits x.column.data_type x.column.nullable v) same h.0
column-Fits (d ∷ cs) (v ∷ vs) (suc i) k c h e = column-Fits cs vs i k c h.1 e

-- No function and no CASE, whose type is that of their first argument or branch.
abbrev pub Plain : Expr → Type 0
Plain (binary a op b) = Plain a × Plain b
Plain (case o bs e) = ⊥
Plain (function f es) = ⊥
Plain _ = Unit

module _ (m : Machine) (sc : Scalars) where
  pub like_values-Truth : (n c : Bool) (s p : Value) → Ensures Truth (like_values m sc n c s p)
  unfolding like_values
  like_values-Truth n c (text s) (text p) = like_result-Truth n (matched_text m sc c s p)
  like_values-Truth n c null p = refl
  like_values-Truth n c _ null = refl
  like_values-Truth n c _ _ = tt

  pub binary-Truth :
      (op : BinaryOp) (l r : Result Value)
      → is_arithmetic op ≡ false
      → Ensures Truth (binary_value m sc op l r)
  unfolding binary_value
  binary-Truth BinaryOp.and l r h =
      always Truth l _ (λ v. always Truth (as_bool v) _ (λ b. and_then-Truth b r))
  binary-Truth BinaryOp.or l r h =
      always Truth l _ (λ v. always Truth (as_bool v) _ (λ b. or_then-Truth b r))
  binary-Truth op l r h =
      always Truth l _ (λ a.
        always Truth r _ (λ b. rw h (always Truth (compare m a b) _ (λ o. matched-Truth op o))))

-- Whatever the bound expression evaluates to on the row fits.
abbrev pub Typed : Machine → Scalars → Row → DataType → Bool → Result PhysExpr → Type 0
Typed m sc row t n r = Ensures (λ p. Ensures (Fits t n) (eval m sc p row)) r

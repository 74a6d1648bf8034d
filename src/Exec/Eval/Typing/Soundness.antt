-- ===== src/Exec/Eval/Typing/Soundness.antt =====
-- Inferred types and evaluation: `infer` and `bind_with` of ferrite-planner/src/physical.rs with
-- `eval` of ferrite-exec/src/eval.rs.
use ferrite.Prelude.{
  ℕ, ◌≡◌, refl, subst, Bool, true, false, Option, none, some, get_elem?, Bool-cases, inl, inr,
  if◌then◌else◌,
}
use ferrite.Common.Error.{Result, ok, err, ◌>>=◌}
use ferrite.Common.Value.{Value, null, DataType, Row, data_type, is_null as null_value}
use ferrite.Planner.Expr.{BinaryOp, is_arithmetic, is_comparison, PhysExpr}
use ferrite.Planner.Named.{
  Expr, column, slot, literal, binary, not as negation, is_null, like, case, cast, function,
  in_subquery,
}
use ferrite.Planner.Scope.{ScopeColumn, Scope, resolve, column_at, or_out_of_range}
use ferrite.Planner.Infer.{infer, arithmetic_type, Inferred, or_text}
use ferrite.Planner.Bind.{Lowering, bind, aligned, coerce_literal, one_column, target_type}
use ferrite.Exec.Compare.{Machine, compare}
use ferrite.Exec.Arithmetic.{arithmetic}
use ferrite.Exec.Eval.{Scalars, eval, binary_value, as_bool, matched_value}
use ferrite.Exec.Eval.Range.{Ensures, Ensures-bind}
use ferrite.Exec.Eval.Typing.{Fits, pair, same_pair, arithmetic-Fits}
use ferrite.Exec.Eval.Typing.Operators.{
  Truth, impossible, impossible_result, not_comparison, always, not_value-Truth, RowFits,
  column-Fits, Plain, like_values-Truth, binary-Truth, Typed,
}

module _ (m : Machine) (sc : Scalars) (lo : Lowering)
    (cast_fits : (v : Value) (t : DataType) → Ensures (Fits t true) (sc.cast v t)) (s : Scope)
    (row : Row) (fits : RowFits s.columns row.values) where
  retype :
      (t u : DataType) (k n : Bool) (r : Result PhysExpr)
      → ok (pair t k) ≡ ok (pair u n)
      → Typed m sc row t k r
      → Typed m sc row u n r
  retype t u k n r e h =
      let same = same_pair m t u k n e in
      subst (λ x. Typed m sc row u x r) same.1 (subst (λ x. Typed m sc row x k r) same.0 h)

  -- A bound column, by what stands at its position.
  at_position :
      (i : ℕ) (o : Option ScopeColumn) (t : DataType) (n : Bool)
      → get_elem? s.columns i ≡ o
      → (or_out_of_range i o >>= λ c. ok (pair c.data_type c.nullable)) ≡ ok (pair t n)
      → Typed m sc row t n (ok (PhysExpr.column i))
  unfolding eval
  at_position i none t n h e = cc
  at_position i (some c) t n h e =
      retype _ t _ n (ok (PhysExpr.column i)) e (column-Fits s.columns row.values i i c fits h)

  column-Typed :
      (r : Result ℕ) (t : DataType) (n : Bool)
      → (r >>= λ i. column_at s i >>= λ c. ok (pair c.data_type c.nullable)) ≡ ok (pair t n)
      → Typed m sc row t n (r >>= λ i. ok (PhysExpr.column i))
  column-Typed (ok i) t n e = at_position i (get_elem? s.columns i) t n refl e
  column-Typed (err f) t n e = tt

  literal-Fits : (v : Value) → Fits (or_text (data_type v)) (null_value v) v
  literal-Fits null = refl
  literal-Fits _ = refl

  literal-Typed :
      (v : Value) (t : DataType) (n : Bool)
      → infer (literal v) s ≡ ok (pair t n)
      → Typed m sc row t n (ok (PhysExpr.literal v))
  unfolding infer eval
  literal-Typed v t n e =
      retype (or_text (data_type v)) t (null_value v) n (ok (PhysExpr.literal v)) e (literal-Fits v)

  slot-Typed :
      (i : ℕ) (o : Option ScopeColumn) (t : DataType) (n : Bool)
      → get_elem? s.columns i ≡ o
      → (or_out_of_range i o >>= λ c. ok (pair c.data_type c.nullable)) ≡ ok (pair t n)
      → Typed m sc row t n (or_out_of_range i o >>= λ c. ok (PhysExpr.column i))
  slot-Typed i none t n h e = tt
  slot-Typed i (some c) t n h e = at_position i (some c) t n h e

  aligned_truth :
      (target : Option DataType) (op : BinaryOp) (p q : PhysExpr)
      → is_arithmetic op ≡ false
      → Typed m sc row DataType.boolean true (aligned lo target op p q)
  unfolding eval
  aligned_truth none op p q h = binary-Truth m sc op (eval m sc p row) (eval m sc q row) h
  aligned_truth (some target) op p q h = always _ (coerce_literal lo p target) _ (λ x.
      always _ (coerce_literal lo q target) _
        (λ y. binary-Truth m sc op (eval m sc x row) (eval m sc y row) h))

  arithmetic_chain :
      (op : BinaryOp) (l r : Result Value) (ul ur t : DataType) (nl nr n : Bool)
      → is_arithmetic op ≡ true
      → Ensures (Fits ul nl) l
      → Ensures (Fits ur nr) r
      → arithmetic_type op (ul, nl) (ur, nr) ≡ ok (pair t n)
      → Ensures (Fits t n) (
          l >>= λ a. r >>= λ b.
          if is_arithmetic op
          then arithmetic m op a b
          else compare m a b >>= λ o. ok (matched_value op o))
  arithmetic_chain op l r ul ur t nl nr n h x y e =
      Ensures-bind (Fits ul nl) (Fits t n) l _ x (λ a i.
        Ensures-bind (Fits ur nr) (Fits t n) r _ y
          (λ b j. rw h (arithmetic-Fits m op a b ul ur t nl nr n i j e)))

  arithmetic_value :
      (op : BinaryOp) (l r : Result Value) (ul ur t : DataType) (nl nr n : Bool)
      → is_arithmetic op ≡ true
      → Ensures (Fits ul nl) l
      → Ensures (Fits ur nr) r
      → arithmetic_type op (ul, nl) (ur, nr) ≡ ok (pair t n)
      → Ensures (Fits t n) (binary_value m sc op l r)
  unfolding binary_value is_arithmetic
  arithmetic_value BinaryOp.and l r ul ur t nl nr n h x y e = impossible h
  arithmetic_value BinaryOp.or l r ul ur t nl nr n h x y e = impossible h
  arithmetic_value op l r ul ur t nl nr n h x y e = arithmetic_chain op l r ul ur t nl nr n h x y e

  arithmetic-Typed :
      (a b : Expr) (op : BinaryOp) (t : DataType) (n : Bool)
      → ((t : DataType) → (n : Bool) → infer a s ≡ ok (pair t n) → Typed m sc row t n (bind lo a s))
      → ((t : DataType) → (n : Bool) → infer b s ≡ ok (pair t n) → Typed m sc row t n (bind lo b s))
      → is_arithmetic op ≡ true
      → (x y : Result Inferred) → infer a s ≡ x
      → infer b s ≡ y
      → (x >>= λ l. y >>= λ r. arithmetic_type op l r) ≡ ok (pair t n)
      → Typed m sc row t n (bind lo a s >>= λ l. bind lo b s >>= λ r. ok (PhysExpr.binary l op r))
  unfolding eval
  arithmetic-Typed a b op t n g h k (ok (ul, nl)) (ok (ur, nr)) ea eb e =
      Ensures-bind (λ p. Ensures (Fits ul nl) (eval m sc p row))
        (λ p. Ensures (Fits t n) (eval m sc p row)) (bind lo a s) _ (g ul nl ea)
        (λ p i.
          Ensures-bind (λ q. Ensures (Fits ur nr) (eval m sc q row))
            (λ q. Ensures (Fits t n) (eval m sc q row)) (bind lo b s) _ (h ur nr eb)
            (λ q j.
              arithmetic_value op (eval m sc p row) (eval m sc q row) ul ur t nl nr n k i j e))
  arithmetic-Typed a b op t n g h k (ok l) (err f) ea eb e = impossible_result e
  arithmetic-Typed a b op t n g h k (err f) y ea eb e = impossible_result e

  -- For an expression without functions and CASE, over a row that fits the scope, and with a cast
  -- that gives values of its target type: if infer gives a type and whether nulls are possible, and
  -- the expression binds and evaluates without an error, then the value has that type, or is a null
  -- where nulls are possible.
  pub infer-Typed :
      (e : Expr) (t : DataType) (n : Bool)
      → Plain e
      → infer e s ≡ ok (pair t n)
      → Typed m sc row t n (bind lo e s)
  unfolding infer bind eval
  infer-Typed (column reference) t n h e = column-Typed (resolve s reference) t n e
  infer-Typed (slot i) t n h e = slot-Typed i (get_elem? s.columns i) t n refl e
  infer-Typed (literal v) t n h e = literal-Typed v t n e
  infer-Typed (negation a) t n h e = retype DataType.boolean t true n (bind lo (negation a) s) e (
      always _ (bind lo a s) _ (λ p.
        always Truth (eval m sc p row) _
          (λ v. always Truth (as_bool v) _ (λ b. not_value-Truth b))))
  infer-Typed (is_null a) t n h e =
      retype DataType.boolean t true n (bind lo (is_null a) s) e
        (always _ (bind lo a s) _ (λ p. always Truth (eval m sc p row) _ (λ v. refl)))
  infer-Typed (like a b k c) t n h e =
      retype DataType.boolean t true n (bind lo (like a b k c) s) e (
        always _ (bind lo a s) _ (λ p. always _ (bind lo b s) _ (λ q.
          always Truth (eval m sc p row) _
            (λ v. always Truth (eval m sc q row) _ (λ w. like_values-Truth m sc k c v w)))))
  infer-Typed (cast a target) t n h e = retype target t true n (bind lo (cast a target) s) e (
      always _ (bind lo a s) _
        (λ p. always (Fits target true) (eval m sc p row) _ (λ v. cast_fits v target)))
  infer-Typed (in_subquery a q k) t n h e =
      always _ (lo.width q) _
        (λ w. always _ (one_column lo w) _ (λ u. always _ (bind lo a s) _ (λ p. tt)))
  infer-Typed (function f es) t n h e = elim h [ ]
  infer-Typed (case o bs x) t n h e = elim h [ ]
  infer-Typed (binary a op b) t n h e = elim (Bool-cases (is_arithmetic op)) [
    | inl y ↦ rw (not_comparison op y) (
        arithmetic-Typed a b op t n (λ u k. infer-Typed a u k h.0) (λ u k. infer-Typed b u k h.1) y
          (infer a s) (infer b s) refl refl (rw y at e))
    | inr y ↦ retype DataType.boolean t true n (bind lo (binary a op b) s) (rw y at e) (
        always _ (if is_comparison op then target_type a b s else ok none) _ (λ target.
          always _ (bind lo a s) _
            (λ p. always _ (bind lo b s) _ (λ q. aligned_truth target op p q y))))
  ]

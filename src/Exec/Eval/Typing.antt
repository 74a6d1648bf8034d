-- ===== src/Exec/Eval/Typing.antt =====
-- The type that `infer` of ferrite-planner/src/physical.rs gives an expression against the value that
-- eval of ferrite-exec/src/eval.rs gives it.
pub mod Operators
pub mod Soundness
mod Examples
use Prim.Native.Nat.{Ordering}
use ferrite.Prelude.{
  ℕ, zero, suc, ◌≡◌, refl, sym, ap, subst, ◌∙◌, Bool, true, false, not, ◌||◌, Option, none, some,
  List, [], ◌∷◌, get_elem?, arith, Bool-cases, ◌⊎◌, inl, inr, if◌then◌else◌,
}
use ferrite.Prelude.Int.{ℤ, in_i32}
use ferrite.Common.Error.{FerriteError, Result, ok, err, ok-injective, ◌>>=◌}
use ferrite.Common.Value.{
  Value, null, boolean, int4, int8, float8, text, timestamp, uuid, json, DataType, Row,
  is_null as is_null_value,
}
use ferrite.Common.Schema.{ColumnDef}
use ferrite.Planner.Expr.{BinaryOp, is_arithmetic, is_comparison, PhysExpr}
use ferrite.Planner.Named.{
  Expr, column, slot, literal, binary, not as negation, is_null, like, case, cast, function,
  in_subquery,
}
use ferrite.Planner.Scope.{ScopeColumn, Scope, resolve, column_at, or_out_of_range}
use ferrite.Planner.Infer.{infer, arithmetic_type, numeric_result, Inferred}
use ferrite.Planner.Bind.{Lowering, bind, aligned, coerce_literal, coerce, one_column, target_type}
use ferrite.Exec.Compare.{Machine, type_of, compare, as_float}
use ferrite.Exec.Arithmetic.{
  arithmetic, number_values, operands, narrow, widen, integer_op, float_values, float_op,
  concat_values, is_concat,
}
use ferrite.Exec.Eval.{
  Scalars, eval, binary_value, as_bool, and_then, or_then, and_values, or_values, matched_value,
  like_values, like_result, matched_text, not_value, or_out_of_bounds,
}
use ferrite.Exec.Eval.Range.{Ensures, Ensures-bind}

-- A value of the type, or a null where nulls are allowed.
abbrev pub Fits : DataType → Bool → Value → Type 0
Fits t n null = n ≡ true
Fits t n v = type_of v ≡ t

abbrev pub pair : DataType → Bool → Inferred
pair t n = (t, n)

narrow-Fits : (n : Bool) (r : Result ℤ) → Ensures (Fits DataType.int4 n) (narrow r)
unfolding narrow
narrow-Fits n (err e) = tt
narrow-Fits n (ok v) = elim (Bool-cases (in_i32 v)) [ inl h ↦ rw h refl | inr h ↦ rw h tt ]

widen-Fits : (n : Bool) (r : Result ℤ) → Ensures (Fits DataType.int8 n) (widen r)
unfolding widen
widen-Fits n (err e) = tt
widen-Fits n (ok v) = refl

float8-Fits :
    (n : Bool) (r : Result ℕ) → Ensures (Fits DataType.float8 n) (r >>= λ v. ok (float8 v))
float8-Fits n (err e) = tt
float8-Fits n (ok v) = refl

concat-Fits : (n : Bool) (l r : Value) → Ensures (Fits DataType.text n) (concat_values l r)
unfolding concat_values
concat-Fits n (text a) (text b) = refl
concat-Fits n _ _ = tt

retyped :
    (t u : DataType) (n : Bool) (r : Result Value)
    → ok t ≡ ok u
    → Ensures (Fits t n) r
    → Ensures (Fits u n) r
retyped t u n r e h = subst (λ x. Ensures (Fits x n) r) (ok-injective e) h

module _ (m : Machine) where
  number-Fits :
      (op : BinaryOp) (n : Bool) (t : DataType) (l r : Value)
      → numeric_result (type_of l) (type_of r) ≡ ok t
      → Ensures (Fits t n) (number_values m op l r (operands l r))
  unfolding number_values operands float_values
  number-Fits op n t (int4 a) (int4 b) h = retyped _ t n _ h (narrow-Fits n (integer_op op a b))
  number-Fits op n t (int4 a) (int8 b) h = retyped _ t n _ h (widen-Fits n (integer_op op a b))
  number-Fits op n t (int8 a) (int4 b) h = retyped _ t n _ h (widen-Fits n (integer_op op a b))
  number-Fits op n t (int8 a) (int8 b) h = retyped _ t n _ h (widen-Fits n (integer_op op a b))
  number-Fits op n t (int4 a) (float8 b) h =
      retyped _ t n _ h (float8-Fits n (float_op m op (m.from_int a) b))
  number-Fits op n t (int8 a) (float8 b) h =
      retyped _ t n _ h (float8-Fits n (float_op m op (m.from_int a) b))
  number-Fits op n t (float8 a) (int4 b) h =
      retyped _ t n _ h (float8-Fits n (float_op m op a (m.from_int b)))
  number-Fits op n t (float8 a) (int8 b) h =
      retyped _ t n _ h (float8-Fits n (float_op m op a (m.from_int b)))
  number-Fits op n t (float8 a) (float8 b) h = retyped _ t n _ h (float8-Fits n (float_op m op a b))
  number-Fits op n t _ _ h = cc

  -- A value that is not null has its type.
  Known : Value → Type 0
  Known v = (is_null_value v ≡ false) × ((t : DataType) → (n : Bool) → Fits t n v → type_of v ≡ t)

  null_or_Known : (v : Value) → (v ≡ null) ⊎ Known v
  unfolding Known
  null_or_Known null = inl refl
  null_or_Known _ = inr (refl, λ t n h. h)

  pub same_pair : (t u : DataType) (k n : Bool) → ok (pair t k) ≡ ok (pair u n) → (t ≡ u) × (k ≡ n)
  same_pair t u k n h = (ap (λ p. p.0) (ok-injective h), ap (λ p. p.1) (ok-injective h))

  typed_result :
      (r : Result DataType) (k n : Bool) (t : DataType)
      → (r >>= λ u. ok (pair u k)) ≡ ok (pair t n)
      → (r ≡ ok t) × (k ≡ n)
  typed_result (ok u) k n t h = let same = same_pair u t k n h in (ap ok same.0, same.1)
  typed_result (err e) k n t h = cc

  arithmetic_type-split :
      (op : BinaryOp) (l r : DataType) (p q : Bool)
      → arithmetic_type op (l, p) (r, q)
        ≡ (if is_concat op then ok DataType.text else numeric_result l r) >>= λ t.
            ok (pair t (p || q))
  unfolding is_concat
  arithmetic_type-split BinaryOp.concat l r p q = refl
  arithmetic_type-split _ l r p q = refl

  or_true : (b : Bool) → (b || true) ≡ true
  or_true true = refl
  or_true false = refl

  plain-Fits :
      (op : BinaryOp) (b : Bool) (n : Bool) (t : DataType) (l r : Value)
      → (if b then ok DataType.text else numeric_result (type_of l) (type_of r)) ≡ ok t
      → Ensures (Fits t n) (if b then concat_values l r else number_values m op l r (operands l r))
  plain-Fits op true n t l r h = retyped _ t n _ h (concat-Fits n l r)
  plain-Fits op false n t l r h = number-Fits op n t l r h

  pub arithmetic-Fits :
      (op : BinaryOp) (a b : Value) (tl tr t : DataType) (nl nr n : Bool)
      → Fits tl nl a
      → Fits tr nr b
      → arithmetic_type op (tl, nl) (tr, nr) ≡ ok (t, n)
      → Ensures (Fits t n) (arithmetic m op a b)
  unfolding arithmetic Known
  arithmetic-Fits op a b tl tr t nl nr n h k e =
      let both = typed_result _ (nl || nr) n t (sym (arithmetic_type-split op tl tr nl nr) ∙ e) in
      let nulls : (nl || nr) ≡ n = both.1 in
      elim (null_or_Known a) [
        | inl z ↦ rw z (sym nulls ∙ ap (λ x. x || nr) (subst (Fits tl nl) z h))
        | inr x ↦ elim (null_or_Known b) [
          | inl z ↦
              rw (z, or_true (is_null_value a))
                (sym nulls ∙ ap (λ x. nl || x) (subst (Fits tr nr) z k) ∙ or_true nl)
          | inr y ↦
              let left : type_of a ≡ tl = x.1 tl nl h in
              let right : type_of b ≡ tr = y.1 tr nr k in
              let found : (if is_concat op
                    then ok DataType.text
                    else numeric_result (type_of a) (type_of b))
                  ≡ ok t =
                rw (left, right) both.0 in
              rw (x.0, y.0) (plain-Fits op (is_concat op) n t a b found)
        ]
      ]

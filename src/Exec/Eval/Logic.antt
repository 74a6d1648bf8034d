-- ===== src/Exec/Eval/Logic.antt =====
-- The three-valued logic of ferrite-exec/src/eval.rs, errors and the order of evaluation included.
use ferrite.Prelude.{
  ◌≡◌, refl, sym, ap, ◌≢◌, ◌∙◌, Bool, true, false, not, Option, none, some, ◌↔◌, arith,
}
use ferrite.Common.Error.{Result, ok, err, ◌>>=◌}
use ferrite.Common.Value.{Value, null, boolean, Row}
use ferrite.Planner.Expr.{BinaryOp, is_arithmetic, PhysExpr, binary, literal}
use Prim.Native.Nat.{Ordering}
use mathlib.Core.Path.{fun_ext}
use ferrite.Exec.Compare.{Machine, compare}
use ferrite.Exec.Eval.{
  Scalars, as_bool, not_value, and_values, or_values, and_then, or_then, is_true, matches,
  matched_value, binary_value, eval, eval_predicate,
}

-- What a logical operator reads of an operand.
unfoldable pub truth : Result Value → Result (Option Bool)
truth r = r >>= as_bool

abbrev pub conj : PhysExpr → PhysExpr → PhysExpr
conj a b = binary a BinaryOp.and b

abbrev pub disj : PhysExpr → PhysExpr → PhysExpr
disj a b = binary a BinaryOp.or b

-- The connectives by what they read.
unfoldable pub conj3 : Result (Option Bool) → Result (Option Bool) → Result (Option Bool)
conj3 (err e) r = err e
conj3 (ok (some false)) r = ok (some false)
conj3 (ok (some true)) r = r
conj3 (ok none) (err e) = err e
conj3 (ok none) (ok (some false)) = ok (some false)
conj3 (ok none) (ok other) = ok none

unfoldable pub disj3 : Result (Option Bool) → Result (Option Bool) → Result (Option Bool)
disj3 (err e) r = err e
disj3 (ok (some true)) r = ok (some true)
disj3 (ok (some false)) r = r
disj3 (ok none) (err e) = err e
disj3 (ok none) (ok (some true)) = ok (some true)
disj3 (ok none) (ok other) = ok none

unfoldable pub as_value : Result (Option Bool) → Result Value
as_value (err e) = err e
as_value (ok none) = ok null
as_value (ok (some b)) = ok (boolean b)

unfoldable pub negated : Result (Option Bool) → Result (Option Bool)
negated (err e) = err e
negated (ok none) = ok none
negated (ok (some b)) = ok (some (not b))

pub truth-as_value : (r : Result (Option Bool)) → truth (as_value r) ≡ r
unfolding truth as_value as_bool
truth-as_value (err e) = refl
truth-as_value (ok none) = refl
truth-as_value (ok (some b)) = refl

and_values-conj3 :
    (b : Option Bool) (r : Result (Option Bool))
    → b ≢ some false
    → (r >>= λ d. ok (and_values b d)) ≡ as_value (conj3 (ok b) r)
unfolding and_values as_value conj3
and_values-conj3 b r h = ground arith

or_values-disj3 :
    (b : Option Bool) (r : Result (Option Bool))
    → b ≢ some true
    → (r >>= λ d. ok (or_values b d)) ≡ as_value (disj3 (ok b) r)
unfolding or_values as_value disj3
or_values-disj3 b r h = ground arith

and_then-conj3 :
    (b : Option Bool) (r : Result Value) → and_then b r ≡ as_value (conj3 (ok b) (truth r))
unfolding and_then truth as_value conj3
and_then-conj3 (some false) r = refl
and_then-conj3 (some true) (err e) = refl
and_then-conj3 none (err e) = refl
and_then-conj3 (some true) (ok v) = and_values-conj3 (some true) (as_bool v) (λ h. cc)
and_then-conj3 none (ok v) = and_values-conj3 none (as_bool v) (λ h. cc)

or_then-disj3 :
    (b : Option Bool) (r : Result Value) → or_then b r ≡ as_value (disj3 (ok b) (truth r))
unfolding or_then truth as_value disj3
or_then-disj3 (some true) r = refl
or_then-disj3 (some false) (err e) = refl
or_then-disj3 none (err e) = refl
or_then-disj3 (some false) (ok v) = or_values-disj3 (some false) (as_bool v) (λ h. cc)
or_then-disj3 none (ok v) = or_values-disj3 none (as_bool v) (λ h. cc)

bind_assoc :
    {A B C : Type 0} (r : Result A) (f : A → Result B) (g : B → Result C)
    → (r >>= λ a. f a >>= g) ≡ ((r >>= f) >>= g)
bind_assoc (ok a) f g = refl
bind_assoc (err e) f g = refl

conj3-bind :
    (t : Result (Option Bool)) (r : Result Value)
    → (t >>= λ b. and_then b r) ≡ as_value (conj3 t (truth r))
unfolding conj3 as_value
conj3-bind (ok b) r = and_then-conj3 b r
conj3-bind (err e) r = refl

disj3-bind :
    (t : Result (Option Bool)) (r : Result Value)
    → (t >>= λ b. or_then b r) ≡ as_value (disj3 t (truth r))
unfolding disj3 as_value
disj3-bind (ok b) r = or_then-disj3 b r
disj3-bind (err e) r = refl

-- The laws of the logic, errors included.
negated-conj3 : (x y : Result (Option Bool)) → negated (conj3 x y) ≡ disj3 (negated x) (negated y)
unfolding negated conj3 disj3
negated-conj3 x y = ground arith

negated-disj3 : (x y : Result (Option Bool)) → negated (disj3 x y) ≡ conj3 (negated x) (negated y)
unfolding negated conj3 disj3
negated-disj3 x y = ground arith

conj3_assoc : (x y z : Result (Option Bool)) → conj3 (conj3 x y) z ≡ conj3 x (conj3 y z)
unfolding conj3
conj3_assoc x y z = ground arith

pub disj3_assoc : (x y z : Result (Option Bool)) → disj3 (disj3 x y) z ≡ disj3 x (disj3 y z)
unfolding disj3
disj3_assoc x y z = ground arith

-- A predicate keeps a row just where a logical operator reads `true`.
kept : (r : Result Value) → ((r >>= λ v. ok (is_true v)) ≡ ok true) ↔ (truth r ≡ ok (some true))
unfolding is_true truth as_bool
kept (err e) = (λ h. cc, λ h. cc)
kept (ok v) = (λ h. ground arith, λ h. ground arith)

conj3-true :
    (x y : Result (Option Bool))
    → (conj3 x y ≡ ok (some true)) ↔ ((x ≡ ok (some true)) × (y ≡ ok (some true)))
unfolding conj3
conj3-true x y = (λ h. ground arith, λ h. ground arith)

-- Whether a comparison found equality, or a null.
abbrev pub found : Option Ordering → Option Bool
found none = none
found (some Ordering.lt) = some false
found (some Ordering.eq) = some true
found (some Ordering.gt) = some false

equality :
    (r : Result (Option Ordering))
    → truth (r >>= λ o. ok (matched_value BinaryOp.equal o)) ≡ (r >>= λ o. ok (found o))
unfolding truth as_bool matched_value matches
equality (err e) = refl
equality (ok none) = refl
equality (ok (some Ordering.lt)) = refl
equality (ok (some Ordering.eq)) = refl
equality (ok (some Ordering.gt)) = refl

truth-bind :
    {A : Type 0} (r : Result A) (f : A → Result Value) → truth (r >>= f) ≡ (r >>= λ a. truth (f a))
unfolding truth
truth-bind (ok a) f = refl
truth-bind (err e) f = refl

module _ (m : Machine) (sc : Scalars) where
  pub truth-equal :
      (e : PhysExpr) (v : Value) (row : Row)
      → truth (eval m sc (binary e BinaryOp.equal (literal v)) row)
        ≡ (eval m sc e row >>= λ x. compare m x v >>= λ o. ok (found o))
  unfolding eval binary_value is_arithmetic
  truth-equal e v row =
      truth-bind (eval m sc e row) _
      ∙ ap (λ f. eval m sc e row >>= f) (fun_ext λ x. equality (compare m x v))

  pub eval_boolean :
      (b : Bool) (row : Row) → truth (eval m sc (literal (boolean b)) row) ≡ ok (some b)
  unfolding eval truth as_bool
  eval_boolean b row = refl

  eval-conj :
      (a b : PhysExpr) (row : Row)
      → eval m sc (conj a b) row
        ≡ as_value (conj3 (truth (eval m sc a row)) (truth (eval m sc b row)))
  unfolding eval truth
  eval-conj a b row =
      bind_assoc (eval m sc a row) as_bool (λ t. and_then t (eval m sc b row))
      ∙ conj3-bind (eval m sc a row >>= as_bool) (eval m sc b row)

  pub eval-disj :
      (a b : PhysExpr) (row : Row)
      → eval m sc (disj a b) row
        ≡ as_value (disj3 (truth (eval m sc a row)) (truth (eval m sc b row)))
  unfolding eval truth
  eval-disj a b row =
      bind_assoc (eval m sc a row) as_bool (λ t. or_then t (eval m sc b row))
      ∙ disj3-bind (eval m sc a row >>= as_bool) (eval m sc b row)

  pub eval-not :
      (e : PhysExpr) (row : Row)
      → eval m sc (PhysExpr.not e) row ≡ as_value (negated (truth (eval m sc e row)))
  unfolding eval truth negated as_value not_value
  eval-not e row = ground arith

  -- The negation of a conjunction evaluates to what the disjunction of the negations evaluates to:
  -- the same truth value, null or error, with the same short cuts.
  pub not_and :
      (a b : PhysExpr) (row : Row)
      → eval m sc (PhysExpr.not (conj a b)) row
        ≡ eval m sc (disj (PhysExpr.not a) (PhysExpr.not b)) row
  not_and a b row = simp (eval-not, eval-conj, eval-disj, truth-as_value, negated-conj3)

  -- The negation of a disjunction evaluates to what the conjunction of the negations evaluates to:
  -- the same truth value, null or error, with the same short cuts.
  pub not_or :
      (a b : PhysExpr) (row : Row)
      → eval m sc (PhysExpr.not (disj a b)) row
        ≡ eval m sc (conj (PhysExpr.not a) (PhysExpr.not b)) row
  not_or a b row = simp (eval-not, eval-conj, eval-disj, truth-as_value, negated-disj3)

  -- Conjunctions of three expressions evaluate alike however they are nested, errors included.
  pub and_regroup :
      (a b d : PhysExpr) (row : Row)
      → eval m sc (conj (conj a b) d) row ≡ eval m sc (conj a (conj b d)) row
  and_regroup a b d row = simp (eval-conj, truth-as_value, conj3_assoc)

  -- A row is kept under the conjunction of two expressions just where it is kept under each of
  -- them.
  pub eval_predicate-and :
      (a b : PhysExpr) (row : Row)
      → (eval_predicate m sc (conj a b) row ≡ ok true)
        ↔ ((eval_predicate m sc a row ≡ ok true) × (eval_predicate m sc b row ≡ ok true))
  unfolding eval_predicate
  eval_predicate-and a b row =
      let both = kept (eval m sc (conj a b) row) in
      let first = kept (eval m sc a row) in
      let second = kept (eval m sc b row) in
      let read : truth (eval m sc (conj a b) row)
          ≡ conj3 (truth (eval m sc a row)) (truth (eval m sc b row)) =
        simp (eval-conj, truth-as_value) in
      let split = conj3-true (truth (eval m sc a row)) (truth (eval m sc b row)) in
      (
        λ h. let (x, y) = split.0 (sym read ∙ both.0 h) in (first.1 x, second.1 y),
        λ h. both.1 (read ∙ split.1 (first.0 h.0, second.0 h.1)),
      )

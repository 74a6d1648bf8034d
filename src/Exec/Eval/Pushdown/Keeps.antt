-- ===== src/Exec/Eval/Pushdown/Keeps.antt =====
-- Which rows a predicate keeps, and what split_conjunction and combine_conjunction of
-- ferrite-planner/src/logical.rs do to that.
use ferrite.Prelude.{
  ◌≡◌, refl, sym, ap, ◌∙◌, Bool, true, false, ◌&&◌, Option, none, some, List, [], ◌∷◌, ◌++◌, length,
  ◌↔◌, Bool-cases, inl, inr,
}
use ferrite.Common.Error.{Result, ok, err, ◌>>=◌}
use ferrite.Common.Value.{Row}
use ferrite.Planner.Expr.{BinaryOp, is_comparison, PhysExpr}
use ferrite.Planner.Named.{Expr, binary, and}
use ferrite.Planner.Scope.{Scope}
use ferrite.Planner.Logical.{JoinType, join_scope, split_conjunction, conjoin, combine_conjunction}
use ferrite.Planner.Rules.{left, right, side}
use ferrite.Planner.Rules.Relation.{Test, Tuple, LeftTest, RightTest}
use ferrite.Planner.Bind.{Lowering, bind}
use ferrite.Exec.Compare.{Machine}
use ferrite.Exec.Eval.{Scalars, eval, eval_predicate, is_true}
use ferrite.Exec.Eval.Logic.{eval_predicate-and}
use ferrite.Exec.Eval.Locality.{Slotless}
use ferrite.Exec.Eval.Pushdown.{Resolves, evaluated, evaluated-side_left, evaluated-side_right}

-- A row is kept where the predicate is true; not where it is false, null or an error.
abbrev pub passes : Result Bool → Bool
passes (ok b) = b
passes (err e) = false

passes_iff : (r : Result Bool) → (passes r ≡ true) ↔ (r ≡ ok true)
passes_iff (ok b) = (λ h. ap ok h, λ h. cc)
passes_iff (err e) = (λ h. cc, λ h. cc)

same_truth : (a b c : Bool) → ((a ≡ true) ↔ ((b ≡ true) × (c ≡ true))) → a ≡ (b && c)
same_truth true true true h = refl
same_truth true true false h = sym (h.0 refl).1
same_truth true false c h = sym (h.0 refl).0
same_truth false true true h = h.1 (refl, refl)
same_truth false true false h = refl
same_truth false false c h = refl

pub and_true : (b : Bool) → (b && true) ≡ b
and_true true = refl
and_true false = refl

pub and_assoc : (a b c : Bool) → ((a && b) && c) ≡ (a && (b && c))
and_assoc true b c = refl
and_assoc false b c = refl

module _ (m : Machine) (sc : Scalars) (lo : Lowering) where
  abbrev pub keeps : Scope → Expr → Test
  keeps s e v = passes (bind lo e s >>= λ p. eval_predicate m sc p (record { values = v }))

  abbrev pub keeps_option : Scope → Option Expr → Test
  keeps_option s none v = true
  keeps_option s (some e) v = keeps s e v

  abbrev pub keeps_all : Scope → List Expr → Test
  keeps_all s [] v = true
  keeps_all s (e ∷ es) v = let rest = keeps_all s es v in keeps s e v && rest

  bound_and :
      (v : Tuple) (a b : Result PhysExpr)
      → passes (
          (a >>= λ p. b >>= λ q. ok (PhysExpr.binary p BinaryOp.and q)) >>= λ p.
          eval_predicate m sc p (record { values = v }))
        ≡ (passes (a >>= λ p. eval_predicate m sc p (record { values = v }))
            && passes (b >>= λ p. eval_predicate m sc p (record { values = v })))
  bound_and v (ok p) (ok q) =
      let row : Row = record { values = v } in
      let iff = eval_predicate-and m sc p q row in
      let whole = passes_iff (eval_predicate m sc (PhysExpr.binary p BinaryOp.and q) row) in
      let first = passes_iff (eval_predicate m sc p row) in
      let second = passes_iff (eval_predicate m sc q row) in
      same_truth _ _ _ (
        λ h. let (x, y) = iff.0 (whole.0 h) in (first.1 x, second.1 y),
        λ h. whole.1 (iff.1 (first.0 h.0, second.0 h.1)),
      )
  bound_and v (ok p) (err e) =
      elim (Bool-cases (passes (eval_predicate m sc p (record { values = v })))) [
        | inl h ↦ rw h refl
        | inr h ↦ rw h refl
      ]
  bound_and v (err e) b = refl

  pub keeps-and :
      (s : Scope) (a b : Expr) (v : Tuple) → keeps s (and a b) v ≡ (keeps s a v && keeps s b v)
  unfolding bind is_comparison
  keeps-and s a b v = bound_and v (bind lo a s) (bind lo b s)

  pub keeps_all-append :
      (s : Scope) (es fs : List Expr) (v : Tuple)
      → keeps_all s (es ++ fs) v ≡ (keeps_all s es v && keeps_all s fs v)
  keeps_all-append s [] fs v = refl
  keeps_all-append s (e ∷ es) fs v =
      ap (λ b. keeps s e v && b) (keeps_all-append s es fs v) ∙ sym (and_assoc (keeps s e v) _ _)

  -- A row passes all the conjuncts that split_conjunction makes of a predicate just where it passes
  -- the predicate, bound in the same scope.
  pub keeps_all-split_conjunction :
      (s : Scope) (e : Expr) (v : Tuple) → keeps_all s (split_conjunction e) v ≡ keeps s e v
  keeps_all-split_conjunction s (binary a BinaryOp.and b) v =
      keeps_all-append s (split_conjunction a) (split_conjunction b) v
      ∙ (rw (keeps_all-split_conjunction s a v, keeps_all-split_conjunction s b v)
          (sym (keeps-and s a b v)))
  keeps_all-split_conjunction s e v = and_true (keeps s e v)

  keeps-conjoin :
      (s : Scope) (e : Expr) (es : List Expr) (v : Tuple)
      → keeps s (conjoin e es) v ≡ (keeps s e v && keeps_all s es v)
  keeps-conjoin s e [] v = sym (and_true (keeps s e v))
  keeps-conjoin s e (f ∷ es) v =
      keeps-conjoin s (and e f) es v
      ∙ ap (λ b. b && keeps_all s es v) (keeps-and s e f v)
      ∙ and_assoc (keeps s e v) (keeps s f v) (keeps_all s es v)

  pub keeps_option-combine_conjunction :
      (s : Scope) (es : List Expr) (v : Tuple)
      → keeps_option s (combine_conjunction es) v ≡ keeps_all s es v
  keeps_option-combine_conjunction s [] v = refl
  keeps_option-combine_conjunction s (e ∷ es) v = keeps-conjoin s e es v

  read :
      (b : Result PhysExpr) (u : Tuple)
      → passes ((b >>= λ p. eval m sc p (record { values = u })) >>= λ x. ok (is_true x))
        ≡ passes (b >>= λ p. eval_predicate m sc p (record { values = u }))
  unfolding eval_predicate
  read (ok p) u = refl
  read (err f) u = refl

  -- A predicate reads the evaluated expression.
  keeps_evaluated :
      (s t : Scope) (v w : Tuple) (e : Expr)
      → evaluated m sc lo s v e ≡ evaluated m sc lo t w e
      → keeps s e v ≡ keeps t e w
  keeps_evaluated s t v w e h =
      sym (read (bind lo e s) v)
      ∙ ap (λ r. passes (r >>= λ x. ok (is_true x))) h
      ∙ read (bind lo e t) w

  pub keeps-LeftTest :
      (j : JoinType) (l r : Scope) (v : Tuple) (e : Expr)
      → side e l r ≡ some left
      → Slotless e
      → Resolves (join_scope j l r) e
      → length v ≡ length l.columns
      → LeftTest (keeps (join_scope j l r) e) (keeps l e) v
  keeps-LeftTest j l r v e h k res wide = λ w.
      keeps_evaluated (join_scope j l r) l (v ++ w) v e
        (evaluated-side_left m sc lo j l r v w e h k res wide)

  pub keeps-RightTest :
      (j : JoinType) (l r : Scope) (w : Tuple) (e : Expr)
      → side e l r ≡ some right
      → Slotless e
      → Resolves (join_scope j l r) e
      → length w ≡ length r.columns
      → RightTest (length l.columns) (keeps (join_scope j l r) e) (keeps r e) w
  keeps-RightTest j l r w e h k res deep = λ v wide.
      keeps_evaluated (join_scope j l r) r (v ++ w) w e
        (evaluated-side_right m sc lo j l r v w e h k res wide deep)

-- ===== src/Exec/Eval/Pushdown.antt =====
-- The `side` of ferrite-planner/src/rules.rs against what an expression evaluates to: binding and
-- evaluation in the scope of a join and in that of a side.
pub mod Keeps
pub mod Settled
pub mod Distribute
pub mod Plans
pub mod Optimized
mod Examples
use ferrite.Prelude.{
  ℕ, ◌≡◌, refl, sym, ap, ◌∙◌, Bool, true, false, not, ◌&&◌, Option, none, some, List, [], ◌∷◌, ◌++◌,
  All, length, Bool-cases, ◌⊎◌, inl, inr, arith, if◌then◌else◌,
}
use ferrite.Common.Error.{Result, ok, err, ◌>>=◌}
use ferrite.Common.Value.{Value}
use ferrite.Planner.Named.{ColumnRef, Expr, referenced_columns}
use ferrite.Planner.Scope.{Scope, can_resolve}
use ferrite.Planner.Scope.Join.{Agrees, left-Agrees, right-Agrees}
use ferrite.Planner.Logical.{JoinType, join_scope}
use ferrite.Planner.Rules.{Side, left, right, side, side_of, all, any}
use ferrite.Planner.Bind.{Lowering, bind}
use ferrite.Planner.Expr.{PhysExpr}
use ferrite.Exec.Compare.{Machine}
use ferrite.Exec.Eval.{Scalars, eval}
use ferrite.Exec.Eval.Related.{Related}
use ferrite.Exec.Eval.Locality.{Slotless, SameValue, bind-Related}

-- Every reference of the expression names one column.
abbrev pub Resolves : Scope → Expr → Type 0
Resolves s e = All (λ c. can_resolve s c ≡ true) (referenced_columns e)

cc_false : {A : Type 0} → false ≡ true → A
cc_false h = cc

-- The tests of `side` in order.
left_test :
    (a b c d : Bool)
    → (if a && not b then some left else if c && not d then some right else none) ≡ some left
    → a ≡ true
left_test a b c d h = ground arith

right_test :
    (a b c d : Bool)
    → (if a && not b then some left else if c && not d then some right else none) ≡ some right
    → c ≡ true
right_test a b c d h = ground arith

all-All :
    (cs : List ColumnRef) (test : ColumnRef → Bool)
    → all cs test ≡ true
    → All (λ c. test c ≡ true) cs
all-All [] test h = tt
all-All (c ∷ cs) test h = elim (Bool-cases (test c)) [
  | inl k ↦ (k, all-All cs test (rw k at h))
  | inr k ↦ cc_false (rw k at h)
]

All-both :
    {A : Type 0} (P Q R : A → Type 0) (xs : List A)
    → ((a : A) → P a → Q a → R a)
    → All P xs
    → All Q xs
    → All R xs
All-both P Q R [] f h k = tt
All-both P Q R (x ∷ xs) f h k = (f x h.0 k.0, All-both P Q R xs f h.1 k.1)

side_of-left :
    (cs : List ColumnRef) (l r : Scope) → side_of cs l r ≡ some left → all cs (can_resolve l) ≡ true
side_of-left [] l r h = cc
side_of-left (c ∷ cs) l r h =
    left_test (all (c ∷ cs) (can_resolve l)) (any (c ∷ cs) (can_resolve r))
      (all (c ∷ cs) (can_resolve r)) (any (c ∷ cs) (can_resolve l)) h

side_of-right :
    (cs : List ColumnRef) (l r : Scope)
    → side_of cs l r ≡ some right
    → all cs (can_resolve r) ≡ true
side_of-right [] l r h = cc
side_of-right (c ∷ cs) l r h =
    right_test (all (c ∷ cs) (can_resolve l)) (any (c ∷ cs) (can_resolve r))
      (all (c ∷ cs) (can_resolve r)) (any (c ∷ cs) (can_resolve l)) h

-- A conjunct of one side makes sense in it.
pub left_Resolves : (e : Expr) (l r : Scope) → side e l r ≡ some left → Resolves l e
left_Resolves e l r h = all-All _ _ (side_of-left (referenced_columns e) l r h)

pub right_Resolves : (e : Expr) (l r : Scope) → side e l r ≡ some right → Resolves r e
right_Resolves e l r h = all-All _ _ (side_of-right (referenced_columns e) l r h)

module _ (m : Machine) (sc : Scalars) (lo : Lowering) where
  -- An expression bound in a scope and evaluated on a row of it.
  abbrev pub evaluated : Scope → List Value → Expr → Result Value
  evaluated s v e = bind lo e s >>= λ p. eval m sc p (record { values = v })

  Related-evaluated :
      (s t : Scope) (v w : List Value) (p q : Result PhysExpr)
      → Related (SameValue m sc lo s t v w) p q
      → (p >>= λ x. eval m sc x (record { values = v }))
        ≡ (q >>= λ x. eval m sc x (record { values = w }))
  Related-evaluated s t v w (ok p) (ok q) h = h
  Related-evaluated s t v w (err e) (err f) h = ap err h
  Related-evaluated s t v w (ok p) (err f) h = elim h [ ]
  Related-evaluated s t v w (err e) (ok q) h = elim h [ ]

  -- If side assigns an expression free of positions to the left side of a join of any type, and all
  -- its references resolve in the scope of the join, then bound and evaluated on a joined row it
  -- gives the value, or the error, that it gives bound in the left scope and evaluated on the left
  -- row.
  pub evaluated-side_left :
      (j : JoinType) (l r : Scope) (v w : List Value) (e : Expr)
      → side e l r ≡ some left
      → Slotless e
      → Resolves (join_scope j l r) e
      → length v ≡ length l.columns
      → evaluated (join_scope j l r) (v ++ w) e ≡ evaluated l v e
  evaluated-side_left j l r v w e h k res wide =
      Related-evaluated (join_scope j l r) l (v ++ w) v _ _ (
        bind-Related m sc lo (join_scope j l r) l (v ++ w) v e k (
          All-both _ _ _ (referenced_columns e) (left-Agrees j l r v w wide) res
            (left_Resolves e l r h)))

  -- If side assigns an expression free of positions to the right side of a join of any type, and
  -- all its references resolve in the scope of the join, then bound and evaluated on a joined row
  -- it gives the value, or the error, that it gives bound in the right scope and evaluated on the
  -- right row.
  pub evaluated-side_right :
      (j : JoinType) (l r : Scope) (v w : List Value) (e : Expr)
      → side e l r ≡ some right
      → Slotless e
      → Resolves (join_scope j l r) e
      → length v ≡ length l.columns
      → length w ≡ length r.columns
      → evaluated (join_scope j l r) (v ++ w) e ≡ evaluated r w e
  evaluated-side_right j l r v w e h k res wide deep =
      Related-evaluated (join_scope j l r) r (v ++ w) w _ _ (
        bind-Related m sc lo (join_scope j l r) r (v ++ w) w e k (
          All-both _ _ _ (referenced_columns e) (λ c. right-Agrees j l r v w wide c deep) res
            (right_Resolves e l r h)))

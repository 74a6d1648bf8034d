-- ===== src/Exec/Eval/Pushdown/Distribute.antt =====
-- Where `push_join` of ferrite-planner/src/rules.rs puts the conjuncts, and the rows of the join.
use mathlib.Core.Path.{fun_ext}
use ferrite.Prelude.{
  ◌≡◌, refl, sym, ap, ◌∙◌, Bool, true, false, not, ◌&&◌, Option, none, some, List, [], ◌∷◌, All,
  length, arith, if◌then◌else◌,
}
use ferrite.Planner.Named.{Expr}
use ferrite.Planner.Scope.{Scope}
use ferrite.Planner.Logical.{JoinType, preserves_left, preserves_right, join_scope}
use ferrite.Planner.Rules.{
  Side, left, right, side, Parts, add_left, add_right, add_above, add_condition, is_inner,
  place_pending, place_condition, distribute, distribute_condition,
}
use ferrite.Planner.Rules.Relation.{Table, Test, only, join_rows, both, LeftTest, RightTest}
use ferrite.Planner.Rules.Relation.Sink.{only-only, only-true, only_swap, All-only}
use ferrite.Planner.Rules.Relation.Widths.{Wide}
use ferrite.Planner.Rules.Relation.Moves.{
  filter_left, filter_right, condition_left, condition_right, filter_condition,
}
use ferrite.Planner.Bind.{Lowering}
use ferrite.Exec.Compare.{Machine}
use ferrite.Exec.Eval.{Scalars}
use ferrite.Exec.Eval.Pushdown.Keeps.{keeps, keeps_all, keeps-LeftTest, keeps-RightTest}
use ferrite.Exec.Eval.Pushdown.Settled.{Placed, All-map}

by_test :
    {P A : Type 0} (f : P → A) (t : Bool) (x y : P) (z : A)
    → (t ≡ false → f x ≡ z)
    → (t ≡ true → f y ≡ z)
    → f (if not t then x else y) ≡ z
by_test f true x y z h k = k refl
by_test f false x y z h k = h refl

-- The condition of a join, in two orders.
both_regroup : (c e d : Test) → both c (both e d) ≡ both (both c e) d
both_regroup c e d = fun_ext (λ v. regroup (c v) (e v) (d v))
  where
    regroup : (x y z : Bool) → (x && (y && z)) ≡ ((x && y) && z)
    regroup true y z = refl
    regroup false y z = refl

both_rotate : (c e d : Test) → both (both c e) d ≡ both (both c d) e
both_rotate c e d = fun_ext (λ v. rotate (c v) (e v) (d v))
  where
    rotate : (x y z : Bool) → ((x && y) && z) ≡ ((x && z) && y)
    rotate x y z = ground arith

module _ (m : Machine) (sc : Scalars) (lo : Lowering) (j : JoinType) (a b : Scope) (ls rs : Table)
    (wide : Wide (length a.columns) ls) (deep : Wide (length b.columns) rs) where
  abbrev whole : Scope
  whole = join_scope j a b

  abbrev kept : Scope → List Expr → Test
  kept s es = keeps_all m sc lo s es

  abbrev keep_one : Scope → Expr → Test
  keep_one s e = keeps m sc lo s e

  -- The rows of the join whose conjuncts are placed, under one condition more.
  abbrev joined : Test → Table → Table → Table
  joined on xs ys = join_rows j (length a.columns) (length b.columns) on xs ys

  abbrev placed_rows : Test → Parts → Table
  placed_rows c parts = only (kept (join_scope j a b) parts.above) (
      joined (both c (kept (join_scope j a b) parts.condition)) (only (kept a parts.to_left) ls)
        (only (kept b parts.to_right) rs))

  left_tests :
      (e : Expr) (es : List Expr)
      → side e a b ≡ some left
      → Placed whole e
      → All (LeftTest (keep_one whole e) (keep_one a e)) (only (kept a es) ls)
  left_tests e es h p =
      All-map _ _ (only (kept a es) ls) (λ v w. keeps-LeftTest m sc lo j a b v e h p.0 p.1 w)
        (All-only _ (kept a es) ls wide)

  right_tests :
      (e : Expr) (es : List Expr)
      → side e a b ≡ some right
      → Placed whole e
      → All (RightTest (length a.columns) (keep_one whole e) (keep_one b e)) (only (kept b es) rs)
  right_tests e es h p =
      All-map _ _ (only (kept b es) rs) (λ w d. keeps-RightTest m sc lo j a b w e h p.0 p.1 d)
        (All-only _ (kept b es) rs deep)

  condition_stays :
      (c : Test) (e : Expr) (parts : Parts)
      → placed_rows c (add_condition e parts) ≡ placed_rows (both c (keep_one whole e)) parts
  condition_stays c e parts =
      ap
        (λ on.
          only (kept whole parts.above)
            (joined on (only (kept a parts.to_left) ls) (only (kept b parts.to_right) rs)))
        (both_regroup c (keep_one whole e) (kept whole parts.condition))

  condition_sinks_left :
      (c : Test) (e : Expr) (parts : Parts)
      → preserves_left j ≡ false
      → side e a b ≡ some left
      → Placed whole e
      → placed_rows c (add_left e parts) ≡ placed_rows (both c (keep_one whole e)) parts
  condition_sinks_left c e parts free h p =
      let on = both c (kept whole parts.condition) in
      let xs = only (kept a parts.to_left) ls in
      let ys = only (kept b parts.to_right) rs in
      ap (only (kept whole parts.above)) (
        ap (λ t. joined on t ys) (sym (only-only (keep_one a e) (kept a parts.to_left) ls))
        ∙ sym (
            condition_left j (length a.columns) (length b.columns) (keep_one whole e) on xs ys
              (keep_one a e) free (left_tests e parts.to_left h p))
        ∙ ap (λ t. joined t xs ys) (both_rotate c (kept whole parts.condition) (keep_one whole e)))

  condition_sinks_right :
      (c : Test) (e : Expr) (parts : Parts)
      → preserves_right j ≡ false
      → side e a b ≡ some right
      → Placed whole e
      → placed_rows c (add_right e parts) ≡ placed_rows (both c (keep_one whole e)) parts
  condition_sinks_right c e parts free h p =
      let on = both c (kept whole parts.condition) in
      let xs = only (kept a parts.to_left) ls in
      let ys = only (kept b parts.to_right) rs in
      ap (only (kept whole parts.above)) (
        ap (λ t. joined on xs t) (sym (only-only (keep_one b e) (kept b parts.to_right) rs))
        ∙ sym (
            condition_right j (length a.columns) (length b.columns) (keep_one whole e) on xs ys
              (keep_one b e) free (All-only _ (kept a parts.to_left) ls wide)
              (right_tests e parts.to_right h p))
        ∙ ap (λ t. joined t xs ys) (both_rotate c (kept whole parts.condition) (keep_one whole e)))

  condition-Placed :
      (c : Test) (e : Expr) (parts : Parts) (o : Option Side)
      → side e a b ≡ o
      → Placed whole e
      → placed_rows c (place_condition j o e parts) ≡ placed_rows (both c (keep_one whole e)) parts
  condition-Placed c e parts none h p = condition_stays c e parts
  condition-Placed c e parts (some left) h p =
      by_test (placed_rows c) (preserves_left j) _ _ _ (λ k. condition_sinks_left c e parts k h p)
        (λ k. condition_stays c e parts)
  condition-Placed c e parts (some right) h p =
      by_test (placed_rows c) (preserves_right j) _ _ _ (λ k. condition_sinks_right c e parts k h p)
        (λ k. condition_stays c e parts)

  condition_rows :
      (c : Test) (es : List Expr)
      → All (Placed whole) es
      → placed_rows c (distribute_condition j a b es) ≡ joined (both c (kept whole es)) ls rs
  condition_rows c [] h = only-true _ ∙ rw (only-true ls, only-true rs) refl
  condition_rows c (e ∷ es) h =
      condition-Placed c e (distribute_condition j a b es) (side e a b) refl h.0
      ∙ condition_rows (both c (keep_one whole e)) es h.1
      ∙ ap (λ on. joined on ls rs) (sym (both_regroup c (keep_one whole e) (kept whole es)))

  -- A conjunct above the join is a filter of its rows, wherever it goes.
  pending_above :
      (c : Test) (e : Expr) (parts : Parts)
      → placed_rows c (add_above e parts) ≡ only (keep_one whole e) (placed_rows c parts)
  pending_above c e parts = sym (only-only (keep_one whole e) (kept whole parts.above) _)

  pending_condition :
      (c : Test) (e : Expr) (parts : Parts)
      → is_inner j ≡ true
      → placed_rows c (add_condition e parts) ≡ only (keep_one whole e) (placed_rows c parts)
  pending_condition c e parts free =
      let xs = only (kept a parts.to_left) ls in
      let ys = only (kept b parts.to_right) rs in
      condition_stays c e parts
      ∙ ap (only (kept whole parts.above)) (
          ap (λ t. joined t xs ys) (both_rotate c (keep_one whole e) (kept whole parts.condition))
          ∙ sym (
              filter_condition j (length a.columns) (length b.columns) (keep_one whole e)
                (both c (kept whole parts.condition)) xs ys free))
      ∙ only_swap (kept whole parts.above) (keep_one whole e) _

  pending_left :
      (c : Test) (e : Expr) (parts : Parts)
      → preserves_right j ≡ false
      → side e a b ≡ some left
      → Placed whole e
      → placed_rows c (add_left e parts) ≡ only (keep_one whole e) (placed_rows c parts)
  pending_left c e parts free h p =
      let on = both c (kept whole parts.condition) in
      let xs = only (kept a parts.to_left) ls in
      let ys = only (kept b parts.to_right) rs in
      ap (only (kept whole parts.above)) (
        ap (λ t. joined on t ys) (sym (only-only (keep_one a e) (kept a parts.to_left) ls))
        ∙ sym (
            filter_left j (length a.columns) (length b.columns) (keep_one whole e) on xs ys
              (keep_one a e) free (left_tests e parts.to_left h p)))
      ∙ only_swap (kept whole parts.above) (keep_one whole e) _

  pending_right :
      (c : Test) (e : Expr) (parts : Parts)
      → preserves_left j ≡ false
      → side e a b ≡ some right
      → Placed whole e
      → placed_rows c (add_right e parts) ≡ only (keep_one whole e) (placed_rows c parts)
  pending_right c e parts free h p =
      let on = both c (kept whole parts.condition) in
      let xs = only (kept a parts.to_left) ls in
      let ys = only (kept b parts.to_right) rs in
      ap (only (kept whole parts.above)) (
        ap (λ t. joined on xs t) (sym (only-only (keep_one b e) (kept b parts.to_right) rs))
        ∙ sym (
            filter_right j (length a.columns) (length b.columns) (keep_one whole e) on xs ys
              (keep_one b e) free (All-only _ (kept a parts.to_left) ls wide)
              (right_tests e parts.to_right h p)))
      ∙ only_swap (kept whole parts.above) (keep_one whole e) _

  pending_free :
      (c : Test) (e : Expr) (parts : Parts) (t : Bool)
      → is_inner j ≡ t
      → placed_rows c (if t then add_condition e parts else add_above e parts)
        ≡ only (keep_one whole e) (placed_rows c parts)
  pending_free c e parts true h = pending_condition c e parts h
  pending_free c e parts false h = pending_above c e parts

  pending-Placed :
      (c : Test) (e : Expr) (parts : Parts) (o : Option Side)
      → side e a b ≡ o
      → Placed whole e
      → placed_rows c (place_pending j o e parts) ≡ only (keep_one whole e) (placed_rows c parts)
  pending-Placed c e parts none h p = pending_free c e parts (is_inner j) refl
  pending-Placed c e parts (some left) h p =
      by_test (placed_rows c) (preserves_right j) _ _ _ (λ k. pending_left c e parts k h p)
        (λ k. pending_free c e parts (is_inner j) refl)
  pending-Placed c e parts (some right) h p =
      by_test (placed_rows c) (preserves_left j) _ _ _ (λ k. pending_right c e parts k h p)
        (λ k. pending_free c e parts (is_inner j) refl)

  always : Test
  always v = true

  -- However the conjuncts are placed, the rows of the join are those of its condition, filtered.
  pub distributed_rows :
      (pending on : List Expr)
      → All (Placed whole) pending
      → All (Placed whole) on
      → only (kept whole (distribute j a b pending on).above) (
          joined
            (kept whole (distribute j a b pending on).condition)
            (only (kept a (distribute j a b pending on).to_left) ls)
            (only (kept b (distribute j a b pending on).to_right) rs))
        ≡ only (kept whole pending) (joined (kept whole on) ls rs)
  unfolding always
  distributed_rows [] on h k = condition_rows always on k ∙ sym (only-true _)
  distributed_rows (e ∷ pending) on h k =
      pending-Placed always e (distribute j a b pending on) (side e a b) refl h.0
      ∙ ap (only (keep_one whole e)) (distributed_rows pending on h.1 k)
      ∙ only-only (keep_one whole e) (kept whole pending) _

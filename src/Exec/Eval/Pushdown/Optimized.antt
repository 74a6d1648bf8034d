-- ===== src/Exec/Eval/Pushdown/Optimized.antt =====
-- `optimize` of ferrite-planner/src/rules.rs and the rows of a FROM clause.
use ferrite.Prelude.{
  ℕ, suc, ◌≡◌, refl, sym, ap, subst, ◌∙◌, Option, none, some, List, [], ◌∷◌, ◌++◌, All, All-append,
  length,
}
use ferrite.Common.Schema.{ColumnDef}
use ferrite.Planner.Named.{Expr}
use ferrite.Planner.Scope.{Scope, empty, for_relation}
use ferrite.Planner.Logical.{
  TableSource, qualifiers, JoinType, LogicalPlan, scan, join, filter, join_scope, scope,
  split_conjunction, combine_conjunction,
}
use ferrite.Planner.Rules.{distribute, split_option, materialize, push_predicates, optimize}
use ferrite.Planner.Rules.Relation.{Table, Test, only, join_rows}
use ferrite.Planner.Rules.Relation.Sink.{only-true, only_swap, only-only, All-only}
use ferrite.Planner.Rules.Relation.Widths.{Wide, join_rows-Wide}
use ferrite.Planner.Bind.{Lowering}
use ferrite.Exec.Compare.{Machine}
use ferrite.Exec.Eval.{Scalars}
use ferrite.Exec.Eval.Locality.{Slotless}
use ferrite.Exec.Eval.Pushdown.Distribute.{distributed_rows}
use ferrite.Exec.Eval.Pushdown.Settled.{Placed}
use ferrite.Exec.Eval.Pushdown.Keeps.{keeps_option, keeps_all}
use ferrite.Exec.Eval.Pushdown.Settled.{All-map, distribute-Settled}
use ferrite.Exec.Eval.Pushdown.Plans.{
  OptionPlaced, scope_of, IsFrom, scope-join, scope_of-join, width, length-join_scope, split-Placed,
  rows, combine_same, append_same, split_same, option_same, rows-materialize, push_predicates-join,
  scope-push_predicates,
}

length-relation :
    (cs : List ColumnDef) (qs : List (List ℕ))
    → length (for_relation (record { columns = cs }) qs).columns ≡ length cs
length-relation [] qs = refl
length-relation (c ∷ cs) qs = ap suc (length-relation cs qs)

without_slots : (s : Scope) (es : List Expr) → All (Placed s) es → All Slotless es
without_slots s es h = All-map (Placed s) Slotless es (λ e p. p.0) h

option-Placed : (s : Scope) (o : Option Expr) → OptionPlaced s o → All (Placed s) (split_option o)
option-Placed s none h = tt
option-Placed s (some e) h = split-Placed s e h

module _ (m : Machine) (sc : Scalars) (lo : Lowering) (tables : TableSource → Table)
    (as_declared : (source : TableSource)
      → Wide (length source.schema.columns) (tables source)) where
  abbrev the_rows : LogicalPlan → Table
  the_rows p = rows m sc lo tables p

  abbrev kept : Scope → List Expr → Test
  kept s es = keeps_all m sc lo s es

  rows-Wide : (p : LogicalPlan) → IsFrom p → Wide (width p) (the_rows p)
  rows-Wide (scan source conjuncts) h = All-only _ _ (tables source) (
      subst (λ n. Wide n (tables source))
        (sym (length-relation source.schema.columns (qualifiers source))) (as_declared source))
  rows-Wide (filter input predicate) h = All-only _ _ (the_rows input) (rows-Wide input h.0)
  rows-Wide (join l r j on) h =
      subst (λ n. Wide n (the_rows (join l r j on)))
        (sym (
          ap (λ s. length s.columns) (scope_of-join l r j on h.0 h.1)
          ∙ length-join_scope j (scope_of l) (scope_of r)))
        (join_rows-Wide j (width l) (width r)
          (keeps_option m sc lo (join_scope j (scope_of l) (scope_of r)) on) (the_rows l)
          (the_rows r) (rows-Wide l h.0) (rows-Wide r h.1))
  rows-Wide p h = elim h [ ]

  scope_of-push_predicates :
      (p : LogicalPlan) (es : List Expr) → IsFrom p → scope_of (push_predicates p es) ≡ scope_of p
  scope_of-push_predicates p es h =
      ap (λ o. elim o [ none ↦ empty | some s ↦ s ]) (scope-push_predicates m sc lo tables p es h)

  -- The rows of a join by the scopes and the rows of its sides.
  join_at : JoinType → List Expr → List Expr → Scope → Scope → Table → Table → Table
  join_at j above condition a b ls rs =
      only (kept (join_scope j a b) above) (
        join_rows j (length a.columns) (length b.columns) (kept (join_scope j a b) condition) ls rs)

  rows-join_at :
      (x y : LogicalPlan) (j : JoinType) (above condition : List Expr) (a b : Scope)
      → scope x ≡ some a
      → scope y ≡ some b
      → the_rows (materialize (join x y j (combine_conjunction condition)) above)
        ≡ join_at j above condition a b (the_rows x) (the_rows y)
  unfolding join_at
  rows-join_at x y j above condition a b h k =
      let on = combine_conjunction condition in
      let whole = join x y j on in
      let joined : scope_of whole ≡ join_scope j a b =
        ap (λ o. elim o [ none ↦ empty | some s ↦ s ]) (scope-join x y j on a b h k) in
      let first : scope_of x ≡ a = ap (λ o. elim o [ none ↦ empty | some s ↦ s ]) h in
      let second : scope_of y ≡ b = ap (λ o. elim o [ none ↦ empty | some s ↦ s ]) k in
      rows-materialize m sc lo tables whole above
      ∙ ap (λ s. only (kept s above) (the_rows whole)) joined
      ∙ ap
          (λ s. only (kept (join_scope j a b) above) (
            join_rows j (length s.columns) (width y)
              (keeps_option m sc lo (join_scope j s (scope_of y)) on) (the_rows x) (the_rows y)))
          first
      ∙ ap
          (λ s. only (kept (join_scope j a b) above) (
            join_rows j (length a.columns) (length s.columns)
              (keeps_option m sc lo (join_scope j a s) on) (the_rows x) (the_rows y)))
          second
      ∙ ap
          (λ f.
            only (kept (join_scope j a b) above)
              (join_rows j (length a.columns) (length b.columns) f (the_rows x) (the_rows y)))
          (combine_same m sc lo tables (join_scope j a b) condition)

  -- The pending conjuncts filter the rows of the plan.
  pub rows-push_predicates :
      (p : LogicalPlan) (es : List Expr)
      → IsFrom p
      → All (Placed (scope_of p)) es
      → the_rows (push_predicates p es) ≡ only (kept (scope_of p) es) (the_rows p)
  unfolding push_predicates join_at
  rows-push_predicates (scan source conjuncts) es h k =
      let s = for_relation source.schema (qualifiers source) in
      let old = split_option conjuncts in
      ap (λ f. only f (tables source))
        (combine_same m sc lo tables s (old ++ es) ∙ append_same m sc lo tables s old es)
      ∙ sym (only-only (kept s old) (kept s es) (tables source))
      ∙ only_swap (kept s old) (kept s es) (tables source)
      ∙ ap (λ f. only (kept s es) (only f (tables source))) (option_same m sc lo tables s conjuncts)
  rows-push_predicates (filter input predicate) es h k =
      let s = scope_of input in
      let new = split_conjunction predicate in
      rows-push_predicates input (es ++ new) h.0
        (All-append (Placed s) es new k (split-Placed s predicate h.1))
      ∙ ap (λ f. only f (the_rows input)) (append_same m sc lo tables s es new)
      ∙ sym (only-only (kept s es) (kept s new) (the_rows input))
      ∙ ap (λ f. only (kept s es) (only f (the_rows input))) (split_same m sc lo tables s predicate)
  rows-push_predicates (join l r j on) es h k =
      let a = scope_of l in
      let b = scope_of r in
      let whole = join_scope j a b in
      let parts = distribute j a b es (split_option on) in
      let scoped = scope_of-join l r j on h.0 h.1 in
      let pending : All (Placed whole) es = subst (λ s. All (Placed s) es) scoped k in
      let conditions = option-Placed whole on h.2 in
      let settled =
        distribute-Settled j a b es (split_option on) (without_slots whole es pending)
          (without_slots whole (split_option on) conditions) in
      let first = push_predicates l parts.to_left in
      let second = push_predicates r parts.to_right in
      ap the_rows (push_predicates-join m sc lo tables l r j on es h.0 h.1)
      ∙ rows-join_at first second j parts.above parts.condition a b
          (scope-push_predicates m sc lo tables l parts.to_left h.0)
          (scope-push_predicates m sc lo tables r parts.to_right h.1)
      ∙ ap (λ t. join_at j parts.above parts.condition a b t (the_rows second))
          (rows-push_predicates l parts.to_left h.0 settled.on_left)
      ∙ ap
          (λ t.
            join_at j parts.above parts.condition a b (only (kept a parts.to_left) (the_rows l)) t)
          (rows-push_predicates r parts.to_right h.1 settled.on_right)
      ∙ distributed_rows m sc lo j a b (the_rows l) (the_rows r) (rows-Wide l h.0) (rows-Wide r h.1)
          es (split_option on) pending conditions
      ∙ ap
          (λ f.
            only (kept whole es)
              (join_rows j (length a.columns) (length b.columns) f (the_rows l) (the_rows r)))
          (option_same m sc lo tables whole on)
      ∙ ap (λ s. only (kept s es) (the_rows (join l r j on))) (sym scoped)
  rows-push_predicates p es h k = elim h [ ]

  -- Over tables whose rows have their declared widths, a FROM clause of scans, joins and filters,
  -- in which every predicate is free of positions and all its references resolve in the scope of
  -- its node, has the same rows, in the same order, before and after optimize. The rows are those
  -- of a nested-loop join with null padding that keeps a row where its predicate is bound and
  -- evaluates to true; an error counts as not true.
  pub rows-optimize : (p : LogicalPlan) → IsFrom p → the_rows (optimize p) ≡ the_rows p
  unfolding optimize
  rows-optimize p h = rows-push_predicates p [] h tt ∙ only-true (the_rows p)

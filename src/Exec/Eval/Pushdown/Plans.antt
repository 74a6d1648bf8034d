-- ===== src/Exec/Eval/Pushdown/Plans.antt =====
-- The rows of a FROM clause, that is of scans, joins and the filters above them, and what
-- `push_predicates` of ferrite-planner/src/rules.rs does to its scope.
use mathlib.Core.Path.{fun_ext}
use ferrite.Prelude.{
  ℕ, ◌+◌, ◌≡◌, refl, sym, ap, ◌∙◌, Option, none, some, List, [], ◌∷◌, ◌++◌, All, All-append,
  All-append_left, All-append_right, length, length-append, if◌then◌else◌,
}
use ferrite.Planner.Expr.{BinaryOp}
use ferrite.Planner.Named.{Expr, binary, referenced_columns}
use ferrite.Planner.Scope.{Scope, nullable, empty, for_relation}
use ferrite.Planner.Scope.Join.{length-side}
use ferrite.Planner.Logical.{
  TableSource, qualifiers, JoinType, preserves_left, preserves_right, LogicalPlan, scan, join,
  filter, join_scope, both_scopes, scope, split_conjunction, combine_conjunction,
}
use ferrite.Planner.Rules.{distribute, split_option, materialize, push_predicates}
use ferrite.Planner.Rules.Relation.{Table, Test, only, join_rows, both}
use ferrite.Planner.Rules.Relation.Sink.{only-true}
use ferrite.Planner.Bind.{Lowering}
use ferrite.Exec.Compare.{Machine}
use ferrite.Exec.Eval.{Scalars}
use ferrite.Exec.Eval.Locality.{Slotless}
use ferrite.Exec.Eval.Pushdown.Settled.{Placed}
use ferrite.Exec.Eval.Pushdown.Keeps.{
  keeps, keeps_option, keeps_all, keeps_all-append, keeps_all-split_conjunction,
  keeps_option-combine_conjunction,
}

abbrev pub OptionPlaced : Scope → Option Expr → Type 0
OptionPlaced s none = Unit
OptionPlaced s (some e) = Placed s e

abbrev pub scope_of : LogicalPlan → Scope
scope_of plan = elim (scope plan) [ none ↦ empty | some s ↦ s ]

-- A FROM clause, where every predicate makes sense above its input.
abbrev pub IsFrom : LogicalPlan → Type 0
IsFrom (scan source conjuncts) =
    OptionPlaced (for_relation source.schema (qualifiers source)) conjuncts
IsFrom (join l r j on) =
    IsFrom l × IsFrom r × OptionPlaced (join_scope j (scope_of l) (scope_of r)) on
IsFrom (filter input predicate) = IsFrom input × Placed (scope_of input) predicate
IsFrom _ = ⊥

the_scope :
    (o : Option Scope) (s : Scope) → o ≡ some s → o ≡ some (elim o [ none ↦ empty | some t ↦ t ])
the_scope none s h = cc
the_scope (some t) s h = refl

pub scope-join :
    (l r : LogicalPlan) (j : JoinType) (on : Option Expr) (a b : Scope)
    → scope l ≡ some a
    → scope r ≡ some b
    → scope (join l r j on) ≡ some (join_scope j a b)
scope-join l r j on a b h k =
    ap (λ o. elim o [ none ↦ none | some (x, y) ↦ some (join_scope j x y) ])
      (ap (λ o. both_scopes o (scope r)) h ∙ ap (both_scopes (some a)) k)

pub scope-IsFrom : (p : LogicalPlan) → IsFrom p → scope p ≡ some (scope_of p)
scope-IsFrom (scan source conjuncts) h = refl
scope-IsFrom (filter input predicate) h = scope-IsFrom input h.0
scope-IsFrom (join l r j on) h =
    the_scope _ _ (scope-join l r j on _ _ (scope-IsFrom l h.0) (scope-IsFrom r h.1))
scope-IsFrom (LogicalPlan.aggregate p g a) h = elim h [ ]
scope-IsFrom (LogicalPlan.projection p i) h = elim h [ ]
scope-IsFrom (LogicalPlan.sort p i) h = elim h [ ]
scope-IsFrom (LogicalPlan.distinct p) h = elim h [ ]
scope-IsFrom (LogicalPlan.limit p c o) h = elim h [ ]
scope-IsFrom (LogicalPlan.insert s r c) h = elim h [ ]
scope-IsFrom (LogicalPlan.update s p a) h = elim h [ ]
scope-IsFrom (LogicalPlan.delete s p) h = elim h [ ]
scope-IsFrom (LogicalPlan.call n a) h = elim h [ ]

pub scope_of-join :
    (l r : LogicalPlan) (j : JoinType) (on : Option Expr)
    → IsFrom l
    → IsFrom r
    → scope_of (join l r j on) ≡ join_scope j (scope_of l) (scope_of r)
scope_of-join l r j on h k =
    ap (λ o. elim o [ none ↦ empty | some t ↦ t ])
      (scope-join l r j on _ _ (scope-IsFrom l h) (scope-IsFrom r k))

abbrev pub width : LogicalPlan → ℕ
width p = length (scope_of p).columns

pub length-join_scope :
    (j : JoinType) (a b : Scope)
    → length (join_scope j a b).columns ≡ length a.columns + length b.columns
length-join_scope j a b =
    length-append (if preserves_right j then nullable a else a).columns _
    ∙ rw (length-side (preserves_right j) a, length-side (preserves_left j) b) refl

-- The conjuncts of a predicate make sense where it does.
pub split-Placed : (s : Scope) (e : Expr) → Placed s e → All (Placed s) (split_conjunction e)
unfolding Slotless referenced_columns
split-Placed s (binary a BinaryOp.and b) h =
    let cs = referenced_columns a in
    All-append (Placed s) (split_conjunction a) (split_conjunction b)
      (split-Placed s a (h.0.0, All-append_left _ cs (referenced_columns b) h.1))
      (split-Placed s b (h.0.1, All-append_right _ cs (referenced_columns b) h.1))
split-Placed s e h = (h, tt)

module _ (m : Machine) (sc : Scalars) (lo : Lowering) (tables : TableSource → Table) where
  -- The rows of a FROM clause over the rows of its tables.
  abbrev pub rows : LogicalPlan → Table
  rows (scan source conjuncts) =
      only (keeps_option m sc lo (for_relation source.schema (qualifiers source)) conjuncts)
        (tables source)
  rows (join l r j on) =
      join_rows j (width l) (width r)
        (keeps_option m sc lo (join_scope j (scope_of l) (scope_of r)) on) (rows l) (rows r)
  rows (filter input predicate) = only (keeps m sc lo (scope_of input) predicate) (rows input)
  rows _ = []

  abbrev pub all_kept : Scope → List Expr → Test
  all_kept s es = keeps_all m sc lo s es

  pub combine_same :
      (s : Scope) (es : List Expr) → keeps_option m sc lo s (combine_conjunction es) ≡ all_kept s es
  combine_same s es = fun_ext (keeps_option-combine_conjunction m sc lo s es)

  pub append_same :
      (s : Scope) (es fs : List Expr) → all_kept s (es ++ fs) ≡ both (all_kept s es) (all_kept s fs)
  append_same s es fs = fun_ext (keeps_all-append m sc lo s es fs)

  pub split_same : (s : Scope) (e : Expr) → all_kept s (split_conjunction e) ≡ keeps m sc lo s e
  split_same s e = fun_ext (keeps_all-split_conjunction m sc lo s e)

  pub option_same :
      (s : Scope) (o : Option Expr) → all_kept s (split_option o) ≡ keeps_option m sc lo s o
  option_same s none = refl
  option_same s (some e) = split_same s e

  -- What materialize puts above a plan filters its rows.
  pub rows-materialize :
      (p : LogicalPlan) (es : List Expr)
      → rows (materialize p es) ≡ only (all_kept (scope_of p) es) (rows p)
  rows-materialize p [] = sym (only-true (rows p))
  rows-materialize p (e ∷ es) = ap (λ f. only f (rows p)) (combine_same (scope_of p) (e ∷ es))

  pub scope-materialize : (p : LogicalPlan) (es : List Expr) → scope (materialize p es) ≡ scope p
  scope-materialize p [] = refl
  scope-materialize p (e ∷ es) = refl

  -- The pushed join, by what the scopes of its sides are.
  abbrev pub pushed :
      (l r : LogicalPlan) (j : JoinType) (on : Option Expr) (es : List Expr)
      → Option (Scope × Scope)
      → LogicalPlan
  pushed l r j on es none = materialize (join (push_predicates l []) (push_predicates r []) j on) es
  pushed l r j on es (some (a, b)) =
      let parts = distribute j a b es (split_option on) in
      materialize
        (join (push_predicates l parts.to_left) (push_predicates r parts.to_right) j
          (combine_conjunction parts.condition))
        parts.above

  pub push_predicates-join :
      (l r : LogicalPlan) (j : JoinType) (on : Option Expr) (es : List Expr)
      → IsFrom l
      → IsFrom r
      → push_predicates (join l r j on) es ≡ pushed l r j on es (some (scope_of l, scope_of r))
  unfolding push_predicates
  push_predicates-join l r j on es h k = ap (pushed l r j on es) (
      ap (λ o. both_scopes o (scope r)) (scope-IsFrom l h)
      ∙ ap (both_scopes (some (scope_of l))) (scope-IsFrom r k))

  pub scope-push_predicates :
      (p : LogicalPlan) (es : List Expr)
      → IsFrom p
      → scope (push_predicates p es) ≡ some (scope_of p)
  unfolding push_predicates
  scope-push_predicates (scan source conjuncts) es h = refl
  scope-push_predicates (filter input predicate) es h = scope-push_predicates input _ h.0
  scope-push_predicates (join l r j on) es h =
      let a = scope_of l in
      let b = scope_of r in
      let parts = distribute j a b es (split_option on) in
      ap scope (push_predicates-join l r j on es h.0 h.1)
      ∙ scope-materialize _ parts.above
      ∙ scope-join (push_predicates l parts.to_left) (push_predicates r parts.to_right) j
          (combine_conjunction parts.condition) a b (scope-push_predicates l parts.to_left h.0)
          (scope-push_predicates r parts.to_right h.1)
      ∙ ap some (sym (scope_of-join l r j on h.0 h.1))
  scope-push_predicates p es h = elim h [ ]

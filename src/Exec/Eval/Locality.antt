-- ===== src/Exec/Eval/Locality.antt =====
-- A bound expression, and the references that it reads: `bind_with` of ferrite-planner/src/physical.rs
-- with `eval` of ferrite-exec/src/eval.rs.
use ferrite.Prelude.{
  ℕ, ◌≡◌, refl, Bool, Option, some, List, ◌++◌, All, get_elem?, All-append_left, All-append_right,
  Bool-cases, inl, inr,
}
use ferrite.Common.Error.{Result, ok, err, ◌>>=◌}
use ferrite.Common.Value.{Value, Row}
use ferrite.Planner.Expr.{BinaryOp, is_comparison, PhysExpr, OptExpr, Exprs, Branches}
use ferrite.Planner.Named.{
  ColumnRef, referenced_columns, option_columns, list_columns, case_columns, Expr, column, slot,
  literal, binary, not, is_null, like, case, cast, function, in_subquery, ExprOption, absent,
  present, ExprList, nil, cons, Cases, end, when_then,
}
use ferrite.Planner.Scope.{Scope}
use ferrite.Planner.Scope.Join.{Agrees}
use ferrite.Planner.Bind.{
  Lowering, bind, bind_option, bind_list, bind_cases, target_type, aligned, coerce, one_column,
}
use ferrite.Exec.Compare.{Machine}
use ferrite.Exec.Eval.{Scalars, eval, eval_opt, eval_args, eval_branches, taken}
use ferrite.Exec.Eval.Related.{Related, Related-bind, itself_Related, bind_same, choice_same}

-- No position stands in the expression as such.
unfoldable mutual
  pub Slotless : Expr → Type 0
  Slotless (column r) = Unit
  Slotless (slot i) = ⊥
  Slotless (literal v) = Unit
  Slotless (binary a op b) = Slotless a × Slotless b
  Slotless (not e) = Slotless e
  Slotless (is_null e) = Slotless e
  Slotless (like a b n c) = Slotless a × Slotless b
  Slotless (case o bs e) = SlotlessOption o × SlotlessCases bs × SlotlessOption e
  Slotless (cast e t) = Slotless e
  Slotless (function f es) = SlotlessList es
  Slotless (in_subquery e q n) = Slotless e

  pub SlotlessOption : ExprOption → Type 0
  SlotlessOption absent = Unit
  SlotlessOption (present e) = Slotless e

  pub SlotlessList : ExprList → Type 0
  SlotlessList nil = Unit
  SlotlessList (cons e es) = Slotless e × SlotlessList es

  pub SlotlessCases : Cases → Type 0
  SlotlessCases end = Unit
  SlotlessCases (when_then w t bs) = Slotless w × Slotless t × SlotlessCases bs

module _ (m : Machine) (sc : Scalars) (lo : Lowering) (s t : Scope) (v w : List Value) where
  abbrev here : Row
  here = record { values = v }

  abbrev there : Row
  there = record { values = w }

  abbrev pub SameValue : PhysExpr → PhysExpr → Type 0
  SameValue p q = eval m sc p (record { values = v }) ≡ eval m sc q (record { values = w })

  abbrev SameOption : OptExpr → OptExpr → Type 0
  SameOption p q = eval_opt m sc p here ≡ eval_opt m sc q there

  abbrev SameList : Exprs → Exprs → Type 0
  SameList p q = eval_args m sc p here ≡ eval_args m sc q there

  abbrev SameBranches : Branches → Branches → Type 0
  SameBranches p q =
      (o : Option Value) (r : Result Value)
      → eval_branches m sc o p r here ≡ eval_branches m sc o q r there

  binary_same :
      (op : BinaryOp) (a b c d : PhysExpr)
      → SameValue a b
      → SameValue c d
      → SameValue (PhysExpr.binary a op c) (PhysExpr.binary b op d)
  unfolding eval
  binary_same op a b c d h k = rw (h, k) refl

  plain_Related :
      (op : BinaryOp) (a b c d : Result PhysExpr)
      → Related SameValue a b
      → Related SameValue c d
      → Related SameValue
          (a >>= λ l. c >>= λ r. ok (PhysExpr.binary l op r))
          (b >>= λ l. d >>= λ r. ok (PhysExpr.binary l op r))
  plain_Related op a b c d h k = Related-bind SameValue SameValue a b _ _ h (λ l l2 i.
      Related-bind SameValue SameValue c d _ _ k (λ r r2 j. binary_same op l l2 r r2 i j))

  columns_same :
      (i j : ℕ) (x : Value)
      → get_elem? v i ≡ some x
      → get_elem? w j ≡ some x
      → SameValue (PhysExpr.column i) (PhysExpr.column j)
  unfolding eval
  columns_same i j x h k = rw (h, k) refl

  column_Related :
      (r : ColumnRef)
      → Agrees s t v w r
      → Related SameValue (bind lo (column r) s) (bind lo (column r) t)
  unfolding bind
  column_Related r h =
      rw (h.resolve_first, h.resolve_second)
        (columns_same h.first h.second h.value h.value_first h.value_second)

  literals_same : (x : Value) → SameValue (PhysExpr.literal x) (PhysExpr.literal x)
  unfolding eval
  literals_same x = refl

  column_literal_Related :
      (op : BinaryOp) (c : Result Value) (p q : PhysExpr)
      → SameValue p q
      → Related SameValue
          ((c >>= λ x. ok (PhysExpr.literal x)) >>= λ r. ok (PhysExpr.binary p op r))
          ((c >>= λ x. ok (PhysExpr.literal x)) >>= λ r. ok (PhysExpr.binary q op r))
  column_literal_Related op (err e) p q h = refl
  column_literal_Related op (ok x) p q h = binary_same op p q _ _ h (literals_same x)

  literal_column_Related :
      (op : BinaryOp) (c : Result Value) (p q : PhysExpr)
      → SameValue p q
      → Related SameValue
          ((c >>= λ x. ok (PhysExpr.literal x)) >>= λ l. ok (PhysExpr.binary l op p))
          ((c >>= λ x. ok (PhysExpr.literal x)) >>= λ l. ok (PhysExpr.binary l op q))
  literal_column_Related op (err e) p q h = refl
  literal_column_Related op (ok x) p q h = binary_same op _ _ p q (literals_same x) h

  comparison_Related :
      (a b : Expr) (op : BinaryOp)
      → All (Agrees s t v w) (referenced_columns a ++ referenced_columns b)
      → Related SameValue (bind lo a s) (bind lo a t)
      → Related SameValue (bind lo b s) (bind lo b t)
      → Related SameValue
          (target_type a b s >>= λ k. bind lo a s >>= λ l. bind lo b s >>= λ r. aligned lo k op l r)
          (target_type a b t >>= λ k. bind lo a t >>= λ l. bind lo b t >>= λ r. aligned lo k op l r)
  unfolding bind referenced_columns
  comparison_Related (column r) (literal x) op h ha hb =
      let a = h.0 in
      rw (a.resolve_first, a.resolve_second, a.at_first, a.at_second, a.data_type)
        (column_literal_Related op (coerce lo x a.second_column.data_type) _ _
          (columns_same a.first a.second a.value a.value_first a.value_second))
  comparison_Related (literal x) (column r) op h ha hb =
      let a = h.0 in
      rw (a.resolve_first, a.resolve_second, a.at_first, a.at_second, a.data_type)
        (literal_column_Related op (coerce lo x a.second_column.data_type) _ _
          (columns_same a.first a.second a.value a.value_first a.value_second))
  comparison_Related a b op h ha hb =
      plain_Related op (bind lo a s) (bind lo a t) (bind lo b s) (bind lo b t) ha hb

  one_column-Related :
      (n : Result ℕ) (a b : Result PhysExpr) (negated : Bool)
      → Related SameValue a b
      → Related SameValue
          (n >>= λ k. one_column lo k >>= λ u. a >>= λ e. ok (PhysExpr.in_subquery e negated))
          (n >>= λ k. one_column lo k >>= λ u. b >>= λ e. ok (PhysExpr.in_subquery e negated))
  unfolding eval
  one_column-Related (err e) a b negated h = refl
  one_column-Related (ok n) a b negated h =
      Related-bind (λ x y. Unit) SameValue (one_column lo n) (one_column lo n) _ _
        (itself_Related (one_column lo n))
        (λ x y i. Related-bind SameValue SameValue a b _ _ h (λ p q j. refl))

  mutual
    unfolding bind eval referenced_columns Slotless

    pub bind-Related :
        (e : Expr)
        → Slotless e
        → All (Agrees s t v w) (referenced_columns e)
        → Related SameValue (bind lo e s) (bind lo e t)
    bind-Related (column r) k h = column_Related r h.0
    bind-Related (slot i) k h = elim k [ ]
    bind-Related (literal x) k h = refl
    bind-Related (binary a op b) k h =
        let left =
          bind-Related a k.0 (All-append_left _ (referenced_columns a) (referenced_columns b) h) in
        let right =
          bind-Related b k.1 (All-append_right _ (referenced_columns a) (referenced_columns b) h) in
        elim (Bool-cases (is_comparison op)) [
          | inl c ↦ rw c (comparison_Related a b op h left right)
          | inr c ↦
              rw c (
                plain_Related op (bind lo a s) (bind lo a t) (bind lo b s) (bind lo b t) left right)
        ]
    bind-Related (not e) k h =
        Related-bind SameValue SameValue (bind lo e s) (bind lo e t) _ _ (bind-Related e k h)
          (λ p q i. rw i refl)
    bind-Related (is_null e) k h =
        Related-bind SameValue SameValue (bind lo e s) (bind lo e t) _ _ (bind-Related e k h)
          (λ p q i. rw i refl)
    bind-Related (like a b n c) k h =
        Related-bind SameValue SameValue (bind lo a s) (bind lo a t) _ _
          (bind-Related a k.0 (All-append_left _ (referenced_columns a) (referenced_columns b) h))
          (λ p q i.
            Related-bind SameValue SameValue (bind lo b s) (bind lo b t) _ _
              (bind-Related b k.1
                (All-append_right _ (referenced_columns a) (referenced_columns b) h))
              (λ p2 q2 j. rw (i, j) refl))
    bind-Related (case o bs e) k h =
        let tail = All-append_right _ (option_columns o) (option_columns e ++ case_columns bs) h in
        Related-bind SameOption SameValue (bind_option lo o s) (bind_option lo o t) _ _
          (option-Related o k.0
            (All-append_left _ (option_columns o) (option_columns e ++ case_columns bs) h))
          (λ o1 o2 i.
            Related-bind SameBranches SameValue (bind_cases lo bs s) (bind_cases lo bs t) _ _
              (cases-Related bs k.1 (All-append_right _ (option_columns e) (case_columns bs) tail))
              (λ b1 b2 j.
                Related-bind SameOption SameValue (bind_option lo e s) (bind_option lo e t) _ _
                  (option-Related e k.2
                    (All-append_left _ (option_columns e) (case_columns bs) tail))
                  (λ e1 e2 l. rw (i, l) (bind_same (eval_opt m sc o2 there) _ _ (λ o3. j o3 _)))))
    bind-Related (cast e ty) k h =
        Related-bind SameValue SameValue (bind lo e s) (bind lo e t) _ _ (bind-Related e k h)
          (λ p q i. rw i refl)
    bind-Related (function f es) k h =
        Related-bind SameList SameValue (bind_list lo es s) (bind_list lo es t) _ _
          (list-Related es k h) (λ p q i. rw i refl)
    bind-Related (in_subquery e q n) k h =
        one_column-Related (lo.width q) (bind lo e s) (bind lo e t) n (bind-Related e k h)

    option-Related :
        (o : ExprOption)
        → SlotlessOption o
        → All (Agrees s t v w) (option_columns o)
        → Related SameOption (bind_option lo o s) (bind_option lo o t)
    option-Related absent k h = refl
    option-Related (present e) k h =
        Related-bind SameValue SameOption (bind lo e s) (bind lo e t) _ _ (bind-Related e k h)
          (λ p q i. rw i refl)

    list-Related :
        (es : ExprList)
        → SlotlessList es
        → All (Agrees s t v w) (list_columns es)
        → Related SameList (bind_list lo es s) (bind_list lo es t)
    list-Related nil k h = refl
    list-Related (cons e es) k h =
        Related-bind SameValue SameList (bind lo e s) (bind lo e t) _ _
          (bind-Related e k.0 (All-append_left _ (referenced_columns e) (list_columns es) h))
          (λ p q i.
            Related-bind SameList SameList (bind_list lo es s) (bind_list lo es t) _ _
              (list-Related es k.1 (All-append_right _ (referenced_columns e) (list_columns es) h))
              (λ p2 q2 j. rw (i, j) refl))

    cases-Related :
        (bs : Cases)
        → SlotlessCases bs
        → All (Agrees s t v w) (case_columns bs)
        → Related SameBranches (bind_cases lo bs s) (bind_cases lo bs t)
    cases-Related end k h = λ o r. refl
    cases-Related (when_then a b bs) k h =
        let tail =
          All-append_right _ (referenced_columns a) (referenced_columns b ++ case_columns bs) h in
        Related-bind SameValue SameBranches (bind lo a s) (bind lo a t) _ _
          (bind-Related a k.0
            (All-append_left _ (referenced_columns a) (referenced_columns b ++ case_columns bs) h))
          (λ p q i.
            Related-bind SameValue SameBranches (bind lo b s) (bind lo b t) _ _
              (bind-Related b k.1 (All-append_left _ (referenced_columns b) (case_columns bs) tail))
              (λ p2 q2 j.
                Related-bind SameBranches SameBranches (bind_cases lo bs s) (bind_cases lo bs t) _ _
                  (cases-Related bs k.2
                    (All-append_right _ (referenced_columns b) (case_columns bs) tail))
                  (λ p3 q3 l. λ o r. rw i (
                    bind_same (eval m sc q there) _ _ (λ x.
                      bind_same (taken m sc o x) _ _ (λ c. choice_same c _ _ _ _ j (l o r)))))))

-- ===== src/Exec/Stream/Bounds.antt =====
-- How many rows the row sources of ferrite-exec/src/executor.rs give, and how long they run.
use ferrite.Prelude.{
  ℕ, ◌+◌, ◌≡◌, ◌≢◌, ◌≤◌, ◌<◌, some, List, [], ◌∷◌, length, ltb, Bool-cases, inl, inr, arith,
}
use ferrite.Planner.Expr.{PhysExpr}
use ferrite.Planner.Physical.{PhysicalPlan}
use ferrite.Exec.Compare.{Machine}
use ferrite.Exec.Eval.{Scalars}
use ferrite.Exec.Session.{Tuple, Session, State, timed_out}
use ferrite.Exec.Session.Yields.{
  Given, Yields, Yields-bind, Yields-bind_with, Yields-admit, Yields-lift, Fails, Fails-first,
  Fails-next, Fails-lift, tick-early, tick-late,
}
use ferrite.Exec.Aggregate.{Rendering}
use ferrite.Exec.Order.{Sorting}
use ferrite.Exec.Stream.{admitted, not_a_source, filter_rows, stream}

module _ (m : Machine) (sc : Scalars) (std : Sorting) (shown : Rendering) {W : Type 0}
    (z : Session W) where
  admitted-Yields :
      (ts : List Tuple)
      → z.limits.max_rows ≢ 0
      → Yields (λ (us : List Tuple). length us ≤ z.limits.max_rows) (admitted m sc std shown z ts)
  unfolding admitted
  admitted-Yields ts limited =
      Yields-bind_with _ _ _ _ (Yields-admit z (length ts) limited)
        (λ u fits. Yields-lift z _ _ fits)

  stream-Yields :
      (txn : ℕ) (plan : PhysicalPlan)
      → z.limits.max_rows ≢ 0
      → Yields
          (λ (us : List Tuple). length us ≤ z.limits.max_rows)
          (stream m sc std shown z txn plan)
  unfolding stream not_a_source
  stream-Yields txn (PhysicalPlan.seq_scan target predicate) h =
      Yields-bind _ _ _ λ u. Yields-bind _ _ _ λ ts. admitted-Yields ts h
  stream-Yields txn (PhysicalPlan.index_scan target index position key residual) h =
      Yields-bind _ _ _ λ u. Yields-bind _ _ _ λ ts. admitted-Yields ts h
  stream-Yields txn (PhysicalPlan.filter input predicate) h =
      Yields-bind _ _ _ λ u. Yields-bind _ _ _ λ ts. admitted-Yields ts h
  stream-Yields txn (PhysicalPlan.projection input exprs output) h =
      Yields-bind _ _ _ λ u. Yields-bind _ _ _ λ ts. admitted-Yields ts h
  stream-Yields txn (PhysicalPlan.nested_loop_join left right j predicate output) h =
      Yields-bind _ _ _ λ ls. Yields-bind _ _ _ λ rs. Yields-bind _ _ _ λ ts. admitted-Yields ts h
  stream-Yields txn (PhysicalPlan.aggregate input group_by calls output) h =
      Yields-bind _ _ _ λ u. Yields-bind _ _ _ λ ts. admitted-Yields ts h
  stream-Yields txn (PhysicalPlan.sort input keys) h =
      Yields-bind _ _ _ λ u. Yields-bind _ _ _ λ ts. admitted-Yields ts h
  stream-Yields txn (PhysicalPlan.distinct input) h = Yields-bind _ _ _ λ u. admitted-Yields _ h
  stream-Yields txn (PhysicalPlan.limit input count offset) h =
      Yields-bind _ _ _ λ u. admitted-Yields _ h
  stream-Yields txn plan h = Yields-lift z _ _ tt

  -- With a row limit, every plan that stream runs gives at most that many rows or fails.
  pub stream-le-max_rows :
      (txn : ℕ) (plan : PhysicalPlan) (s : State W)
      → z.limits.max_rows ≢ 0
      → Given (λ ts. length ts ≤ z.limits.max_rows) (stream m sc std shown z txn plan s).0
  stream-le-max_rows txn plan s h = (stream-Yields txn plan h).at s

  -- When the clock has reached the deadline, a filter over rows that, with those counted since the
  -- last look at the clock, are 512 or more fails.
  pub filter_rows-late :
      (predicate : PhysExpr) (ts : List Tuple) (s : State W) (deadline : ℕ)
      → s.deadline ≡ some deadline
      → deadline ≤ (z.engines.now s.world).0
      → 512 ≤ s.since_check + length ts
      → s.since_check < 512
      → Fails (filter_rows m sc std shown z predicate ts) s
  unfolding filter_rows
  filter_rows-late predicate [] s deadline d late enough started = absurd (omega arith)
  filter_rows-late predicate (t ∷ ts) s deadline d late enough started =
      elim (Bool-cases (ltb (s.since_check + 1) 512)) [
        | inl e ↦
            let next = record s { since_check = s.since_check + 1 } in
            Fails-next _ _ s next tt (tick-early z s deadline d e) (
              Fails-lift _ _ next λ keep kept.
                Fails-first _ _ next (
                  filter_rows-late predicate ts next deadline d late (ground arith) (ground arith)))
        | inr e ↦ Fails-first _ _ s (timed_out, tick-late z s deadline d e late)
      ]

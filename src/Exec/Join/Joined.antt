-- ===== src/Exec/Join/Joined.antt =====
-- `nested_loop_join` of ferrite-exec/src/executor.rs, its budget and its errors included, against the meaning of a
-- join.
use ferrite.Prelude.{ℕ, ◌≡◌, ◌≢◌, refl, ap, ◌∙◌, Option, none, some, List, [], ◌∷◌, get_elem?}
use ferrite.Common.Error.{FerriteError, err}
use ferrite.Planner.Expr.{PhysExpr}
use ferrite.Planner.Logical.{JoinType}
use ferrite.Planner.Rules.Relation.{join_rows}
use ferrite.Planner.Rules.Relation.Widths.{Wide}
use ferrite.Exec.Compare.{Machine}
use ferrite.Exec.Eval.{Scalars}
use ferrite.Exec.Session.{Tuple, Session, State, timed_out, over_budget}
use ferrite.Exec.Session.Ends.{Outcome, Outcome-map}
use ferrite.Exec.Join.{concat, first_width, condition, nested_loop_join}
use ferrite.Exec.Join.Loops.{test, nested_loop_join-Ends}
use ferrite.Exec.Join.Meaning.{rows_of, loops-join_rows}

-- The width of the rows of a side, where it has any.
abbrev pub shown_width : List Tuple → ℕ → ℕ
shown_width [] n = 0
shown_width (t ∷ ts) n = n

first_width-shown :
    (ts : List Tuple) (n : ℕ) → Wide n (rows_of ts) → first_width ts ≡ shown_width ts n
first_width-shown [] n h = refl
first_width-shown (t ∷ ts) n h = h.0

module _ (m : Machine) (sc : Scalars) {W : Type 0} (z : Session W)
    (predicate : Option PhysExpr) where
  -- The errors of a join: the time budget, the row budget, and those of its condition on a pair.
  pub data JoinFault (d : Option ℕ) (outer inner : List Tuple) : FerriteError → Type 0 where
    late : d ≢ none → JoinFault d outer inner timed_out
    over : z.limits.max_rows ≢ 0 → JoinFault d outer inner (over_budget z)
    failed :
        (i k : ℕ) (l r : Tuple) (e : FerriteError)
        → get_elem? outer i ≡ some l
        → get_elem? inner k ≡ some r
        → condition m sc z predicate (concat l.row.values r.row.values) ≡ err e
        → JoinFault d outer inner e

  -- On sides whose rows have one width each, nested_loop_join either fails, for the time budget if
  -- there is a deadline, for the row budget if there is a limit, or with the error of its condition
  -- on a pair of rows, or gives the rows of the join, in order: the matching pairs, and each row of
  -- a preserved side without a match padded with as many nulls as the rows of the other side are
  -- wide, but with none where the other side has no rows. The deadline stays as it was.
  pub nested_loop_join-join_rows :
      (n k : ℕ) (outer inner : List Tuple) (j : JoinType) (s : State W)
      → Wide n (rows_of outer)
      → Wide k (rows_of inner)
      → Outcome s.deadline
          (JoinFault s.deadline outer inner)
          (λ ts.
            rows_of ts
            ≡ join_rows j
                (shown_width outer n)
                (shown_width inner k)
                (test m sc z predicate)
                (rows_of outer)
                (rows_of inner))
          (nested_loop_join m sc z outer inner j predicate s)
  nested_loop_join-join_rows n k outer inner j s h i =
      let on = test m sc z predicate in
      Outcome-map _ _ _ _
        (λ ts e.
          ap rows_of e
          ∙ loops-join_rows on outer inner j
          ∙ ap (λ a. join_rows j a (first_width inner) on (rows_of outer) (rows_of inner))
              (first_width-shown outer n h)
          ∙ ap (λ b. join_rows j (shown_width outer n) b on (rows_of outer) (rows_of inner))
              (first_width-shown inner k i))
        (nested_loop_join m sc z outer inner j predicate s)
        ((nested_loop_join-Ends m sc z predicate s.deadline (JoinFault s.deadline outer inner) late
            over outer inner j failed).at
          s refl)

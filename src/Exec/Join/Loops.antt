-- ===== src/Exec/Join/Loops.antt =====
-- The loops of `nested_loop_join` of ferrite-exec/src/executor.rs without the budget and the errors, and how
-- the real ones end.
use ferrite.Prelude.{
  ℕ, suc, ◌≡◌, ◌≢◌, refl, Bool, true, false, not, ◌&&◌, Option, none, some, List, [], ◌∷◌, ◌++◌,
  set, get_elem?, get_or, replicate, if◌then◌else◌, Bool-cases, inl, inr,
}
use ferrite.Common.Error.{FerriteError, Result, ok, err}
use ferrite.Common.Value.{null, Row}
use ferrite.Planner.Expr.{PhysExpr}
use ferrite.Planner.Logical.{JoinType, preserves_left, preserves_right}
use ferrite.Planner.Rules.Relation.{Test}
use ferrite.Exec.Compare.{Machine}
use ferrite.Exec.Eval.{Scalars}
use ferrite.Exec.Session.{Tuple, Session, lift, timed_out, over_budget}
use ferrite.Exec.Session.Ends.{
  Ends, Ends-lift, Ends-ok, Ends-bind, Ends-bind_eq, Ends-tick, Ends-admit,
}
use ferrite.Exec.Join.{
  concat, made, first_width, Progress, start, condition, kept_by, push, keep_pair, inner_loop,
  pad_left, outer_loop, right_loop, nested_loop_join,
}

abbrev pub pushed : Progress → Row → Progress
pushed p joined = record p { out = p.out ++ made joined ∷ [] }

abbrev pub hit : Bool → ℕ → Row → Progress → Progress
hit true i joined p = pushed (record p { any = true; matched = set p.matched i true }) joined
hit false i joined p = p

unfoldable pub inner_pure : Test → Tuple → ℕ → List Tuple → Progress → Progress
inner_pure on left i [] p = p
inner_pure on left i (r ∷ rs) p =
    inner_pure on left (suc i) rs
      (hit (on (left.row.values ++ r.row.values)) i (concat left.row.values r.row.values) p)

abbrev pub pad_pure : Bool → ℕ → Tuple → Progress → Progress
pad_pure keep width left p =
    if not p.any && keep then pushed p (concat left.row.values (replicate width null)) else p

unfoldable pub outer_pure : Test → JoinType → ℕ → List Tuple → List Tuple → Progress → Progress
outer_pure on j width inner [] p = p
outer_pure on j width inner (l ∷ ls) p =
    outer_pure on j width inner ls
      (pad_pure (preserves_left j) width l (inner_pure on l 0 inner (record p { any = false })))

-- An inner row that has matched is left out, and another one is padded.
abbrev pub spared : Bool → ℕ → Tuple → Progress → Progress
spared true width r p = p
spared false width r p = pushed p (concat (replicate width null) r.row.values)

unfoldable pub right_pure : ℕ → ℕ → List Tuple → Progress → Progress
right_pure width i [] p = p
right_pure width i (r ∷ rs) p =
    right_pure width (suc i) rs (spared (get_or p.matched i false) width r p)

-- A row is kept where the condition evaluates to true.
abbrev pub holds : Result Bool → Bool
holds (ok b) = b
holds (err e) = false

module _ (m : Machine) (sc : Scalars) {W : Type 0} (z : Session W)
    (predicate : Option PhysExpr) where
  abbrev pub test : Test
  test v = holds (condition m sc z predicate (record { values = v }))

  module _ (d : Option ℕ) (F : FerriteError → Type 0) (late : d ≢ none → F timed_out)
      (over : z.limits.max_rows ≢ 0 → F (over_budget z)) where
    push-Ends : (p : Progress) (row : Row) → Ends d F (λ q. q ≡ pushed p row) (push m sc z p row)
    unfolding push
    push-Ends p row = Ends-bind _ _ _ _ (Ends-admit z _ over) (λ u fits. Ends-ok _ _ refl)

    keep_pair-Ends :
        (p : Progress) (i : ℕ) (row : Row) (b : Bool)
        → Ends d F (λ q. q ≡ hit b i row p) (keep_pair m sc z p i row b)
    unfolding keep_pair
    keep_pair-Ends p i row true = push-Ends _ row
    keep_pair-Ends p i row false = Ends-ok _ _ refl

    inner_loop-Ends :
        (left : Tuple) (i : ℕ) (inner : List Tuple) (p : Progress)
        → ((k : ℕ) (r : Tuple) (e : FerriteError)
            → get_elem? inner k ≡ some r
            → condition m sc z predicate (concat left.row.values r.row.values) ≡ err e
            → F e)
        → Ends d F
            (λ q. q ≡ inner_pure test left i inner p)
            (inner_loop m sc z predicate left i inner p)
    unfolding inner_loop inner_pure kept_by
    inner_loop-Ends left i [] p bad = Ends-ok _ _ refl
    inner_loop-Ends left i (r ∷ rs) p bad =
        let joined = concat left.row.values r.row.values in
        Ends-bind _ _ _ _ (Ends-tick z late) λ u ticked.
          Ends-bind_eq (holds (condition m sc z predicate joined)) _ _ _
            (Ends-lift _ _ (λ b e. rw e refl) (λ e h. bad 0 r e refl h))
            (Ends-bind_eq _ _ _ _ (keep_pair-Ends p i joined _)
              (inner_loop-Ends left (suc i) rs _ (λ k. bad (suc k))))

    pad_left-Ends :
        (keep : Bool) (width : ℕ) (left : Tuple) (p : Progress)
        → Ends d F (λ q. q ≡ pad_pure keep width left p) (pad_left m sc z keep width left p)
    unfolding pad_left
    pad_left-Ends keep width left p = elim (Bool-cases (not p.any && keep)) [
      | inl e ↦ rw e (push-Ends p _)
      | inr e ↦ rw e (Ends-ok _ _ refl)
    ]

    outer_loop-Ends :
        (j : JoinType) (width : ℕ) (inner outer : List Tuple) (p : Progress)
        → ((i k : ℕ) (l r : Tuple) (e : FerriteError)
            → get_elem? outer i ≡ some l
            → get_elem? inner k ≡ some r
            → condition m sc z predicate (concat l.row.values r.row.values) ≡ err e
            → F e)
        → Ends d F
            (λ q. q ≡ outer_pure test j width inner outer p)
            (outer_loop m sc z j predicate width inner outer p)
    unfolding outer_loop outer_pure
    outer_loop-Ends j width inner [] p bad = Ends-ok _ _ refl
    outer_loop-Ends j width inner (l ∷ ls) p bad =
        Ends-bind_eq _ _ _ _ (inner_loop-Ends l 0 inner _ (λ k r e. bad 0 k l r e refl)) (
          Ends-bind_eq _ _ _ _ (pad_left-Ends (preserves_left j) width l _)
            (outer_loop-Ends j width inner ls _ (λ i. bad (suc i))))

    right_loop-Ends :
        (width i : ℕ) (inner : List Tuple) (p : Progress)
        → Ends d F (λ q. q ≡ right_pure width i inner p) (right_loop m sc z width i inner p)
    unfolding right_loop right_pure
    right_loop-Ends width i [] p = Ends-ok _ _ refl
    right_loop-Ends width i (r ∷ rs) p = elim (Bool-cases (get_or p.matched i false)) [
      | inl e ↦ rw e (Ends-bind_eq _ _ _ _ (Ends-ok _ _ refl) (right_loop-Ends width (suc i) rs p))
      | inr e ↦ rw e (Ends-bind_eq _ _ _ _ (push-Ends p _) (right_loop-Ends width (suc i) rs _))
    ]

    -- What a join gives: the rows of the loops.
    abbrev pub joined_tuples : List Tuple → List Tuple → JoinType → List Tuple
    joined_tuples outer inner j =
        let p = outer_pure test j (first_width inner) inner outer (start inner) in
        (if preserves_right j then right_pure (first_width outer) 0 inner p else p).out

    right_part-Ends :
        (keep : Bool) (width : ℕ) (inner : List Tuple) (p : Progress)
        → Ends d F
            (λ q. q ≡ (if keep then right_pure width 0 inner p else p))
            (if keep then right_loop m sc z width 0 inner p else lift (ok p))
    right_part-Ends true width inner p = right_loop-Ends width 0 inner p
    right_part-Ends false width inner p = Ends-ok _ _ refl

    pub nested_loop_join-Ends :
        (outer inner : List Tuple) (j : JoinType)
        → ((i k : ℕ) (l r : Tuple) (e : FerriteError)
            → get_elem? outer i ≡ some l
            → get_elem? inner k ≡ some r
            → condition m sc z predicate (concat l.row.values r.row.values) ≡ err e
            → F e)
        → Ends d F
            (λ ts. ts ≡ joined_tuples outer inner j)
            (nested_loop_join m sc z outer inner j predicate)
    unfolding nested_loop_join
    nested_loop_join-Ends outer inner j bad =
        Ends-bind_eq _ _ _ _ (outer_loop-Ends j (first_width inner) inner outer _ bad) (
          Ends-bind_eq _ _ _ _ (right_part-Ends (preserves_right j) (first_width outer) inner _)
            (Ends-ok _ _ refl))

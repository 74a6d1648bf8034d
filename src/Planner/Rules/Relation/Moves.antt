-- ===== src/Planner/Rules/Relation/Moves.antt =====
-- The moves of push_join of ferrite-planner/src/rules.rs on the rows of a join.
use ferrite.Prelude.{ℕ, ◌≡◌, refl, ap, ◌∙◌, Bool, true, false, [], ◌++◌, All, length, if◌then◌else◌}
use ferrite.Planner.Logical.{JoinType, preserves_left, preserves_right}
use ferrite.Planner.Rules.{is_inner}
use ferrite.Planner.Rules.Relation.{
  Table, Test, only, left_rows, unmatched, join_rows, both, LeftTest, RightTest,
}
use ferrite.Planner.Rules.Relation.Sink.{
  only-append, only-left_rows, only-left_rows_right, only-unmatched,
}
use ferrite.Planner.Rules.Relation.Conditions.{
  left_rows-both_left, unmatched-both_left, left_rows-both_right, left_rows-both,
}

inner_plain :
    (j : JoinType) → is_inner j ≡ true → (preserves_left j ≡ false) × (preserves_right j ≡ false)
inner_plain JoinType.inner h = (refl, refl)
inner_plain JoinType.cross h = (refl, refl)
inner_plain JoinType.left h = cc
inner_plain JoinType.right h = cc
inner_plain JoinType.full h = cc

module _ (j : JoinType) (wide deep : ℕ) (e on : Test) (ls rs : Table) where
  -- A filter of the left side sinks into it, unless the join preserves the right side.
  pub filter_left :
      (p : Test)
      → preserves_right j ≡ false
      → All (LeftTest e p) ls
      → only e (join_rows j wide deep on ls rs) ≡ join_rows j wide deep on (only p ls) rs
  filter_left p h t = rw h (
      only-append e (left_rows (preserves_left j) deep on ls rs) []
      ∙ ap (λ x. x ++ []) (only-left_rows e p (preserves_left j) deep on ls rs t))

  preserved :
      (q : Test) (keep : Bool)
      → All (RightTest wide e q) rs
      → only e (if keep then unmatched wide on ls rs else [])
        ≡ (if keep then unmatched wide on ls (only q rs) else [])
  preserved q true t = only-unmatched e q wide on ls rs t
  preserved q false t = refl

  pub filter_right :
      (q : Test)
      → preserves_left j ≡ false
      → All (λ l. length l ≡ wide) ls
      → All (RightTest wide e q) rs
      → only e (join_rows j wide deep on ls rs) ≡ join_rows j wide deep on ls (only q rs)
  filter_right q h w t = rw h (
      only-append e (left_rows false deep on ls rs)
        (if preserves_right j then unmatched wide on ls rs else [])
      ∙ rw (only-left_rows_right e q wide deep on ls rs w t) (
          ap (λ x. left_rows false deep on ls (only q rs) ++ x)
            (preserved q (preserves_right j) t)))

  -- A condition on one side.
  pub condition_left :
      (p : Test)
      → preserves_left j ≡ false
      → All (LeftTest e p) ls
      → join_rows j wide deep (both on e) ls rs ≡ join_rows j wide deep on (only p ls) rs
  condition_left p h t =
      rw (h, left_rows-both_left e p deep on ls rs t, unmatched-both_left e p on wide ls rs t) refl

  pub condition_right :
      (q : Test)
      → preserves_right j ≡ false
      → All (λ l. length l ≡ wide) ls
      → All (RightTest wide e q) rs
      → join_rows j wide deep (both on e) ls rs ≡ join_rows j wide deep on ls (only q rs)
  condition_right q h w t =
      rw (h, left_rows-both_right e q (preserves_left j) wide deep on ls rs w t) refl

  -- A filter above an inner join becomes a condition.
  pub filter_condition :
      is_inner j ≡ true
      → only e (join_rows j wide deep on ls rs) ≡ join_rows j wide deep (both on e) ls rs
  filter_condition h =
      let plain = inner_plain j h in
      rw (plain.0, plain.1)
        (only-append e (left_rows false deep on ls rs) []
          ∙ ap (λ x. x ++ []) (left_rows-both e deep on ls rs))

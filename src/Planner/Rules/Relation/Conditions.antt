-- ===== src/Planner/Rules/Relation/Conditions.antt =====
-- Conditions of a join become filters of its sides, and filters become conditions.
use ferrite.Prelude.{
  ℕ, ◌≡◌, refl, ◌∙◌, Bool, true, false, ◌&&◌, ◌||◌, [], ◌∷◌, ◌++◌, All, length, if◌then◌else◌,
  Bool-cases, inl, inr,
}
use ferrite.Planner.Rules.Relation.Sink.{only-append}
use ferrite.Planner.Rules.Relation.{
  Tuple, Table, Test, only, matches, has_match, left_rows, unmatched, both, LeftTest, RightTest,
}

-- A condition on the left side alone.
pub matches-both_left :
    (e on : Test) (b : Bool) (l : Tuple) (rs : Table)
    → ((w : Tuple) → e (l ++ w) ≡ b)
    → matches (both on e) l rs ≡ (if b then matches on l rs else [])
matches-both_left e on true l [] h = refl
matches-both_left e on false l [] h = refl
matches-both_left e on true l (r ∷ rs) h =
    let rest = matches-both_left e on true l rs h in
    elim (Bool-cases (on (l ++ r))) [ inl k ↦ rw (k, h r, rest) refl | inr k ↦ rw (k, rest) refl ]
matches-both_left e on false l (r ∷ rs) h =
    let rest = matches-both_left e on false l rs h in
    elim (Bool-cases (on (l ++ r))) [ inl k ↦ rw (k, h r, rest) refl | inr k ↦ rw (k, rest) refl ]

pub left_rows-both_left :
    (e p : Test) (width : ℕ) (on : Test) (ls rs : Table)
    → All (LeftTest e p) ls
    → left_rows false width (both on e) ls rs ≡ left_rows false width on (only p ls) rs
left_rows-both_left e p width on [] rs h = refl
left_rows-both_left e p width on (l ∷ ls) rs h =
    let rest = left_rows-both_left e p width on ls rs h.1 in
    let here = matches-both_left e on (p l) l rs h.0 in
    elim (Bool-cases (p l)) [ inl k ↦ rw (here, rest, k) refl | inr k ↦ rw (here, rest, k) refl ]

and_true_or : (a x : Bool) → ((a && true) || x) ≡ (a || x)
and_true_or true x = refl
and_true_or false x = refl

and_false_or : (a x : Bool) → ((a && false) || x) ≡ x
and_false_or true x = refl
and_false_or false x = refl

has_match-both_left :
    (e p on : Test) (r : Tuple) (ls : Table)
    → All (LeftTest e p) ls
    → has_match (both on e) r ls ≡ has_match on r (only p ls)
has_match-both_left e p on r [] h = refl
has_match-both_left e p on r (l ∷ ls) h =
    let rest = has_match-both_left e p on r ls h.1 in
    elim (Bool-cases (p l)) [
      | inl k ↦ rw (h.0 r, rest, k) (and_true_or (on (l ++ r)) _)
      | inr k ↦ rw (h.0 r, rest, k) (and_false_or (on (l ++ r)) _)
    ]

pub unmatched-both_left :
    (e p on : Test) (wide : ℕ) (ls rs : Table)
    → All (LeftTest e p) ls
    → unmatched wide (both on e) ls rs ≡ unmatched wide on (only p ls) rs
unmatched-both_left e p on wide ls [] h = refl
unmatched-both_left e p on wide ls (r ∷ rs) h =
    rw (has_match-both_left e p on r ls h, unmatched-both_left e p on wide ls rs h) refl

-- A condition on the right side alone.
pub matches-both_right :
    (e q on : Test) (wide : ℕ) (l : Tuple) (rs : Table)
    → length l ≡ wide
    → All (RightTest wide e q) rs
    → matches (both on e) l rs ≡ matches on l (only q rs)
matches-both_right e q on wide l [] w h = refl
matches-both_right e q on wide l (r ∷ rs) w h =
    let rest = matches-both_right e q on wide l rs w h.1 in
    let here = h.0 l w in
    elim (Bool-cases (on (l ++ r))) [
      | inl k ↦ elim (Bool-cases (q r)) [
        | inl t ↦ rw (k, here, t, rest) rw k refl
        | inr t ↦ rw (k, here, t, rest) refl
      ]
      | inr k ↦ elim (Bool-cases (q r)) [
        | inl t ↦ rw (k, t, rest) rw k refl
        | inr t ↦ rw (k, t, rest) refl
      ]
    ]

pub left_rows-both_right :
    (e q : Test) (keep : Bool) (wide width : ℕ) (on : Test) (ls rs : Table)
    → All (λ l. length l ≡ wide) ls
    → All (RightTest wide e q) rs
    → left_rows keep width (both on e) ls rs ≡ left_rows keep width on ls (only q rs)
left_rows-both_right e q keep wide width on [] rs w h = refl
left_rows-both_right e q keep wide width on (l ∷ ls) rs w h =
    rw
      (
        matches-both_right e q on wide l rs w.0 h,
        left_rows-both_right e q keep wide width on ls rs w.1 h,
      )
      refl

-- A filter above an inner join is a condition of it.
pub matches-both :
    (e on : Test) (l : Tuple) (rs : Table) → only e (matches on l rs) ≡ matches (both on e) l rs
matches-both e on l [] = refl
matches-both e on l (r ∷ rs) =
    let rest = matches-both e on l rs in
    elim (Bool-cases (on (l ++ r))) [ inl k ↦ rw (k, rest) refl | inr k ↦ rw (k, rest) refl ]

pub left_rows-both :
    (e : Test) (width : ℕ) (on : Test) (ls rs : Table)
    → only e (left_rows false width on ls rs) ≡ left_rows false width (both on e) ls rs
left_rows-both e width on [] rs = refl
left_rows-both e width on (l ∷ ls) rs =
    only-append e (matches on l rs) (left_rows false width on ls rs)
    ∙ rw (matches-both e on l rs, left_rows-both e width on ls rs) refl

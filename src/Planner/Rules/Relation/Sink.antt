-- ===== src/Planner/Rules/Relation/Sink.antt =====
-- Filters above a join sink into its sides.
use mathlib.Core.Path.{fun_ext}
use ferrite.Prelude.{
  ℕ, ◌≡◌, refl, sym, ap, ◌∙◌, Bool, true, false, ◌&&◌, [], ◌∷◌, ◌++◌, All, length, replicate,
  length-replicate, arith, if◌then◌else◌, Bool-cases, inl, inr,
}
use ferrite.Common.Value.{null}
use ferrite.Planner.Rules.Relation.{
  Tuple, Table, Test, only, matches, has_match, padded, left_rows, unmatched, both, LeftTest,
  RightTest,
}

pub only-append : (f : Test) (xs ys : Table) → only f (xs ++ ys) ≡ only f xs ++ only f ys
only-append f [] ys = refl
only-append f (x ∷ xs) ys = elim (Bool-cases (f x)) [
  | inl h ↦ rw (h, only-append f xs ys) refl
  | inr h ↦ rw (h, only-append f xs ys) refl
]

pub only-only : (f g : Test) (xs : Table) → only f (only g xs) ≡ only (both f g) xs
only-only f g [] = refl
only-only f g (x ∷ xs) =
    let rest = only-only f g xs in
    elim (Bool-cases (g x)) [
      | inl h ↦ elim (Bool-cases (f x)) [
        | inl k ↦ rw (h, k, rest) refl
        | inr k ↦ rw (h, k, rest) refl
      ]
      | inr h ↦ elim (Bool-cases (f x)) [
        | inl k ↦ rw (h, k, rest) refl
        | inr k ↦ rw (h, k, rest) refl
      ]
    ]

-- Tests that agree on a table.
pub only-same : (f g : Test) (xs : Table) → All (λ x. f x ≡ g x) xs → only f xs ≡ only g xs
only-same f g [] h = refl
only-same f g (x ∷ xs) h = rw (h.0, only-same f g xs h.1) refl

pub All-only : (P : Tuple → Type 0) (f : Test) (xs : Table) → All P xs → All P (only f xs)
All-only P f [] h = tt
All-only P f (x ∷ xs) h = elim (Bool-cases (f x)) [
  | inl k ↦ rw k (h.0, All-only P f xs h.1)
  | inr k ↦ rw k (All-only P f xs h.1)
]

pub only-matches_left :
    (e on : Test) (b : Bool) (l : Tuple) (rs : Table)
    → ((w : Tuple) → e (l ++ w) ≡ b)
    → only e (matches on l rs) ≡ (if b then matches on l rs else [])
only-matches_left e on true l [] h = refl
only-matches_left e on false l [] h = refl
only-matches_left e on true l (r ∷ rs) h =
    let rest = only-matches_left e on true l rs h in
    elim (Bool-cases (on (l ++ r))) [ inl k ↦ rw (k, h r, rest) refl | inr k ↦ rw (k, rest) refl ]
only-matches_left e on false l (r ∷ rs) h =
    let rest = only-matches_left e on false l rs h in
    elim (Bool-cases (on (l ++ r))) [ inl k ↦ rw (k, h r, rest) refl | inr k ↦ rw (k, rest) refl ]

pub only-padded :
    (e : Test) (keep b : Bool) (width : ℕ) (l : Tuple) (found : Table)
    → e (l ++ replicate width null) ≡ b
    → only e found ≡ (if b then found else [])
    → only e (padded keep width l found) ≡ (if b then padded keep width l found else [])
only-padded e true true width l [] h k = rw h refl
only-padded e true false width l [] h k = rw h refl
only-padded e false b width l [] h k = k
only-padded e true b width l (x ∷ found) h k = k
only-padded e false b width l (x ∷ found) h k = k

-- A filter of the left side sinks into it.
pub only-left_rows :
    (e p : Test) (keep : Bool) (width : ℕ) (on : Test) (ls rs : Table)
    → All (LeftTest e p) ls
    → only e (left_rows keep width on ls rs) ≡ left_rows keep width on (only p ls) rs
only-left_rows e p keep width on [] rs h = refl
only-left_rows e p keep width on (l ∷ ls) rs h =
    let rest = only-left_rows e p keep width on ls rs h.1 in
    let found = matches on l rs in
    let first =
      only-padded e keep (p l) width l found (h.0 (replicate width null))
        (only-matches_left e on (p l) l rs h.0) in
    only-append e (padded keep width l found) (left_rows keep width on ls rs)
    ∙ elim (Bool-cases (p l)) [
      | inl k ↦ rw (first, rest, k) refl
      | inr k ↦ rw (first, rest, k) refl
    ]

-- A filter of the right side sinks into the matches.
pub only-matches_right :
    (e q on : Test) (wide : ℕ) (l : Tuple) (rs : Table)
    → length l ≡ wide
    → All (RightTest wide e q) rs
    → only e (matches on l rs) ≡ matches on l (only q rs)
only-matches_right e q on wide l [] w h = refl
only-matches_right e q on wide l (r ∷ rs) w h =
    let rest = only-matches_right e q on wide l rs w h.1 in
    let here = h.0 l w in
    elim (Bool-cases (on (l ++ r))) [
      | inl k ↦ elim (Bool-cases (q r)) [
        | inl t ↦ rw (k, here, t, rest) rw k refl
        | inr t ↦ rw (k, here, t, rest) refl
      ]
      | inr k ↦ elim (Bool-cases (q r)) [
        | inl t ↦ rw (k, t, rest) rw k refl
        | inr t ↦ rw (k, t, rest) refl
      ]
    ]

pub only-left_rows_right :
    (e q : Test) (wide width : ℕ) (on : Test) (ls rs : Table)
    → All (λ l. length l ≡ wide) ls
    → All (RightTest wide e q) rs
    → only e (left_rows false width on ls rs) ≡ left_rows false width on ls (only q rs)
only-left_rows_right e q wide width on [] rs w h = refl
only-left_rows_right e q wide width on (l ∷ ls) rs w h =
    only-append e (matches on l rs) (left_rows false width on ls rs)
    ∙ rw
        (
          only-matches_right e q on wide l rs w.0 h,
          only-left_rows_right e q wide width on ls rs w.1 h,
        )
        refl

pub only-unmatched :
    (e q : Test) (wide : ℕ) (on : Test) (ls rs : Table)
    → All (RightTest wide e q) rs
    → only e (unmatched wide on ls rs) ≡ unmatched wide on ls (only q rs)
only-unmatched e q wide on ls [] h = refl
only-unmatched e q wide on ls (r ∷ rs) h =
    let rest = only-unmatched e q wide on ls rs h.1 in
    let here = h.0 (replicate wide null) (length-replicate wide null) in
    elim (Bool-cases (has_match on r ls)) [
      | inl k ↦ elim (Bool-cases (q r)) [
        | inl t ↦ rw (k, t, rest) rw k refl
        | inr t ↦ rw (k, t, rest) refl
      ]
      | inr k ↦ elim (Bool-cases (q r)) [
        | inl t ↦ rw (k, here, t, rest) rw k refl
        | inr t ↦ rw (k, here, t, rest) refl
      ]
    ]

pub only-true : (xs : Table) → only (λ v. true) xs ≡ xs
only-true [] = refl
only-true (x ∷ xs) = ap (λ ys. x ∷ ys) (only-true xs)

and_swap : (a b : Bool) → (a && b) ≡ (b && a)
and_swap a b = ground arith

pub only_swap : (f g : Test) (xs : Table) → only f (only g xs) ≡ only g (only f xs)
only_swap f g xs =
    only-only f g xs
    ∙ ap (λ h. only h xs) (fun_ext (λ v. and_swap (f v) (g v)))
    ∙ sym (only-only g f xs)

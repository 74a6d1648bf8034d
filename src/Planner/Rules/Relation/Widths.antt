-- ===== src/Planner/Rules/Relation/Widths.antt =====
-- How wide the rows of a join are.
use ferrite.Prelude.{
  ℕ, ◌+◌, ◌≡◌, refl, ◌∙◌, Bool, true, false, [], ◌∷◌, ◌++◌, All, All-append, length, length-append,
  length-replicate, Bool-cases, inl, inr, if◌then◌else◌,
}
use ferrite.Common.Value.{null}
use ferrite.Planner.Logical.{JoinType, preserves_left, preserves_right}
use ferrite.Planner.Rules.Relation.{
  Tuple, Table, Test, matches, has_match, padded, left_rows, unmatched, join_rows,
}

-- Rows of one width.
abbrev pub Wide : ℕ → Table → Type 0
Wide n vs = All (λ v. length v ≡ n) vs

pair_width : (n k : ℕ) (v w : Tuple) → length v ≡ n → length w ≡ k → length (v ++ w) ≡ n + k
pair_width n k v w h i = length-append v w ∙ rw (h, i) refl

matches-Wide :
    (n k : ℕ) (on : Test) (l : Tuple) (rs : Table)
    → length l ≡ n
    → Wide k rs
    → Wide (n + k) (matches on l rs)
matches-Wide n k on l [] h i = tt
matches-Wide n k on l (r ∷ rs) h i =
    let rest = matches-Wide n k on l rs h i.1 in
    elim (Bool-cases (on (l ++ r))) [
      | inl t ↦ rw t (pair_width n k l r h i.0, rest)
      | inr t ↦ rw t rest
    ]

padded-Wide :
    (n k : ℕ) (keep : Bool) (l : Tuple) (found : Table)
    → length l ≡ n
    → Wide (n + k) found
    → Wide (n + k) (padded keep k l found)
padded-Wide n k true l [] h i = (pair_width n k l _ h (length-replicate k null), tt)
padded-Wide n k true l (x ∷ found) h i = i
padded-Wide n k false l found h i = i

left_rows-Wide :
    (n k : ℕ) (keep : Bool) (on : Test) (ls rs : Table)
    → Wide n ls
    → Wide k rs
    → Wide (n + k) (left_rows keep k on ls rs)
left_rows-Wide n k keep on [] rs h i = tt
left_rows-Wide n k keep on (l ∷ ls) rs h i =
    All-append _ (padded keep k l (matches on l rs)) (left_rows keep k on ls rs)
      (padded-Wide n k keep l (matches on l rs) h.0 (matches-Wide n k on l rs h.0 i))
      (left_rows-Wide n k keep on ls rs h.1 i)

unmatched-Wide :
    (n k : ℕ) (on : Test) (ls rs : Table) → Wide k rs → Wide (n + k) (unmatched n on ls rs)
unmatched-Wide n k on ls [] h = tt
unmatched-Wide n k on ls (r ∷ rs) h =
    let rest = unmatched-Wide n k on ls rs h.1 in
    elim (Bool-cases (has_match on r ls)) [
      | inl t ↦ rw t rest
      | inr t ↦ rw t (pair_width n k _ r (length-replicate n null) h.0, rest)
    ]

right_rows-Wide :
    (n k : ℕ) (keep : Bool) (on : Test) (ls rs : Table)
    → Wide k rs
    → Wide (n + k) (if keep then unmatched n on ls rs else [])
right_rows-Wide n k true on ls rs h = unmatched-Wide n k on ls rs h
right_rows-Wide n k false on ls rs h = tt

pub join_rows-Wide :
    (j : JoinType) (n k : ℕ) (on : Test) (ls rs : Table)
    → Wide n ls
    → Wide k rs
    → Wide (n + k) (join_rows j n k on ls rs)
join_rows-Wide j n k on ls rs h i =
    All-append _ (left_rows (preserves_left j) k on ls rs) _
      (left_rows-Wide n k (preserves_left j) on ls rs h i)
      (right_rows-Wide n k (preserves_right j) on ls rs i)

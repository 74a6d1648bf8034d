-- ===== src/Planner/Rules/Relation.antt =====
-- What a join means, independently of the executor: rows as lists of values, conditions as tests,
-- and how filters move through it. JoinType is that of ferrite-planner/src/logical.rs.
pub mod Sink
pub mod Conditions
pub mod Moves
pub mod Widths
use ferrite.Prelude.{
  ℕ, ◌≡◌, refl, sym, ap, ◌∙◌, Bool, true, false, not, ◌&&◌, ◌||◌, List, [], ◌∷◌, ◌++◌, map, All,
  length, replicate, length-replicate, arith, if◌then◌else◌, Bool-cases, ◌⊎◌, inl, inr, append-nil,
  append_assoc,
}
use ferrite.Common.Value.{Value, null}
use ferrite.Planner.Logical.{JoinType, preserves_left, preserves_right}

abbrev pub Tuple : Type 0
Tuple = List Value

abbrev pub Table : Type 0
Table = List Tuple

abbrev pub Test : Type 0
Test = Tuple → Bool

-- The rows that pass a test.
abbrev pub only : Test → Table → Table
only test [] = []
only test (v ∷ vs) = let rest = only test vs in if test v then v ∷ rest else rest

-- The rows of the right side that match a row of the left one, joined to it.
abbrev pub matches : Test → Tuple → Table → Table
matches on l [] = []
matches on l (r ∷ rs) = let rest = matches on l rs in if on (l ++ r) then (l ++ r) ∷ rest else rest

abbrev pub has_match : Test → Tuple → Table → Bool
has_match on r [] = false
has_match on r (l ∷ ls) = let rest = has_match on r ls in on (l ++ r) || rest

-- A row without a match is padded with nulls where its side is preserved.
abbrev pub padded : Bool → ℕ → Tuple → Table → Table
padded true width l [] = (l ++ replicate width null) ∷ []
padded keep width l found = found

abbrev pub left_rows : Bool → ℕ → Test → Table → Table → Table
left_rows keep width on [] rs = []
left_rows keep width on (l ∷ ls) rs =
    padded keep width l (matches on l rs) ++ left_rows keep width on ls rs

abbrev pub unmatched : ℕ → Test → Table → Table → Table
unmatched width on ls [] = []
unmatched width on ls (r ∷ rs) =
    let rest = unmatched width on ls rs in
    if has_match on r ls then rest else (replicate width null ++ r) ∷ rest

-- The rows of a join of sides of the given widths.
abbrev pub join_rows : JoinType → ℕ → ℕ → Test → Table → Table → Table
join_rows j wide deep on ls rs =
    left_rows (preserves_left j) deep on ls rs
    ++ (if preserves_right j then unmatched wide on ls rs else [])

abbrev pub both : Test → Test → Test
both f g v = f v && g v

-- A test of the left side alone, and one of the right side alone.
abbrev pub LeftTest : Test → Test → Tuple → Type 0
LeftTest e p l = (w : Tuple) → e (l ++ w) ≡ p l

abbrev pub RightTest : ℕ → Test → Test → Tuple → Type 0
RightTest wide e q r = (v : Tuple) → length v ≡ wide → e (v ++ r) ≡ q r

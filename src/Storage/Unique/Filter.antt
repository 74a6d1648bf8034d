-- ===== src/Storage/Unique/Filter.antt =====
-- `Filter` of ferrite-storage/src/unique.rs. A hash set is a list without repetition.
use ferrite.Prelude.{ℕ, Bool, true, ◌||◌, List, [], ◌∷◌, length, leb, if◌then◌else◌}
use ferrite.Storage.Transactions.{contains}

pub record Filter : Type 0 where
  pub hashes : List ℕ
  pub saturated : Bool

abbrev pub insert : List ℕ → ℕ → List ℕ
insert hashes hash = if contains hashes hash then hashes else hash ∷ hashes

unfoldable pub add : Filter → ℕ → ℕ → Filter
add f hash capacity =
    if f.saturated
    then f
    else if leb capacity (length f.hashes)
    then record { hashes = []; saturated = true }
    else record f { hashes = insert f.hashes hash }

abbrev pub may_contain : Filter → ℕ → Bool
may_contain f hash = f.saturated || contains f.hashes hash

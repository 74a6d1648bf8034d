-- ===== src/Storage/Unique/KeyFilters.antt =====
-- `KeyFilters` of ferrite-storage/src/unique.rs. The map from a constraint, which is a table and its
-- columns, to its filter is an association list; an insert stands in front of what it replaces.
use ferrite.Prelude.{
  same_list, ℕ, Bool, true, false, ◌&&◌, Option, none, some, List, [], ◌∷◌, length, leb, ◌==◌,
  if◌then◌else◌,
}
use ferrite.Storage.Unique.Filter
use ferrite.Storage.Unique.Filter.{Filter, add}

abbrev pub default_filter_capacity : ℕ
default_filter_capacity = 1048576

abbrev pub Filters : Type 0
Filters = List ((ℕ × List ℕ) × Filter)

pub record KeyFilters : Type 0 where
  pub filters : Filters
  pub capacity : ℕ

-- The equality of two constraints.
abbrev pub same_key : ℕ × List ℕ → ℕ × List ℕ → Bool
same_key (table, columns) (t, cs) = table == t && same_list columns cs

unfoldable pub get : Filters → ℕ × List ℕ → Option Filter
get [] key = none
get ((k, f) ∷ rest) key = if same_key k key then some f else get rest key

-- `get_mut` of the filter, and `add` on it.
unfoldable pub note_in : Filters → ℕ × List ℕ → ℕ → ℕ → Filters
unfolding add
note_in [] key hash capacity = []
note_in ((k, f) ∷ rest) key hash capacity =
    let noted = note_in rest key hash capacity in
    if same_key k key then (k, add f hash capacity) ∷ rest else (k, f) ∷ noted

unfoldable pub retain : Filters → ℕ → Filters
retain [] table = []
retain (((t, columns), f) ∷ rest) table =
    let kept = retain rest table in if t == table then kept else ((t, columns), f) ∷ kept

abbrev pub new : ℕ → KeyFilters
new capacity = record { filters = []; capacity = capacity }

is_some : Option Filter → Bool
is_some none = false
is_some (some f) = true

abbrev pub is_built : KeyFilters → ℕ → List ℕ → Bool
unfolding is_some
is_built k table columns = is_some (get k.filters (table, columns))

abbrev pub build : KeyFilters → ℕ → List ℕ → List ℕ → KeyFilters
build k table columns hashes =
    let saturated = leb k.capacity (length hashes) in
    let filter : Filter = record {
      hashes = if saturated then [] else hashes;
      saturated = saturated;
    } in
    record k { filters = ((table, columns), filter) ∷ k.filters }

unfoldable pub or_may_contain : Option Filter → ℕ → Bool
or_may_contain none hash = true
or_may_contain (some f) hash = Filter.may_contain f hash

unfoldable pub may_contain : KeyFilters → ℕ → List ℕ → ℕ → Bool
unfolding or_may_contain
may_contain k table columns hash = or_may_contain (get k.filters (table, columns)) hash

abbrev pub note : KeyFilters → ℕ → List ℕ → ℕ → KeyFilters
note k table columns hash = record k {
  filters = note_in k.filters (table, columns) hash k.capacity;
}

abbrev pub invalidate : KeyFilters → ℕ → KeyFilters
invalidate k table = record k { filters = retain k.filters table }

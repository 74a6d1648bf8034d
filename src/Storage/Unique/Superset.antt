-- ===== src/Storage/Unique/Superset.antt =====
-- The invariant of ferrite-storage/src/unique.rs: a filter holds the hashes of all keys of its table.
use ferrite.Prelude.{
  same_list-eq, ℕ, ◌≡◌, refl, Bool, true, List, [], ◌∷◌, ==_iff, arith, ◌⊎◌, inl, inr, sym,
}
use ferrite.Storage.Transactions.{contains}
use ferrite.Storage.Unique.Filter
use ferrite.Storage.Unique.Filter.{Filter, add}
use ferrite.Storage.Unique.KeyFilters.{
  Filters, KeyFilters, get, note_in, retain, new, build, or_may_contain, may_contain, note,
  invalidate,
}

-- Adding a hash keeps those that the filter may hold, and the filter may hold it then.
may_contain-add :
    (f : Filter) (hash capacity x : ℕ)
    → ((Filter.may_contain f x ≡ true) ⊎ (hash ≡ x))
    → Filter.may_contain (add f hash capacity) x ≡ true
unfolding add contains
may_contain-add f hash capacity x h = ground arith

pub get-note_in :
    (fs : Filters) (t : ℕ) (cs : List ℕ) (u : ℕ) (ds : List ℕ) (hash capacity x : ℕ)
    → ((or_may_contain (get fs (t, cs)) x ≡ true) ⊎ ((u ≡ t) × (ds ≡ cs) × (hash ≡ x)))
    → or_may_contain (get (note_in fs (u, ds) hash capacity) (t, cs)) x ≡ true
unfolding get note_in or_may_contain
get-note_in [] t cs u ds hash capacity x h = refl
get-note_in (((w, es), f) ∷ rest) t cs u ds hash capacity x h =
    ground (arith, may_contain-add f hash capacity x, get-note_in rest t cs u ds hash capacity x)

get-retain :
    (fs : Filters) (t : ℕ) (cs : List ℕ) (u x : ℕ)
    → ((or_may_contain (get fs (t, cs)) x ≡ true) ⊎ (u ≡ t))
    → or_may_contain (get (retain fs u) (t, cs)) x ≡ true
unfolding get retain or_may_contain
get-retain [] t cs u x h = refl
get-retain (((w, es), f) ∷ rest) t cs u x h = ground (arith, get-retain rest t cs u x)

-- The hashes of the keys that stand in each table, under each list of columns.
abbrev pub Live : Type 0
Live = ℕ → List ℕ → ℕ → Bool

-- What happens to the filters and to the keys of the tables: a checked write notes its key, an
-- unchecked one drops the filters of its table, a delete does nothing, and a scan builds a filter.
pub data Step (k : KeyFilters) (live : Live) (k' : KeyFilters) (live' : Live) : Type 0 where
  checked :
      (u : ℕ) (ds : List ℕ) (hash : ℕ)
      → note k u ds hash ≡ k'
      → ((t : ℕ) (cs : List ℕ) (x : ℕ)
          → live' t cs x ≡ true
          → (live t cs x ≡ true) ⊎ ((u ≡ t) × (ds ≡ cs) × (hash ≡ x)))
      → Step k live k' live'
  unchecked :
      (u : ℕ)
      → invalidate k u ≡ k'
      → ((t : ℕ) (cs : List ℕ) (x : ℕ) → live' t cs x ≡ true → (live t cs x ≡ true) ⊎ (u ≡ t))
      → Step k live k' live'
  deleted :
      k ≡ k'
      → ((t : ℕ) (cs : List ℕ) (x : ℕ) → live' t cs x ≡ true → live t cs x ≡ true)
      → Step k live k' live'
  built :
      (u : ℕ) (ds hashes : List ℕ)
      → build k u ds hashes ≡ k'
      → ((x : ℕ) → live u ds x ≡ true → contains hashes x ≡ true)
      → ((t : ℕ) (cs : List ℕ) (x : ℕ) → live' t cs x ≡ true → live t cs x ≡ true)
      → Step k live k' live'

pub data Reach (capacity : ℕ) : KeyFilters → Live → Type 0 where
  start : (live : Live) → Reach capacity (new capacity) live
  next :
      {k k' : KeyFilters} {live live' : Live}
      → Reach capacity k live
      → Step k live k' live'
      → Reach capacity k' live'

-- No filter proves a key absent that stands in the table.
abbrev pub Covers : KeyFilters → Live → Type 0
Covers k live = (t : ℕ) (cs : List ℕ) (x : ℕ) → live t cs x ≡ true → may_contain k t cs x ≡ true

pub get-build :
    (k : KeyFilters) (u : ℕ) (ds hashes : List ℕ) (t : ℕ) (cs : List ℕ) (x : ℕ)
    → or_may_contain (get k.filters (t, cs)) x ≡ true
    → (u ≡ t → ds ≡ cs → contains hashes x ≡ true)
    → or_may_contain (get (build k u ds hashes).filters (t, cs)) x ≡ true
unfolding get or_may_contain
get-build k u ds hashes t cs x old fills =
    ground (arith, old, fills, ==_iff u t, same_list-eq ds cs)

Step-Covers :
    (k k' : KeyFilters) (live live' : Live) → Step k live k' live' → Covers k live → Covers k' live'
unfolding may_contain
Step-Covers k k' live live' (checked u ds hash e grows) h t cs x there = rw (sym e) (
    get-note_in k.filters t cs u ds hash k.capacity x
      (elim (grows t cs x there) [ inl old ↦ inl (h t cs x old) | inr new ↦ inr new ]))
Step-Covers k k' live live' (unchecked u e grows) h t cs x there = rw (sym e) (
    get-retain k.filters t cs u x
      (elim (grows t cs x there) [ inl old ↦ inl (h t cs x old) | inr same ↦ inr same ]))
Step-Covers k k' live live' (deleted e shrinks) h t cs x there =
    rw (sym e) (h t cs x (shrinks t cs x there))
Step-Covers k k' live live' (built u ds hashes e complete shrinks) h t cs x there = rw (sym e) (
    get-build k u ds hashes t cs x (h t cs x (shrinks t cs x there))
      (λ p q. complete x (rw p (rw q (shrinks t cs x there)))))

-- Along every sequence of checked writes that note their key, unchecked writes that drop their
-- table's filters, deletes, and builds from a scan that misses no key, from new filters on, no
-- filter proves a key absent that stands in its table.
pub Reach-Covers :
    (capacity : ℕ) (k : KeyFilters) (live : Live) → Reach capacity k live → Covers k live
unfolding may_contain get or_may_contain
Reach-Covers capacity _ live (start _) = λ t cs x there. refl
Reach-Covers capacity k' live' (next {k = k} {live = live} r step) =
    Step-Covers k k' live live' step (Reach-Covers capacity k live r)

-- ===== src/Storage/Unique/Enforce.antt =====
-- `enforce_unique` of ferrite-storage/src/engine.rs. The B-tree of a table is the list of its keys,
-- in order, with their payloads. `hash_key` feeds the values of a key to the standard library's
-- hasher, which is a parameter.
pub mod Standing
pub mod Agreement
pub mod Aborted
mod Examples
use ferrite.Prelude.{
  ℕ, Bool, true, false, not, ◌&&◌, Option, none, some, List, [], ◌∷◌, ◌==◌, if◌then◌else◌,
}
use ferrite.Common.Error.{Result, ok, err, ◌>>=◌}
use ferrite.Common.Value.{Value, Row, same_values}
use ferrite.Common.Storage.{UniqueKey, extract, violation}
use ferrite.Storage.Codec.Reader.{Bytes}
use ferrite.Storage.Codec.Rows.{decode_row}
use ferrite.Storage.Version.{decode_chain}
use ferrite.Storage.Transactions.{Inner}
use ferrite.Storage.Mvcc.{constraint_version}
use ferrite.Storage.Unique.Filter.{insert}
use ferrite.Storage.Unique.KeyFilters.{KeyFilters, is_built, build, may_contain, note}

-- The filters as they are left, and the result.
abbrev pub Outcome : Type 0
Outcome = KeyFilters × Result (Unit {0})

abbrev pub Table : Type 0
Table = List (ℕ × Bytes)

-- A visit gives whether the walk goes on, and what it has gathered.
abbrev pub Visit : Type 0 → Type 0
Visit A = A → ℕ → Row → Bool × A

visit_row : {A : Type 0} → Option Bytes → Visit A → A → ℕ → Result (Bool × A)
visit_row none visit acc key = ok (true, acc)
visit_row (some bytes) visit acc key = decode_row bytes >>= λ row. ok (visit acc key row)

visit_key : {A : Type 0} → Inner → ℕ → Visit A → A → ℕ → Bytes → Result (Bool × A)
unfolding visit_row
visit_key s txn visit acc key payload =
    decode_chain payload >>= λ chain. visit_row (constraint_version s txn chain) visit acc key

pub walk_for_constraints : {A : Type 0} → Inner → ℕ → Table → Visit A → A → Result A
unfolding visit_key
walk_for_constraints s txn [] visit acc = ok acc
walk_for_constraints s txn ((key, payload) ∷ rest) visit acc =
    visit_key s txn visit acc key payload >>= λ r. elim r.0 [
      | true ↦ walk_for_constraints s txn rest visit r.1
      | false ↦ ok r.1
    ]

pub is_excluded : Option ℕ → ℕ → Bool
is_excluded none rid = false
is_excluded (some exclude) rid = rid == exclude

pub matches : Option (List Value) → List Value → Bool
matches none wanted = false
matches (some key) wanted = same_values key wanted

pub clash_visit : UniqueKey → List Value → Option ℕ → Visit Bool
unfolding is_excluded matches
clash_visit constraint wanted exclude clash rid existing =
    if not (is_excluded exclude rid) && matches (extract constraint existing) wanted
    then (false, true)
    else (true, clash)

-- The error of one constraint ends the loop.
after : Outcome → Outcome → Outcome
after (k, err e) rest = (k, err e)
after (k, ok u) rest = rest

module _ (hash_key : List Value → ℕ) where
  hash_insert : Option (List Value) → List ℕ → List ℕ
  hash_insert none hashes = hashes
  hash_insert (some key) hashes = insert hashes (hash_key key)

  pub build_visit : UniqueKey → Visit (List ℕ)
  unfolding hash_insert
  build_visit constraint hashes rid existing =
      (true, hash_insert (extract constraint existing) hashes)

  module _ (s : Inner) (txn table : ℕ) (rows : Table) where
    pub ensure_built : KeyFilters → UniqueKey → Result KeyFilters
    unfolding build_visit
    ensure_built k constraint =
        if is_built k table constraint.columns
        then ok k
        else walk_for_constraints s txn rows (build_visit constraint) [] >>= λ hashes.
            ok (build k table constraint.columns hashes)

    pub find_clash : KeyFilters → UniqueKey → List Value → Option ℕ → Result Bool
    unfolding clash_visit
    find_clash k constraint wanted exclude =
        if may_contain k table constraint.columns (hash_key wanted)
        then walk_for_constraints s txn rows (clash_visit constraint wanted exclude) false
        else ok false

    on_clash : KeyFilters → UniqueKey → List Value → Result Bool → Outcome
    on_clash k constraint wanted (err e) = (k, err e)
    on_clash k constraint wanted (ok true) = (k, err (violation constraint wanted))
    on_clash k constraint wanted (ok false) =
        (note k table constraint.columns (hash_key wanted), ok tt)

    on_built : KeyFilters → UniqueKey → List Value → Option ℕ → Result KeyFilters → Outcome
    unfolding on_clash find_clash
    on_built k constraint wanted exclude (err e) = (k, err e)
    on_built k constraint wanted exclude (ok q) =
        on_clash q constraint wanted (find_clash q constraint wanted exclude)

    on_key : KeyFilters → UniqueKey → Option (List Value) → Option ℕ → Outcome
    unfolding on_built ensure_built
    on_key k constraint none exclude = (k, ok tt)
    on_key k constraint (some wanted) exclude =
        on_built k constraint wanted exclude (ensure_built k constraint)

    pub enforce_unique : KeyFilters → List UniqueKey → Row → Option ℕ → Outcome
    unfolding on_key after
    enforce_unique k [] row exclude = (k, ok tt)
    enforce_unique k (constraint ∷ unique) row exclude =
        let r = on_key k constraint (extract constraint row) exclude in
        let rest = enforce_unique r.0 unique row exclude in after r rest

-- ===== src/Storage/Unique/Enforce/Agreement.antt =====
-- The unique check of ferrite-storage/src/engine.rs answers the same with its filters as without.
use ferrite.Prelude.{
  ℕ, ◌≡◌, refl, ◌∙◌, Bool, true, false, ◌||◌, Option, none, some, List, [], ◌∷◌, ◌==◌, ==_iff,
  if◌then◌else◌, arith, Option-cases, Bool-cases, inl, inr,
}
use ferrite.Common.Error.{Result, ok, err, ◌>>=◌}
use ferrite.Common.Value.{Value, Row, same_values}
use ferrite.Common.Storage.{UniqueKey, extract, extract_from, violation}
use ferrite.Storage.Transactions.{Inner, contains}
use ferrite.Storage.Unique.KeyFilters.{KeyFilters, is_built, build, may_contain}
use ferrite.Storage.Unique.Superset.{get-build, get-note_in}
use ferrite.Storage.Unique.Enforce.{
  Outcome, Table, matches, clash_visit, hash_insert, build_visit, ensure_built, find_clash,
  on_clash, on_built, on_key, after, enforce_unique,
}
use ferrite.Storage.Unique.Enforce.Standing.{
  Stands, fold_until, walk-Stands, clashes, fold_until-clash_visit,
}

after-bind :
    (r rest : Outcome) {w : Result (Unit {0})} → rest.1 ≡ w → (after r rest).1 ≡ (r.1 >>= λ u. w)
unfolding after
after-bind (k, err e) rest h = refl
after-bind (k, ok u) rest h = h

-- What the check of one constraint answers without filters, and that of all, in turn.
verdict : UniqueKey → Option (List Value) → Option ℕ → List (ℕ × Row) → Result (Unit {0})
verdict constraint none exclude rs = ok tt
verdict constraint (some wanted) exclude rs =
    if clashes constraint wanted exclude rs then err (violation constraint wanted) else ok tt

pub check_unique : List UniqueKey → Row → Option ℕ → List (ℕ × Row) → Result (Unit {0})
unfolding verdict
check_unique [] row exclude rs = ok tt
check_unique (constraint ∷ unique) row exclude rs =
    verdict constraint (extract constraint row) exclude rs >>= λ u.
    check_unique unique row exclude rs

module _ (hash_key : List Value → ℕ) where
  hashes_to : Option (List Value) → ℕ → Bool
  hashes_to none x = false
  hashes_to (some key) x = hash_key key == x

  -- Some row has a key with this hash.
  pub has_hash : List ℕ → List (ℕ × Row) → ℕ → Bool
  unfolding hashes_to
  has_hash columns [] x = false
  has_hash columns ((rid, row) ∷ rs) x =
      hashes_to (extract_from columns row) x || has_hash columns rs x

  contains-hash_insert :
      (key : Option (List Value)) (hashes : List ℕ) (x : ℕ)
      → contains (hash_insert hash_key key hashes) x ≡ (hashes_to key x || contains hashes x)
  unfolding hash_insert hashes_to contains
  contains-hash_insert none hashes x = refl
  contains-hash_insert (some key) hashes x = ground (arith, ==_iff (hash_key key) x)

  contains-build_visit :
      (constraint : UniqueKey) (rs : List (ℕ × Row)) (hashes : List ℕ) (x : ℕ)
      → contains (fold_until (build_visit hash_key constraint) rs hashes) x
        ≡ (has_hash constraint.columns rs x || contains hashes x)
  unfolding fold_until build_visit has_hash
  contains-build_visit constraint [] hashes x = refl
  contains-build_visit constraint ((rid, row) ∷ rs) hashes x =
      let step = contains-hash_insert (extract constraint row) hashes x in
      let rest =
        contains-build_visit constraint rs (hash_insert hash_key (extract constraint row) hashes)
          x in
      ground (arith, step, rest)

  -- No filter of the table proves absent the key of a row that stands.
  abbrev pub CoversRows : ℕ → KeyFilters → List (ℕ × Row) → Type 0
  CoversRows table k rs =
      (columns : List ℕ) (x : ℕ)
      → has_hash columns rs x ≡ true
      → may_contain k table columns x ≡ true

  -- The values that compare equal to the key's are hashed alike.
  abbrev pub IsHashed : Option (List Value) → Type 0
  IsHashed key =
      (wanted other : List Value)
      → key ≡ some wanted
      → same_values other wanted ≡ true
      → hash_key other ≡ hash_key wanted

  clashes-has_hash :
      (constraint : UniqueKey) (wanted : List Value) (exclude : Option ℕ) (rs : List (ℕ × Row))
      → ((other : List Value) → same_values other wanted ≡ true → hash_key other ≡ hash_key wanted)
      → clashes constraint wanted exclude rs ≡ true
      → has_hash constraint.columns rs (hash_key wanted) ≡ true
  unfolding clashes has_hash hashes_to matches
  clashes-has_hash constraint wanted exclude [] alike h = cc
  clashes-has_hash constraint wanted exclude ((rid, row) ∷ rs) alike h =
      elim (Option-cases (extract constraint row)) [
        | inl none_there ↦
            ground (arith, none_there, clashes-has_hash constraint wanted exclude rs alike)
        | inr (key, there) ↦ ground (
          arith,
          there,
          alike key,
          ==_iff (hash_key key) (hash_key wanted),
          clashes-has_hash constraint wanted exclude rs alike,
        )
      ]

  module _ (s : Inner) (txn table : ℕ) (rows : Table) (rs : List (ℕ × Row))
      (there : Stands s txn rows rs) where
    collected :
        (constraint : UniqueKey) (columns : List ℕ) (x : ℕ)
        → constraint.columns ≡ columns
        → has_hash columns rs x ≡ true
        → contains (fold_until (build_visit hash_key constraint) rs []) x ≡ true
    collected constraint columns x same p =
        contains-build_visit constraint rs [] x ∙ rw same (rw p refl)

    ensure_built-CoversRows :
        (k : KeyFilters) (constraint : UniqueKey)
        → CoversRows table k rs
        → (q : KeyFilters) × (ensure_built hash_key s txn table rows k constraint ≡ ok q)
          × CoversRows table q rs
    unfolding ensure_built may_contain
    ensure_built-CoversRows k constraint h =
        let hashes = fold_until (build_visit hash_key constraint) rs [] in
        let scanned = walk-Stands s txn rows rs (build_visit hash_key constraint) [] there in
        elim (Bool-cases (is_built k table constraint.columns)) [
          | inl already ↦ (k, rw already refl, h)
          | inr missing ↦ (
            build k table constraint.columns hashes,
            rw missing (rw scanned refl),
            λ columns x p.
                get-build k table constraint.columns hashes table columns x (h columns x p)
                  (λ same cols. collected constraint columns x cols p),
          )
        ]

    find_clash-clashes :
        (k : KeyFilters) (constraint : UniqueKey) (wanted : List Value) (exclude : Option ℕ)
        → CoversRows table k rs
        → ((other : List Value)
            → same_values other wanted ≡ true
            → hash_key other ≡ hash_key wanted)
        → find_clash hash_key s txn table rows k constraint wanted exclude
          ≡ ok (clashes constraint wanted exclude rs)
    unfolding find_clash
    find_clash-clashes k constraint wanted exclude h alike =
        let found = walk-Stands s txn rows rs (clash_visit constraint wanted exclude) false there in
        ground (
          arith,
          found,
          fold_until-clash_visit constraint wanted exclude rs,
          h constraint.columns (hash_key wanted),
          clashes-has_hash constraint wanted exclude rs alike,
        )

    on_key-verdict :
        (k : KeyFilters) (constraint : UniqueKey) (key : Option (List Value)) (exclude : Option ℕ)
        → CoversRows table k rs
        → IsHashed key
        → ((on_key hash_key s txn table rows k constraint key exclude).1
            ≡ verdict constraint key exclude rs)
          × CoversRows table (on_key hash_key s txn table rows k constraint key exclude).0 rs
    unfolding on_key on_built on_clash verdict may_contain
    on_key-verdict k constraint none exclude h alike = (refl, h)
    on_key-verdict k constraint (some wanted) exclude h alike =
        let (q, made, covers) = ensure_built-CoversRows k constraint h in
        let found =
          find_clash-clashes q constraint wanted exclude covers (λ o. alike wanted o refl) in
        elim (Bool-cases (clashes constraint wanted exclude rs)) [
          | inl taken ↦ rw made (rw found (rw taken (refl, covers)))
          | inr clear ↦ rw made (
              rw found (
                rw clear (
                  refl,
                  λ columns x p.
                      get-note_in q.filters table columns table constraint.columns (hash_key wanted)
                        q.capacity x (inl (covers columns x p)),
                )))
        ]

    -- Where every row that the unique check walks can be decoded, no filter of the table proves
    -- absent the key of one of them, and keys that compare equal to the new row's are hashed alike,
    -- the result of enforce_unique is that of checking each constraint in turn against all those
    -- rows without filters: the violation of the first constraint whose key a row other than the
    -- excluded one has, and otherwise success.
    pub enforce_unique-check_unique :
        (k : KeyFilters) (unique : List UniqueKey) (row : Row) (exclude : Option ℕ)
        → CoversRows table k rs
        → ((constraint : UniqueKey) → IsHashed (extract constraint row))
        → (enforce_unique hash_key s txn table rows k unique row exclude).1
          ≡ check_unique unique row exclude rs
    unfolding enforce_unique check_unique
    enforce_unique-check_unique k [] row exclude h alike = refl
    enforce_unique-check_unique k (constraint ∷ unique) row exclude h alike =
        let key = extract constraint row in
        let (first, covers) = on_key-verdict k constraint key exclude h (alike constraint) in
        let r = on_key hash_key s txn table rows k constraint key exclude in
        after-bind r (enforce_unique hash_key s txn table rows r.0 unique row exclude)
          (enforce_unique-check_unique r.0 unique row exclude covers alike)
        ∙ rw first refl

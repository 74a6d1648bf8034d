-- ===== src/Exec/Order.antt =====
-- `sort` and `compare_keys` of ferrite-exec/src/executor.rs. The sort of the standard library is an
-- interface: where it puts the positions under a comparison, and which pairs it compares, in turn.
use ferrite.Prelude.{
  ℕ, ◌+◌, Bool, true, false, Option, none, some, List, [], ◌∷◌, get_elem?, get_or, if◌then◌else◌,
}
use Prim.Native.Nat.{Ordering}
use ferrite.Common.Error.{FerriteError, Result, ok, err, ◌>>=◌}
use ferrite.Common.Value.{Value, Row, is_null}
use ferrite.Planner.Physical.{PhysSortKey}
use ferrite.Exec.Compare.{Machine, compare}
use ferrite.Exec.Eval.{Scalars, eval}
use ferrite.Exec.Session.{Tuple}

pub record Sorting : Type 0 where
  pub sorted : (ℕ → ℕ → Ordering) → List ℕ → List ℕ
  pub compared : (ℕ → ℕ → Ordering) → List ℕ → List (ℕ × ℕ)

reverse_order : Ordering → Ordering
reverse_order Ordering.lt = Ordering.gt
reverse_order Ordering.eq = Ordering.eq
reverse_order Ordering.gt = Ordering.lt

directed : Bool → Option Ordering → Ordering
unfolding reverse_order
directed asc none = Ordering.eq
directed true (some o) = o
directed false (some o) = reverse_order o

-- The positions of a list, from one on.
positions : {A : Type 0} → ℕ → List A → List ℕ
positions i [] = []
positions i (x ∷ xs) = i ∷ positions (i + 1) xs

pick : {A : Type 0} → List A → List ℕ → List A
pick xs [] = []
pick xs (i ∷ is) =
    let rest = pick xs is in elim (get_elem? xs i) [ none ↦ rest | some x ↦ x ∷ rest ]

or_equal : Result Ordering → Ordering
or_equal (ok o) = o
or_equal (err e) = Ordering.eq

module _ (m : Machine) where
  key_order : PhysSortKey → Value → Value → Bool → Bool → Result Ordering
  unfolding directed
  key_order key left right true true = ok Ordering.eq
  key_order key left right true false = ok (if key.nulls_first then Ordering.lt else Ordering.gt)
  key_order key left right false true = ok (if key.nulls_first then Ordering.gt else Ordering.lt)
  key_order key left right false false = compare m left right >>= λ o. ok (directed key.asc o)

  unfoldable pub compare_keys : List Value → List Value → List PhysSortKey → Result Ordering
  unfolding key_order
  compare_keys (l ∷ ls) (r ∷ rs) (key ∷ keys) = key_order key l r (is_null l) (is_null r) >>= λ o.
      elim o [
        | Ordering.lt ↦ ok Ordering.lt
        | Ordering.eq ↦ compare_keys ls rs keys
        | Ordering.gt ↦ ok Ordering.gt
      ]
  compare_keys _ _ _ = ok Ordering.eq

  compare_at : List (List Value) → List PhysSortKey → ℕ → ℕ → Result Ordering
  unfolding compare_keys
  compare_at evaluated keys a b = compare_keys (get_or evaluated a []) (get_or evaluated b []) keys

  -- The error of the first pair that cannot be compared.
  first_failure : List (List Value) → List PhysSortKey → List (ℕ × ℕ) → Option FerriteError
  unfolding compare_at
  first_failure evaluated keys [] = none
  first_failure evaluated keys ((a, b) ∷ rest) = elim (compare_at evaluated keys a b) [
    | err e ↦ some e
    | ok o ↦ first_failure evaluated keys rest
  ]

  -- What the comparator answers: a failure counts as equality.
  pub answered : List (List Value) → List PhysSortKey → ℕ → ℕ → Ordering
  unfolding compare_at or_equal
  answered evaluated keys a b = or_equal (compare_at evaluated keys a b)

  module _ (sc : Scalars) where
    key_values : List PhysSortKey → Row → Result (List Value)
    key_values [] row = ok []
    key_values (key ∷ keys) row =
        eval m sc key.expr row >>= λ v. key_values keys row >>= λ vs. ok (v ∷ vs)

    evaluated_keys : List PhysSortKey → List Tuple → Result (List (List Value))
    unfolding key_values
    evaluated_keys keys [] = ok []
    evaluated_keys keys (t ∷ ts) =
        key_values keys t.row >>= λ v. evaluated_keys keys ts >>= λ vs. ok (v ∷ vs)

    unfoldable pub sort : Sorting → List Tuple → List PhysSortKey → Result (List Tuple)
    unfolding evaluated_keys first_failure answered positions pick
    sort std rows keys = evaluated_keys keys rows >>= λ evaluated.
        let order = positions 0 rows in
        elim (first_failure evaluated keys (std.compared (answered evaluated keys) order)) [
          | some e ↦ err e
          | none ↦ ok (pick rows (std.sorted (answered evaluated keys) order))
        ]

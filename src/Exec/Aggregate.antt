-- ===== src/Exec/Aggregate.antt =====
-- ferrite-exec/src/aggregate.rs: grouping and the aggregate functions. A set of rendered values is a
-- list of them, and the map from keys to positions an association list.
use ferrite.Prelude.{
  ℕ, suc, ◌+◌, Bool, true, false, Option, none, some, List, [], ◌∷◌, ◌++◌, map, length,
  if◌then◌else◌, same_list,
}
use Prim.Native.Nat.{Ordering}
use ferrite.Prelude.Int.{ℤ, pos, ◌+ℤ◌, in_i64}
use ferrite.Common.Error.{Message, exec, type_mismatch, Result, ok, err, ◌>>=◌}
use ferrite.Common.Value.{Value, null, int4, int8, float8, DataType, Row, is_null}
use ferrite.Planner.Expr.{PhysExpr}
use ferrite.Planner.Named.{AggregateFunc}
use ferrite.Planner.Physical.{PhysAggregate}
use ferrite.Exec.Compare.{Machine, type_of, compare}
use ferrite.Exec.Eval.{Scalars, eval}
use ferrite.Exec.Session.{Tuple}
use ferrite.Exec.Join.{made}

-- The `Debug` texts of the standard library, of a value and of a list of them.
pub record Rendering : Type 0 where
  pub one : Value → List ℕ
  pub all : List Value → List ℕ

unfoldable pub contains_text : List ℕ → List (List ℕ) → Bool
contains_text t [] = false
contains_text t (s ∷ rest) =
    let later = contains_text t rest in if same_list s t then true else later

pub record Accumulator : Type 0 where
  pub func : AggregateFunc
  pub seen : Option (List (List ℕ))
  pub count : ℕ
  pub integral : ℤ
  pub fractional : ℕ
  pub is_float : Bool
  pub any : Bool
  pub extreme : Option Value

abbrev pub new : PhysAggregate → Accumulator
new call = record {
  func = call.func;
  seen = if call.distinct then some [] else none;
  count = 0;
  integral = pos 0;
  fractional = 0;
  is_float = false;
  any = false;
  extreme = none;
}

pub add : Accumulator → ℤ → Result Accumulator
add acc value =
    let total = acc.integral +ℤ value in
    if in_i64 total
    then ok (record acc { integral = total })
    else err (exec (Message.text "sum() overflowed a BIGINT"))

is_less : Option Ordering → Bool
is_less none = false
is_less (some o) = elim o [ Ordering.lt ↦ true | _ ↦ false ]

is_greater : Option Ordering → Bool
is_greater none = false
is_greater (some o) = elim o [ Ordering.gt ↦ true | _ ↦ false ]

replaces : AggregateFunc → Option Ordering → Bool
unfolding is_less is_greater
replaces AggregateFunc.min o = is_less o
replaces other o = is_greater o

-- `seen.insert(..)`: the set with the text, where it is new.
insert_text : List ℕ → List (List ℕ) → Option (List (List ℕ))
unfolding contains_text
insert_text t seen = if contains_text t seen then none else some (t ∷ seen)

lookup_text : List ℕ → List (List ℕ × ℕ) → Option ℕ
lookup_text t [] = none
lookup_text t ((s, position) ∷ rest) = if same_list s t then some position else lookup_text t rest

pub record Group : Type 0 where
  pub key : List Value
  pub accumulators : List Accumulator

pub record Groups : Type 0 where
  pub groups : List Group
  pub positions : List (List ℕ × ℕ)

module _ (m : Machine) where
  replace_extreme : Accumulator → Value → Option Value → Result Accumulator
  unfolding replaces
  replace_extreme acc value none = ok (record acc { extreme = some value })
  replace_extreme acc value (some current) = compare m value current >>= λ o.
      ok (if replaces acc.func o then record acc { extreme = some value } else acc)

  add_number : Accumulator → Value → Result Accumulator
  unfolding add
  add_number acc (int4 v) = add acc v
  add_number acc (int8 v) = add acc v
  add_number acc (float8 v) =
      ok (record acc { is_float = true; fractional = m.add acc.fractional v })
  add_number acc other = err (type_mismatch DataType.float8 (type_of other))

  take_in : AggregateFunc → Accumulator → Value → Result Accumulator
  unfolding add_number replace_extreme
  take_in AggregateFunc.count acc value = ok acc
  take_in AggregateFunc.sum acc value = add_number acc value
  take_in AggregateFunc.avg acc value = add_number acc value
  take_in AggregateFunc.min acc value = replace_extreme acc value acc.extreme
  take_in AggregateFunc.max acc value = replace_extreme acc value acc.extreme

  counted : Accumulator → Value → Result Accumulator
  unfolding take_in
  counted acc value = take_in acc.func (record acc { count = acc.count + 1; any = true }) value

  -- A value that a DISTINCT aggregate has met before changes nothing.
  unless_seen : Accumulator → Value → List ℕ → Option (List (List ℕ)) → Result Accumulator
  unfolding counted insert_text
  unless_seen acc value shown none = counted acc value
  unless_seen acc value shown (some seen) = elim (insert_text shown seen) [
    | none ↦ ok acc
    | some more ↦ counted (record acc { seen = some more }) value
  ]

  module _ (shown : Rendering) where
    -- `none` is the star of `count(*)`.
    pub push : Accumulator → Option Value → Result Accumulator
    unfolding unless_seen
    push acc none = ok (record acc { count = acc.count + 1 })
    push acc (some value) =
        if is_null value then ok acc else unless_seen acc value (shown.one value) acc.seen

  total : Accumulator → ℕ
  total acc = m.add (m.from_int acc.integral) acc.fractional

  finished : AggregateFunc → Accumulator → Value
  unfolding total
  finished AggregateFunc.count acc = int8 (pos acc.count)
  finished AggregateFunc.sum acc =
      if acc.any then (if acc.is_float then float8 (total acc) else int8 acc.integral) else null
  finished AggregateFunc.avg acc =
      if acc.any then float8 (m.div (total acc) (m.from_int (pos acc.count))) else null
  finished AggregateFunc.min acc =
      if acc.any then elim acc.extreme [ none ↦ null | some v ↦ v ] else null
  finished AggregateFunc.max acc =
      if acc.any then elim acc.extreme [ none ↦ null | some v ↦ v ] else null

  unfoldable pub finish : Accumulator → Value
  unfolding finished
  finish acc = finished acc.func acc

  output_row : Group → Tuple
  unfolding finish
  output_row g = made (record { values = g.key ++ map finish g.accumulators })

  module _ (sc : Scalars) where
    pub eval_each : List PhysExpr → Row → Result (List Value)
    eval_each [] row = ok []
    eval_each (e ∷ es) row = eval m sc e row >>= λ v. eval_each es row >>= λ vs. ok (v ∷ vs)

    argument : Option PhysExpr → Row → Result (Option Value)
    argument none row = ok none
    argument (some e) row = eval m sc e row >>= λ v. ok (some v)

    module _ (shown : Rendering) where
      push_each : List Accumulator → List PhysAggregate → Row → Result (List Accumulator)
      unfolding argument push
      push_each (acc ∷ accs) (call ∷ calls) row = argument call.arg row >>= λ v.
          push shown acc v >>= λ a. push_each accs calls row >>= λ rest. ok (a ∷ rest)
      push_each accs _ row = ok accs

      -- The accumulators of the group at a position take the row in.
      push_at : ℕ → List Group → List PhysAggregate → Row → Result (List Group)
      unfolding push_each
      push_at i [] calls row = ok []
      push_at ℕ.zero (g ∷ gs) calls row =
          push_each g.accumulators calls row >>= λ accs. ok (record g { accumulators = accs } ∷ gs)
      push_at (suc i) (g ∷ gs) calls row = push_at i gs calls row >>= λ rest. ok (g ∷ rest)

      -- The position of a key, where a new key gets a new group.
      entry : List Value → List PhysAggregate → Groups → ℕ × Groups
      unfolding lookup_text
      entry key calls gs = elim (lookup_text (shown.all key) gs.positions) [
        | some position ↦ (position, gs)
        | none ↦ (
          length gs.groups,
          record {
            groups = gs.groups ++ record { key = key; accumulators = map new calls } ∷ [];
            positions = (shown.all key, length gs.groups) ∷ gs.positions;
          },
        )
      ]

      take_row : List PhysExpr → List PhysAggregate → Groups → Row → Result Groups
      unfolding entry push_at eval_each
      take_row group_by calls gs row = eval_each group_by row >>= λ key.
          let (position, held) = entry key calls gs in
          push_at position held.groups calls row >>= λ groups. ok (record held { groups = groups })

      take_rows : List Tuple → List PhysExpr → List PhysAggregate → Groups → Result Groups
      unfolding take_row
      take_rows [] group_by calls gs = ok gs
      take_rows (t ∷ ts) group_by calls gs =
          take_row group_by calls gs t.row >>= λ held. take_rows ts group_by calls held

      -- Without GROUP BY, no rows give one group.
      at_least_one : List PhysExpr → List PhysAggregate → List Group → List Group
      at_least_one [] calls [] = record { key = []; accumulators = map new calls } ∷ []
      at_least_one group_by calls groups = groups

      unfoldable pub run : List Tuple → List PhysExpr → List PhysAggregate → Result (List Tuple)
      unfolding take_rows at_least_one output_row
      run input group_by calls =
          take_rows input group_by calls (record { groups = []; positions = [] }) >>= λ gs.
          ok (map output_row (at_least_one group_by calls gs.groups))

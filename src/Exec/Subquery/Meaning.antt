-- ===== src/Exec/Subquery/Meaning.antt =====
-- What `value_test` of ferrite-exec/src/subquery.rs evaluates to, against a search of the list.
use Prim.Native.Nat.{Ordering}
use ferrite.Prelude.{
  ℕ, zero, suc, ◌≡◌, ◌≢◌, ◌≤◌, refl, sym, ap, ◌∙◌, Bool, true, false, Option, none, some, List, [],
  ◌∷◌, map, length, arith,
}
use ferrite.Common.Error.{Result, ok, err, ◌>>=◌}
use ferrite.Common.Value.{Value, Row}
use ferrite.Planner.Expr.{BinaryOp, PhysExpr, binary}
use ferrite.Exec.Compare.{Machine, compare}
use ferrite.Exec.Eval.{Scalars, eval}
use ferrite.Exec.Eval.Logic.{
  found, disj, disj3, disj3_assoc, truth-equal, truth, truth-as_value, negated, eval-disj, eval-not,
  eval_boolean,
}
use ferrite.Exec.Subquery.{equal_to, fold_pairs, fold_tests, last_test, popped, signed, value_test}

-- One step of a search: a value that is equal ends it, and a null opens the answer.
abbrev pub searched :
    Option Bool → Result (Option Bool) → Result (Option Bool) → Result (Option Bool)
searched none opened same = opened
searched (some true) opened same = ok (some true)
searched (some false) opened same = same

module _ (m : Machine) where
  -- The value is searched from the first on: it is found at once where it is equal, and a null on
  -- the way leaves the answer open where it is not found.
  pub member : Value → List Value → Option Bool → Result (Option Bool)
  member x [] answer = ok answer
  member x (v ∷ vs) answer =
      compare m x v >>= λ o. searched (found o) (member x vs none) (member x vs answer)

  -- `x IN (..)` and `x NOT IN (..)`.
  pub in_list : Bool → List Value → Result Value → Result (Option Bool)
  in_list neg [] tested = ok (some neg)
  in_list false (v ∷ vs) tested = tested >>= λ x. member x (v ∷ vs) (some false)
  in_list true (v ∷ vs) tested = negated (tested >>= λ x. member x (v ∷ vs) (some false))

  -- The disjunction of all.
  any3 : List (Result (Option Bool)) → Result (Option Bool)
  any3 [] = ok (some false)
  any3 (r ∷ rs) = disj3 r (any3 rs)

  disj3-false : (r : Result (Option Bool)) → disj3 r (ok (some false)) ≡ r
  unfolding disj3
  disj3-false r = ground arith

  module _ (sc : Scalars) (row : Row) where
    answer : PhysExpr → Result (Option Bool)
    answer e = truth (eval m sc e row)

    answers : List PhysExpr → Result (Option Bool)
    unfolding any3 answer
    answers es = any3 (map answer es)

    answer-disj : (a b : PhysExpr) → answer (disj a b) ≡ disj3 (answer a) (answer b)
    unfolding answer
    answer-disj a b = simp (eval-disj, truth-as_value)

    answers-fold_pairs : (es : List PhysExpr) → answers (fold_pairs es) ≡ answers es
    unfolding answers fold_pairs
    answers-fold_pairs [] = refl
    answers-fold_pairs (a ∷ []) = refl
    answers-fold_pairs (a ∷ b ∷ rest) =
        ap (λ r. disj3 r (answers (fold_pairs rest))) (answer-disj a b)
        ∙ ap (disj3 (disj3 (answer a) (answer b))) (answers-fold_pairs rest)
        ∙ disj3_assoc (answer a) (answer b) (answers rest)

    answers-fold_tests : (fuel : ℕ) (es : List PhysExpr) → answers (fold_tests fuel es) ≡ answers es
    unfolding fold_tests
    answers-fold_tests zero es = refl
    answers-fold_tests (suc fuel) [] = refl
    answers-fold_tests (suc fuel) (a ∷ []) = refl
    answers-fold_tests (suc fuel) (a ∷ b ∷ rest) =
        answers-fold_tests fuel (fold_pairs (a ∷ b ∷ rest)) ∙ answers-fold_pairs (a ∷ b ∷ rest)

  length-fold_pairs : (es : List PhysExpr) → length (fold_pairs es) ≤ length es
  unfolding fold_pairs
  length-fold_pairs [] = omega arith
  length-fold_pairs (a ∷ []) = omega arith
  length-fold_pairs (a ∷ b ∷ rest) = omega (arith, length-fold_pairs rest)

  -- One test for each is fuel enough: one test is left.
  length-fold_tests :
      (fuel : ℕ) (e : PhysExpr) (es : List PhysExpr)
      → length (e ∷ es) ≤ fuel
      → length (fold_tests fuel (e ∷ es)) ≡ 1
  unfolding fold_tests
  length-fold_tests zero e es h = absurd (omega arith)
  length-fold_tests (suc fuel) a [] h = refl
  length-fold_tests (suc fuel) a (b ∷ rest) h =
      unfold fold_pairs in
      length-fold_tests fuel (binary a BinaryOp.or b) (fold_pairs rest)
        (omega (arith, length-fold_pairs rest))

  module _ (sc : Scalars) (row : Row) where
    answer-popped :
        (es : List PhysExpr) → length es ≡ 1 → answer sc row (popped es) ≡ answers sc row es
    unfolding popped last_test answers
    answer-popped [] h = absurd (omega arith)
    answer-popped (e ∷ []) h = sym (disj3-false (answer sc row e))
    answer-popped (e ∷ f ∷ es) h = absurd (omega arith)

    step :
        (b : Option Bool) (r : Result (Option Ordering)) (rest opened same : Result (Option Bool))
        → b ≢ some true
        → disj3 (ok none) rest ≡ opened
        → disj3 (ok b) rest ≡ same
        → disj3 (disj3 (ok b) (r >>= λ o. ok (found o))) rest
          ≡ (r >>= λ o. searched (found o) opened same)
    unfolding disj3
    step (some true) r rest opened same n h k = absurd (n refl)
    step (some false) (err e) rest opened same n h k = refl
    step none (err e) rest opened same n h k = refl
    step (some false) (ok none) rest opened same n h k = h
    step none (ok none) rest opened same n h k = h
    step (some false) (ok (some Ordering.lt)) rest opened same n h k = k
    step none (ok (some Ordering.lt)) rest opened same n h k = h ∙ sym h ∙ k
    step (some false) (ok (some Ordering.eq)) rest opened same n h k = refl
    step none (ok (some Ordering.eq)) rest opened same n h k = refl
    step (some false) (ok (some Ordering.gt)) rest opened same n h k = k
    step none (ok (some Ordering.gt)) rest opened same n h k = h ∙ sym h ∙ k

    answers-equal :
        (e : PhysExpr) (x : Value) (vs : List Value) (b : Option Bool)
        → eval m sc e row ≡ ok x
        → b ≢ some true
        → disj3 (ok b) (answers sc row (map (equal_to e) vs)) ≡ member x vs b
    unfolding answers any3 member answer
    answers-equal e x [] b h n = disj3-false (ok b)
    answers-equal e x (v ∷ vs) b h n =
        let rest = answers sc row (map (equal_to e) vs) in
        let first : answer sc row (equal_to e v) ≡ (compare m x v >>= λ o. ok (found o)) =
          truth-equal m sc e v row ∙ rw h refl in
        sym (disj3_assoc (ok b) (answer sc row (equal_to e v)) rest)
        ∙ ap (λ r. disj3 (disj3 (ok b) r) rest) first
        ∙ step b (compare m x v) rest (member x vs none) (member x vs b) n
            (answers-equal e x vs none h (λ k. cc)) (answers-equal e x vs b h n)

    answers-tested :
        (e : PhysExpr) (v : Value) (vs : List Value) (tested : Result Value)
        → eval m sc e row ≡ tested
        → answers sc row (map (equal_to e) (v ∷ vs))
          ≡ (tested >>= λ x. member x (v ∷ vs) (some false))
    unfolding disj3
    answers-tested e v vs (ok x) h = answers-equal e x (v ∷ vs) (some false) h (λ k. cc)
    answers-tested e v vs (err f) h =
        unfold answers any3 answer in
        let first : answer sc row (equal_to e v) ≡ err f =
          truth-equal m sc e v row ∙ ap (λ r. r >>= λ x. compare m x v >>= λ o. ok (found o)) h in
        ap (λ r. disj3 r (answers sc row (map (equal_to e) vs))) first

    answer-signed :
        (neg : Bool) (any : PhysExpr) (v : Value) (vs : List Value) (tested : Result Value)
        → answer sc row any ≡ (tested >>= λ x. member x (v ∷ vs) (some false))
        → answer sc row (signed neg any) ≡ in_list neg (v ∷ vs) tested
    unfolding signed in_list
    answer-signed false any v vs tested h = h
    answer-signed true any v vs tested h =
        unfold answer in
        ap truth (eval-not m sc any row)
        ∙ truth-as_value (negated (truth (eval m sc any row)))
        ∙ ap negated h

    -- The test that value_test builds for IN or NOT IN reads as a truth value like a search of the
    -- list from its first value on: true at the first equal value, the error of the first
    -- comparison before that which fails, null if a comparison was with a null and none was equal,
    -- and otherwise false; an empty list gives false without a look at the tested expression. NOT
    -- IN is the negation. The loop ends with one test.
    pub value_test-in_list :
        (e : PhysExpr) (vs : List Value) (neg : Bool)
        → truth (eval m sc (value_test e vs neg) row) ≡ in_list neg vs (eval m sc e row)
    unfolding value_test in_list
    value_test-in_list e [] neg = eval_boolean m sc neg row
    value_test-in_list e (v ∷ vs) neg =
        let tests = map (equal_to e) (v ∷ vs) in
        let folded = fold_tests (length tests) tests in
        unfold answer in
        answer-signed neg (popped folded) v vs (eval m sc e row) (
          answer-popped folded (length-fold_tests (length tests) _ _ (omega arith))
          ∙ answers-fold_tests sc row (length tests) tests
          ∙ answers-tested e v vs (eval m sc e row) refl)

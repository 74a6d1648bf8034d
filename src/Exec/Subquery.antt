-- ===== src/Exec/Subquery.antt =====
-- `value_test` of ferrite-exec/src/subquery.rs: the values of a subquery that has been run, as a test. The
-- loop runs on fuel, one round for each test: a round on two tests or more leaves fewer.
pub mod Meaning
use ferrite.Prelude.{ℕ, zero, suc, Bool, true, false, List, [], ◌∷◌, map, length}
use ferrite.Common.Value.{Value, boolean}
use ferrite.Planner.Expr.{BinaryOp, PhysExpr, literal, binary}

-- `x = v`, of which `IN` makes a disjunction.
abbrev pub equal_to : PhysExpr → Value → PhysExpr
equal_to tested value = binary tested BinaryOp.equal (literal value)

-- One round: every two neighbours become one.
pub fold_pairs : List PhysExpr → List PhysExpr
fold_pairs [] = []
fold_pairs (left ∷ []) = left ∷ []
fold_pairs (left ∷ right ∷ rest) = binary left BinaryOp.or right ∷ fold_pairs rest

-- `while tests.len() > 1`
pub fold_tests : ℕ → List PhysExpr → List PhysExpr
unfolding fold_pairs
fold_tests zero tests = tests
fold_tests (suc fuel) [] = []
fold_tests (suc fuel) (one ∷ []) = one ∷ []
fold_tests (suc fuel) (one ∷ two ∷ rest) = fold_tests fuel (fold_pairs (one ∷ two ∷ rest))

-- `tests.pop()`, which finds the one test that is left.
last_test : PhysExpr → List PhysExpr → PhysExpr
last_test test [] = test
last_test test (next ∷ rest) = last_test next rest

popped : List PhysExpr → PhysExpr
unfolding last_test
popped [] = literal (boolean false)
popped (test ∷ rest) = last_test test rest

signed : Bool → PhysExpr → PhysExpr
signed false any = any
signed true any = PhysExpr.not any

pub value_test : PhysExpr → List Value → Bool → PhysExpr
unfolding fold_tests popped signed
value_test tested [] negated = literal (boolean negated)
value_test tested (v ∷ vs) negated =
    let tests = map (equal_to tested) (v ∷ vs) in
    signed negated (popped (fold_tests (length tests) tests))

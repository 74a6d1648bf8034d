-- ===== src/Common/Storage.antt =====
-- ferrite-common/src/storage.rs: the unique keys that the storage engine is given.
use ferrite.Prelude.{ℕ, String, Bool, true, false, Option, none, some, List, [], ◌∷◌, get_elem?}
use ferrite.Common.Error.{FerriteError, unique_violation}
use ferrite.Common.Value.{Value, Row, is_null}

pub record UniqueKey : Type 0 where
  pub name : String
  pub columns : List ℕ

not_null : Value → Bool → Option Value
not_null value true = none
not_null value false = some value

present : Option Value → Option Value
unfolding not_null
present none = none
present (some value) = not_null value (is_null value)

collect : Option Value → Option (List Value) → Option (List Value)
collect none rest = none
collect (some value) none = none
collect (some value) (some rest) = some (value ∷ rest)

unfoldable pub extract_from : List ℕ → Row → Option (List Value)
unfolding present collect
extract_from [] row = some []
extract_from (position ∷ rest) row =
    collect (present (get_elem? row.values position)) (extract_from rest row)

abbrev pub extract : UniqueKey → Row → Option (List Value)
extract key row = extract_from key.columns row

abbrev pub violation : UniqueKey → List Value → FerriteError
violation key values = unique_violation key.name values

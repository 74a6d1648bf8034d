-- ===== src/Common/Error.antt =====
-- ferrite-common/src/error.rs: the error type, and results with their `?`.
use ferrite.Prelude.{ℕ, String, List, ◌≡◌, ◌≢◌, refl}
use ferrite.Common.Value.{DataType, Value}

-- A formatted text is its literal, with the number or the text that it prints.
pub data Message : Type 0 where
  text : String → Message
  with_number : String → ℕ → Message
  with_text : String → List ℕ → Message

-- The key of a unique violation is its values, which the code prints.
pub data FerriteError : Type 0 where
  table_not_found : Message → FerriteError
  column_not_found : Message → FerriteError
  type_mismatch : DataType → DataType → FerriteError
  row_not_found : FerriteError
  txn_not_active : ℕ → FerriteError
  permission_denied : Message → FerriteError
  serialization_failure : FerriteError
  storage : Message → FerriteError
  parse : Message → FerriteError
  plan : Message → FerriteError
  exec : Message → FerriteError
  protocol : Message → FerriteError
  object_already_exists : Message → FerriteError
  unique_violation : String → List Value → FerriteError
  timeout : Message → FerriteError
  resource_limit : Message → FerriteError
  invalid_definition : Message → FerriteError

pub data Result {ℓ} (A : Type ℓ) : Type ℓ where
  ok : A → Result A
  err : FerriteError → Result A

infixl 5 ◌>>=◌
abbrev pub ◌>>=◌ {ℓ κ} : {A : Type ℓ} {B : Type κ} → Result A → (A → Result B) → Result B
ok a >>= f = f a
err e >>= f = err e

pub ok-injective {ℓ} : {A : Type ℓ} {a b : A} → ok a ≡ ok b → a ≡ b
ok-injective h = cc

-- Inversion of a successful bind.
pub >>=-eq-ok {ℓ κ} :
    {A : Type ℓ} {B : Type κ} (r : Result A) (f : A → Result B) {b : B}
    → (r >>= f) ≡ ok b
    → (a : A) × (r ≡ ok a) × (f a ≡ ok b)
>>=-eq-ok (ok a) f h = (a, refl, h)
>>=-eq-ok (err e) f h = cc

pub err-ne-ok {ℓ} : {A : Type ℓ} {e : FerriteError} {a : A} → err e ≢ ok a
err-ne-ok h = cc

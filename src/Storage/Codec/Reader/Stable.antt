-- ===== src/Storage/Codec/Reader/Stable.antt =====
-- A reader of ferrite-storage/src/codec.rs that succeeds does not look past the bytes it takes.
use ferrite.Prelude.{
  ℕ, zero, suc, ◌≡◌, refl, [], ◌∷◌, ◌++◌, arith, Bool, true, false, length-append, take-append_le,
  drop-append_le, if◌then◌else◌,
}
use ferrite.Common.Error.{FerriteError, Result, ok, err}
use ferrite.Storage.Codec.Reader.{
  Bytes, Reader, pure, fail, ◌>>=◌, take, remaining, u8, u16, u32, u64, u128, repeat,
}
use ferrite.Storage.Codec.Reader.Parses.{bind-ok}

-- Bytes behind the input join what is left.
pub record IsStable {ℓ} {A : Type ℓ} (r : Reader A) : Type ℓ where
  pub at :
      (src more : Bytes) (a : A) (rest : Bytes)
      → r src ≡ ok (a, rest)
      → r (src ++ more) ≡ ok (a, rest ++ more)

pub IsStable-pure {ℓ} : {A : Type ℓ} (a : A) → IsStable (pure a)
IsStable-pure a = record { at = λ src more b rest e. cc e }

pub IsStable-fail {ℓ} : {A : Type ℓ} (x : FerriteError) → IsStable (fail {A = A} x)
IsStable-fail x = record { at = λ src more b rest e. cc e }

pub IsStable-if {ℓ} :
    {A : Type ℓ} (b : Bool) (m n : Reader A)
    → IsStable m
    → IsStable n
    → IsStable (if b then m else n)
IsStable-if true m n p q = p
IsStable-if false m n p q = q

-- The first step of a `do` block that succeeds.
pub bind-eq-ok {ℓ κ} :
    {A : Type ℓ} {B : Type κ} (m : Reader A) (f : A → Reader B) (src : Bytes) {b : B} {rest : Bytes}
    → (m >>= f) src ≡ ok (b, rest)
    → (a : A) × (mid : Bytes) × (m src ≡ ok (a, mid)) × (f a mid ≡ ok (b, rest))
unfolding ◌>>=◌
bind-eq-ok {A} {B} m f src {b} {rest} h = go (m src) refl
  where
    go :
        (r : Result (A × Bytes))
        → m src ≡ r
        → (a : A) × (mid : Bytes) × (m src ≡ ok (a, mid)) × (f a mid ≡ ok (b, rest))
    go (ok (a, mid)) e = (a, mid, e, rw (e, ◌>>=◌) at h)
    go (err x) e = cc (rw (e, ◌>>=◌) at h)

pub IsStable-bind {ℓ κ} :
    {A : Type ℓ} {B : Type κ} (m : Reader A) (f : A → Reader B)
    → IsStable m
    → ((a : A) → IsStable (f a))
    → IsStable (m >>= f)
IsStable-bind m f p q = record {
  at = λ src more b rest e.
      let (a, mid, first, second) = bind-eq-ok m f src e in
      rw (bind-ok m f (p.at src more a mid first)) ((q a).at mid more b rest second);
}

pub IsStable-take : (n : ℕ) → IsStable (take n)
unfolding take remaining
IsStable-take n = record {
  at = λ src more a rest e.
      ground (arith, length-append src more, take-append_le n src more, drop-append_le n src more);
}

pub ruleset stable_rules = (IsStable-pure, IsStable-bind, IsStable-take)

pub IsStable-u8 : IsStable u8
unfolding u8
IsStable-u8 = search stable_rules

pub IsStable-u16 : IsStable u16
unfolding u16
IsStable-u16 = search stable_rules

pub IsStable-u32 : IsStable u32
unfolding u32
IsStable-u32 = search stable_rules

pub IsStable-u64 : IsStable u64
unfolding u64
IsStable-u64 = search stable_rules

pub IsStable-u128 : IsStable u128
unfolding u128
IsStable-u128 = search stable_rules

pub IsStable-repeat {ℓ} :
    {A : Type ℓ} (n : ℕ) (read : Reader A) → IsStable read → IsStable (repeat n read)
unfolding repeat
IsStable-repeat zero read h = IsStable-pure []
IsStable-repeat (suc n) read h = IsStable-bind read _ h λ a.
    IsStable-bind (repeat n read) _ (IsStable-repeat n read h) (λ rest. IsStable-pure (a ∷ rest))

pub ruleset reader_rules = (
  stable_rules, IsStable-fail, IsStable-if, IsStable-u8, IsStable-u16, IsStable-u32, IsStable-u64,
  IsStable-u128, IsStable-repeat,
)

-- ===== src/Storage/Codec/Reader/Parses.antt =====
-- The readers of ferrite-storage/src/codec.rs on what the writers write.
use ferrite.Prelude.{
  ℕ, zero, suc, ◌/◌, ◌^◌, ◌≤◌, ◌<◌, ◌≡◌, refl, ap, subst, ◌∙◌, List, [], ◌∷◌, ◌++◌, arith,
  append_assoc, length, le→not_ltb, length-append, take-append, drop-append, get_or, All,
}
use ferrite.Prelude.{take as take_list, drop}
use ferrite.Common.Error.{FerriteError, ok, err}
use ferrite.Storage.Codec.Reader.{
  Bytes, Reader, pure, ◌>>=◌, take, remaining, from_le, u8, u16, u32, u64, u128, repeat,
}
use ferrite.Storage.Codec.Writer.{to_le}

-- In front of any bytes, `r` reads exactly `w`, and returns `a`.
pub record Parses {ℓ} {A : Type ℓ} (r : Reader A) (w : Bytes) (a : A) : Type ℓ where
  pub at : (rest : Bytes) → r (w ++ rest) ≡ ok (a, rest)

pub Parses-pure {ℓ} : {A : Type ℓ} (a : A) → Parses (pure a) [] a
Parses-pure a = record { at = λ rest. refl }

pub Parses-eq {ℓ} :
    {A : Type ℓ} {r : Reader A} {w : Bytes} {a b : A} → Parses r w a → a ≡ b → Parses r w b
Parses-eq {r = r} {w = w} p e = subst (λ x. Parses r w x) e p

-- One step of a `do` block, and its failure.
pub bind-ok {ℓ κ} :
    {A : Type ℓ} {B : Type κ} (m : Reader A) (f : A → Reader B) {src : Bytes} {a : A} {rest : Bytes}
    → m src ≡ ok (a, rest)
    → (m >>= f) src ≡ f a rest
unfolding ◌>>=◌
bind-ok m f e = rw (e, ◌>>=◌)

pub bind-err {ℓ κ} :
    {A : Type ℓ} {B : Type κ} (m : Reader A) (f : A → Reader B) {src : Bytes} {e : FerriteError}
    → m src ≡ err e
    → (m >>= f) src ≡ err e
unfolding ◌>>=◌
bind-err m f e = rw (e, ◌>>=◌)

pub Parses-bind {ℓ κ} :
    {A : Type ℓ} {B : Type κ} {m : Reader A} {u : Bytes} {a : A} (f : A → Reader B) {v : Bytes}
    {b : B}
    → Parses m u a
    → Parses (f a) v b
    → Parses (m >>= f) (u ++ v) b
Parses-bind {u = u} f {v = v} p q = record {
  at = λ rest. rw (append_assoc u v rest) (bind-ok _ f (p.at (v ++ rest)) ∙ q.at rest);
}

-- A reader that ends by a pure result.
pub Parses-map {ℓ κ} :
    {A : Type ℓ} {B : Type κ} {m : Reader A} {u : Bytes} {a : A} (f : A → B)
    → Parses m u a
    → Parses (m >>= λ x. pure (f x)) u (f a)
Parses-map f p = record { at = λ rest. bind-ok _ (λ x. pure (f x)) (p.at rest) }

pub length-to_le : (k v : ℕ) → length (to_le k v) ≡ k
unfolding to_le
length-to_le zero v = refl
length-to_le (suc k) v = ap suc (length-to_le k (v / 256))

pub from_le-to_le : (k v : ℕ) → v < 256 ^ k → from_le (to_le k v) ≡ v
unfolding from_le to_le
from_le-to_le zero v h = omega arith
from_le-to_le (suc k) v h = omega (arith, from_le-to_le k (v / 256) (omega arith))

pub Parses-take : (n : ℕ) (w : Bytes) → length w ≡ n → Parses (take n) w w
unfolding take remaining
Parses-take n w e = record {
  at = λ rest. rw (← e) (
      rw (
        le→not_ltb (length (w ++ rest)) (length w) (omega (arith, length-append w rest)),
        take-append w rest,
        drop-append w rest,
      ));
}

Parses-le : (k v : ℕ) → v < 256 ^ k → Parses (take k >>= λ b. pure (from_le b)) (to_le k v) v
Parses-le k v h = record {
  at = λ rest.
      (Parses-map from_le (Parses-take k (to_le k v) (length-to_le k v))).at rest
      ∙ ap (λ (x : ℕ). ok (x, rest)) (from_le-to_le k v h);
}

pub Parses-u8 : (v : ℕ) → Parses u8 (v ∷ []) v
unfolding u8
Parses-u8 v = Parses-map (λ b. get_or b 0 0) (Parses-take 1 (v ∷ []) refl)

pub Parses-u16 : (v : ℕ) → v < 2 ^ 16 → Parses u16 (to_le 2 v) v
unfolding u16
Parses-u16 v h = Parses-le 2 v h

pub Parses-u32 : (v : ℕ) → v < 2 ^ 32 → Parses u32 (to_le 4 v) v
unfolding u32
Parses-u32 v h = Parses-le 4 v h

pub Parses-u64 : (v : ℕ) → v < 2 ^ 64 → Parses u64 (to_le 8 v) v
unfolding u64
Parses-u64 v h = Parses-le 8 v h

pub Parses-u128 : (v : ℕ) → v < 2 ^ 128 → Parses u128 (to_le 16 v) v
unfolding u128
Parses-u128 v h = Parses-le 16 v h

-- The encodings of the items, one behind the other.
abbrev pub concat {ℓ} : {A : Type ℓ} → (A → Bytes) → List A → Bytes
concat enc [] = []
concat enc (x ∷ xs) = enc x ++ concat enc xs

-- A counted loop reads the first `n` items, and leaves the encodings of the others.
pub repeat-concat {ℓ} :
    {A : Type ℓ} (read : Reader A) (enc : A → Bytes) (P : A → Type 0)
    → ((a : A) → P a → Parses read (enc a) a)
    → (n : ℕ) (xs : List A) (rest : Bytes) → n ≤ length xs
    → All P xs
    → repeat n read (concat enc xs ++ rest) ≡ ok (take_list n xs, concat enc (drop n xs) ++ rest)
unfolding repeat
repeat-concat read enc P step zero xs rest h ok_all = refl
repeat-concat read enc P step (suc n) [] rest h ok_all = absurd (omega arith)
repeat-concat read enc P step (suc n) (x ∷ xs) rest h (hx, hxs) =
    rw (append_assoc (enc x) (concat enc xs) rest) (
      bind-ok read _ ((step x hx).at (concat enc xs ++ rest))
      ∙ bind-ok (repeat n read) _ (repeat-concat read enc P step n xs rest (omega arith) hxs))

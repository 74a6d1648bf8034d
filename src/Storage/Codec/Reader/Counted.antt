-- ===== src/Storage/Codec/Reader/Counted.antt =====
-- A `u16` count and a counted loop, as `decode_row` and `decode_chain` read them. The count is
-- written modulo 65,536, so a longer list leaves the encodings of its other items unread.
use native.Mathlib.Nat.{mod-eq_of_lt}
use ferrite.Prelude.{
  ◌==◌, false, ℕ, zero, suc, ◌%◌, ◌^◌, ◌<◌, ◌≡◌, refl, ap, ◌∙◌, false, List, [], ◌∷◌, ◌++◌, arith,
  append-nil, length, length-drop, All, ltb, take as take_list, drop,
}
use ferrite.Common.Error.{ok}
use ferrite.Storage.Codec.Reader.{Bytes, Reader, ◌>>=◌, is_empty, u16, repeat}
use ferrite.Storage.Codec.Reader.Parses.{Parses, Parses-u16, concat, repeat-concat, bind-ok}
use ferrite.Storage.Codec.Writer.{to_le}

-- How many items the written count announces.
abbrev pub announced {ℓ} : {A : Type ℓ} → List A → ℕ
announced xs = length xs % 2 ^ 16

take-all {ℓ} : {A : Type ℓ} (xs : List A) → take_list (length xs) xs ≡ xs
take-all [] = refl
take-all (x ∷ xs) = ap (λ l. x ∷ l) (take-all xs)

drop-all {ℓ} : {A : Type ℓ} (xs : List A) → drop (length xs) xs ≡ []
drop-all [] = refl
drop-all (x ∷ xs) = drop-all xs

All-drop {ℓ} : {A : Type ℓ} (P : A → Type 0) (n : ℕ) (xs : List A) → All P xs → All P (drop n xs)
All-drop P zero xs h = h
All-drop P (suc n) [] h = h
All-drop P (suc n) (x ∷ xs) h = All-drop P n xs h.1

pub take-announced {ℓ} :
    {A : Type ℓ} (xs : List A) → length xs < 2 ^ 16 → take_list (announced xs) xs ≡ xs
take-announced xs h = rw (mod-eq_of_lt h) (take-all xs)

is_empty-append : (u v : Bytes) → 0 < length u → is_empty (u ++ v) ≡ false
unfolding is_empty
is_empty-append [] v h = absurd (omega arith)
is_empty-append (b ∷ u) v h = refl

module _ {ℓ} {A : Type ℓ} (read : Reader A) (enc : A → Bytes) (P : A → Type 0) where
  pub counted :
      ((a : A) → P a → Parses read (enc a) a)
      → (xs : List A) → All P xs
      → (u16 >>= λ count. repeat count read) (to_le 2 (announced xs) ++ concat enc xs)
        ≡ ok (take_list (announced xs) xs, concat enc (drop (announced xs) xs))
  counted step xs h =
      bind-ok u16 _ ((Parses-u16 (announced xs) (omega arith)).at (concat enc xs))
      ∙ simp append-nil at (repeat-concat read enc P step (announced xs) xs [] (omega arith) h)

  is_empty-concat :
      ((a : A) → P a → 0 < length (enc a))
      → (ys : List A) → All P ys
      → is_empty (concat enc ys) ≡ (length ys == 0)
  unfolding is_empty
  is_empty-concat pos [] h = refl
  is_empty-concat pos (y ∷ ys) h =
      ground (arith, pos y h.0, is_empty-append (enc y) (concat enc ys))

  pub is_empty-unread :
      ((a : A) → P a → 0 < length (enc a))
      → (xs : List A) → All P xs
      → is_empty (concat enc (drop (announced xs) xs)) ≡ ltb (length xs) (2 ^ 16)
  is_empty-unread pos xs h = ground (
    arith,
    is_empty-concat pos (drop (announced xs) xs) (All-drop P (announced xs) xs h),
    length-drop (announced xs) xs,
  )

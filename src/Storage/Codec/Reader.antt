-- ===== src/Storage/Codec/Reader.antt =====
-- `Reader` of ferrite-storage/src/codec.rs.
pub mod Parses
pub mod Stable
pub mod Counted
use ferrite.Prelude.{
  ℕ, zero, suc, ◌+◌, ◌*◌, Bool, true, false, List, [], ◌∷◌, ltb, length, take as take_list, drop,
  get_or, if◌then◌else◌,
}
use ferrite.Common.Error.{Message, text, FerriteError, storage, Result, ok, err}

abbrev pub Bytes : Type 0
Bytes = List ℕ

-- A method of the reader: from the bytes that are left, the result and the bytes left then.
abbrev pub Reader {ℓ} : Type ℓ → Type ℓ
Reader A = Bytes → Result (A × Bytes)

abbrev pub pure {ℓ} : {A : Type ℓ} → A → Reader A
pure a src = ok (a, src)

abbrev pub fail {ℓ} : {A : Type ℓ} → FerriteError → Reader A
fail e src = err e

infixl 5 ◌>>=◌
unfoldable pub ◌>>=◌ {ℓ κ} : {A : Type ℓ} {B : Type κ} → Reader A → (A → Reader B) → Reader B
◌>>=◌ m f src = elim (m src) [ ok (a, rest) ↦ f a rest | err e ↦ err e ]

-- `remaining`
pub remaining : Bytes → ℕ
remaining src = length src

unfoldable pub is_empty : Bytes → Bool
is_empty [] = true
is_empty (b ∷ bs) = false

abbrev pub unexpected_end : FerriteError
unexpected_end = storage (text "corrupt row encoding: unexpected end of buffer")

unfoldable pub take : ℕ → Reader Bytes
unfolding remaining
take len src =
    if ltb (remaining src) len then err unexpected_end else ok (take_list len src, drop len src)

-- `from_le_bytes`
unfoldable pub from_le : Bytes → ℕ
from_le [] = 0
from_le (b ∷ bs) = b + 256 * from_le bs

unfoldable pub u8 : Reader ℕ
u8 = do b ← take 1; pure (get_or b 0 0)

unfoldable pub u16 : Reader ℕ
u16 = do b ← take 2; pure (from_le b)

unfoldable pub u32 : Reader ℕ
u32 = do b ← take 4; pure (from_le b)

unfoldable pub u64 : Reader ℕ
u64 = do b ← take 8; pure (from_le b)

unfoldable pub u128 : Reader ℕ
u128 = do b ← take 16; pure (from_le b)

-- The loop `for _ in 0..count { out.push(read(&mut r)?) }`.
unfoldable pub repeat {ℓ} : {A : Type ℓ} → ℕ → Reader A → Reader (List A)
repeat zero read = pure []
repeat (suc count) read = do a ← read; rest ← repeat count read; pure (a ∷ rest)

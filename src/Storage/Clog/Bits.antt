-- ===== src/Storage/Clog/Bits.antt =====
-- The bit test and the bit write of ferrite-storage/src/clog.rs on one byte, by a table.
use ferrite.Prelude.{
  ℕ, zero, suc, ◌^◌, ◌<◌, ◌≡◌, refl, Bool, true, false, not, ◌||◌, bit_and, bit_or, arith, ltb,
  ◌==◌, ==_iff, if◌then◌else◌,
}

-- `b & (1 << j) != 0`
abbrev pub has : ℕ → ℕ → Bool
has b j = not (bit_and b (2 ^ j) == 0)

same : Bool → Bool → Bool
same true b = b
same false b = not b

same→eq : (a b : Bool) → same a b ≡ true → a ≡ b
unfolding same
same→eq true b h = ground arith
same→eq false b h = ground arith

-- Some value under the limit fails the test.
fails_under : (ℕ → Bool) → ℕ → Bool
fails_under test zero = false
fails_under test (suc limit) = if test limit then fails_under test limit else true

passes :
    (test : ℕ → Bool) (limit v : ℕ) → fails_under test limit ≡ false → v < limit → test v ≡ true
unfolding fails_under
passes test zero v none_fails below = absurd (omega arith)
passes test (suc limit) v none_fails below = ground (arith, ==_iff v limit, passes test limit v)

row : ℕ → ℕ → ℕ → Bool
row b i j = same (has (bit_or b (2 ^ i)) j) (i == j || has b j)

bits_table : fails_under (λ b. not (fails_under (λ i. not (fails_under (row b i) 8)) 8)) 256 ≡ false
unfolding fails_under row same
bits_table = refl

-- Setting bit `i` sets that bit, and no other one.
pub has-set : (b i j : ℕ) → b < 256 → i < 8 → j < 8 → has (bit_or b (2 ^ i)) j ≡ (i == j || has b j)
unfolding row
has-set b i j hb hi hj =
    let at_byte =
      passes (λ c. not (fails_under (λ h. not (fails_under (row c h) 8)) 8)) 256 b bits_table hb in
    let at_bit = passes (λ h. not (fails_under (row b h) 8)) 8 i (ground arith) hi in
    same→eq _ _ (passes (row b i) 8 j (ground arith) hj)

bytes_table : fails_under (λ b. not (fails_under (λ i. ltb (bit_or b (2 ^ i)) 256) 8)) 256 ≡ false
unfolding fails_under
bytes_table = refl

pub set_lt : (b i : ℕ) → b < 256 → i < 8 → bit_or b (2 ^ i) < 256
set_lt b i hb hi =
    let at_byte =
      passes (λ c. not (fails_under (λ h. ltb (bit_or c (2 ^ h)) 256) 8)) 256 b bytes_table hb in
    let at_bit = passes (λ h. ltb (bit_or b (2 ^ h)) 256) 8 i (ground arith) hi in ground arith

has-zero_table : fails_under (λ j. not (has 0 j)) 8 ≡ false
unfolding fails_under
has-zero_table = refl

pub has-zero : (j : ℕ) → j < 8 → has 0 j ≡ false
has-zero j h = let e = passes (λ k. not (has 0 k)) 8 j has-zero_table h in ground arith

-- ===== src/Storage/Crc.antt =====
-- ferrite-storage/src/crc.rs: CRC-32C by a table.
mod Examples
use ferrite.Prelude.{
  ℕ, zero, suc, ◌+◌, ◌-◌, ◌/◌, ◌^◌, ◌<◌, bit_and, bit_xor, List, [], ◌∷◌, arith, get_or, ◌==◌,
  if◌then◌else◌,
}
use ferrite.Storage.Codec.Reader.{Bytes}

abbrev poly : ℕ
poly = 0x82f63b78

-- The inner loop, with the rounds left.
build_entry : ℕ → ℕ → ℕ
build_entry zero crc = crc
build_entry (suc rounds) crc =
    build_entry rounds (if bit_and crc 1 == 0 then crc / 2 else bit_xor (crc / 2) poly)

-- The outer loop, from entry `i` on.
build_table : ℕ → ℕ → List ℕ
unfolding build_entry
build_table zero i = []
build_table (suc left) i = build_entry 8 i ∷ build_table left (i + 1)

table : List ℕ
unfolding build_table
table = build_table 256 0

-- One round of the loop over the bytes.
crc_step : ℕ → ℕ → ℕ
unfolding table
crc_step crc b = bit_xor (crc / 256) (get_or table (bit_and (bit_xor crc b) 0xff) 0)

crc_loop : ℕ → Bytes → ℕ
unfolding crc_step
crc_loop crc [] = crc
crc_loop crc (b ∷ bs) = crc_loop (crc_step crc b) bs

-- `!crc` of a u32 is 0xffff_ffff - crc.
unfoldable pub crc32c : Bytes → ℕ
unfolding crc_loop
crc32c bytes = 0xffff_ffff - crc_loop 0xffff_ffff bytes

pub crc32c-lt : (bytes : Bytes) → crc32c bytes < 2 ^ 32
unfolding crc32c
crc32c-lt bytes = omega arith

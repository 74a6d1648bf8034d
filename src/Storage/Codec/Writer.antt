-- ===== src/Storage/Codec/Writer.antt =====
-- `Writer` of ferrite-storage/src/codec.rs.
use ferrite.Prelude.{ℕ, zero, suc, ◌/◌, ◌%◌, ◌^◌, [], ◌∷◌, ◌++◌, length}
use ferrite.Storage.Codec.Reader.{Bytes}

-- `to_le_bytes` of a number of `k` bytes.
unfoldable pub to_le : ℕ → ℕ → Bytes
to_le zero v = []
to_le (suc k) v = (v % 256) ∷ to_le k (v / 256)

abbrev pub Writer : Type 0
Writer = Bytes

unfoldable pub u8 : Writer → ℕ → Writer
u8 w v = w ++ v ∷ []

unfoldable pub u16 : Writer → ℕ → Writer
u16 w v = w ++ to_le 2 v

unfoldable pub u32 : Writer → ℕ → Writer
u32 w v = w ++ to_le 4 v

unfoldable pub u64 : Writer → ℕ → Writer
u64 w v = w ++ to_le 8 v

unfoldable pub u128 : Writer → ℕ → Writer
u128 w v = w ++ to_le 16 v

unfoldable pub bytes : Writer → Bytes → Writer
bytes w v = w ++ v

unfoldable pub len_prefixed : Writer → Bytes → Writer
len_prefixed w v = bytes (u32 w (length v % 2 ^ 32)) v

-- ===== src/Storage/Crc/Examples.antt =====
-- The known vectors of the tests in ferrite-storage/src/crc.rs.
use ferrite.Prelude.{◌≡◌, refl, [], ◌∷◌}
use ferrite.Storage.Crc.{crc32c}

crc32c_empty : crc32c [] ≡ 0
unfolding crc32c
crc32c_empty = refl

crc32c_a : crc32c (b'a' ∷ []) ≡ 0xc1d04330
unfolding crc32c
crc32c_a = refl

crc32c_digits :
    crc32c (b'1' ∷ b'2' ∷ b'3' ∷ b'4' ∷ b'5' ∷ b'6' ∷ b'7' ∷ b'8' ∷ b'9' ∷ []) ≡ 0xe3069283
unfolding crc32c
crc32c_digits = refl

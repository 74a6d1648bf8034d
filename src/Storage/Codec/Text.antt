-- ===== src/Storage/Codec/Text.antt =====
-- `String::from_utf8`, as the language defines valid UTF-8: the ranges of the first byte and of
-- the one behind it, and then continuation bytes.
use ferrite.Prelude.{ℕ, zero, suc, Bool, true, false, [], ◌∷◌, ◌&&◌, leb, ltb, ◌==◌, if◌then◌else◌}
use ferrite.Storage.Codec.Reader.{Bytes}

-- What the next bytes must be: `more n lo hi` wants one in `lo ..= hi` and `n` continuations.
pub data Expect : Type 0 where
  start : Expect
  more : ℕ → ℕ → ℕ → Expect
  bad : Expect

lead : ℕ → Expect
lead b =
    if ltb b 0x80
    then start
    else if leb 0xC2 b && leb b 0xDF
    then more 0 0x80 0xBF
    else if b == 0xE0
    then more 1 0xA0 0xBF
    else if b == 0xED
    then more 1 0x80 0x9F
    else if leb 0xE1 b && leb b 0xEF
    then more 1 0x80 0xBF
    else if b == 0xF0
    then more 2 0x90 0xBF
    else if leb 0xF1 b && leb b 0xF3
    then more 2 0x80 0xBF
    else if b == 0xF4
    then more 2 0x80 0x8F
    else bad

advance : Expect → ℕ → Expect
unfolding lead
advance start b = lead b
advance (more zero lo hi) b = if leb lo b && leb b hi then start else bad
advance (more (suc n) lo hi) b = if leb lo b && leb b hi then more n 0x80 0xBF else bad
advance bad b = bad

run : Expect → Bytes → Expect
unfolding advance
run s [] = s
run s (b ∷ bs) = run (advance s b) bs

is_start : Expect → Bool
is_start start = true
is_start _ = false

unfoldable pub is_utf8 : Bytes → Bool
unfolding run is_start
is_utf8 bs = is_start (run start bs)

-- ===== src/Exec/Like.antt =====
-- `like_matches` of ferrite-exec/src/eval.rs, on the characters of the text and of the pattern. An
-- index into a list is the part of the list behind it.
pub mod Meaning
mod Examples
use ferrite.Prelude.{
  ℕ, zero, suc, ◌+◌, ◌*◌, Bool, true, false, ◌&&◌, Option, none, some, List, [], ◌∷◌, length, ◌==◌,
  if◌then◌else◌,
}

-- `%`, `_` and the backslash.
abbrev pub percent : ℕ
percent = 37

abbrev pub underscore : ℕ
underscore = 95

abbrev pub backslash : ℕ
backslash = 92

-- What the pattern's next character does with a character of the text.
pub data Move : Type 0 where
  wildcard : List ℕ → Move
  consume : List ℕ → Move
  mismatch : Move

escaped : ℕ → List ℕ → Move
escaped c [] = mismatch
escaped c (e ∷ p) = if e == c then consume p else mismatch

pub move : ℕ → List ℕ → Move
unfolding escaped
move c [] = mismatch
move c (x ∷ p) =
    if x == percent
    then wildcard p
    else if x == underscore
    then consume p
    else if x == backslash
    then escaped c p
    else if x == c
    then consume p
    else mismatch

-- `wildcard` and `resume`: the pattern behind the last `%`, and the text at which it was tried.
abbrev pub Back : Type 0
Back = Option (List ℕ × List ℕ)

pub all_percent : List ℕ → Bool
all_percent [] = true
all_percent (x ∷ p) = x == percent && all_percent p

-- `none` means that the fuel ran out.
abbrev pub Loop : Type 0
Loop = List ℕ → List ℕ → Back → Option Bool

-- The next text for the last `%`.
pub resume : Back → Loop → Option Bool
resume none again = some false
resume (some (q, [])) again = some (all_percent q)
resume (some (q, r ∷ rest)) again = again rest q (some (q, rest))

pub like_loop : ℕ → Loop
unfolding move all_percent resume
like_loop zero t p back = none
like_loop (suc fuel) [] p back = some (all_percent p)
like_loop (suc fuel) (c ∷ t) p back = elim (move c p) [
  | wildcard q ↦ like_loop fuel (c ∷ t) q (some (q, c ∷ t))
  | consume q ↦ like_loop fuel t q back
  | mismatch ↦ resume back (like_loop fuel)
]

-- Between two resumptions each round shortens the pattern, and a resumption shortens the text.
pub like_matches : List ℕ → List ℕ → Option Bool
unfolding like_loop
like_matches text pattern =
    like_loop (length text * suc (length pattern) + suc (length pattern)) text pattern none

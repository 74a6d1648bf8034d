-- ===== src/Exec/Like/Meaning.antt =====
-- What a pattern of `LIKE` of ferrite-exec/src/eval.rs means.
pub mod Moves
pub mod Decides
use ferrite.Prelude.{
  ℕ, zero, suc, ◌+◌, ◌*◌, ◌≤◌, ◌<◌, ◌≡◌, refl, sym, ◌∙◌, Bool, true, false, ◌&&◌, ◌||◌, Option,
  none, some, List, [], ◌∷◌, length, arith, ◌==◌, ==_iff, if◌then◌else◌,
}
use ferrite.Exec.Like.{
  percent, underscore, backslash, Move, wildcard, consume, mismatch, escaped, move, Back,
  all_percent, resume, like_loop, like_matches,
}

-- The items of a pattern: any run of characters, any one, one that is given, or none at all, which
-- is what a backslash at the end stands for.
pub data Item : Type 0 where
  run : Item
  any : Item
  exactly : ℕ → Item
  never : Item

plain : ℕ → Item
plain x = if x == percent then run else if x == underscore then any else exactly x

final : ℕ → Item
final x = if x == backslash then never else plain x

pub items : List ℕ → List Item
unfolding plain final
items [] = []
items (x ∷ []) = final x ∷ []
items (x ∷ e ∷ p) =
    let literal = items p in
    let next = items (e ∷ p) in if x == backslash then exactly e ∷ literal else plain x ∷ next

-- One of the text's suffixes passes the test.
pub some_suffix : (List ℕ → Bool) → List ℕ → Bool
some_suffix test [] = test []
some_suffix test (c ∷ t) = test (c ∷ t) || some_suffix test t

pub accepts : Item → ℕ → Bool
accepts run c = false
accepts any c = true
accepts (exactly x) c = x == c
accepts never c = false

is_empty : List ℕ → Bool
is_empty [] = true
is_empty (c ∷ t) = false

-- One item that stands for one character, and then `rest`.
one : Item → (List ℕ → Bool) → List ℕ → Bool
unfolding accepts
one i rest [] = false
one i rest (c ∷ t) = accepts i c && rest t

-- The text as a whole fits the items.
pub fits : List Item → List ℕ → Bool
unfolding some_suffix one is_empty
fits [] t = is_empty t
fits (run ∷ is) t = some_suffix (fits is) t
fits (any ∷ is) t = one any (fits is) t
fits (exactly x ∷ is) t = one (exactly x) (fits is) t
fits (never ∷ is) t = one never (fits is) t

-- ===== src/Storage/Unique/Examples.antt =====
-- The key filters at concrete keys.
use ferrite.Prelude.{
  same_list-eq, same_list, ◌≡◌, refl, true, false, ◌&&◌, [], ◌∷◌, ◌==◌, ==_iff, arith,
}
use ferrite.Storage.Transactions.{contains}
use ferrite.Storage.Unique.Filter.{add}
use ferrite.Storage.Unique.KeyFilters.{
  KeyFilters, get, note_in, retain, new, build, or_may_contain, may_contain, note, invalidate,
}
use ferrite.Storage.Unique.Superset.{Live, built, checked, Reach, start, next, Covers, Reach-Covers}

-- A table that holds no key, and then the key with hash 7 on its first column.
abbrev no_key : Live
no_key t cs x = false

abbrev one_key : Live
one_key t cs x = t == 1 && (same_list cs (0 ∷ []) && x == 7)

abbrev empty_built : KeyFilters
empty_built = build (new 16) 1 (0 ∷ []) []

abbrev noted : KeyFilters
noted = note empty_built 1 (0 ∷ []) 7

noted-Reach : Reach 16 noted one_key
noted-Reach =
    next (next (start no_key) (built 1 (0 ∷ []) [] refl (λ x there. cc) (λ t cs x there. there))) (
      checked 1 (0 ∷ []) 7 refl
        (λ t cs x there. ground (arith, ==_iff t 1, same_list-eq cs (0 ∷ []), ==_iff x 7)))

Reach-Covers_example : Covers noted one_key
Reach-Covers_example = Reach-Covers 16 noted one_key noted-Reach

proves_absence : may_contain noted 1 (0 ∷ []) 8 ≡ false
unfolding may_contain or_may_contain get note_in add contains same_list
proves_absence = refl

flags_presence : may_contain noted 1 (0 ∷ []) 7 ≡ true
unfolding may_contain or_may_contain get note_in add contains same_list
flags_presence = refl

saturated :
    may_contain (note (build (new 2) 1 (0 ∷ []) (1 ∷ 2 ∷ [])) 1 (0 ∷ []) 3) 1 (0 ∷ []) 99 ≡ true
unfolding may_contain or_may_contain get note_in add contains same_list
saturated = refl

invalidated : may_contain (invalidate empty_built 1) 1 (0 ∷ []) 42 ≡ true
unfolding may_contain or_may_contain get retain
invalidated = refl

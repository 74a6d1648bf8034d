-- ===== src/Exec/Like/Examples.antt =====
-- `LIKE` on concrete texts.
use ferrite.Prelude.{◌≡◌, refl, true, false, some, [], ◌∷◌}
use ferrite.Exec.Like.{like_matches}
use ferrite.Exec.Like.Meaning.{items, fits}
use ferrite.Exec.Like.Meaning.Decides.{like_matches-fits}

-- `pf:%4` on `pf:424`, and on `pf:42`.
prefixed :
    like_matches (112 ∷ 102 ∷ 58 ∷ 52 ∷ 50 ∷ 52 ∷ []) (112 ∷ 102 ∷ 58 ∷ 37 ∷ 52 ∷ []) ≡ some true
unfolding like_matches
prefixed = refl

unfinished :
    like_matches (112 ∷ 102 ∷ 58 ∷ 52 ∷ 50 ∷ []) (112 ∷ 102 ∷ 58 ∷ 37 ∷ 52 ∷ []) ≡ some false
unfolding like_matches
unfinished = refl

-- An escaped `%` stands for itself.
literal_percent : like_matches (37 ∷ []) (92 ∷ 37 ∷ []) ≡ some true
unfolding like_matches
literal_percent = refl

like_matches-fits_example :
    like_matches (112 ∷ 52 ∷ []) (112 ∷ 37 ∷ [])
    ≡ some (fits (items (112 ∷ 37 ∷ [])) (112 ∷ 52 ∷ []))
like_matches-fits_example = like_matches-fits (112 ∷ 52 ∷ []) (112 ∷ 37 ∷ [])

-- ===== src/Exec/Like/Meaning/Moves.antt =====
-- What one round of `like_matches` of ferrite-exec/src/eval.rs does to the meaning of its pattern.
use ferrite.Prelude.{
  ℕ, ◌<◌, ◌≡◌, refl, Bool, true, false, List, [], ◌∷◌, length, arith, ◌==◌, ==_iff, if◌then◌else◌,
  Bool-cases, inl, inr,
}
use ferrite.Exec.Like.{
  percent, underscore, backslash, Move, wildcard, consume, mismatch, escaped, move, all_percent,
}
use ferrite.Exec.Like.Meaning.{
  Item, run, any, exactly, never, plain, final, items, some_suffix, accepts, fits,
}

pub fits-accepts :
    (i : Item) (is : List Item) (c : ℕ) (t : List ℕ)
    → accepts i c ≡ true
    → fits (i ∷ is) (c ∷ t) ≡ fits is t
unfolding fits accepts
fits-accepts run is c t h = cc
fits-accepts any is c t h = refl
fits-accepts (exactly x) is c t h = ground arith
fits-accepts never is c t h = cc

-- An item that stands for one character takes one away from a text that fits.
fits-tail :
    (i : Item) (is : List Item) (c d : ℕ) (t : List ℕ)
    → accepts i c ≡ true
    → fits (i ∷ is) (d ∷ t) ≡ true
    → fits is t ≡ true
unfolding fits accepts
fits-tail run is c d t h f = cc
fits-tail any is c d t h f = ground arith
fits-tail (exactly x) is c d t h f = ground arith
fits-tail never is c d t h f = cc

fits-nil : (i : Item) (is : List Item) (c : ℕ) → accepts i c ≡ true → fits (i ∷ is) [] ≡ false
unfolding fits accepts
fits-nil run is c h = cc
fits-nil any is c h = refl
fits-nil (exactly x) is c h = refl
fits-nil never is c h = cc

pub some_suffix-here :
    (test : List ℕ → Bool) (t : List ℕ) → test t ≡ true → some_suffix test t ≡ true
unfolding some_suffix
some_suffix-here test [] h = h
some_suffix-here test (c ∷ t) h = ground arith

-- So it does behind a run.
pub some_suffix-tail :
    (i : Item) (is : List Item) (c d : ℕ) (t : List ℕ)
    → accepts i c ≡ true
    → some_suffix (fits (i ∷ is)) (d ∷ t) ≡ true
    → some_suffix (fits is) t ≡ true
unfolding some_suffix
some_suffix-tail i is c d [] h f = ground (arith, fits-nil i is c, fits-tail i is c d [])
some_suffix-tail i is c d (e ∷ t) h f = ground (
  arith,
  fits-tail i is c d (e ∷ t),
  some_suffix-here (fits is) (e ∷ t),
  some_suffix-tail i is c e t,
)

-- Two runs are one.
pub some_suffix_idem :
    (test : List ℕ → Bool) (t : List ℕ)
    → some_suffix (some_suffix test) t ≡ true
    → some_suffix test t ≡ true
unfolding some_suffix
some_suffix_idem test [] f = f
some_suffix_idem test (c ∷ t) f = ground (arith, some_suffix_idem test t)

-- At the end of the text only runs are left.
pub fits-end : (p : List ℕ) → fits (items p) [] ≡ all_percent p
unfolding fits items all_percent
fits-end [] = refl
fits-end (x ∷ []) = ground arith
fits-end (x ∷ e ∷ p) = ground (arith, fits-end (e ∷ p))

abbrev pub Means : ℕ → List ℕ → Move → Type 0
Means c p (wildcard q) = (items p ≡ run ∷ items q) × (length q < length p)
Means c p (consume q) =
    (i : Item) × (items p ≡ i ∷ items q) × (accepts i c ≡ true) × (length q < length p)
Means c p mismatch = (t : List ℕ) → fits (items p) (c ∷ t) ≡ false

-- What a character of the pattern is.
data Kind (x : ℕ) : Type 0 where
  is_percent : percent ≡ x → Kind x
  is_underscore : underscore ≡ x → Kind x
  is_backslash : backslash ≡ x → Kind x
  is_literal :
      (x == percent) ≡ false → (x == underscore) ≡ false → (x == backslash) ≡ false → Kind x

classify_pattern : (x : ℕ) → Kind x
classify_pattern x = elim (Bool-cases (x == percent)) [
  | inl e ↦ is_percent (ground (arith, ==_iff x percent))
  | inr a ↦ elim (Bool-cases (x == underscore)) [
    | inl e ↦ is_underscore (ground (arith, ==_iff x underscore))
    | inr b ↦ elim (Bool-cases (x == backslash)) [
      | inl e ↦ is_backslash (ground (arith, ==_iff x backslash))
      | inr d ↦ is_literal a b d
    ]
  ]
]

-- An item that stands for the character `x` takes it, and no other one.
matched :
    (c x : ℕ) (p q : List ℕ)
    → items p ≡ exactly x ∷ items q
    → length q < length p
    → Means c p (if x == c then consume q else mismatch)
unfolding fits accepts
matched c x p q e shorter = elim (Bool-cases (x == c)) [
  | inl same ↦ rw same (exactly x, e, same, shorter)
  | inr other ↦ rw other (λ t. rw e (rw other refl))
]

move-Means-Kind : (c x : ℕ) (p : List ℕ) → Kind x → Means c (x ∷ p) (move c (x ∷ p))
unfolding move escaped items plain final fits accepts
move-Means-Kind c x [] (is_percent e) = rw (← e) (refl, omega arith)
move-Means-Kind c x (d ∷ p) (is_percent e) = rw (← e) (refl, omega arith)
move-Means-Kind c x [] (is_underscore e) = rw (← e) (any, refl, refl, omega arith)
move-Means-Kind c x (d ∷ p) (is_underscore e) = rw (← e) (any, refl, refl, omega arith)
move-Means-Kind c x [] (is_backslash e) = rw (← e) (λ t. refl)
move-Means-Kind c x (d ∷ p) (is_backslash e) =
    rw (← e) (matched c d (backslash ∷ d ∷ p) p refl (omega arith))
move-Means-Kind c x [] (is_literal a b d) =
    rw a (rw b (rw d (matched c x (x ∷ []) [] (ground arith) (omega arith))))
move-Means-Kind c x (e ∷ p) (is_literal a b d) =
    rw a (rw b (rw d (matched c x (x ∷ e ∷ p) (e ∷ p) (ground arith) (omega arith))))

pub move-Means : (c : ℕ) (p : List ℕ) → Means c p (move c p)
unfolding move fits items
move-Means c [] = λ t. refl
move-Means c (x ∷ p) = move-Means-Kind c x p (classify_pattern x)

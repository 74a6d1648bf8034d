-- ===== src/Exec/Like/Meaning/Decides.antt =====
-- `like_matches` of ferrite-exec/src/eval.rs against what its pattern means.
use ferrite.Prelude.{
  ℕ, zero, suc, ◌+◌, ◌*◌, ◌≤◌, ◌<◌, ◌≡◌, refl, sym, ap, ◌∙◌, Bool, true, false, Option, none, some,
  List, [], ◌∷◌, length, arith,
}
use ferrite.Exec.Like.{
  Move, wildcard, consume, mismatch, move, Back, resume, like_loop, like_matches,
}
use ferrite.Exec.Like.Meaning.{Item, run, items, some_suffix, accepts, fits}
use ferrite.Exec.Like.Meaning.Moves.{
  fits-accepts, some_suffix-here, some_suffix-tail, some_suffix_idem, fits-end, Means, move-Means,
}

same_answer : (a b : Bool) → (a ≡ true → b ≡ true) → (b ≡ true → a ≡ true) → a ≡ b
same_answer true b f g = sym (f refl)
same_answer false true f g = g refl
same_answer false false f g = refl

-- `answer` is the question asked at the start; no pattern in play is longer than `k`.
module _ (answer : Bool) (k : ℕ) where
  -- What the last `%` still promises. No more than `m` characters are left to it.
  abbrev Promise : ℕ → List ℕ → List ℕ → Back → Type 0
  Promise m t p none = answer ≡ true → fits (items p) t ≡ true
  Promise m t p (some (q, r)) =
      (answer ≡ some_suffix (fits (items q)) r)
      × (fits (items q) r ≡ true → fits (items p) t ≡ true)
      × (length t ≤ length r)
      × (length r ≤ m)
      × (length q ≤ k)

  record Running (m : ℕ) (t p : List ℕ) (back : Back) : Type 0 where
    sound : fits (items p) t ≡ true → answer ≡ true
    complete : answer ≡ true → some_suffix (fits (items p)) t ≡ true
    promise : Promise m t p back
    text : length t ≤ m
    pattern_length : length p ≤ k

  -- The loop gives the answer from every state in which `fuel` rounds are enough.
  abbrev Enough : ℕ → Type 0
  Enough fuel =
      (m : ℕ) (t p : List ℕ) (back : Back)
      → Running m t p back
      → m * suc k + length p < fuel
      → like_loop fuel t p back ≡ some answer

  -- A `%` that is met, or met again.
  restarted :
      (m : ℕ) (t q : List ℕ)
      → answer ≡ some_suffix (fits (items q)) t
      → length t ≤ m
      → length q ≤ k
      → Running m t q (some (q, t))
  restarted m t q e short fewer = record {
    sound = λ h. e ∙ some_suffix-here (fits (items q)) t h;
    complete = λ h. sym e ∙ h;
    promise = (e, λ h. h, omega arith, short, fewer);
    text = short;
    pattern_length = fewer;
  }

  Promise-consume :
      (m c : ℕ) (t p q : List ℕ) (back : Back)
      → (fits (items p) (c ∷ t) ≡ true → fits (items q) t ≡ true)
      → Promise m (c ∷ t) p back
      → Promise m t q back
  Promise-consume m c t p q none step h = λ a. step (h a)
  Promise-consume m c t p q (some (b, r)) step (e, down, shorter, short, fewer) =
      (e, λ h. step (down h), omega arith, short, fewer)

  -- A mismatch: the text fits only where the last `%` takes a character more.
  resume-answer :
      (fuel m c : ℕ) (t p : List ℕ) (back : Back)
      → Enough fuel
      → Running m (c ∷ t) p back
      → m * suc k + length p < suc fuel
      → fits (items p) (c ∷ t) ≡ false
      → resume back (like_loop fuel) ≡ some answer
  unfolding resume
  resume-answer fuel m c t p none ih h budget off = ground (arith, h.promise)
  resume-answer fuel m c t p (some (q, [])) ih h budget off = absurd (omega (arith, h.promise.2))
  resume-answer fuel zero c t p (some (q, r ∷ rest)) ih h budget off =
      absurd (omega (arith, h.promise.3))
  resume-answer fuel (suc m) c t p (some (q, r ∷ rest)) ih h budget off =
      let (e, down, shorter, short, fewer) = h.promise in
      let later : answer ≡ some_suffix (fits (items q)) rest =
        unfold some_suffix in ground (arith, e, down, off) in
      ih m rest q (some (q, rest)) (restarted m rest q later (omega arith) fewer)
        (omega (arith, h.text))

  asked :
      (m : ℕ) (t p q : List ℕ) (back : Back)
      → items p ≡ run ∷ items q
      → Running m t p back
      → answer ≡ some_suffix (fits (items q)) t
  unfolding fits
  asked m t p q back e h =
      same_answer answer (some_suffix (fits (items q)) t)
        (λ a. some_suffix_idem (fits (items q)) t (rw e at (h.complete a))) (λ f. h.sound (rw e f))

  consumed :
      (m c : ℕ) (t p q : List ℕ) (back : Back) (i : Item)
      → items p ≡ i ∷ items q
      → accepts i c ≡ true
      → length q < length p
      → Running m (c ∷ t) p back
      → Running m t q back
  consumed m c t p q back i e taken shorter h =
      let same : fits (items p) (c ∷ t) ≡ fits (items q) t =
        rw e (fits-accepts i (items q) c t taken) in
      record {
        sound = λ f. h.sound (same ∙ f);
        complete = λ a. some_suffix-tail i (items q) c c t taken (rw e at (h.complete a));
        promise = Promise-consume m c t p q back (λ f. sym same ∙ f) h.promise;
        text = omega (arith, h.text);
        pattern_length = omega (arith, h.pattern_length);
      }

  round :
      (fuel m c : ℕ) (t p : List ℕ) (back : Back) (mv : Move)
      → Means c p mv
      → Enough fuel
      → Running m (c ∷ t) p back
      → m * suc k + length p < suc fuel
      → (elim mv as (λ z. Option Bool) [
        | wildcard q ↦ like_loop fuel (c ∷ t) q (some (q, c ∷ t))
        | consume q ↦ like_loop fuel t q back
        | mismatch ↦ resume back (like_loop fuel)
      ])
        ≡ some answer
  round fuel m c t p back (wildcard q) (e, shorter) ih h budget =
      ih m (c ∷ t) q (some (q, c ∷ t))
        (restarted m (c ∷ t) q (asked m (c ∷ t) p q back e h) h.text
          (omega (arith, h.pattern_length)))
        (omega arith)
  round fuel m c t p back (consume q) (i, e, taken, shorter) ih h budget =
      ih m t q back (consumed m c t p q back i e taken shorter h) (omega arith)
  round fuel m c t p back mismatch off ih h budget =
      resume-answer fuel m c t p back ih h budget (off t)

  enough : (fuel : ℕ) → Enough fuel
  unfolding like_loop
  enough zero m t p back h budget = absurd (omega arith)
  enough (suc fuel) m [] p back h budget = ap some (
      sym (fits-end p)
      ∙ same_answer (fits (items p) []) answer h.sound (unfold some_suffix in h.complete))
  enough (suc fuel) m (c ∷ t) p back h budget =
      round fuel m c t p back (move c p) (move-Means c p) (enough fuel) h budget

-- On every text and pattern the loop of like_matches ends within its fuel, and its answer is
-- whether the text fits the pattern read as a list of items: any run of characters, one character,
-- a given character, or nothing.
pub like_matches-fits :
    (text pattern : List ℕ) → like_matches text pattern ≡ some (fits (items pattern) text)
unfolding like_matches
like_matches-fits text pattern =
    enough (fits (items pattern) text) (length pattern)
      (length text * suc (length pattern) + suc (length pattern)) (length text) text pattern none
      (record {
        sound = λ h. h;
        complete = λ h. some_suffix-here (fits (items pattern)) text h;
        promise = λ h. h;
        text = omega arith;
        pattern_length = omega arith;
      })
      (omega arith)

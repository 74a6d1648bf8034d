-- ===== src/Exec/Session/Yields.antt =====
-- What an action of a session gives where it succeeds, and where it fails.
use ferrite.Prelude.{
  ℕ, ◌+◌, ◌≡◌, ◌≢◌, ◌≤◌, refl, sym, ap, subst, ◌∙◌, true, false, some, ltb, leb, ◌==◌, ==_iff,
  if◌then◌else◌, Bool-cases, inl, inr, arith,
}
use ferrite.Common.Error.{FerriteError, Result, ok, err, err-ne-ok}
use ferrite.Exec.Session.{
  Session, State, Run, continue, ◌>>=◌, lift, timed_out, within, read_clock, tick_by, tick, admit,
}

abbrev pub Given : {A : Type 0} → (A → Type 0) → Result A → Type 0
Given Q (ok a) = Q a
Given Q (err e) = Unit

pub record Yields {W A : Type 0} (Q : A → Type 0) (m : Run W A) : Type 0 where
  pub at : (s : State W) → Given Q (m s).0

-- An action that fails from a state.
abbrev pub Fails : {W A : Type 0} → Run W A → State W → Type 0
Fails m s = (e : FerriteError) × ((m s).0 ≡ err e)

module _ {W A B : Type 0} where
  continue-Given :
      (Q : B → Type 0) (r : Result A) (f : A → Run W B) (s : State W)
      → ((a : A) → Yields Q (f a))
      → Given Q (continue r f s).0
  continue-Given Q (ok a) f s k = (k a).at s
  continue-Given Q (err e) f s k = tt

  -- Only the last action of a block says what the block gives.
  pub Yields-bind :
      (Q : B → Type 0) (m : Run W A) (f : A → Run W B)
      → ((a : A) → Yields Q (f a))
      → Yields Q (m >>= f)
  unfolding ◌>>=◌
  Yields-bind Q m f k = record { at = λ s. continue-Given Q (m s).0 f (m s).1 k }

  continue-Given_with :
      (Q : A → Type 0) (R : B → Type 0) (r : Result A) (f : A → Run W B) (s : State W)
      → ((a : A) → Q a → Yields R (f a))
      → Given Q r
      → Given R (continue r f s).0
  continue-Given_with Q R (ok a) f s k h = (k a h).at s
  continue-Given_with Q R (err e) f s k h = tt

  pub Yields-bind_with :
      (Q : A → Type 0) (R : B → Type 0) (m : Run W A) (f : A → Run W B)
      → Yields Q m
      → ((a : A) → Q a → Yields R (f a))
      → Yields R (m >>= f)
  unfolding ◌>>=◌
  Yields-bind_with Q R m f h k = record {
    at = λ s. continue-Given_with Q R (m s).0 f (m s).1 k (h.at s);
  }

  continue-Fails :
      (r : Result A) (f : A → Run W B) (s : State W)
      → ((e : FerriteError) × (r ≡ err e))
      → (e : FerriteError) × ((continue r f s).0 ≡ err e)
  continue-Fails (ok a) f s h = absurd (err-ne-ok (sym h.1))
  continue-Fails (err e) f s h = (e, refl)

  pub Fails-first : (m : Run W A) (f : A → Run W B) (s : State W) → Fails m s → Fails (m >>= f) s
  unfolding ◌>>=◌
  Fails-first m f s h = continue-Fails (m s).0 f (m s).1 h

  pub Fails-next :
      (m : Run W A) (f : A → Run W B) (s t : State W) (a : A)
      → m s ≡ (ok a, t)
      → Fails (f a) t
      → Fails (m >>= f) s
  unfolding ◌>>=◌
  Fails-next m f s t a e h =
      subst (λ (p : Result A × State W). (x : FerriteError) × ((continue p.0 f p.1).0 ≡ err x))
        (sym e) h

  pub Fails-lift :
      (r : Result A) (f : A → Run W B) (s : State W)
      → ((a : A) → r ≡ ok a → Fails (f a) s)
      → Fails (lift r >>= f) s
  unfolding ◌>>=◌ lift
  Fails-lift (ok a) f s k = k a refl
  Fails-lift (err e) f s k = (e, refl)

module _ {W : Type 0} (z : Session W) where
  -- What is admitted is within the budget.
  pub Yields-admit :
      (n : ℕ) → z.limits.max_rows ≢ 0 → Yields (λ u. n ≤ z.limits.max_rows) (admit z n)
  unfolding admit within
  Yields-admit n limited = record {
    at = λ s. elim (Bool-cases (z.limits.max_rows == 0)) [
      | inl e ↦ absurd (limited ((==_iff z.limits.max_rows 0).0 e))
      | inr e ↦ elim (Bool-cases (leb n z.limits.max_rows)) [
        | inl fits ↦ rw (e, fits) (ground arith)
        | inr not_fits ↦ rw (e, not_fits) tt
      ]
    ];
  }

  pub Yields-lift :
      {A : Type 0} (Q : A → Type 0) (r : Result A) → Given Q r → Yields Q (lift {W = W} r)
  unfolding lift
  Yields-lift Q r h = record { at = λ s. h }

  -- Between two reads of the clock a tick counts one more row.
  pub tick-early :
      (s : State W) (d : ℕ)
      → s.deadline ≡ some d
      → ltb (s.since_check + 1) 512 ≡ true
      → tick z s ≡ (ok tt, record s { since_check = s.since_check + 1 })
  unfolding tick tick_by
  tick-early s d h e =
      ap (λ t. tick_by z t s) h
      ∙ ap
          (λ b.
            if b
            then (ok tt, record s { since_check = s.since_check + 1 })
            else read_clock z d (record s { since_check = 0 }))
          e

  -- The clock is read at the 512th row, and ends the statement once the deadline is reached.
  pub tick-late :
      (s : State W) (d : ℕ)
      → s.deadline ≡ some d
      → ltb (s.since_check + 1) 512 ≡ false
      → d ≤ (z.engines.now s.world).0
      → (tick z s).0 ≡ err timed_out
  unfolding tick tick_by read_clock
  tick-late s d h e late =
      let past : leb d (z.engines.now s.world).0 ≡ true = ground arith in
      ap (λ t. (tick_by z t s).0) h
      ∙ ap
          (λ b.
            (if b
              then (ok tt, record s { since_check = s.since_check + 1 })
              else read_clock z d (record s { since_check = 0 })).0)
          e
      ∙ ap (λ b. if b then err timed_out else ok tt) past

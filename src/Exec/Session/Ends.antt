-- ===== src/Exec/Session/Ends.antt =====
-- How actions of a session end: with a value of a kind, or with an error of a kind.
use ferrite.Prelude.{
  ℕ, ◌+◌, ◌≡◌, ◌≢◌, refl, sym, subst, ◌∙◌, Option, none, some, ltb, leb, ◌==◌, ◌≤◌, Bool-cases, inl,
  inr, arith, ==_iff,
}
use ferrite.Common.Error.{FerriteError, Result, ok, err}
use ferrite.Exec.Session.{
  Session, State, Run, continue, ◌>>=◌, lift, timed_out, over_budget, within, tick_by, tick, admit,
}

-- The deadline of a statement stays the same throughout.
abbrev pub Outcome :
    {W A : Type 0} → Option ℕ → (FerriteError → Type 0) → (A → Type 0) → Result A × State W → Type 0
Outcome d F Q (ok a, s) = Q a × (s.deadline ≡ d)
Outcome d F Q (err e, s) = F e

pub record Ends {W A : Type 0} (d : Option ℕ) (F : FerriteError → Type 0) (Q : A → Type 0)
    (m : Run W A) : Type 0 where
  pub at : (s : State W) → s.deadline ≡ d → Outcome d F Q (m s)

tick_by-Outcome :
    {W : Type 0} (d : Option ℕ) (F : FerriteError → Type 0) (z : Session W) (t : Option ℕ)
    (s : State W)
    → (t ≢ none → F timed_out)
    → s.deadline ≡ d
    → Outcome d F (λ u. Unit {0}) (tick_by z t s)
unfolding tick_by
tick_by-Outcome d F z none s late h = (tt, h)
tick_by-Outcome d F z (some t) s late h = elim (Bool-cases (ltb (s.since_check + 1) 512)) [
  | inl e ↦ rw e (tt, h)
  | inr e ↦ elim (Bool-cases (leb t (z.engines.now s.world).0)) [
    | inl past ↦ rw (e, past) (late (λ n. cc))
    | inr before ↦ rw (e, before) (tt, h)
  ]
]

module _ {W : Type 0} {d : Option ℕ} {F : FerriteError → Type 0} where
  lift-at :
      {A : Type 0} (Q : A → Type 0) (r : Result A) (s : State W)
      → ((a : A) → r ≡ ok a → Q a)
      → ((e : FerriteError) → r ≡ err e → F e)
      → s.deadline ≡ d
      → Outcome d F Q (r, s)
  lift-at Q (ok a) s good bad h = (good a refl, h)
  lift-at Q (err e) s good bad h = bad e refl

  pub Ends-lift :
      {A : Type 0} (Q : A → Type 0) (r : Result A)
      → ((a : A) → r ≡ ok a → Q a)
      → ((e : FerriteError) → r ≡ err e → F e)
      → Ends d F Q (lift {W = W} r)
  unfolding lift
  Ends-lift Q r good bad = record { at = λ s h. lift-at Q r s good bad h }

  pub Ends-ok : {A : Type 0} (Q : A → Type 0) (a : A) → Q a → Ends d F Q (lift {W = W} (ok a))
  unfolding lift
  Ends-ok Q a q = record { at = λ s h. (q, h) }

  continue-Outcome :
      {A B : Type 0} (Q : A → Type 0) (R : B → Type 0) (r : Result A) (f : A → Run W B)
      (s : State W)
      → ((a : A) → Q a → Ends d F R (f a))
      → Outcome d F Q (r, s)
      → Outcome d F R (continue r f s)
  continue-Outcome Q R (ok a) f s k h = (k a h.0).at s h.1
  continue-Outcome Q R (err e) f s k h = h

  pub Ends-bind :
      {A B : Type 0} (Q : A → Type 0) (R : B → Type 0) (m : Run W A) (f : A → Run W B)
      → Ends d F Q m
      → ((a : A) → Q a → Ends d F R (f a))
      → Ends d F R (m >>= f)
  unfolding ◌>>=◌
  Ends-bind Q R m f km kf = record {
    at = λ s h. continue-Outcome Q R (m s).0 f (m s).1 kf (km.at s h);
  }

  -- A first action that can give but one value.
  pub Ends-bind_eq :
      {A B : Type 0} (b : A) (R : B → Type 0) (m : Run W A) (f : A → Run W B)
      → Ends d F (λ a. a ≡ b) m
      → Ends d F R (f b)
      → Ends d F R (m >>= f)
  Ends-bind_eq b R m f km kf =
      Ends-bind (λ a. a ≡ b) R m f km (λ a e. subst (λ x. Ends d F R (f x)) (sym e) kf)

  pub Ends-tick : (z : Session W) → (d ≢ none → F timed_out) → Ends d F (λ u. Unit {0}) (tick z)
  unfolding tick
  Ends-tick z late = record {
    at = λ s h. tick_by-Outcome d F z s.deadline s (λ n. late (λ e. n (h ∙ e))) h;
  }

  -- What is admitted is within the budget.
  pub Ends-admit :
      (z : Session W) (n : ℕ)
      → (z.limits.max_rows ≢ 0 → F (over_budget z))
      → Ends d F (λ u. z.limits.max_rows ≢ 0 → n ≤ z.limits.max_rows) (admit z n)
  unfolding admit within
  Ends-admit z n over = record {
    at = λ s h. elim (Bool-cases (z.limits.max_rows == 0)) [
      | inl e ↦ rw e ((λ k. absurd (k ((==_iff z.limits.max_rows 0).0 e))), h)
      | inr e ↦ elim (Bool-cases (leb n z.limits.max_rows)) [
        | inl fits ↦ rw (e, fits) ((λ k. ground arith), h)
        | inr not_fits ↦ rw (e, not_fits) (over (λ k. ground arith))
      ]
    ];
  }

pub Outcome-map :
    {W A : Type 0} (d : Option ℕ) (F : FerriteError → Type 0) (Q R : A → Type 0)
    → ((a : A) → Q a → R a)
    → (r : Result A × State W) → Outcome d F Q r
    → Outcome d F R r
Outcome-map d F Q R f (ok a, s) h = (f a h.0, h.1)
Outcome-map d F Q R f (err e, s) h = h

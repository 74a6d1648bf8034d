-- ===== src/Exec/Session/Keeps.antt =====
-- Actions of a session that keep an invariant of the engines, whether they succeed or fail.
use ferrite.Common.Error.{Result, ok, err}
use ferrite.Exec.Session.{
  Session, State, Run, ◌>>=◌, lift, reads, writes, continue, tick_by, tick, admit,
}
use ferrite.Prelude.{
  ℕ, ◌+◌, ◌≡◌, refl, Bool, true, false, Option, none, some, ltb, if◌then◌else◌, Bool-cases, inl,
  inr,
}

pub record Keeps {W A : Type 0} (P : W → Type 0) (m : Run W A) : Type 0 where
  pub at : (s : State W) → P s.world → P (m s).1.world

module _ {W : Type 0} {P : W → Type 0} where
  pub Keeps-lift : {A : Type 0} (r : Result A) → Keeps P (lift r)
  unfolding lift
  Keeps-lift r = record { at = λ s h. h }

  pub Keeps-reads : {A : Type 0} (f : W → Result A) → Keeps P (reads f)
  unfolding reads
  Keeps-reads f = record { at = λ s h. h }

  pub Keeps-writes :
      {A : Type 0} (f : W → Result A × W) → ((w : W) → P w → P (f w).1) → Keeps P (writes f)
  unfolding writes
  Keeps-writes f k = record { at = λ s h. k s.world h }

  -- What follows may use that the first action succeeded.
  pub Keeps-after_lift :
      {A B : Type 0} (r : Result A) (f : A → Run W B)
      → ((a : A) → r ≡ ok a → Keeps P (f a))
      → Keeps P (lift r >>= f)
  unfolding ◌>>=◌ lift
  Keeps-after_lift (ok a) f k = k a refl
  Keeps-after_lift (err e) f k = record { at = λ s h. h }

  continue-at :
      {A B : Type 0} (r : Result A) (f : A → Run W B) (s : State W)
      → ((a : A) → Keeps P (f a))
      → P s.world
      → P (continue r f s).1.world
  continue-at (ok a) f s k h = (k a).at s h
  continue-at (err e) f s k h = h

  pub Keeps-bind :
      {A B : Type 0} (m : Run W A) (f : A → Run W B)
      → Keeps P m
      → ((a : A) → Keeps P (f a))
      → Keeps P (m >>= f)
  unfolding ◌>>=◌
  Keeps-bind m f km kf = record { at = λ s h. continue-at (m s).0 f (m s).1 kf (km.at s h) }

  tick_by-at :
      (z : Session W) (d : Option ℕ) (s : State W)
      → ((w : W) → P w → P (z.engines.now w).1)
      → P s.world
      → P (tick_by z d s).1.world
  unfolding tick_by
  tick_by-at z none s k h = h
  tick_by-at z (some d) s k h = elim (Bool-cases (ltb (s.since_check + 1) 512)) [
    | inl e ↦ rw e h
    | inr e ↦ rw e (k s.world h)
  ]

  pub Keeps-tick : (z : Session W) → ((w : W) → P w → P (z.engines.now w).1) → Keeps P (tick z)
  unfolding tick
  Keeps-tick z k = record { at = λ s h. tick_by-at z s.deadline s k h }

  pub Keeps-admit : (z : Session W) (n : ℕ) → Keeps P (admit z n)
  unfolding admit
  Keeps-admit z n = record { at = λ s h. h }

  pub Keeps-when :
      {A : Type 0} (b : Bool) (m n : Run W A)
      → Keeps P m
      → Keeps P n
      → Keeps P (elim b [ true ↦ m | false ↦ n ])
  Keeps-when true m n km kn = km
  Keeps-when false m n km kn = kn

  pub Keeps-if :
      {A : Type 0} (b : Bool) (m n : Run W A) → Keeps P m → Keeps P n → Keeps P (if b then m else n)
  Keeps-if true m n km kn = km
  Keeps-if false m n km kn = kn

pub ruleset keeps_rules = (Keeps-lift, Keeps-reads, Keeps-bind, Keeps-admit, Keeps-if)

-- ===== src/Exec/Session.antt =====
-- `Session` of ferrite-exec/src/executor.rs: what a statement runs against, its budget of time and rows,
-- and its actions, which change the storage and may fail.
pub mod Keeps
pub mod Ends
pub mod Yields
use ferrite.Prelude.{ℕ, ◌+◌, Bool, ◌||◌, Option, none, some, List, ltb, leb, ◌==◌, if◌then◌else◌}
use ferrite.Common.Error.{FerriteError, Message, timeout, resource_limit, Result, ok, err}
use ferrite.Common.Value.{Value, Row}
use ferrite.Common.Schema.{Schema}
use ferrite.Common.Storage.{UniqueKey}
use ferrite.Common.Identity.{Identity}
use ferrite.Proc.Registry.{ProcRegistry}

-- A row of a plan, with its id while it comes straight from the storage.
pub record Tuple : Type 0 where
  pub rid : Option ℕ
  pub row : Row

-- The storage engine, the catalog, the index provider and the clock, over the state of them all.
-- A scan is the list of its entries.
pub record Engines (W : Type 0) : Type 0 where
  pub scan : ℕ → ℕ → W → Result (List (Result (ℕ × Row)))
  pub get : ℕ → ℕ → ℕ → W → Result Row
  pub insert_unique : ℕ → ℕ → Row → List UniqueKey → W → Result ℕ × W
  pub update_unique : ℕ → ℕ → ℕ → Row → List UniqueKey → W → Result (Unit {0}) × W
  pub delete : ℕ → ℕ → ℕ → W → Result (Unit {0}) × W
  pub table_schema : ℕ → W → Result Schema
  pub lookup : Option (ℕ → ℕ → List ℕ → Value → W → Result (List ℕ))
  pub now : W → ℕ × W

-- No rows at all stand for no limit.
pub record Limits : Type 0 where
  pub max_rows : ℕ
  pub statement_timeout : Option ℕ

pub record Session (W : Type 0) : Type 0 where
  pub engines : Engines W
  pub procs : ProcRegistry
  pub identity : Identity
  pub limits : Limits

-- The two cells of a session, and the state of the engines.
pub record State (W : Type 0) : Type 0 where
  pub deadline : Option ℕ
  pub since_check : ℕ
  pub world : W

abbrev pub Run : Type 0 → Type 0 → Type 0
Run W A = State W → Result A × State W

abbrev continue : {W A B : Type 0} → Result A → (A → Run W B) → Run W B
continue (ok a) f s = f a s
continue (err e) f s = (err e, s)

infixl 5 ◌>>=◌ ◌>>◌
unfoldable pub ◌>>=◌ : {W A B : Type 0} → Run W A → (A → Run W B) → Run W B
◌>>=◌ m f s = let (r, s') = m s in continue r f s'

abbrev pub ◌>>◌ : {W A B : Type 0} → Run W A → Run W B → Run W B
m >> k = m >>= λ _. k

module _ {W A : Type 0} where
  unfoldable pub lift : Result A → Run W A
  lift r s = (r, s)

  -- A call that reads the engines, and one that changes them.
  unfoldable pub reads : (W → Result A) → Run W A
  reads f s = (f s.world, s)

  unfoldable pub writes : (W → Result A × W) → Run W A
  writes f s = let (r, w) = f s.world in (r, record s { world = w })

abbrev pub clock_interval : ℕ
clock_interval = 512

abbrev pub timed_out : FerriteError
timed_out = timeout (Message.text "the statement ran past its time budget")

abbrev pub default_max_rows : ℕ
default_max_rows = 10000000

module _ {W : Type 0} (z : Session W) where
  -- The clock is read, and the deadline is past once it is reached.
  read_clock : ℕ → Run W (Unit {0})
  read_clock deadline s =
      let (instant, w) = z.engines.now s.world in
      (if leb deadline instant then err timed_out else ok tt, record s { world = w })

  tick_by : Option ℕ → Run W (Unit {0})
  unfolding read_clock
  tick_by none s = (ok tt, s)
  tick_by (some deadline) s =
      if ltb (s.since_check + 1) clock_interval
      then (ok tt, record s { since_check = s.since_check + 1 })
      else read_clock deadline (record s { since_check = 0 })

  unfoldable pub tick : Run W (Unit {0})
  unfolding tick_by
  tick s = tick_by s.deadline s

  abbrev pub over_budget : FerriteError
  over_budget =
      resource_limit (Message.with_number "a query materialized more rows than" z.limits.max_rows)

  pub within : ℕ → Bool
  within rows = z.limits.max_rows == 0 || leb rows z.limits.max_rows

  unfoldable pub admit : ℕ → Run W (Unit {0})
  unfolding within
  admit rows s = (if within rows then ok tt else err over_budget, s)

-- ===== src/Exec/Statement/Denied.antt =====
-- Permissions and the statements of ferrite-exec/src/executor.rs.
use ferrite.Prelude.{
  ℕ, ◌≡◌, refl, ◌≢◌, ap, ◌∙◌, Bool, true, false, Option, none, some, List, [], ◌∷◌, Bool-cases, inl,
  inr, if◌then◌else◌,
}
use ferrite.Common.Error.{FerriteError, Message, permission_denied, Result, ok, err}
use ferrite.Common.Value.{Value}
use ferrite.Common.Identity.{Permission}
use ferrite.Planner.Physical.{PhysicalPlan}
use ferrite.Proc.Context.{has_permission, require}
use ferrite.Proc.Registry.{Procedure, ProcRegistry, context, authorize, procedure, call}
use ferrite.Exec.Compare.{Machine}
use ferrite.Exec.Eval.{Scalars}
use ferrite.Exec.Session.{Session, State, Run, ◌>>=◌, lift}
use ferrite.Exec.Aggregate.{Rendering, eval_each}
use ferrite.Exec.Order.{Sorting}
use ferrite.Exec.Stream.{empty_row}
use ferrite.Exec.Statement.{QueryResult, updates, allowed, allowed_if, query, execute_resolved}

-- What a statement needs. A procedure names its own permission; one that is missing has none.
abbrev required : Option Procedure → List Permission
required none = []
required (some p) = p.required_permission ∷ []

abbrev pub needed : ProcRegistry → PhysicalPlan → List Permission
needed procs (PhysicalPlan.insert t rows o unique) =
    Permission.insert ∷ (if updates o then Permission.update ∷ [] else [])
needed procs (PhysicalPlan.update t source assignments unique) = Permission.update ∷ []
needed procs (PhysicalPlan.delete t source) = Permission.delete ∷ []
needed procs (PhysicalPlan.call_procedure name args) = required (procedure procs name)
needed procs _ = Permission.select ∷ []

true-ne-false : ◌≢◌ {A = Bool} true false
true-ne-false h = cc

module _ (m : Machine) (sc : Scalars) (std : Sorting) (shown : Rendering) {W : Type 0}
    (z : Session W) (txn : ℕ) where
  abbrev pub holds_all : List Permission → Bool
  holds_all [] = true
  holds_all (p ∷ ps) =
      if has_permission (context z.procs z.identity txn) p then holds_all ps else false

  abbrev pub denial : FerriteError
  denial = permission_denied (Message.with_text "identity lacks a permission" z.identity.bytes)

  abbrev pub after_arguments : Result (List Value) → Result QueryResult
  after_arguments (ok values) = err denial
  after_arguments (err e) = err e

  -- The arguments of a call are evaluated before its permission is asked for.
  abbrev pub refusal : PhysicalPlan → Result QueryResult
  refusal (PhysicalPlan.call_procedure name args) = after_arguments (eval_each m sc args empty_row)
  refusal _ = err denial

  first_denied :
      {A : Type 0} (p : Permission) (f : Unit {0} → Run W A) (s : State W)
      → has_permission (context z.procs z.identity txn) p ≡ false
      → (allowed m sc std shown z txn p >>= f) s ≡ (err denial, s)
  unfolding allowed authorize require ◌>>=◌ lift
  first_denied p f s h = ap (λ b. (lift {W = W} (if b then ok tt else err denial) >>= f) s) h

  first_allowed :
      {A : Type 0} (p : Permission) (f : Unit {0} → Run W A) (s : State W)
      → has_permission (context z.procs z.identity txn) p ≡ true
      → (allowed m sc std shown z txn p >>= f) s ≡ f tt s
  unfolding allowed authorize require ◌>>=◌ lift
  first_allowed p f s h = ap (λ b. (lift {W = W} (if b then ok tt else err denial) >>= f) s) h

  denied_one :
      {A : Type 0} (p : Permission) (f : Unit {0} → Run W A) (s : State W)
      → holds_all (p ∷ []) ≡ false
      → (allowed m sc std shown z txn p >>= f) s ≡ (err denial, s)
  denied_one p f s h = elim (Bool-cases (has_permission (context z.procs z.identity txn) p)) [
    | inl e ↦ absurd (true-ne-false (rw e at h))
    | inr e ↦ first_denied p f s e
  ]

  denied_if :
      {A : Type 0} (b : Bool) (p : Permission) (f : Unit {0} → Run W A) (s : State W)
      → holds_all (if b then p ∷ [] else []) ≡ false
      → (allowed_if m sc std shown z b txn p >>= f) s ≡ (err denial, s)
  unfolding allowed_if
  denied_if true p f s h = denied_one p f s h
  denied_if false p f s h = absurd (true-ne-false h)

  call-denied :
      (name : List ℕ) (values : List Value) (o : Option Procedure)
      → procedure z.procs name ≡ o
      → holds_all (required o) ≡ false
      → call z.procs (context z.procs z.identity txn) name values ≡ err denial
  unfolding call procedure require context
  call-denied name values none e h = absurd (true-ne-false h)
  call-denied name values (some p) e h =
      elim (Bool-cases (has_permission (context z.procs z.identity txn) p.required_permission)) [
        | inl granted ↦ absurd (true-ne-false (rw granted at h))
        | inr missing ↦ rw (call, e, missing) refl
      ]

  denied_call :
      (r : Result (List Value)) (f : List Value → Result Value) (s : State W)
      → ((values : List Value) → f values ≡ err denial)
      → (lift {W = W} r >>= λ values. lift (f values) >>= λ v. lift (ok (QueryResult.value v))) s
        ≡ (after_arguments r, s)
  unfolding ◌>>=◌ lift
  denied_call (err e) f s h = refl
  denied_call (ok values) f s h = rw (h values) refl

  -- If the roles of the caller do not grant every permission that a statement needs, of which an
  -- upsert that updates needs two and a call the one that its procedure names, then
  -- execute_resolved refuses it and leaves the session and the engines as they were: it never
  -- reaches the storage. A call evaluates its arguments first, and an error of theirs comes in
  -- place of the refusal.
  pub execute_resolved-denied :
      (plan : PhysicalPlan) (s : State W)
      → holds_all (needed z.procs plan) ≡ false
      → execute_resolved m sc std shown z txn plan s ≡ (refusal plan, s)
  unfolding execute_resolved query
  execute_resolved-denied (PhysicalPlan.insert t rows o unique) s h =
      elim (Bool-cases (has_permission (context z.procs z.identity txn) Permission.insert)) [
        | inl e ↦
            first_allowed Permission.insert _ s e
            ∙ denied_if (updates o) Permission.update _ s (rw e at h)
        | inr e ↦ first_denied Permission.insert _ s e
      ]
  execute_resolved-denied (PhysicalPlan.update t source assignments unique) s h =
      denied_one Permission.update _ s h
  execute_resolved-denied (PhysicalPlan.delete t source) s h = denied_one Permission.delete _ s h
  execute_resolved-denied (PhysicalPlan.call_procedure name args) s h =
      denied_call (eval_each m sc args empty_row) _ s
        (λ values. call-denied name values (procedure z.procs name) refl h)
  execute_resolved-denied plan s h = denied_one Permission.select _ s h

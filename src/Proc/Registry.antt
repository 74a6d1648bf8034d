-- ===== src/Proc/Registry.antt =====
-- ferrite-proc/src/registry.rs, trigger.rs and procedure.rs: roles, triggers and procedures. The
-- body of a trigger or of a procedure is a function of its context and its arguments. The hash
-- maps are association lists.
use ferrite.Prelude.{
  ℕ, Bool, true, false, ◌&&◌, Option, none, some, List, [], ◌∷◌, ◌++◌, ◌==◌, if◌then◌else◌,
  same_list,
}
use ferrite.Common.Error.{Message, exec, Result, ok, err, ◌>>=◌}
use ferrite.Common.Value.{Value, Row}
use ferrite.Common.Identity.{Identity, Permission, Role}
use ferrite.Proc.Context
use ferrite.Proc.Context.{ProcContext, TriggerEvent, require}

pub data ProcDecision : Type 0 where
  allow : ProcDecision
  replace : Row → ProcDecision
  skip : ProcDecision

pub record Trigger : Type 0 where
  pub name : List ℕ
  pub table : ℕ
  pub event : TriggerEvent
  pub body : ProcContext → Row → Result ProcDecision

pub record Procedure : Type 0 where
  pub name : List ℕ
  pub required_permission : Permission
  pub body : ProcContext → List Value → Result Value

pub record ProcRegistry : Type 0 where
  pub grants : List (Identity × List Role)
  pub triggers : List ((ℕ × TriggerEvent) × List Trigger)
  pub procedures : List (List ℕ × Procedure)

same_event : TriggerEvent → TriggerEvent → Bool
same_event TriggerEvent.insert TriggerEvent.insert = true
same_event TriggerEvent.update TriggerEvent.update = true
same_event TriggerEvent.delete TriggerEvent.delete = true
same_event _ _ = false

-- `entry(key).or_default().push(value)`
add_role : Identity → Role → List (Identity × List Role) → List (Identity × List Role)
add_role identity role [] = (identity, role ∷ []) ∷ []
add_role identity role ((i, roles) ∷ rest) =
    if same_list i.bytes identity.bytes
    then (i, roles ++ role ∷ []) ∷ rest
    else (i, roles) ∷ add_role identity role rest

unfoldable pub grant_role : ProcRegistry → Identity → Role → ProcRegistry
unfolding add_role
grant_role reg identity role = record reg { grants = add_role identity role reg.grants }

roles_in : Identity → List (Identity × List Role) → List Role
roles_in identity [] = []
roles_in identity ((i, roles) ∷ rest) =
    if same_list i.bytes identity.bytes then roles else roles_in identity rest

unfoldable pub roles_for : ProcRegistry → Identity → List Role
unfolding roles_in
roles_for reg identity = roles_in identity reg.grants

unfoldable pub context : ProcRegistry → Identity → ℕ → ProcContext
unfolding roles_for
context reg identity txn = Context.new identity (roles_for reg identity) txn

unfoldable pub authorize : ProcRegistry → Identity → ℕ → Permission → Result (Unit {0})
unfolding context require
authorize reg identity txn permission = require (context reg identity txn) permission

same_hook : ℕ × TriggerEvent → ℕ → TriggerEvent → Bool
unfolding same_event
same_hook (t, e) table event = t == table && same_event e event

add_trigger :
    Trigger → List ((ℕ × TriggerEvent) × List Trigger) → List ((ℕ × TriggerEvent) × List Trigger)
unfolding same_hook
add_trigger trigger [] = ((trigger.table, trigger.event), trigger ∷ []) ∷ []
add_trigger trigger ((hook, held) ∷ rest) =
    if same_hook hook trigger.table trigger.event
    then (hook, held ++ trigger ∷ []) ∷ rest
    else (hook, held) ∷ add_trigger trigger rest

unfoldable pub register_trigger : ProcRegistry → Trigger → ProcRegistry
unfolding add_trigger
register_trigger reg trigger = record reg { triggers = add_trigger trigger reg.triggers }

unfoldable pub register_before :
    ProcRegistry
    → List ℕ
    → ℕ
    → TriggerEvent
    → (ProcContext → Row → Result ProcDecision)
    → ProcRegistry
unfolding register_trigger
register_before reg name table event body =
    register_trigger reg (record { name = name; table = table; event = event; body = body })

triggers_in : ℕ → TriggerEvent → List ((ℕ × TriggerEvent) × List Trigger) → List Trigger
unfolding same_hook
triggers_in table event [] = []
triggers_in table event ((hook, held) ∷ rest) =
    if same_hook hook table event then held else triggers_in table event rest

unfoldable pub triggers_for : ProcRegistry → ℕ → TriggerEvent → List Trigger
unfolding triggers_in
triggers_for reg table event = triggers_in table event reg.triggers

decided : Option Row → ProcDecision
decided none = ProcDecision.allow
decided (some row) = ProcDecision.replace row

current : Option Row → Row → Row
current none row = row
current (some new) row = new

-- The triggers run in turn, each on the row that the last `replace` before it gave.
fire_each : ProcContext → Row → Option Row → List Trigger → Result ProcDecision
unfolding decided current
fire_each ctx row replaced [] = ok (decided replaced)
fire_each ctx row replaced (trigger ∷ rest) = trigger.body ctx (current replaced row) >>= λ d.
    elim d [
      | ProcDecision.allow ↦ fire_each ctx row replaced rest
      | ProcDecision.skip ↦ ok ProcDecision.skip
      | ProcDecision.replace new ↦ fire_each ctx row (some new) rest
    ]

unfoldable pub fire_before : ProcRegistry → ProcContext → TriggerEvent → Row → Result ProcDecision
unfolding fire_each triggers_for
fire_before reg ctx event row = elim ctx.table [
  | none ↦ ok ProcDecision.allow
  | some table ↦ fire_each ctx row none (triggers_for reg table event)
]

procedure_in : List ℕ → List (List ℕ × Procedure) → Option Procedure
procedure_in name [] = none
procedure_in name ((n, p) ∷ rest) = if same_list n name then some p else procedure_in name rest

unfoldable pub procedure : ProcRegistry → List ℕ → Option Procedure
unfolding procedure_in
procedure reg name = procedure_in name reg.procedures

-- A procedure takes the place of another one of its name.
insert_procedure : Procedure → List (List ℕ × Procedure) → List (List ℕ × Procedure)
insert_procedure p [] = (p.name, p) ∷ []
insert_procedure p ((n, q) ∷ rest) =
    if same_list n p.name then (n, p) ∷ rest else (n, q) ∷ insert_procedure p rest

unfoldable pub register_procedure : ProcRegistry → Procedure → ProcRegistry
unfolding insert_procedure
register_procedure reg p = record reg { procedures = insert_procedure p reg.procedures }

-- The permission is checked before the body runs.
unfoldable pub call : ProcRegistry → ProcContext → List ℕ → List Value → Result Value
unfolding procedure_in require
call reg ctx name args = elim (procedure_in name reg.procedures) [
  | none ↦ err (exec (Message.with_text "no such procedure" name))
  | some p ↦ require ctx p.required_permission >>= λ granted. p.body ctx args
]

-- ===== src/Proc/Context.antt =====
-- ferrite-proc/src/context.rs: what a procedure or a trigger is handed, and its permissions. The
-- log line of a refusal is left out.
use ferrite.Prelude.{ℕ, Bool, false, ◌||◌, Option, none, some, List, [], ◌∷◌, if◌then◌else◌}
use ferrite.Common.Error.{Message, permission_denied, Result, ok, err}
use ferrite.Common.Value.{Row}
use ferrite.Common.Identity.{Identity, Permission, Role, same_permission}

pub data TriggerEvent : Type 0 where
  insert update delete : TriggerEvent

pub record ProcContext : Type 0 where
  pub identity : Identity
  pub roles : List Role
  pub txn : ℕ
  pub table : Option ℕ
  pub table_name : Option (List ℕ)
  pub event : Option TriggerEvent
  pub old_row : Option Row

abbrev pub new : Identity → List Role → ℕ → ProcContext
new identity roles txn = record {
  identity = identity;
  roles = roles;
  txn = txn;
  table = none;
  table_name = none;
  event = none;
  old_row = none;
}

abbrev pub with_table : ProcContext → ℕ → List ℕ → ProcContext
with_table ctx table name = record ctx { table = some table; table_name = some name }

abbrev pub with_event : ProcContext → TriggerEvent → ProcContext
with_event ctx event = record ctx { event = some event }

abbrev pub with_old_row : ProcContext → Row → ProcContext
with_old_row ctx row = record ctx { old_row = some row }

abbrev pub sender : ProcContext → Identity
sender ctx = ctx.identity

-- `role.permissions.iter().any(..)`
grants : Permission → List Permission → Bool
grants permission [] = false
grants permission (held ∷ rest) =
    same_permission held permission
    || same_permission held Permission.admin
    || grants permission rest

some_role : Permission → List Role → Bool
unfolding grants
some_role permission [] = false
some_role permission (role ∷ rest) = grants permission role.permissions || some_role permission rest

unfoldable pub has_permission : ProcContext → Permission → Bool
unfolding some_role
has_permission ctx permission = some_role permission ctx.roles

unfoldable pub require : ProcContext → Permission → Result (Unit {0})
unfolding has_permission
require ctx permission =
    if has_permission ctx permission
    then ok tt
    else err
        (permission_denied (Message.with_text "identity lacks a permission" ctx.identity.bytes))

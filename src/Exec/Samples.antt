-- ===== src/Exec/Samples.antt =====
-- Concrete parts that the tests of the executor share: a machine, a table in memory, a session.
use ferrite.Prelude.{ℕ, suc, true, false, none, some, List, [], ◌∷◌, ◌++◌, All, All-append}
use ferrite.Prelude.Int.{pos}
use ferrite.Common.Error.{Result, ok}
use ferrite.Common.Value.{Value, null, int4, DataType, Row}
use ferrite.Common.Schema.{Schema}
use ferrite.Common.Identity.{Identity, Permission}
use ferrite.Planner.Physical.{Target}
use ferrite.Proc.Context.{TriggerEvent}
use ferrite.Proc.Registry.{ProcDecision, ProcRegistry}
use ferrite.Exec.Compare.{Machine}
use ferrite.Exec.Eval.{Scalars}
use ferrite.Exec.Aggregate.{Rendering}
use ferrite.Exec.Order.{Sorting}
use ferrite.Exec.Conform.Accepted.{Conforms}
use ferrite.Exec.Session.{Tuple, Engines, Session, State}
use ferrite.Exec.Writes.Keeps.{Guards}

abbrev pub machine : Machine
machine = record {
  from_int = λ v. 0;
  add = λ a b. a;
  sub = λ a b. a;
  mul = λ a b. a;
  div = λ a b. a;
  rem = λ a b. a;
}

abbrev pub scalars : Scalars
scalars = record { cast = λ v t. ok v; call = λ f vs. ok null; lowercase = λ s. s; chars = λ s. s }

abbrev pub rendering : Rendering
rendering = record { one = λ v. []; all = λ vs. [] }

abbrev pub sorting : Sorting
sorting = record { sorted = λ c is. is; compared = λ c is. [] }

-- A number that is not null, and a wide one that may be.
abbrev pub schema : Schema
schema = record {
  columns =
      record { name = 97 ∷ []; data_type = DataType.int4; nullable = false; default = none }
      ∷ record { name = 98 ∷ []; data_type = DataType.int8; nullable = true; default = none }
      ∷ [];
}

abbrev pub target : Target
target = record { table = 5; table_name = 116 ∷ []; schema = schema }

abbrev numbered : ℕ → List Row → List (Result (ℕ × Row))
numbered i [] = []
numbered i (row ∷ rest) = ok (i, row) ∷ numbered (suc i) rest

-- A table as the rows that were written to it, and a clock that stands at 1000.
abbrev pub engines : Engines (List Row)
engines = record {
  scan = λ txn table w. ok (numbered 0 w);
  get = λ txn table rid w. ok (record { values = [] });
  insert_unique = λ txn table row unique w. (ok 0, w ++ row ∷ []);
  update_unique = λ txn table rid row unique w. (ok tt, w ++ row ∷ []);
  delete = λ txn table rid w. (ok tt, w);
  table_schema = λ table w. ok schema;
  lookup = none;
  now = λ w. (1000, w);
}

abbrev pub caller : Identity
caller = record { bytes = 1 ∷ [] }

-- The caller may insert, and a trigger rewrites what is inserted.
abbrev pub procs : ProcRegistry
procs = record {
  grants = (caller, record { name = []; permissions = Permission.insert ∷ [] } ∷ []) ∷ [];
  triggers =
      (
        (5, TriggerEvent.insert),
        record {
          name = [];
          table = 5;
          event = TriggerEvent.insert;
          body = λ ctx row.
              ok (ProcDecision.replace (record { values = int4 (pos 1) ∷ int4 (pos 9) ∷ [] }));
        }
            ∷ [],
      )
      ∷ [];
  procedures =
      (
        99 ∷ [],
        record {
          name = 99 ∷ [];
          required_permission = Permission.update;
          body = λ ctx args. ok null;
        },
      )
      ∷ [];
}

abbrev pub session : Session (List Row)
session = record {
  engines = engines;
  procs = procs;
  identity = caller;
  limits = record { max_rows = 3; statement_timeout = some 60 };
}

abbrev pub state : State (List Row)
state = record { deadline = some 1000; since_check = 510; world = [] }

abbrev pub tuple : Value → Tuple
tuple v = record { rid = none; row = record { values = v ∷ [] } }

abbrev pub Written : List Row → Type 0
Written w = All (Conforms schema) w

pub guards : Guards engines (λ table. schema) Written
guards = record {
  clock = λ w h. h;
  inserted = λ txn table row unique w fits h. All-append (Conforms schema) w _ h (fits, tt);
  updated = λ txn table rid row unique w fits h. All-append (Conforms schema) w _ h (fits, tt);
  deleted = λ txn table rid w h. h;
}

-- ===== src/Common/Txn.antt =====
-- ferrite-common/src/txn.rs: the visibility snapshot.
use ferrite.Prelude.{ℕ, List}

-- `xmin` is the id that is handed out next when the snapshot is taken.
pub record Snapshot : Type 0 where
  pub txn_id : ℕ
  pub xmin : ℕ
  pub active_at_start : List ℕ

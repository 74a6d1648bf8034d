-- ===== src/Lib.antt =====
-- Ferrite, a relational database server: its storage engine, the rewriting of its query plans, the
-- execution of its statements, and the types that the crates share.
--
-- A client's rows stand in a heap of pages. A row is a chain of versions, newest first, each with
-- the transaction that made it and the one that ended it. A transaction reads a chain under its
-- snapshot, and writes by putting a version on it. The engine holds the open transactions and their
-- snapshots; the outcome of a closed one is a bit in the commit log, whose pages the pager hands
-- out. The journal logs page images and outcomes in front of the data file, and is replayed when
-- the database is opened after a crash.
--
-- A query becomes a logical plan, whose expressions name columns. The rules push its predicates
-- towards the scans, the names are bound to positions in the scope of each node, and the executor
-- evaluates the bound expressions on rows. It runs a physical plan under a session: it checks the
-- caller's permissions, collects the rows of each node within a budget of rows and of time, and
-- writes through the triggers to the storage engine.
--
-- Which file is about which part (sources under crates/):
--   * Common/Error, Common/Value, Common/Txn, Common/Schema, Common/Identity:
--     ferrite-common/src/error.rs, value.rs, txn.rs, schema.rs and identity.rs. The error enum has
--     its constructors, and the texts that the code puts in are a type Message.
--   * Storage/Codec: ferrite-storage/src/codec.rs. Codec/Reader has `Reader` and its `take`, `u8` to
--     `u128`; Codec/Writer has `Writer`; Codec/Rows has `encode_row`, `decode_row` and the values
--     behind them; Codec/Text has the check of UTF-8 that `decode_string` calls.
--   * Storage/Version: ferrite-storage/src/version.rs, `encode_chain` and `decode_chain`.
--   * Storage/Crc: ferrite-storage/src/crc.rs, the table and `crc32c`.
--   * Storage/Journal: ferrite-storage/src/wal.rs, `Journal` and its `append`, `sync`, `truncate` and
--     `replay`, with the frames and their payloads.
--   * Storage/Page and Storage/Pager: ferrite-storage/src/page.rs and pager.rs, as far as the commit
--     log uses them: the kind, the free-space fields, the extra word and the body of a page, the
--     meta page and the allocator. Storage/Btree: `create` of ferrite-storage/src/btree.rs.
--   * Storage/Clog: ferrite-storage/src/clog.rs, `locate`, `is_committed` and `mark_committed`.
--   * Storage/Transactions: the open transactions of ferrite-storage/src/engine.rs, `begin`, `commit`,
--     `abort`, `snapshot` and `take_snapshot`, and the catalog root that `open_with` makes.
--     Transactions/Commit has their step relation.
--   * Storage/Mvcc: the version chains of ferrite-storage/src/engine.rs, `visible_txn`,
--     `visible_version`, `prune`, `writable_version`, `constraint_version` and the chains that
--     insert, update and delete store.
--   * Common/Storage and Storage/Unique: `UniqueKey::extract` of ferrite-common/src/storage.rs and the
--     filters of ferrite-storage/src/unique.rs, `Filter` and `KeyFilters`. Unique/Enforce has
--     `enforce_unique` and `walk_for_constraints` of engine.rs, which ask them, with the B-tree of a
--     table as the list of its keys and payloads, and the hash of a key as a parameter.
--   * Planner/Expr and Planner/Named: the operators, `PhysExpr` and `Expr` of ferrite-planner/src/expr.rs,
--     scalar.rs and physical.rs; Planner/Scope: scope.rs, the resolution of a column reference.
--   * Planner/Logical and Planner/Rules: ferrite-planner/src/logical.rs, the plan, its scope and the
--     conjunctions, and rules.rs, `optimize`, `push_predicates` and `push_join`, whose two loops are
--     `distribute`. Rules/Relation is the meaning of a join, which no code stands behind.
--   * Planner/Bind: `bind_with`, `align_comparison` and `coerce_literal` of ferrite-planner/src/physical.rs
--     and `coerce` of lower.rs; Planner/Infer: `infer` and `numeric_result` of physical.rs.
--   * Exec/Eval, Exec/Arithmetic, Exec/Compare, Exec/Like: ferrite-exec/src/eval.rs, `eval` with the
--     logic, `arithmetic`, `compare`, and `like_matches`. Eval/Pushdown and Eval/Typing join the planner to
--     the executor: what a bound and evaluated predicate keeps before and after the pushdown, and the
--     inferred type against the value.
--   * Planner/Physical: the plans of ferrite-planner/src/physical.rs.
--   * Proc/Context and Proc/Registry: ferrite-proc/src/context.rs, trigger.rs, procedure.rs and
--     registry.rs, the permissions of a caller, `fire_before` and `call`.
--   * Exec/Session: `Session` of ferrite-exec/src/executor.rs with its `tick` and `admit`; Exec/Stream:
--     `stream_node` and the scans; Exec/Join: `nested_loop_join`; Exec/Order: `sort` and
--     `compare_keys`; Exec/Conform: `conform_row` and `fill_added_columns`; Exec/Writes: `run_insert`
--     with its upsert, `run_update` and `run_delete`; Exec/Statement: `execute` and
--     `execute_resolved`. All are of executor.rs.
--   * Exec/Aggregate: ferrite-exec/src/aggregate.rs; Exec/Subquery: `value_test` of
--     ferrite-exec/src/subquery.rs.
-- Each child module of such a file is about one kind of property of it, and Examples has the tests.
-- Prelude has the numbers, lists and Boolean tests that all parts use.
--
-- How the code is modelled: a byte and a machine word are natural numbers, a word's wrap-around is
-- written out where the code can reach it (`as u16`, `as u32`), and a theorem on encoded data takes
-- the bounds of the fields as a condition. A signed integer is an integer with its two's complement
-- written out, a float its bit pattern, and a text its UTF-8 bytes. State is passed explicitly: an
-- operation takes the state and gives the new one, in a Result where it can fail. A hash map is an
-- association list. A page is its kind, its fields and its body, and the cache with the data file is
-- one map from page ids to pages. The journal's file is its contents and the length of the prefix
-- that was synced; a crash leaves any prefix that holds the synced one.
--
-- The loop of `replay` runs on fuel, one round for each byte of the file. A round that goes on takes
-- at least the nine bytes of a frame, so the fuel is never used up. The loop of `like_matches` runs on
-- fuel as well, one more than the length of the pattern for each character of the text and once more:
-- between two resumptions a round shortens the pattern, and a resumption shortens the text. The loop of
-- `value_test` runs on as many rounds as there are values: a round on two tests or more leaves fewer.
--
-- An action of the executor takes the state of the session and of the engines and gives it back beside
-- the result or the error, so what was written before an error stays written.
--
-- What stands outside these files is an interface: Machine has the arithmetic of floats on bit
-- patterns, Scalars has `cast` and `call` of ferrite-exec/src/scalar.rs with the case folding and the
-- characters of a text, and Lowering has `parse_uuid` and `parse_timestamp` of ferrite-planner/src/lower.rs and
-- the width of a subquery's plan. Engines has the storage engine, the catalog, the index provider and
-- the clock as the executor calls them, with a scan as the list of its entries; Sorting is the sort of
-- the standard library, where it puts the positions and which pairs it compares; Rendering has its
-- `Debug` texts, the keys of groups and of distinct rows. The bodies of triggers and procedures are
-- functions of their context and their arguments. A subquery in an expression is the number of its
-- plan, and the subplan of a bound one is left out, since no evaluation reads it.
--
-- Not modelled: the calls of the operating system are taken to succeed; the slots of a page, the
-- eviction of cached pages, checkpoints and recovery, the B-tree but for its
-- creation and the lock file of ferrite-storage; the record of a commit in the journal together with the commit, and the counter
-- that triggers a checkpoint; planner.rs and the lowering of parsed expressions of ferrite-planner;
-- the scalar functions of ferrite-exec, and the running of a plan's subqueries in front of it, by
-- `execute_within_budget` and `resolve`; log lines; the crates ferrite-catalog, ferrite-metrics,
-- ferrite-protocol, ferrite-server and ferrite-sql.
pub mod Prelude
pub mod Common
pub mod Storage
pub mod Planner
pub mod Proc
pub mod Exec

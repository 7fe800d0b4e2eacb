-- ===== src/Source/Migrations.antt =====
-- `initialize` of `SourceState`, `src/airgap_sync/source/state.py`: the statements that make the tables of a
-- new database, or turn those that an earlier version of the program left into those of version 4.
pub mod Upgrade
use airgap_sync.Base.{
  Bool, List, Option, String, [], false, if◌then◌else◌, map, nat_eq, none, option_eq, some,
  string_eq, true, ℕ, ◌++◌, ◌==◌,
}
use airgap_sync.Base.Exec.{Exec, gets, modify, pure, raise, transaction, ◌>>=◌, ◌>>◌}
use airgap_sync.Source.Cycles.{cycle_tables}
use airgap_sync.Source.Schema.{CycleTable, RunArtifact, SyncCycle, SyncRun, TableState, TableStatus}

-- A row of `table_state` in schema version 2.
pub record TableStateV2 : Type 0 where
  pub table_name : String
  pub current_run_id : Option String
  pub status : TableStatus
  pub last_run_id : Option String
  pub last_error : Option String
  pub created_at : ℕ
  pub updated_at : ℕ

-- What a table named table_state holds: the rows of version 1, which nothing reads, of version 2, or of
-- the versions 3 and 4.
pub data StateRows : Type 0 where
  rows_v1 : StateRows
  rows_v2 : List TableStateV2 → StateRows
  rows_v4 : List TableState → StateRows

-- The tables of the file, `none` where there is no such table; `version` is the row of schema_version.
pub record StateFile : Type 0 where
  pub version : Option ℕ
  pub table_state : Option StateRows
  pub table_state_v2 : Option StateRows
  pub sync_runs : Option (List SyncRun)
  pub run_artifacts : Option (List RunArtifact)
  pub sync_cycles : Option (List SyncCycle)
  pub cycle_tables : Option (List CycleTable)

pub data InitializeError : Type 0 where
  unexpected_version : ℕ → InitializeError
  sqlite_error : InitializeError

abbrev pub Migrating : Type 0
Migrating = Exec StateFile InitializeError Unit

-- CREATE TABLE: it raises where the table is there, but for IF NOT EXISTS.
abbrev create_table : {A : Type 0} → Bool → (StateFile → StateFile) → Option A → Migrating
create_table if_not_exists store none = modify store
create_table true store (some rows) = pure tt
create_table false store (some rows) = raise sqlite_error

-- `_create_v4`
create_v4 : Bool → Migrating
create_v4 if_not_exists = do
  state ← gets (λ f. f.table_state)
  create_table if_not_exists (λ f. record f { table_state = some (rows_v4 []) }) state
  runs ← gets (λ f. f.sync_runs)
  create_table if_not_exists (λ f. record f { sync_runs = some [] }) runs
  artifacts ← gets (λ f. f.run_artifacts)
  create_table if_not_exists (λ f. record f { run_artifacts = some [] }) artifacts
  cycles ← gets (λ f. f.sync_cycles)
  create_table if_not_exists (λ f. record f { sync_cycles = some [] }) cycles
  tables ← gets (λ f. f.cycle_tables)
  create_table if_not_exists (λ f. record f { cycle_tables = some [] }) tables

set_version : Migrating
set_version = modify (λ f. record f { version = some 4 })

-- ALTER TABLE table_state RENAME TO table_state_v2
renamed : Option StateRows → Option StateRows → Migrating
renamed (some rows) none = modify (λ f. record f { table_state = none; table_state_v2 = some rows })
renamed _ _ = raise sqlite_error

-- INSERT INTO table_state ... SELECT table_name,current_run_id,NULL,... FROM table_state_v2
abbrev pub migrated_row : TableStateV2 → TableState
migrated_row t = record {
  table_name = t.table_name;
  last_snapshot_run_id = t.current_run_id;
  last_delivered_run_id = none;
  status = t.status;
  last_run_id = t.last_run_id;
  last_error = t.last_error;
  created_at = t.created_at;
  updated_at = t.updated_at;
}

copied : Option StateRows → Option StateRows → Migrating
copied (some (rows_v2 rows)) (some (rows_v4 tables)) =
    modify (λ f. record f { table_state = some (rows_v4 (tables ++ map migrated_row rows)) })
copied _ _ = raise sqlite_error

migrate_v2_to_v3 : Migrating
unfolding create_v4 set_version renamed copied
migrate_v2_to_v3 = do
  state ← gets (λ f. f.table_state)
  old ← gets (λ f. f.table_state_v2)
  renamed state old
  create_v4 false
  old_rows ← gets (λ f. f.table_state_v2)
  new_rows ← gets (λ f. f.table_state)
  copied old_rows new_rows
  modify (λ f. record f { table_state_v2 = none })
  set_version

migrate_v3_to_v4 : Migrating
unfolding set_version
migrate_v3_to_v4 = do
  cycles ← gets (λ f. f.sync_cycles)
  create_table false (λ f. record f { sync_cycles = some [] }) cycles
  tables ← gets (λ f. f.cycle_tables)
  create_table false (λ f. record f { cycle_tables = some [] }) tables
  set_version

recreate_v1 : Migrating
unfolding create_v4 set_version
recreate_v1 = do modify (λ f. record f { table_state = none }); create_v4 false; set_version

create_new : Migrating
unfolding create_v4 set_version
create_new = do create_v4 false; set_version

by_version : Option ℕ → Migrating
unfolding create_v4 create_new migrate_v2_to_v3 recreate_v1 migrate_v3_to_v4
by_version none = create_new
by_version (some version) =
    if version == 2
    then migrate_v2_to_v3
    else if version == 1
    then recreate_v1
    else if version == 3
    then migrate_v3_to_v4
    else if version == 4
    then create_v4 true
    else raise (unexpected_version version)

unfoldable pub initialize : Migrating
unfolding by_version
initialize = transaction (gets (λ f. f.version) >>= by_version)

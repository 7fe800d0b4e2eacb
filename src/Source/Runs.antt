-- ===== src/Source/Runs.antt =====
-- Tables and runs: `register_table`, `begin_run`, `set_run_status`, `complete_run`, `deliver_run`,
-- `fail_run` and their queries, src/airgap_sync/source/state.py. `now` is what `_utcnow_iso` reads.
pub mod Exclusive
pub mod Overlap
use airgap_sync.Base.{
  Bool, List, Option, String, [], false, if◌then◌else◌, nat_eq, none, option_eq, some, string_eq,
  true, ℕ, ◌&&◌, ◌++◌, ◌==◌, ◌∷◌,
}
use airgap_sync.Base.Exec.{err, gets, modify, ok, pure, raise, transaction, ◌>>=◌, ◌>>◌}
use airgap_sync.Base.Rows.{exists_row, find?, update_where}
use airgap_sync.Source.Schema.{
  Call, Db, RunStatus, SyncRun, TableState, TableStatus, active_run, execute, integrity_error,
  is_active_run, not_registered,
}

-- `WHERE table_name=?` on both tables, `WHERE run_id=?`, and the test of an active run.
abbrev pub of_table : String → TableState → Bool
of_table name t = t.table_name == name

abbrev pub of_run : String → SyncRun → Bool
of_run run_id r = r.run_id == run_id

unfoldable pub active_for : String → SyncRun → Bool
unfolding is_active_run
active_for name r = r.table_name == name && is_active_run r.status

abbrev pub set_tables : (TableState → Bool) → (TableState → TableState) → Db → Db
set_tables p f s = record s { table_state = update_where p f s.table_state }

abbrev pub set_runs : (SyncRun → Bool) → (SyncRun → SyncRun) → Db → Db
set_runs p f s = record s { sync_runs = update_where p f s.sync_runs }

abbrev new_table : String → ℕ → TableState
new_table name now = record {
  table_name = name;
  last_snapshot_run_id = none;
  last_delivered_run_id = none;
  status = TableStatus.idle;
  last_run_id = none;
  last_error = none;
  created_at = now;
  updated_at = now;
}

-- INSERT ... ON CONFLICT(table_name) DO UPDATE SET updated_at=excluded.updated_at
upsert_table : String → ℕ → List TableState → List TableState
upsert_table name now ts =
    if exists_row (of_table name) ts
    then update_where (of_table name) (λ t. record t { updated_at = now }) ts
    else ts ++ new_table name now ∷ []

unfoldable pub register_table : ℕ → String → Call Unit
unfolding upsert_table
register_table now name =
    execute (modify λ s. record s { table_state = upsert_table name now s.table_state })

abbrev pub new_run : String → String → ℕ → SyncRun
new_run run_id name now = record {
  run_id = run_id;
  table_name = name;
  status = RunStatus.generating;
  created_at = now;
  snapshot_completed_at = none;
  delivered_at = none;
  row_count = none;
  chunk_count = none;
  raw_bytes = none;
  compressed_bytes = none;
  last_error = none;
}

-- INSERT INTO sync_runs; `run_id` is the primary key.
abbrev insert_run : SyncRun → Call Unit
insert_run r s =
    if exists_row (of_run r.run_id) s.sync_runs
    then (err integrity_error, s)
    else (ok tt, record s { sync_runs = s.sync_runs ++ r ∷ [] })

-- raise StateError if there is a row
abbrev raise_if_active : String → Option SyncRun → Call Unit
raise_if_active name none = pure tt
raise_if_active name (some r) = raise (active_run name r.run_id)

-- An UPDATE of the row of a registered table; no row is an error.
abbrev update_registered : String → (TableState → TableState) → Call Unit
update_registered name f s =
    if exists_row (of_table name) s.table_state
    then (ok tt, set_tables (of_table name) f s)
    else (err (not_registered name), s)

begin_run_body : ℕ → String → String → Call Unit
unfolding active_for
begin_run_body now name run_id = do
  active ← gets (λ s. find? (active_for name) s.sync_runs)
  raise_if_active name active
  update_registered name λ t. record t {
    status = TableStatus.running;
    last_run_id = some run_id;
    last_error = none;
    updated_at = now;
  }
  insert_run (new_run run_id name now)

unfoldable pub begin_run : ℕ → String → String → Call Unit
unfolding begin_run_body
begin_run now name run_id = transaction (begin_run_body now name run_id)

unfoldable pub set_run_status : String → RunStatus → Call Unit
set_run_status run_id status =
    execute (modify (set_runs (of_run run_id) λ r. record r { status = status }))

-- What a finished scan reports.
pub record Totals : Type 0 where
  pub row_count : ℕ
  pub chunk_count : ℕ
  pub raw_bytes : ℕ
  pub compressed_bytes : ℕ

unfoldable pub complete_run_row : ℕ → Totals → SyncRun → SyncRun
complete_run_row now totals r = record r {
  status = RunStatus.snapshot_ready;
  snapshot_completed_at = some now;
  row_count = some totals.row_count;
  chunk_count = some totals.chunk_count;
  raw_bytes = some totals.raw_bytes;
  compressed_bytes = some totals.compressed_bytes;
  last_error = none;
}

-- Both row counts are looked at after both updates.
complete_run_body : ℕ → String → String → Totals → Call Unit
unfolding complete_run_row
complete_run_body now name run_id totals = do
  run_found ← gets (λ s. exists_row (of_run run_id) s.sync_runs)
  modify (set_runs (of_run run_id) (complete_run_row now totals))
  table_found ← gets (λ s. exists_row (of_table name) s.table_state)
  modify (
      set_tables (of_table name) λ t. record t {
        status = TableStatus.completed;
        last_snapshot_run_id = some run_id;
        last_run_id = some run_id;
        last_error = none;
        updated_at = now;
      })
  if run_found && table_found then pure tt else raise (not_registered name)

unfoldable pub complete_run : ℕ → String → String → Totals → Call Unit
unfolding complete_run_body
complete_run now name run_id totals = transaction (complete_run_body now name run_id totals)

-- COALESCE(a, b)
abbrev pub coalesce {ℓ} : {A : Type ℓ} → Option A → A → Option A
coalesce none b = some b
coalesce (some a) b = some a

deliver_run_row : ℕ → Totals → SyncRun → SyncRun
deliver_run_row now totals r = record r {
  status = RunStatus.delivered;
  snapshot_completed_at = coalesce r.snapshot_completed_at now;
  delivered_at = some now;
  row_count = some totals.row_count;
  chunk_count = some totals.chunk_count;
  raw_bytes = some totals.raw_bytes;
  compressed_bytes = some totals.compressed_bytes;
  last_error = none;
}

unfoldable pub deliver_run : ℕ → String → String → Totals → Call Unit
unfolding deliver_run_row
deliver_run now name run_id totals = transaction (do
  modify (set_runs (of_run run_id) (deliver_run_row now totals))
  modify (
      set_tables (of_table name) λ t. record t {
        status = TableStatus.delivered;
        last_snapshot_run_id = some run_id;
        last_delivered_run_id = some run_id;
        last_run_id = some run_id;
        last_error = none;
        updated_at = now;
      }))

-- `disk_pressure`, here `is_disk`, chooses both statuses.
abbrev pub failed_run_status : Bool → RunStatus
failed_run_status true = RunStatus.disk_pressure
failed_run_status false = RunStatus.failed

abbrev pub failed_table_status : Bool → TableStatus
failed_table_status true = TableStatus.disk_pressure
failed_table_status false = TableStatus.failed

unfoldable pub fail_run : ℕ → String → String → String → Bool → Call Unit
fail_run now name run_id error is_disk = transaction (do
  modify (
      set_runs (of_run run_id)
        λ r. record r { status = failed_run_status is_disk; last_error = some error })
  update_registered name λ t. record t {
    status = failed_table_status is_disk;
    last_run_id = some run_id;
    last_error = some error;
    updated_at = now;
  })

unfoldable pub get_table_state : String → Db → Option TableState
get_table_state name s = find? (of_table name) s.table_state

unfoldable pub get_run : String → Db → Option SyncRun
get_run run_id s = find? (of_run run_id) s.sync_runs

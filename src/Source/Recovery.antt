-- ===== src/Source/Recovery.antt =====
-- `recover_interrupted_cycle` and the two queries of the maintenance, src/airgap_sync/source/state.py.
pub mod Keeps
pub mod Exclusive
use airgap_sync.Base.{
  Bool, List, String, [], if◌then◌else◌, ltb, nat_eq, none, option_eq, some, string_eq, ℕ, ◌&&◌,
  ◌==◌, ◌∷◌,
}
use airgap_sync.Base.Exec.{gets, modify, transaction, ◌>>=◌, ◌>>◌}
use airgap_sync.Base.Rows.{exists_row, select_where}
use airgap_sync.Source.Cycles.{active_row, of_cycle, set_entries}
use airgap_sync.Source.Runs.{active_for, coalesce, of_run, of_table, set_runs, set_tables}
use airgap_sync.Source.Schema.{
  Call, CycleTable, CycleTableStatus, Db, RunStatus, SyncCycle, SyncRun, TableStatus,
  is_active_cycle, is_failed_run, is_running_table,
}

abbrev pub interrupted : String
interrupted = "INTERRUPTED: process stopped before delivery completed"

abbrev worker_stopped : String
worker_stopped = "INTERRUPTED: worker stopped during table sync"

-- ... JOIN sync_cycles c ON c.cycle_id=ct.cycle_id WHERE c.status IN ('RUNNING','RETRY_WAIT');
-- `cycle_id` is the primary key, so each row of cycle_tables joins once at most.
unfoldable pub in_active_cycle : List SyncCycle → CycleTable → Bool
unfolding is_active_cycle
in_active_cycle cycles t = exists_row (λ c. of_cycle t.cycle_id c && active_row c) cycles

unfoldable pub interrupted_entry : List SyncCycle → CycleTable → Bool
unfolding in_active_cycle is_running_table
interrupted_entry cycles t = in_active_cycle cycles t && is_running_table t.status

abbrev pub fail_interrupted_run : ℕ → String → SyncRun → Db → Db
fail_interrupted_run now name run s =
    set_tables (λ t. of_table name t && t.last_run_id == some run.run_id)
      (λ t. record t {
        status = TableStatus.failed;
        last_error = some interrupted;
        updated_at = now;
      })
      (set_runs (of_run run.run_id)
        (λ r. record r { status = RunStatus.failed; last_error = some interrupted }) s)

-- for run in runs
unfoldable pub fail_interrupted_runs : ℕ → String → List SyncRun → Db → Db
fail_interrupted_runs now name [] s = s
fail_interrupted_runs now name (run ∷ runs) s =
    fail_interrupted_runs now name runs (fail_interrupted_run now name run s)

-- for table in tables
unfoldable pub fail_interrupted_tables : ℕ → List CycleTable → Db → Db
unfolding fail_interrupted_runs active_for
fail_interrupted_tables now [] s = s
fail_interrupted_tables now (t ∷ ts) s =
    fail_interrupted_tables now ts (
      fail_interrupted_runs now t.table_name (select_where (active_for t.table_name) s.sync_runs) s)

abbrev fail_entry : CycleTable → CycleTable
fail_entry t = record t {
  status = CycleTableStatus.failed;
  last_error = coalesce t.last_error worker_stopped;
}

unfoldable pub recover_interrupted_cycle : ℕ → Call Unit
unfolding interrupted_entry fail_interrupted_tables
recover_interrupted_cycle now = transaction (do
  tables ← gets (λ s. select_where (interrupted_entry s.sync_cycles) s.cycle_tables)
  modify (fail_interrupted_tables now tables)
  modify (λ s. set_entries (interrupted_entry s.sync_cycles) fail_entry s))

-- The rows are read ORDER BY created_at; the order only fixes the order of the removals.
insert_by_creation : SyncRun → List SyncRun → List SyncRun
insert_by_creation r [] = r ∷ []
insert_by_creation r (x ∷ xs) =
    if ltb x.created_at r.created_at then x ∷ insert_by_creation r xs else r ∷ x ∷ xs

order_by_creation : List SyncRun → List SyncRun
unfolding insert_by_creation
order_by_creation [] = []
order_by_creation (r ∷ rs) = insert_by_creation r (order_by_creation rs)

unfoldable pub failed_runs_before : ℕ → Db → List SyncRun
unfolding order_by_creation is_failed_run
failed_runs_before cutoff s =
    order_by_creation
      (select_where (λ r. is_failed_run r.status && ltb r.created_at cutoff) s.sync_runs)

run_ids_of : List CycleTable → List String
run_ids_of [] = []
run_ids_of (t ∷ ts) =
    let rest = run_ids_of ts in elim t.last_run_id [ none ↦ rest | some r ↦ r ∷ rest ]

-- The `last_run_id` values, NULL left out, of the tables in an active cycle.
unfoldable pub active_cycle_run_ids : Db → List String
unfolding run_ids_of in_active_cycle
active_cycle_run_ids s = run_ids_of (select_where (in_active_cycle s.sync_cycles) s.cycle_tables)

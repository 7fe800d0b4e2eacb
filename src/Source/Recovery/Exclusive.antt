-- ===== src/Source/Recovery/Exclusive.antt =====
-- Recovery keeps at most one active run for each table.
use airgap_sync.Base.{List, String, [], refl, some, ℕ, ◌∷◌}
use airgap_sync.Base.Rows.{select_where}
use airgap_sync.Source.Recovery.{
  fail_interrupted_run, fail_interrupted_runs, fail_interrupted_tables, interrupted,
  interrupted_entry, recover_interrupted_cycle,
}
use airgap_sync.Source.Runs.{active_for, of_run}
use airgap_sync.Source.Runs.Exclusive.{IsExclusive, closing-IsExclusive}
use airgap_sync.Source.Schema.{CycleTable, Db, RunStatus, SyncRun, is_active_run}

fail_interrupted_runs-IsExclusive :
    (now : ℕ) (name : String) (runs : List SyncRun) (s : Db)
    → IsExclusive s
    → IsExclusive (fail_interrupted_runs now name runs s)
unfolding fail_interrupted_runs is_active_run
fail_interrupted_runs-IsExclusive now name [] s v = v
fail_interrupted_runs-IsExclusive now name (r ∷ rs) s v =
    fail_interrupted_runs-IsExclusive now name rs (fail_interrupted_run now name r s) (record {
      at_most_one = λ t.
          closing-IsExclusive (of_run r.run_id)
            (λ x. record x { status = RunStatus.failed; last_error = some interrupted }) (λ x. refl)
            t s.sync_runs (v.at_most_one t);
    })

fail_interrupted_tables-IsExclusive :
    (now : ℕ) (ts : List CycleTable) (s : Db)
    → IsExclusive s
    → IsExclusive (fail_interrupted_tables now ts s)
unfolding fail_interrupted_tables
fail_interrupted_tables-IsExclusive now [] s v = v
fail_interrupted_tables-IsExclusive now (t ∷ ts) s v =
    let runs = select_where (active_for t.table_name) s.sync_runs in
    fail_interrupted_tables-IsExclusive now ts (fail_interrupted_runs now t.table_name runs s)
      (fail_interrupted_runs-IsExclusive now t.table_name runs s v)

pub recover_interrupted_cycle-IsExclusive :
    (now : ℕ) (s : Db) → IsExclusive s → IsExclusive (recover_interrupted_cycle now s).1
unfolding recover_interrupted_cycle
recover_interrupted_cycle-IsExclusive now s v =
    let ts = select_where (interrupted_entry s.sync_cycles) s.cycle_tables in
    let v' = fail_interrupted_tables-IsExclusive now ts s v in
    record { at_most_one = v'.at_most_one }

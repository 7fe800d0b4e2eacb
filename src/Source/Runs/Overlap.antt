-- ===== src/Source/Runs/Overlap.antt =====
-- The window of `DeliveryRunner.sync` between `complete_run` and `set_run_status(FINALIZING)`.
use airgap_sync.Base.{
  List, String, [], arith, eq_iff, nat_eq, option_eq, string_eq, true, ℕ, ◌&&◌, ◌==◌, ◌∷◌, ◌≡◌, ◌≤◌,
}
use airgap_sync.Base.Exec.{ok}
use airgap_sync.Base.Rows.{
  count_where, count_where-append, exists_row, update_where, update_where-append,
}
use airgap_sync.Source.Runs.{active_for, begin_run, new_run, of_run, set_run_status}
use airgap_sync.Source.Runs.Exclusive.{begin_run-ok}
use airgap_sync.Source.Schema.{Db, RunStatus, SyncRun}

counted_once :
    (a name : String) (runs : List SyncRun)
    → exists_row (λ r. of_run a r && r.table_name == name) runs ≡ true
    → 1
      ≤ count_where
          (active_for name)
          (update_where (of_run a) (λ r. record r { status = RunStatus.finalizing }) runs)
unfolding active_for
counted_once a name [] h = cc
counted_once a name (r ∷ rs) h = ground (arith, counted_once a name rs)

-- Where there is a run `a` of a table, and `begin_run` starts a run `b` of that table, then setting
-- the status of `a` to FINALIZING leaves the table with at least two active runs.
pub finalizing_overlaps :
    (now : ℕ) (name a b : String) (s : Db)
    → exists_row (λ r. of_run a r && r.table_name == name) s.sync_runs ≡ true
    → (begin_run now name b s).0 ≡ ok tt
    → 2
      ≤ count_where
          (active_for name)
          (set_run_status a RunStatus.finalizing (begin_run now name b s).1).1.sync_runs
unfolding set_run_status active_for
finalizing_overlaps now name a b s old begun =
    let r = new_run b name now in
    let set = λ (x : SyncRun). record x { status = RunStatus.finalizing } in
    rw ((begin_run-ok now name b s begun).0) (
      rw (update_where-append (of_run a) set s.sync_runs (r ∷ [])) (
        rw (count_where-append (active_for name) (update_where (of_run a) set s.sync_runs) _)
          (ground (arith, counted_once a name s.sync_runs old, eq_iff name name))))

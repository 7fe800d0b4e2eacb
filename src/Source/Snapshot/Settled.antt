-- ===== src/Source/Snapshot/Settled.antt =====
-- What a snapshot leaves in the state database: `SnapshotRunner.snapshot` of
-- `src/airgap_sync/source/snapshot.py`.
use mathlib.Core.Path.{subst}
use airgap_sync.Base.{
  Bool, List, Option, String, [], ap, arith, eq_iff, false, none, refl, some, sym, true, ℕ, ◌++◌,
  ◌∙◌, ◌∷◌, ◌≡◌,
}
use airgap_sync.Base.Exec.{Result, bind_inv, err, ok, ok_injective, pure}
use airgap_sync.Base.Rows.{
  count_where, count_where-append, count_where-of_find?-none, count_where-update_le, find?,
  update_where, update_where-append,
}
use airgap_sync.Source.CycleRunner.{SnapshotResult}
use airgap_sync.Source.Runs.{
  Totals, active_for, begin_run, complete_run, complete_run_row, fail_run, failed_run_status,
  new_run, of_run, register_table,
}
use airgap_sync.Source.Runs.Exclusive.{begin_run-ok}
use airgap_sync.Source.Scanner.{ScanResult}
use airgap_sync.Source.Schema.{Db, StateError, SyncRun, is_active_run}
use airgap_sync.Source.Snapshot.{
  SnapshotFailure, SnapshotSetting, as_failure, checked_run, completed_result, conclude,
  failed_result, scan_totals, snapshot, snapshot_run,
}

-- A run that was just begun for a quiet table, and then closed, leaves the table quiet.
closed_run :
    (name id : String) (now : ℕ) (f : SyncRun → SyncRun) (runs : List SyncRun)
    → ((r : SyncRun) → is_active_run (f r).status ≡ false)
    → find? (active_for name) runs ≡ none
    → count_where (active_for name) (update_where (of_run id) f (runs ++ new_run id name now ∷ []))
      ≡ 0
unfolding active_for
closed_run name id now f runs closes quiet =
    rw (update_where-append (of_run id) f runs (new_run id name now ∷ [])) (
      ground (
        arith,
        count_where-append (active_for name) (update_where (of_run id) f runs)
            (update_where (of_run id) f (new_run id name now ∷ [])),
        count_where-update_le (active_for name) (of_run id) f runs
            (λ r _ e. ground (arith, closes r)),
        count_where-of_find?-none (active_for name) runs quiet,
        closes (new_run id name now),
        eq_iff id id,
      ))

fail_run-ok :
    (now : ℕ) (name id error : String) (is_disk : Bool) (s : Db)
    → (fail_run now name id error is_disk s).0 ≡ ok tt
    → (fail_run now name id error is_disk s).1.sync_runs
      ≡ update_where
          (of_run id)
          (λ r. record r { status = failed_run_status is_disk; last_error = some error })
          s.sync_runs
unfolding fail_run
fail_run-ok now name id error is_disk s h = ground arith

complete_run-ok :
    (now : ℕ) (name id : String) (totals : Totals) (s : Db)
    → (complete_run now name id totals s).0 ≡ ok tt
    → (complete_run now name id totals s).1.sync_runs
      ≡ update_where (of_run id) (complete_run_row now totals) s.sync_runs
unfolding complete_run
complete_run-ok now name id totals s h = ground arith

complete_run_row-inactive :
    (now : ℕ) (totals : Totals) (r : SyncRun)
    → is_active_run (complete_run_row now totals r).status ≡ false
unfolding complete_run_row is_active_run
complete_run_row-inactive now totals r = refl

register_table-same :
    (now : ℕ) (name : String) (s : Db) → (register_table now name s).1.sync_runs ≡ s.sync_runs
unfolding register_table
register_table-same now name s = refl

abbrev IsQuiet : String → Db → Type 0
IsQuiet name s = count_where (active_for name) s.sync_runs ≡ 0

module _ {Row : Type 0} (at : SnapshotSetting Row) (table : String) where
  conclude-IsQuiet :
      (r : Result SnapshotFailure ScanResult) (runs : List SyncRun) (s : Db)
      (result : SnapshotResult)
      → s.sync_runs ≡ runs ++ new_run at.run_id table at.begun_at ∷ []
      → find? (active_for table) runs ≡ none
      → (conclude at table r s).0 ≡ ok result
      → IsQuiet table (conclude at table r s).1
  unfolding conclude
  conclude-IsQuiet (err e) runs s result begun quiet h =
      let m = fail_run at.ended_at table at.run_id (at.text_of e) false in
      let (u, first, whole) = bind_inv m (λ _. pure (failed_result at table e)) s result h in
      subst (λ x. IsQuiet table x.1) (sym whole)
        (subst (λ rs. count_where (active_for table) rs ≡ 0)
          (sym (
            fail_run-ok at.ended_at table at.run_id (at.text_of e) false s first
            ∙ ap (update_where (of_run at.run_id) _) begun))
          (closed_run table at.run_id at.begun_at _ runs (λ r. (unfold is_active_run in refl))
            quiet))
  conclude-IsQuiet (ok scan) runs s result begun quiet h =
      let m = complete_run at.ended_at table at.run_id (scan_totals at table scan) in
      let (u, first, whole) = bind_inv m (λ _. pure (completed_result at table scan)) s result h in
      subst (λ x. IsQuiet table x.1) (sym whole)
        (subst (λ rs. count_where (active_for table) rs ≡ 0)
          (sym (
            complete_run-ok at.ended_at table at.run_id (scan_totals at table scan) s first
            ∙ ap (update_where (of_run at.run_id) _) begun))
          (closed_run table at.run_id at.begun_at _ runs
            (complete_run_row-inactive at.ended_at (scan_totals at table scan)) quiet))

  snapshot_run-IsQuiet :
      (s : Db) (result : SnapshotResult)
      → (snapshot_run at table s).0 ≡ ok result
      → IsQuiet table (snapshot_run at table s).1
  unfolding snapshot_run
  snapshot_run-IsQuiet s result h =
      let s1 = (register_table at.registered_at table s).1 in
      let (u, first, whole) = bind_inv (register_table at.registered_at table) _ s result h in
      let (u', second, whole') =
        bind_inv (begin_run at.begun_at table at.run_id) _ s1 result
          (ap (λ r. r.0) (sym whole) ∙ h) in
      let (begun, quiet, found, fresh) = begin_run-ok at.begun_at table at.run_id s1 second in
      subst (λ x. IsQuiet table x.1) (sym (whole ∙ whole'))
        (conclude-IsQuiet _ s1.sync_runs (begin_run at.begun_at table at.run_id s1).1 result begun
          quiet (ap (λ r. r.0) (sym (whole ∙ whole')) ∙ h))

  as_failure_inv :
      (r : Result StateError SnapshotResult × Db) (result : SnapshotResult)
      → (as_failure at table r).0 ≡ ok result
      → (r.0 ≡ ok result) × ((as_failure at table r).1 ≡ r.1)
  as_failure_inv (ok x, s) result h = (ap ok (ok_injective h), refl)
  as_failure_inv (err e, s) result h = cc

  -- Where `snapshot` returns, whether the run completed or failed, the table has no active run.
  pub snapshot-IsQuiet :
      (s : Db) (result : SnapshotResult)
      → (snapshot at table s).0 ≡ ok result
      → count_where (active_for table) (snapshot at table s).1.sync_runs ≡ 0
  unfolding snapshot checked_run
  snapshot-IsQuiet s result h = go at.configured at.table_check h
    where
      go :
          (known : Option Bool) (code : Option String)
          → (checked_run at table known code s).0 ≡ ok result
          → IsQuiet table (checked_run at table known code s).1
      go none code h' = cc
      go (some false) code h' = cc
      go (some true) (some text) h' = cc
      go (some true) none h' =
          let (returned, left) = as_failure_inv (snapshot_run at table s) result h' in
          subst (IsQuiet table) (sym left) (snapshot_run-IsQuiet s result returned)

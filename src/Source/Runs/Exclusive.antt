-- ===== src/Source/Runs/Exclusive.antt =====
-- One active run at most for each table, src/airgap_sync/source/state.py: which operations keep that.
use airgap_sync.Base.{
  All, Bool, Bool-cases, List, Option-cases, String, [], arith, eq_iff, false, inl, inr, nat_eq,
  none, option_eq, refl, some, string_eq, true, ℕ, ◌&&◌, ◌++◌, ◌==◌, ◌∷◌, ◌≡◌, ◌≤◌, ◌⊎◌,
}
use airgap_sync.Base.Exec.{commit_or_restore-keeps, ok}
use airgap_sync.Base.Rows.{
  count_where, count_where-append, count_where-of_find?-none, count_where-update_le, exists_row,
  find?, update_where,
}
use airgap_sync.Source.Runs.{
  Totals, active_for, begin_run, begin_run_body, complete_run, complete_run_row, deliver_run,
  deliver_run_row, fail_run, failed_run_status, new_run, of_run, of_table, set_run_status,
}
use airgap_sync.Source.Schema.{Db, RunStatus, SyncRun, is_active_run}

pub record IsExclusive (s : Db) : Type 0 where
  pub at_most_one : (name : String) → count_where (active_for name) s.sync_runs ≤ 1

-- An update after which the changed runs are not active.
pub closing-IsExclusive :
    (p : SyncRun → Bool) (f : SyncRun → SyncRun)
    → ((r : SyncRun) → is_active_run (f r).status ≡ false)
    → (name : String) (runs : List SyncRun) → count_where (active_for name) runs ≤ 1
    → count_where (active_for name) (update_where p f runs) ≤ 1
unfolding active_for
closing-IsExclusive p f closes name runs h =
    omega (
      arith,
      count_where-update_le (active_for name) p f runs (λ r _ e. ground (arith, closes r)),
      h,
    )

begin_run_body-IsExclusive :
    (now : ℕ) (name run_id : String) (s : Db)
    → IsExclusive s
    → IsExclusive (begin_run_body now name run_id s).1
unfolding begin_run_body
begin_run_body-IsExclusive now name run_id s v = record {
  at_most_one = λ t. elim (Option-cases (find? (active_for name) s.sync_runs)) [
    | inr (r, e) ↦ rw e (v.at_most_one t)
    | inl quiet ↦ ground (
      arith,
      v.at_most_one t,
      count_where-append (active_for t) s.sync_runs (new_run run_id name now ∷ []),
      eq_iff name t,
      count_where-of_find?-none (active_for t) s.sync_runs,
      new_run-active_for t,
    )
  ];
}
  where
    new_run-active_for : (t : String) → active_for t (new_run run_id name now) ≡ (name == t)
    new_run-active_for t = unfold active_for is_active_run in ground arith

-- `begin_run` never makes a second active run of a table.
pub begin_run-IsExclusive :
    (now : ℕ) (name run_id : String) (s : Db)
    → IsExclusive s
    → IsExclusive (begin_run now name run_id s).1
unfolding begin_run
begin_run-IsExclusive now name run_id s v =
    commit_or_restore-keeps IsExclusive s (begin_run_body now name run_id s) v
      (begin_run_body-IsExclusive now name run_id s v)

pub complete_run-IsExclusive :
    (now : ℕ) (name run_id : String) (totals : Totals) (s : Db)
    → IsExclusive s
    → IsExclusive (complete_run now name run_id totals s).1
unfolding complete_run is_active_run
complete_run-IsExclusive now name run_id totals s v = record {
  at_most_one = λ t.
      elim (Bool-cases
        (exists_row (of_run run_id) s.sync_runs && exists_row (of_table name) s.table_state)) [
          | inl found ↦ rw found (
              closing-IsExclusive (of_run run_id) (complete_run_row now totals) (λ r. refl) t
                s.sync_runs (v.at_most_one t))
          | inr missing ↦ rw missing (v.at_most_one t)
        ];
}

pub deliver_run-IsExclusive :
    (now : ℕ) (name run_id : String) (totals : Totals) (s : Db)
    → IsExclusive s
    → IsExclusive (deliver_run now name run_id totals s).1
unfolding deliver_run is_active_run
deliver_run-IsExclusive now name run_id totals s v = record {
  at_most_one = λ t.
      closing-IsExclusive (of_run run_id) (deliver_run_row now totals) (λ r. refl) t s.sync_runs
        (v.at_most_one t);
}

failed_run_status-inactive : (is_disk : Bool) → is_active_run (failed_run_status is_disk) ≡ false
unfolding is_active_run
failed_run_status-inactive is_disk = ground arith

pub fail_run-IsExclusive :
    (now : ℕ) (name run_id error : String) (is_disk : Bool) (s : Db)
    → IsExclusive s
    → IsExclusive (fail_run now name run_id error is_disk s).1
unfolding fail_run
fail_run-IsExclusive now name run_id error is_disk s v = record {
  at_most_one = λ t. elim (Bool-cases (exists_row (of_table name) s.table_state)) [
    | inl found ↦ rw found (
        closing-IsExclusive (of_run run_id)
          (λ r. record r { status = failed_run_status is_disk; last_error = some error })
          (λ r. failed_run_status-inactive is_disk) t s.sync_runs (v.at_most_one t))
    | inr missing ↦ rw missing (v.at_most_one t)
  ];
}

-- A status may be set where it is not an active one, or where the run is active already.
abbrev pub MaySet : String → RunStatus → Db → Type 0
MaySet run_id status s =
    (is_active_run status ≡ false)
    ⊎ All (λ r. of_run run_id r ≡ true → is_active_run r.status ≡ true) s.sync_runs

reactivating :
    (run_id : String) (status : RunStatus) (name : String) (runs : List SyncRun)
    → All (λ r. of_run run_id r ≡ true → is_active_run r.status ≡ true) runs
    → count_where
        (active_for name)
        (update_where (of_run run_id) (λ r. record r { status = status }) runs)
      ≤ count_where (active_for name) runs
unfolding active_for
reactivating run_id status name [] h = omega arith
reactivating run_id status name (r ∷ rs) h =
    ground (arith, h.0, reactivating run_id status name rs h.1)

pub set_run_status-IsExclusive :
    (run_id : String) (status : RunStatus) (s : Db)
    → MaySet run_id status s
    → IsExclusive s
    → IsExclusive (set_run_status run_id status s).1
unfolding set_run_status
set_run_status-IsExclusive run_id status s (inl closes) v = record {
  at_most_one = λ t.
      closing-IsExclusive (of_run run_id) (λ r. record r { status = status }) (λ r. closes) t
        s.sync_runs (v.at_most_one t);
}
set_run_status-IsExclusive run_id status s (inr already) v = record {
  at_most_one =
      λ t. omega (arith, reactivating run_id status t s.sync_runs already, v.at_most_one t);
}

-- Where `begin_run` returns, the table had no active run and was registered, the run's identifier was
-- new, and the one change to the runs is the new run at their end.
pub begin_run-ok :
    (now : ℕ) (name run_id : String) (s : Db)
    → (begin_run now name run_id s).0 ≡ ok tt
    → ((begin_run now name run_id s).1.sync_runs ≡ s.sync_runs ++ new_run run_id name now ∷ [])
      × (find? (active_for name) s.sync_runs ≡ none)
      × (exists_row (of_table name) s.table_state ≡ true)
      × (exists_row (of_run run_id) s.sync_runs ≡ false)
unfolding begin_run
begin_run-ok now name run_id s h = ground arith

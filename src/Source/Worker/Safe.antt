-- ===== src/Source/Worker/Safe.antt =====
-- What the maintenance leaves alone: `cleanup_failed_runs` of `src/airgap_sync/source/cycle.py`.
use airgap_sync.Base.{
  Bool, Bool-cases, List, String, [], ap, arith, eq_iff, false, if◌then◌else◌, inl, inr, nat_eq,
  not, option_eq, refl, string_eq, true, ℕ, ◌-◌, ◌==◌, ◌∙◌, ◌∷◌, ◌≡◌,
}
use airgap_sync.Base.Rows.{exists_row, select_where}
use airgap_sync.Source.Recovery.{active_cycle_run_ids, failed_runs_before}
use airgap_sync.Source.Schema.{Db, SyncRun}
use airgap_sync.Source.Snapshot.{contains_text}
use airgap_sync.Source.Worker.{
  Cleaned, RunDir, cleanup_failed_runs, is_dir, remove_run, remove_runs,
}

abbrev pub of_run_id : String → RunDir → Bool
of_run_id id d = d.run_id == id

select_where_kept :
    (id : String) (r : SyncRun) (dirs : List RunDir)
    → (r.run_id == id) ≡ false
    → select_where (of_run_id id) (select_where (λ d. not (is_dir r d)) dirs)
      ≡ select_where (of_run_id id) dirs
select_where_kept id r [] h = refl
select_where_kept id r (d ∷ ds) h = ground (
  arith,
  select_where_kept id r ds h,
  eq_iff d.run_id id,
  eq_iff d.run_id r.run_id,
  eq_iff r.run_id id,
)

-- An identifier in the list is not one that is not.
other :
    (id r : String) (names : List String)
    → contains_text id names ≡ true
    → contains_text r names ≡ false
    → (r == id) ≡ false
other id r names h free = elim (Bool-cases (r == id)) [
  | inl same ↦ cc (h, free, ap (λ x. contains_text x names) ((eq_iff r id).0 same))
  | inr differs ↦ differs
]

remove_run_kept :
    (failing : Bool) (id : String) (r : SyncRun) (at : Cleaned)
    → (r.run_id == id) ≡ false
    → select_where (of_run_id id) (remove_run failing r at).0 ≡ select_where (of_run_id id) at.0
unfolding remove_run
remove_run_kept true id r (dirs, removed) h = refl
remove_run_kept false id r (dirs, removed) h = elim (Bool-cases (exists_row (is_dir r) dirs)) [
  | inl found ↦ rw found (select_where_kept id r dirs h)
  | inr gone ↦ rw gone refl
]

remove_runs_kept :
    (fails : SyncRun → Bool) (protected : List String) (id : String) (rs : List SyncRun)
    (at : Cleaned)
    → contains_text id protected ≡ true
    → select_where (of_run_id id) (remove_runs fails protected rs at).0
      ≡ select_where (of_run_id id) at.0
unfolding remove_runs
remove_runs_kept fails protected id [] at h = refl
remove_runs_kept fails protected id (r ∷ rs) at h =
    remove_runs_kept fails protected id rs _ h ∙ step
  where
    step :
        select_where
          (of_run_id id)
          (if contains_text r.run_id protected then at else remove_run (fails r) r at).0
        ≡ select_where (of_run_id id) at.0
    step = elim (Bool-cases (contains_text r.run_id protected)) [
      | inl kept ↦ rw kept refl
      | inr free ↦ rw free (remove_run_kept (fails r) id r at (other id r.run_id protected h free))
    ]

-- The cleanup keeps every directory of a run that a table of an active cycle names as its last run,
-- whatever the clock, the retention and the removals answer.
pub cleanup_failed_runs_protected :
    (fails : SyncRun → Bool) (now retention : ℕ) (s : Db) (dirs : List RunDir) (id : String)
    → contains_text id (active_cycle_run_ids s) ≡ true
    → select_where (of_run_id id) (cleanup_failed_runs fails now retention s dirs).0
      ≡ select_where (of_run_id id) dirs
unfolding cleanup_failed_runs
cleanup_failed_runs_protected fails now retention s dirs id h =
    remove_runs_kept fails (active_cycle_run_ids s) id (failed_runs_before (now - retention) s)
      (dirs, 0) h

-- ===== src/Source/Recovery/Keeps.antt =====
-- Recovery keeps the invariant of the cycles, and leaves the cycles themselves alone.
use mathlib.Core.Path.{subst₂}
use airgap_sync.Base.{
  Bool-cases, List, String, [], ap, arith, eq_iff, false, inl, inr, nat_eq, option_eq, refl,
  string_eq, sym, true, ℕ, ◌==◌, ◌∙◌, ◌∷◌, ◌≡◌,
}
use airgap_sync.Base.Rows.{count_where-update_eq, select_where, update_where}
use airgap_sync.Source.Cycles.Consistent.{IsConsistent, has_active, undelivered}
use airgap_sync.Source.Cycles.Keeps.{ConsistentDb, IsConsistent-entries, SameCycles}
use airgap_sync.Source.Recovery.{
  fail_entry, fail_interrupted_run, fail_interrupted_runs, fail_interrupted_tables, in_active_cycle,
  interrupted_entry, recover_interrupted_cycle,
}
use airgap_sync.Source.Runs.{active_for}
use airgap_sync.Source.Schema.{CycleTable, Db, SyncCycle, SyncRun}

fail_interrupted_runs-SameCycles :
    (now : ℕ) (name : String) (runs : List SyncRun) (s : Db)
    → SameCycles s (fail_interrupted_runs now name runs s)
unfolding fail_interrupted_runs
fail_interrupted_runs-SameCycles now name [] s = (refl, refl)
fail_interrupted_runs-SameCycles now name (r ∷ rs) s =
    fail_interrupted_runs-SameCycles now name rs (fail_interrupted_run now name r s)

fail_interrupted_tables-SameCycles :
    (now : ℕ) (ts : List CycleTable) (s : Db) → SameCycles s (fail_interrupted_tables now ts s)
unfolding fail_interrupted_tables
fail_interrupted_tables-SameCycles now [] s = (refl, refl)
fail_interrupted_tables-SameCycles now (t ∷ ts) s =
    let runs = select_where (active_for t.table_name) s.sync_runs in
    let s' = fail_interrupted_runs now t.table_name runs s in
    let first = fail_interrupted_runs-SameCycles now t.table_name runs s in
    let later = fail_interrupted_tables-SameCycles now ts s' in
    (later.0 ∙ first.0, later.1 ∙ first.1)

-- No table of a cycle that is not active is touched.
undelivered-interrupted :
    (cs : List SyncCycle) (id : String) (ts : List CycleTable)
    → has_active id cs ≡ false
    → undelivered id (update_where (interrupted_entry cs) fail_entry ts) ≡ undelivered id ts
unfolding interrupted_entry
undelivered-interrupted cs id ts none_active =
    count_where-update_eq _ (interrupted_entry cs) fail_entry ts λ t h.
      elim (Bool-cases (t.cycle_id == id)) [
        | inl same ↦ absurd (untouched t ((eq_iff t.cycle_id id).0 same) (ground arith))
        | inr other ↦ rw other
      ]
  where
    untouched : (t : CycleTable) → t.cycle_id ≡ id → in_active_cycle cs t ≡ true → ⊥
    untouched t e h = cc (none_active, ap (λ x. has_active x cs) e)

pub recover_interrupted_cycle-ConsistentDb :
    (now : ℕ) (s : Db) → ConsistentDb s → ConsistentDb (recover_interrupted_cycle now s).1
unfolding recover_interrupted_cycle
recover_interrupted_cycle-ConsistentDb now s v =
    let ts = select_where (interrupted_entry s.sync_cycles) s.cycle_tables in
    let s' = fail_interrupted_tables now ts s in
    let (same_cycles, same_tables) = fail_interrupted_tables-SameCycles now ts s in
    let v' = subst₂ (λ cs es. IsConsistent cs es) (sym same_cycles) (sym same_tables) v in
    IsConsistent-entries s'.sync_cycles s'.cycle_tables _
      (λ id done h.
        undelivered-interrupted s'.sync_cycles id s'.cycle_tables (v'.settled id done).0 ∙ h)
      v'

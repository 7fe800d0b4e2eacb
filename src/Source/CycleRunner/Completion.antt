-- ===== src/Source/CycleRunner/Completion.antt =====
-- A run whose tables are all delivered completes its cycle: the end of the run.
use mathlib.Core.Path.{subst}
use airgap_sync.Base.{List, String, [], all_of, arith, refl, sym, true, ◌∷◌, ◌≡◌}
use airgap_sync.Base.Exec.{bind_ok, bind_post}
use airgap_sync.Base.Rows.{select_where, update_where}
use airgap_sync.Source.CycleRunner.{Surroundings, World, finish, run_cycle, run_tables}
use airgap_sync.Source.CycleRunner.Consistent.{Holds, IsOpen, LeavesCycles, run_tables-Keeps}
use airgap_sync.Source.CycleRunner.Progress.{
  AlwaysDelivers, left_out-pending_names, run_tables-delivers,
}
use airgap_sync.Source.CycleRunner.Run.{assert_some-db}
use airgap_sync.Source.Cycles.{complete_cycle, cycle_tables, in_cycle, latest_cycle, of_cycle}
use airgap_sync.Source.Cycles.Consistent.{has_active, has_completed, undelivered}
use airgap_sync.Source.Cycles.Keeps.{ConsistentDb}
use airgap_sync.Source.Schema.{CycleTable, Db, SyncCycle, is_completed_cycle, is_delivered_table}

all_of-of_undelivered :
    (id : String) (ts : List CycleTable)
    → undelivered id ts ≡ 0
    → all_of (λ t. is_delivered_table t.status) (select_where (in_cycle id) ts) ≡ true
all_of-of_undelivered id [] h = refl
all_of-of_undelivered id (t ∷ ts) h = ground (arith, all_of-of_undelivered id ts)

has_completed_complete :
    (id : String) (f : SyncCycle → SyncCycle) (cs : List SyncCycle)
    → ((c : SyncCycle) → (f c).cycle_id ≡ c.cycle_id)
    → ((c : SyncCycle) → is_completed_cycle (f c).status ≡ true)
    → has_active id cs ≡ true
    → has_completed id (update_where (of_cycle id) f cs) ≡ true
has_completed_complete id f [] keeps closes h = cc
has_completed_complete id f (c ∷ cs) keeps closes h =
    ground (arith, keeps c, closes c, has_completed_complete id f cs keeps closes)

abbrev IsFinished : String → Db → Type 0
IsFinished id s = (has_completed id s.sync_cycles ≡ true) × (undelivered id s.cycle_tables ≡ 0)

module _ (env : Surroundings) where
  finish-IsFinished :
      (id : String) (w : World)
      → IsOpen id w.db
      → undelivered id w.db.cycle_tables ≡ 0
      → IsFinished id (finish env id w).1.db
  unfolding finish cycle_tables complete_cycle
  finish-IsFinished id w o h = rw (all_of-of_undelivered id w.db.cycle_tables h) (
    has_completed_complete id _ w.db.sync_cycles (λ c. refl)
        (λ c. (unfold is_completed_cycle in refl)) o.1,
    h,
  )

-- Where no stop is asked for, and every `sync_table` ends DELIVERED and leaves the rows of the cycles
-- as they are, running an active cycle of a consistent database leaves that cycle COMPLETED with no
-- table that is not DELIVERED.
pub run_cycle-completes :
    (env : Surroundings) (c : SyncCycle) (w : World)
    → LeavesCycles env
    → AlwaysDelivers env
    → ConsistentDb w.db
    → has_active c.cycle_id w.db.sync_cycles ≡ true
    → (has_completed c.cycle_id (run_cycle env c w).1.db.sync_cycles ≡ true)
      × (undelivered c.cycle_id (run_cycle env c w).1.db.cycle_tables ≡ 0)
unfolding run_cycle
run_cycle-completes env c w leaves good v active =
    let id = c.cycle_id in
    let ts = cycle_tables id w.db in
    let loop =
      run_tables-delivers env leaves good id ts w
        (unfold cycle_tables in left_out-pending_names id w.db.cycle_tables) in
    let w' = (run_tables env id ts w).1 in
    let o = run_tables-Keeps env leaves id ts w (v, active) in
    subst (λ r. IsFinished id r.1.db) (sym (bind_ok (run_tables env id ts) _ w tt loop.0))
      (bind_post (Holds (IsFinished id)) (Holds (IsFinished id)) (finish env id) _ w'
        (finish-IsFinished env id w' o loop.1) (λ _ h. h)
        (λ _ w'' h. subst (IsFinished id) (sym (assert_some-db (latest_cycle w''.db) w'')) h))

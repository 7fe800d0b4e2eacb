-- ===== src/Source/RunTests.antt =====
-- Concrete runs of the state database and of the cycle runner, `src/airgap_sync/source/state.py`
-- and `src/airgap_sync/source/cycle.py`.
use airgap_sync.Base.{
  List, String, [], false, nat_eq, none, option_eq, refl, some, string_eq, true, ℕ, ◌&&◌, ◌++◌, ◌+◌,
  ◌==◌, ◌∷◌, ◌≡◌, ◌≤◌,
}
use airgap_sync.Base.Exec.{ok}
use airgap_sync.Base.Rows.{count_where, exists_row, find?}
use airgap_sync.Source.CycleRunner.{SnapshotResult, Surroundings, World, run, run_cycle}
use airgap_sync.Source.CycleRunner.Completion.{run_cycle-completes}
use airgap_sync.Source.CycleRunner.Consistent.{LeavesCycles}
use airgap_sync.Source.CycleRunner.Progress.{AlwaysDelivers}
use airgap_sync.Source.CycleRunner.Run.{run-ConsistentDb}
use airgap_sync.Source.Cycles.{create_cycle}
use airgap_sync.Source.Cycles.Consistent.{
  IsConsistent-empty, has_active, has_completed, undelivered,
}
use airgap_sync.Source.Cycles.Creation.{create_cycle-ConsistentDb}
use airgap_sync.Source.Cycles.Keeps.{ConsistentDb}
use airgap_sync.Source.Runs.{
  Totals, active_for, begin_run, complete_run, new_run, of_run, of_table, register_table,
  set_run_status,
}
use airgap_sync.Source.Runs.Exclusive.{IsExclusive, begin_run-ok}
use airgap_sync.Source.Runs.Overlap.{finalizing_overlaps}
use airgap_sync.Source.Schema.{
  CycleStatus, Db, RunStatus, SyncCycle, TableStatus, empty_db, is_active_cycle, is_active_run,
}
use airgap_sync.Source.Transitions.{Reachable, Reachable-sound, Transition}

abbrev two_tables : List String
two_tables = "orders" ∷ "users" ∷ []

abbrev delivered_result : ℕ → String → SnapshotResult
delivered_result i name = record {
  table = name;
  run_id = "run";
  status = TableStatus.delivered;
  row_count = 1;
  chunk_count = 1;
  raw_bytes = 3;
  compressed_bytes = 1;
  run_dir = "outbox";
  error = none;
}

-- Every table is delivered at once.
abbrev pub good_day : Surroundings
good_day = record {
  clock = λ i. 100 + i;
  utcnow = λ i. 100 + i;
  cycle_id = λ now i. "cycle-1";
  stop_is_set = λ i. false;
  sync_table = λ i name s. (ok (delivered_result i name), s);
  enabled_tables = two_tables;
  retry_after_failure = 60;
  delay_after_success = 600;
}

good_day-LeavesCycles : LeavesCycles good_day
good_day-LeavesCycles = record { same = λ i name s. (refl, refl) }

good_day-AlwaysDelivers : AlwaysDelivers good_day
good_day-AlwaysDelivers = record {
  never_stops = λ i. refl;
  result = λ i name s. delivered_result i name;
  delivers = λ i name s. refl;
  status = λ i name s. refl;
}

abbrev pub empty_world : World
empty_world = record { db = empty_db; asked = 0 }

run-ConsistentDb_example : ConsistentDb (run good_day empty_world).1.db
run-ConsistentDb_example =
    run-ConsistentDb good_day good_day-LeavesCycles empty_world IsConsistent-empty

abbrev started_db : Db
started_db = (create_cycle "cycle-1" two_tables 5 empty_db).1

abbrev started_cycle : SyncCycle
started_cycle = record {
  cycle_id = "cycle-1";
  status = CycleStatus.running;
  created_at = 5;
  started_at = some 5;
  completed_at = none;
  next_attempt_at = none;
  last_error = none;
}

started_db-ConsistentDb : ConsistentDb started_db
started_db-ConsistentDb =
    create_cycle-ConsistentDb "cycle-1" two_tables 5 empty_db IsConsistent-empty

started_db-active : has_active "cycle-1" started_db.sync_cycles ≡ true
unfolding create_cycle is_active_cycle
started_db-active = refl

run_cycle-completes_example :
    let w = (run_cycle good_day started_cycle (record { db = started_db; asked = 0 })).1 in
    (has_completed "cycle-1" w.db.sync_cycles ≡ true)
    × (undelivered "cycle-1" w.db.cycle_tables ≡ 0)
run_cycle-completes_example =
    run_cycle-completes good_day started_cycle (record { db = started_db; asked = 0 })
      good_day-LeavesCycles good_day-AlwaysDelivers started_db-ConsistentDb started_db-active

-- A table, a run of it, its completion, and a second run begun before FINALIZING is set.
abbrev registered_db : Db
registered_db = (register_table 1 "orders" empty_db).1

abbrev begun_db : Db
begun_db = (begin_run 2 "orders" "run-1" registered_db).1

abbrev some_totals : Totals
some_totals = record { row_count = 1; chunk_count = 1; raw_bytes = 3; compressed_bytes = 1 }

abbrev ready_db : Db
ready_db = (complete_run 3 "orders" "run-1" some_totals begun_db).1

begun : (begin_run 2 "orders" "run-1" registered_db).0 ≡ ok tt
unfolding begin_run register_table
begun = refl

begun_again : (begin_run 4 "orders" "run-2" ready_db).0 ≡ ok tt
unfolding begin_run register_table complete_run is_active_run
begun_again = refl

old_run : exists_row (λ r. of_run "run-1" r && r.table_name == "orders") ready_db.sync_runs ≡ true
unfolding begin_run register_table complete_run
old_run = refl

Reachable-sound_example : IsExclusive ready_db × ConsistentDb ready_db
Reachable-sound_example = Reachable-sound ready_db (
    Reachable.after begun_db ready_db
      (Reachable.after registered_db begun_db
        (Reachable.after empty_db registered_db Reachable.initial
          (Transition.registering 1 "orders" empty_db))
        (Transition.beginning 2 "orders" "run-1" registered_db))
      (Transition.completing_run 3 "orders" "run-1" some_totals begun_db))

begin_run-ok_example :
    ((begin_run 2 "orders" "run-1" registered_db).1.sync_runs
      ≡ registered_db.sync_runs ++ new_run "run-1" "orders" 2 ∷ [])
    × (find? (active_for "orders") registered_db.sync_runs ≡ none)
    × (exists_row (of_table "orders") registered_db.table_state ≡ true)
    × (exists_row (of_run "run-1") registered_db.sync_runs ≡ false)
begin_run-ok_example = begin_run-ok 2 "orders" "run-1" registered_db begun

finalizing_overlaps_example :
    2
    ≤ count_where
        (active_for "orders")
        (set_run_status "run-1" RunStatus.finalizing
          (begin_run 4 "orders" "run-2" ready_db).1).1.sync_runs
finalizing_overlaps_example =
    finalizing_overlaps 4 "orders" "run-1" "run-2" ready_db old_run begun_again

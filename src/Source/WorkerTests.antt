-- ===== src/Source/WorkerTests.antt =====
-- Concrete ticks of the worker and openings of the state database, `src/airgap_sync/source/`.
use airgap_sync.Base.{[], arith, false, refl, some, ℕ, ◌+◌, ◌<◌, ◌∷◌, ◌≡◌, ◌≤◌, ◌⊎◌}
use airgap_sync.Base.Exec.{ok}
use airgap_sync.Source.CycleRunner.{World, run, run_tables}
use airgap_sync.Source.Cycles.{
  active_cycle, complete_cycle, create_cycle, cycle_tables, deliver_cycle_table,
  latest_completed_cycle, latest_cycle, new_cycle, start_cycle_table,
}
use airgap_sync.Source.Cycles.Keeps.{ConsistentDb}
use airgap_sync.Source.Migrations.Upgrade.{
  IsSoundStored, OpensAs, Retains, Stored, initialize_upgrades, version_3,
}
use airgap_sync.Source.Recovery.{recover_interrupted_cycle}
use airgap_sync.Source.RunTests.{good_day}
use airgap_sync.Source.Runs.{active_for, new_run}
use airgap_sync.Source.Runs.Exclusive.{IsExclusive}
use airgap_sync.Source.Schema.{CycleStatus, Db, SyncCycle, empty_db}
use airgap_sync.Source.Worker.{Scheduling, tick}
use airgap_sync.Source.Worker.Due.{DueAt, next_at, tick_due}

-- A completed cycle of the time 100; the next one waits for 100 and the delay after a success.
abbrev completed_cycle : SyncCycle
completed_cycle = record (new_cycle "cycle-1" 50) {
  status = CycleStatus.completed;
  completed_at = some 100;
}

abbrev rested_world : World
rested_world = record { db = record empty_db { sync_cycles = completed_cycle ∷ [] }; asked = 0 }

-- The clock stands at 40 past the end of that cycle, and 60 are to be waited.
abbrev unhurried : Scheduling
unhurried = record {
  around = record good_day {
    clock = λ i. 140;
    cycle_id = λ now i. "cycle-2";
    delay_after_success = 100;
  };
  waiter = λ i pause. false;
}

rested_world-DueAt : (wait : ℕ) → DueAt rested_world.db wait (100 + wait)
unfolding active_cycle latest_completed_cycle
rested_world-DueAt wait = next_at refl refl refl

abbrev next_cycle : SyncCycle
next_cycle = record (new_cycle "cycle-2" 140) {
  status = CycleStatus.completed;
  completed_at = some 140;
}

ran_next : (tick unhurried rested_world).0 ≡ ok (some next_cycle)
unfolding tick run run_tables active_cycle latest_completed_cycle latest_cycle
    recover_interrupted_cycle create_cycle cycle_tables start_cycle_table deliver_cycle_table
    complete_cycle
ran_next = refl

tick_due_example :
    (pause : ℕ) × (200 ≤ 140 + pause)
    × ((pause ≡ 0) ⊎ (unhurried.waiter 1 pause ≡ false))
    × ((i : ℕ) × (0 < i) × (unhurried.around.stop_is_set i ≡ false))
tick_due_example = tick_due unhurried rested_world next_cycle 200 (rested_world-DueAt 100) ran_next

-- The same with a delay of 10, which has passed.
abbrev overdue : Scheduling
overdue = record unhurried {
  around = record good_day { clock = λ i. 140; delay_after_success = 10 };
}

-- A file of schema version 3 with one run.
abbrev old_file : Stored
old_file = version_3 [] (new_run "run-1" "orders" 1 ∷ []) []

old_file-IsSoundStored : IsSoundStored old_file
old_file-IsSoundStored name = unfold active_for in ground arith

initialize_upgrades_example :
    (s : Db) × OpensAs old_file s × Retains old_file s × IsExclusive s × ConsistentDb s
initialize_upgrades_example = initialize_upgrades old_file old_file-IsSoundStored

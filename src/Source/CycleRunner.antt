-- ===== src/Source/CycleRunner.antt =====
-- `CycleRunner.run` and `_failed`, src/airgap_sync/source/cycle.py. What the runner asks of its surroundings (the
-- clock, uuid4, the stop event, `sync_table`) may answer differently each time: the answers are
-- functions of the number of questions asked before.
pub mod Consistent
pub mod Run
pub mod Progress
pub mod Completion
use airgap_sync.Base.{
  Bool, List, Option, String, [], all_of, false, if◌then◌else◌, nat_eq, none, option_eq, some,
  string_eq, true, ℕ, ◌+◌, ◌==◌, ◌∷◌,
}
use airgap_sync.Base.Exec.{Exec, Result, err, ok, pure, raise, ◌>>=◌, ◌>>◌}
use airgap_sync.Source.Cycles.{
  active_cycle, complete_cycle, create_cycle, cycle_tables, deliver_cycle_table, fail_cycle_table,
  latest_cycle, start_cycle_table,
}
use airgap_sync.Source.Recovery.{recover_interrupted_cycle}
use airgap_sync.Source.Schema.{
  Call, CycleTable, Db, StateError, SyncCycle, TableStatus, is_delivered_table,
}

-- What `sync_table` returns, src/airgap_sync/source/snapshot.py.
pub record SnapshotResult : Type 0 where
  pub table : String
  pub run_id : String
  pub status : TableStatus
  pub row_count : ℕ
  pub chunk_count : ℕ
  pub raw_bytes : ℕ
  pub compressed_bytes : ℕ
  pub run_dir : String
  pub error : Option String

pub record Surroundings : Type 0 where
  pub clock : ℕ → ℕ
  pub utcnow : ℕ → ℕ
  pub cycle_id : ℕ → ℕ → String
  pub stop_is_set : ℕ → Bool
  -- an exception is `err` with its text
  pub sync_table : ℕ → String → Db → Result String SnapshotResult × Db
  pub enabled_tables : List String
  pub retry_after_failure : ℕ
  pub delay_after_success : ℕ

pub record World : Type 0 where
  pub db : Db
  pub asked : ℕ

-- What ends a run early: an error of the state database, or a failed `assert`.
pub data Failure : Type 0 where
  state_error : StateError → Failure
  assertion_error : Failure

abbrev pub Step : Type 0 → Type 0
Step A = Exec World Failure A

abbrev on_world : {A : Type 0} → World → Result StateError A × Db → Result Failure A × World
on_world w (ok a, s) = (ok a, record w { db = s })
on_world w (err e, s) = (err (state_error e), record w { db = s })

abbrev pub call : {A : Type 0} → Call A → Step A
call m w = on_world w (m w.db)

abbrev pub ask : {A : Type 0} → (ℕ → A) → Step A
ask answer w = (ok (answer w.asked), record w { asked = w.asked + 1 })

abbrev pub view : {A : Type 0} → (Db → A) → Step A
view f w = (ok (f w.db), w)

-- `assert cycle is not None`
abbrev pub assert_some : {A : Type 0} → Option A → Step A
assert_some none = raise assertion_error
assert_some (some a) = pure a

-- f"sync ended with {result.status}"
abbrev pub ended_with : TableStatus → String
ended_with TableStatus.idle = "sync ended with IDLE"
ended_with TableStatus.running = "sync ended with RUNNING"
ended_with TableStatus.completed = "sync ended with COMPLETED"
ended_with TableStatus.delivered = "sync ended with DELIVERED"
ended_with TableStatus.failed = "sync ended with FAILED"
ended_with TableStatus.disk_pressure = "sync ended with DISK_PRESSURE"

-- `result.error or ...`: an empty text counts as none.
abbrev pub error_or : Option String → String → String
error_or none other = other
error_or (some e) other = if e == "" then other else e

module _ (env : Surroundings) where
  -- `_failed`
  pub mark_failed : String → String → Option String → String → Step Unit
  mark_failed id name run_id error = do
    now ← ask env.clock
    call (fail_cycle_table id name run_id error (now + env.retry_after_failure))

  call_sync : String → Step (Result String SnapshotResult)
  call_sync name w =
      let (r, s) = env.sync_table w.asked name w.db in
      (ok r, record w { db = s; asked = w.asked + 1 })

  -- What follows one call of `sync_table`; `rest` is the remainder of the loop.
  abbrev unless_delivered : String → String → SnapshotResult → TableStatus → Step Unit → Step Unit
  unless_delivered id name result TableStatus.delivered rest = do
    now ← ask env.clock
    call (deliver_cycle_table id name result.run_id now)
    rest
  unless_delivered id name result status rest =
      mark_failed id name (some result.run_id) (error_or result.error (ended_with status))

  after_sync : String → String → Step Unit → Result String SnapshotResult → Step Unit
  after_sync id name rest (err text) = mark_failed id name none text
  after_sync id name rest (ok result) = unless_delivered id name result result.status rest

  sync_one : String → String → Step Unit → Step Unit
  unfolding call_sync after_sync mark_failed
  sync_one id name rest = do
    call (start_cycle_table id name)
    result ← call_sync name
    after_sync id name rest result

  unless_stopped : Bool → Step Unit → Step Unit
  unless_stopped true m = pure tt
  unless_stopped false m = m

  -- for table in self.state.cycle_tables(...)
  unfoldable pub run_tables : String → List CycleTable → Step Unit
  unfolding sync_one unless_stopped is_delivered_table
  run_tables id [] = pure tt
  run_tables id (t ∷ ts) =
      let rest = run_tables id ts in
      if is_delivered_table t.status then rest else (do
        stopped ← ask env.stop_is_set
        unless_stopped stopped (sync_one id t.table_name rest))

  complete_if : Bool → String → Step Unit
  complete_if false id = pure tt
  complete_if true id = do now ← ask env.clock; call (complete_cycle id now)

  -- `not tables or all(...)`; on no table both hold.
  finish : String → Step Unit
  unfolding complete_if is_delivered_table
  finish id = do
    tables ← view (cycle_tables id)
    complete_if (all_of (λ t. is_delivered_table t.status) tables) id

  choose : Option SyncCycle → Step SyncCycle
  choose (some cycle) = pure cycle
  choose none = do
    now ← ask env.clock
    id ← ask (env.cycle_id now)
    call (create_cycle id env.enabled_tables now)
    found ← view active_cycle
    assert_some found

  -- The run of a cycle once it is chosen.
  pub run_cycle : SyncCycle → Step SyncCycle
  unfolding finish
  run_cycle cycle = do
    tables ← view (cycle_tables cycle.cycle_id)
    run_tables cycle.cycle_id tables
    finish cycle.cycle_id
    latest ← view latest_cycle
    assert_some latest

  unfoldable pub run : Step SyncCycle
  unfolding choose run_cycle
  run = do
    now ← ask env.utcnow
    call (recover_interrupted_cycle now)
    found ← view active_cycle
    cycle ← choose found
    run_cycle cycle

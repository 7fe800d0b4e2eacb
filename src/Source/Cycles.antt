-- ===== src/Source/Cycles.antt =====
-- Cycles and the tables of a cycle: from `create_cycle` to `active_cycle_run_ids`, src/airgap_sync/source/state.py.
pub mod Consistent
pub mod Keeps
pub mod Creation
-- Where ORDER BY leaves a tie, the row that was inserted first is taken.
use airgap_sync.Base.{
  Bool, List, Option, String, [], if◌then◌else◌, ltb, nat_eq, none, option_eq, some, string_eq, suc,
  ℕ, ◌&&◌, ◌++◌, ◌+◌, ◌==◌, ◌∷◌,
}
use airgap_sync.Base.Exec.{err, gets, modify, ok, pure, raise, transaction, ◌>>=◌, ◌>>◌}
use airgap_sync.Base.Rows.{exists_row, find?, select_where, update_where}
use airgap_sync.Source.Schema.{
  Call, CycleStatus, CycleTable, CycleTableStatus, Db, SyncCycle, active_cycle_exists, execute,
  integrity_error, is_active_cycle, is_completed_cycle, no_active_cycle,
}

abbrev pub active_row : SyncCycle → Bool
active_row c = is_active_cycle c.status

abbrev pub of_cycle : String → SyncCycle → Bool
of_cycle cycle_id c = c.cycle_id == cycle_id

abbrev pub in_cycle : String → CycleTable → Bool
in_cycle cycle_id t = t.cycle_id == cycle_id

abbrev pub cycle_entry : String → String → CycleTable → Bool
cycle_entry cycle_id name t = t.cycle_id == cycle_id && t.table_name == name

abbrev pub set_cycles : (SyncCycle → Bool) → (SyncCycle → SyncCycle) → Db → Db
set_cycles p f s = record s { sync_cycles = update_where p f s.sync_cycles }

abbrev pub set_entries : (CycleTable → Bool) → (CycleTable → CycleTable) → Db → Db
set_entries p f s = record s { cycle_tables = update_where p f s.cycle_tables }

abbrev raise_if_cycle : Option SyncCycle → Call Unit
raise_if_cycle none = pure tt
raise_if_cycle (some c) = raise (active_cycle_exists c.cycle_id)

abbrev pub new_cycle : String → ℕ → SyncCycle
new_cycle cycle_id now = record {
  cycle_id = cycle_id;
  status = CycleStatus.running;
  created_at = now;
  started_at = some now;
  completed_at = none;
  next_attempt_at = none;
  last_error = none;
}

-- INSERT INTO sync_cycles; `cycle_id` is the primary key.
insert_cycle : SyncCycle → Call Unit
insert_cycle c s =
    if exists_row (of_cycle c.cycle_id) s.sync_cycles
    then (err integrity_error, s)
    else (ok tt, record s { sync_cycles = s.sync_cycles ++ c ∷ [] })

abbrev pub new_entry : String → String → CycleTable
new_entry cycle_id name = record {
  cycle_id = cycle_id;
  table_name = name;
  status = CycleTableStatus.pending;
  attempts = 0;
  last_run_id = none;
  last_error = none;
  delivered_at = none;
}

-- INSERT INTO cycle_tables; (cycle_id, table_name) is the primary key.
insert_entry : CycleTable → Call Unit
insert_entry t s =
    if exists_row (cycle_entry t.cycle_id t.table_name) s.cycle_tables
    then (err integrity_error, s)
    else (ok tt, record s { cycle_tables = s.cycle_tables ++ t ∷ [] })

-- `executemany`
insert_entries : String → List String → Call Unit
unfolding insert_entry
insert_entries cycle_id [] = pure tt
insert_entries cycle_id (name ∷ names) =
    insert_entry (new_entry cycle_id name) >> insert_entries cycle_id names

create_cycle_body : String → List String → ℕ → Call Unit
unfolding is_active_cycle insert_cycle insert_entries
create_cycle_body cycle_id names now = do
  active ← gets (λ s. find? active_row s.sync_cycles)
  raise_if_cycle active
  insert_cycle (new_cycle cycle_id now)
  insert_entries cycle_id names

unfoldable pub create_cycle : String → List String → ℕ → Call Unit
unfolding create_cycle_body
create_cycle cycle_id names now = transaction (create_cycle_body cycle_id names now)

abbrev keep_latest : (SyncCycle → ℕ) → SyncCycle → Option SyncCycle → Option SyncCycle
keep_latest at c none = some c
keep_latest at c (some d) = some (if ltb (at c) (at d) then d else c)

-- ORDER BY at DESC LIMIT 1
abbrev pub latest_by : (SyncCycle → ℕ) → List SyncCycle → Option SyncCycle
latest_by at [] = none
latest_by at (c ∷ cs) = keep_latest at c (latest_by at cs)

abbrev pub created : SyncCycle → ℕ
created c = c.created_at

-- NULL comes after every time in descending order.
abbrev pub completed_rank : SyncCycle → ℕ
completed_rank c = elim c.completed_at [ none ↦ 0 | some t ↦ suc t ]

unfoldable pub active_cycle : Db → Option SyncCycle
unfolding is_active_cycle
active_cycle s = latest_by created (select_where active_row s.sync_cycles)

unfoldable pub latest_cycle : Db → Option SyncCycle
latest_cycle s = latest_by created s.sync_cycles

unfoldable pub latest_completed_cycle : Db → Option SyncCycle
unfolding is_completed_cycle
latest_completed_cycle s =
    latest_by completed_rank (select_where (λ c. is_completed_cycle c.status) s.sync_cycles)

unfoldable pub cycle_tables : String → Db → List CycleTable
cycle_tables cycle_id s = select_where (in_cycle cycle_id) s.cycle_tables

unfoldable pub start_cycle_table : String → String → Call Unit
start_cycle_table cycle_id name = transaction (do
  modify (
      set_cycles (of_cycle cycle_id)
        λ c. record c { status = CycleStatus.running; next_attempt_at = none; last_error = none })
  modify (
      set_entries (cycle_entry cycle_id name) λ t. record t {
        status = CycleTableStatus.running;
        attempts = t.attempts + 1;
        last_error = none;
      }))

unfoldable pub deliver_cycle_table : String → String → String → ℕ → Call Unit
deliver_cycle_table cycle_id name run_id now = execute (
    modify (
      set_entries (cycle_entry cycle_id name) λ t. record t {
        status = CycleTableStatus.delivered;
        last_run_id = some run_id;
        last_error = none;
        delivered_at = some now;
      }))

unfoldable pub fail_cycle_table : String → String → Option String → String → ℕ → Call Unit
fail_cycle_table cycle_id name run_id error retry_at = transaction (do
  modify (
      set_entries (cycle_entry cycle_id name) λ t. record t {
        status = CycleTableStatus.failed;
        last_run_id = run_id;
        last_error = some error;
      })
  modify (
      set_cycles (of_cycle cycle_id) λ c. record c {
        status = CycleStatus.retry_wait;
        next_attempt_at = some retry_at;
        last_error = some error;
      }))

unfoldable pub complete_cycle : String → ℕ → Call Unit
complete_cycle cycle_id now = execute (
    modify (
      set_cycles (of_cycle cycle_id) λ c. record c {
        status = CycleStatus.completed;
        completed_at = some now;
        next_attempt_at = none;
        last_error = none;
      }))

abandon_found : Option SyncCycle → Call SyncCycle
abandon_found none = raise no_active_cycle
abandon_found (some active) = do
  execute (
      modify (
        set_cycles (of_cycle active.cycle_id)
          λ c. record c { status = CycleStatus.abandoned; next_attempt_at = none }))
  pure active

-- Returns the cycle as it was before it was abandoned.
unfoldable pub abandon_active_cycle : Call SyncCycle
unfolding abandon_found active_cycle
abandon_active_cycle s = abandon_found (active_cycle s) s

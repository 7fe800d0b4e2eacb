-- ===== src/Source/Cycles/Keeps.antt =====
-- Every operation on cycles keeps the invariant of Consistent.
use airgap_sync.Base.{
  List, Option, String, arith, eq_iff, inl, inr, none, not, refl, some, true, ℕ, ◌&&◌, ◌≡◌,
}
use airgap_sync.Base.Rows.{count_where-update_le}
use airgap_sync.Source.Cycles.{
  abandon_active_cycle, abandon_found, active_cycle, complete_cycle, cycle_entry,
  deliver_cycle_table, fail_cycle_table, in_cycle, start_cycle_table,
}
use airgap_sync.Source.Cycles.Consistent.{
  IsConsistent, IsConsistent-close, IsConsistent-reopen, has_active, has_completed, undelivered,
}
use airgap_sync.Source.Schema.{
  CycleTable, CycleTableStatus, Db, SyncCycle, is_active_cycle, is_completed_cycle,
  is_delivered_table,
}

abbrev pub ConsistentDb : Db → Type 0
ConsistentDb s = IsConsistent s.sync_cycles s.cycle_tables

-- The cycles and their tables are as they were.
abbrev pub SameCycles : Db → Db → Type 0
SameCycles s s' = (s'.sync_cycles ≡ s.sync_cycles) × (s'.cycle_tables ≡ s.cycle_tables)

-- Tables that lose no DELIVERED mark, in any cycle.
pub IsConsistent-entries :
    (cs : List SyncCycle) (ts ts' : List CycleTable)
    → ((id : String) → has_completed id cs ≡ true → undelivered id ts ≡ 0 → undelivered id ts' ≡ 0)
    → IsConsistent cs ts
    → IsConsistent cs ts'
IsConsistent-entries cs ts ts' h v = record {
  unique = v.unique;
  single = v.single;
  settled = λ id done. ((v.settled id done).0, h id done (v.settled id done).1);
}

pub deliver_cycle_table-ConsistentDb :
    (id name run_id : String) (now : ℕ) (s : Db)
    → ConsistentDb s
    → ConsistentDb (deliver_cycle_table id name run_id now s).1
unfolding deliver_cycle_table
deliver_cycle_table-ConsistentDb id name run_id now s v =
    IsConsistent-entries s.sync_cycles s.cycle_tables _
      (λ k done h. omega (
        arith,
        count_where-update_le (λ t. in_cycle k t && not (is_delivered_table t.status))
            (cycle_entry id name)
            (λ t. record t {
              status = CycleTableStatus.delivered;
              last_run_id = some run_id;
              last_error = none;
              delivered_at = some now;
            })
            s.cycle_tables (λ t _ d. (unfold is_delivered_table in ground arith)),
        h,
      ))
      v

pub start_cycle_table-ConsistentDb :
    (id name : String) (s : Db)
    → has_active id s.sync_cycles ≡ true
    → ConsistentDb s
    → ConsistentDb (start_cycle_table id name s).1
unfolding start_cycle_table is_active_cycle
start_cycle_table-ConsistentDb id name s active v =
    IsConsistent-reopen id _ (cycle_entry id name) _ (λ c. refl) (λ c. refl)
      (λ t h. ground (arith, eq_iff t.cycle_id id)) (λ t. refl) s.sync_cycles s.cycle_tables active
      v

pub fail_cycle_table-ConsistentDb :
    (id name : String) (run_id : Option String) (error : String) (retry_at : ℕ) (s : Db)
    → has_active id s.sync_cycles ≡ true
    → ConsistentDb s
    → ConsistentDb (fail_cycle_table id name run_id error retry_at s).1
unfolding fail_cycle_table is_active_cycle
fail_cycle_table-ConsistentDb id name run_id error retry_at s active v =
    IsConsistent-reopen id _ (cycle_entry id name) _ (λ c. refl) (λ c. refl)
      (λ t h. ground (arith, eq_iff t.cycle_id id)) (λ t. refl) s.sync_cycles s.cycle_tables active
      v

pub complete_cycle-ConsistentDb :
    (id : String) (now : ℕ) (s : Db)
    → undelivered id s.cycle_tables ≡ 0
    → ConsistentDb s
    → ConsistentDb (complete_cycle id now s).1
unfolding complete_cycle is_active_cycle
complete_cycle-ConsistentDb id now s done v =
    IsConsistent-close id _ (λ c. refl) (λ c. refl) s.sync_cycles s.cycle_tables (inr done) v

pub abandon_active_cycle-ConsistentDb :
    (s : Db) → ConsistentDb s → ConsistentDb (abandon_active_cycle s).1
unfolding abandon_active_cycle is_active_cycle is_completed_cycle
abandon_active_cycle-ConsistentDb s v = go (active_cycle s)
  where
    go : (o : Option SyncCycle) → ConsistentDb (abandon_found o s).1
    go none = v
    go (some c) =
        IsConsistent-close c.cycle_id _ (λ c. refl) (λ c. refl) s.sync_cycles s.cycle_tables
          (inl (λ c. refl)) v

-- ===== src/Source/Transitions.antt =====
-- The Source state database as a state machine: one step is one operation of
-- `src/airgap_sync/source/state.py`, under the conditions stated below. A step stands for the
-- whole operation, also where it raises.
use mathlib.Core.Path.{subst, subst₂}
use airgap_sync.Base.{
  Bool, List, Option, Option-cases, String, arith, inl, inr, refl, sym, true, ℕ, ◌≡◌, ◌≤◌,
}
use airgap_sync.Base.Rows.{count_where}
use airgap_sync.Source.Cycles.{
  abandon_active_cycle, active_cycle, complete_cycle, create_cycle, deliver_cycle_table,
  fail_cycle_table, start_cycle_table,
}
use airgap_sync.Source.Cycles.Consistent.{IsConsistent, IsConsistent-empty, has_active, undelivered}
use airgap_sync.Source.Cycles.Creation.{create_cycle-ConsistentDb, sync_runs-create_cycle}
use airgap_sync.Source.Cycles.Keeps.{
  ConsistentDb, SameCycles, abandon_active_cycle-ConsistentDb, complete_cycle-ConsistentDb,
  deliver_cycle_table-ConsistentDb, fail_cycle_table-ConsistentDb, start_cycle_table-ConsistentDb,
}
use airgap_sync.Source.Recovery.{recover_interrupted_cycle}
use airgap_sync.Source.Recovery.Exclusive.{recover_interrupted_cycle-IsExclusive}
use airgap_sync.Source.Recovery.Keeps.{recover_interrupted_cycle-ConsistentDb}
use airgap_sync.Source.Runs.{
  Totals, active_for, begin_run, complete_run, deliver_run, fail_run, register_table,
  set_run_status,
}
use airgap_sync.Source.Runs.Exclusive.{
  IsExclusive, MaySet, begin_run-IsExclusive, complete_run-IsExclusive, deliver_run-IsExclusive,
  fail_run-IsExclusive, set_run_status-IsExclusive,
}
use airgap_sync.Source.Schema.{Call, Db, RunStatus, empty_db}

-- The conditions: `set_run_status` is called for a run that is active already, or with a status that is
-- not active, which leaves out FINALIZING after `complete_run`; `start_cycle_table` and
-- `fail_cycle_table` for a cycle that is active; `complete_cycle` once all tables of the cycle are
-- delivered.
pub data Transition : Db → Db → Type 0 where
  registering : (now : ℕ) (name : String) (s : Db) → Transition s (register_table now name s).1
  beginning : (now : ℕ) (name id : String) (s : Db) → Transition s (begin_run now name id s).1
  setting :
      (id : String) (status : RunStatus) (s : Db)
      → MaySet id status s
      → Transition s (set_run_status id status s).1
  completing_run :
      (now : ℕ) (name id : String) (totals : Totals) (s : Db)
      → Transition s (complete_run now name id totals s).1
  delivering_run :
      (now : ℕ) (name id : String) (totals : Totals) (s : Db)
      → Transition s (deliver_run now name id totals s).1
  failing_run :
      (now : ℕ) (name id error : String) (is_disk : Bool) (s : Db)
      → Transition s (fail_run now name id error is_disk s).1
  creating :
      (id : String) (names : List String) (now : ℕ) (s : Db)
      → Transition s (create_cycle id names now s).1
  starting :
      (id name : String) (s : Db)
      → has_active id s.sync_cycles ≡ true
      → Transition s (start_cycle_table id name s).1
  delivering :
      (id name run_id : String) (now : ℕ) (s : Db)
      → Transition s (deliver_cycle_table id name run_id now s).1
  failing :
      (id name : String) (run_id : Option String) (error : String) (retry_at : ℕ) (s : Db)
      → has_active id s.sync_cycles ≡ true
      → Transition s (fail_cycle_table id name run_id error retry_at s).1
  completing :
      (id : String) (now : ℕ) (s : Db)
      → undelivered id s.cycle_tables ≡ 0
      → Transition s (complete_cycle id now s).1
  abandoning : (s : Db) → Transition s (abandon_active_cycle s).1
  recovering : (now : ℕ) (s : Db) → Transition s (recover_interrupted_cycle now s).1

pub data Reachable : Db → Type 0 where
  initial : Reachable empty_db
  after : (s s' : Db) → Reachable s → Transition s s' → Reachable s'

same_runs-IsExclusive : (s s' : Db) → s'.sync_runs ≡ s.sync_runs → IsExclusive s → IsExclusive s'
same_runs-IsExclusive s s' e v = record {
  at_most_one = λ t. subst (λ rs. count_where (active_for t) rs ≤ 1) (sym e) (v.at_most_one t);
}

SameCycles-ConsistentDb :
    {A : Type 0} (m : Call A) (s : Db)
    → SameCycles s (m s).1
    → ConsistentDb s
    → ConsistentDb (m s).1
SameCycles-ConsistentDb m s same v =
    subst₂ (λ cs es. IsConsistent cs es) (sym same.0) (sym same.1) v

begin_run-SameCycles :
    (now : ℕ) (name id : String) (s : Db) → SameCycles s (begin_run now name id s).1
unfolding begin_run
begin_run-SameCycles now name id s = ground arith

complete_run-SameCycles :
    (now : ℕ) (name id : String) (totals : Totals) (s : Db)
    → SameCycles s (complete_run now name id totals s).1
unfolding complete_run
complete_run-SameCycles now name id totals s = ground arith

fail_run-SameCycles :
    (now : ℕ) (name id error : String) (is_disk : Bool) (s : Db)
    → SameCycles s (fail_run now name id error is_disk s).1
unfolding fail_run
fail_run-SameCycles now name id error is_disk s = ground arith

sync_runs-abandon : (s : Db) → (abandon_active_cycle s).1.sync_runs ≡ s.sync_runs
unfolding abandon_active_cycle
sync_runs-abandon s = elim (Option-cases (active_cycle s)) [
  | inl e ↦ rw e refl
  | inr (c, e) ↦ rw e refl
]

Transition-IsExclusive : (s s' : Db) → Transition s s' → IsExclusive s → IsExclusive s'
unfolding register_table start_cycle_table deliver_cycle_table fail_cycle_table complete_cycle
Transition-IsExclusive _ _ (Transition.registering now name s) v = same_runs-IsExclusive s _ refl v
Transition-IsExclusive _ _ (Transition.beginning now name id s) v =
    begin_run-IsExclusive now name id s v
Transition-IsExclusive _ _ (Transition.setting id status s may) v =
    set_run_status-IsExclusive id status s may v
Transition-IsExclusive _ _ (Transition.completing_run now name id totals s) v =
    complete_run-IsExclusive now name id totals s v
Transition-IsExclusive _ _ (Transition.delivering_run now name id totals s) v =
    deliver_run-IsExclusive now name id totals s v
Transition-IsExclusive _ _ (Transition.failing_run now name id error is_disk s) v =
    fail_run-IsExclusive now name id error is_disk s v
Transition-IsExclusive _ _ (Transition.creating id names now s) v =
    same_runs-IsExclusive s _ (sync_runs-create_cycle id names now s) v
Transition-IsExclusive _ _ (Transition.starting id name s active) v =
    same_runs-IsExclusive s _ refl v
Transition-IsExclusive _ _ (Transition.delivering id name run_id now s) v =
    same_runs-IsExclusive s _ refl v
Transition-IsExclusive _ _ (Transition.failing id name run_id error retry_at s active) v =
    same_runs-IsExclusive s _ refl v
Transition-IsExclusive _ _ (Transition.completing id now s done) v =
    same_runs-IsExclusive s _ refl v
Transition-IsExclusive _ _ (Transition.abandoning s) v =
    same_runs-IsExclusive s _ (sync_runs-abandon s) v
Transition-IsExclusive _ _ (Transition.recovering now s) v =
    recover_interrupted_cycle-IsExclusive now s v

Transition-ConsistentDb : (s s' : Db) → Transition s s' → ConsistentDb s → ConsistentDb s'
unfolding register_table set_run_status
Transition-ConsistentDb _ _ (Transition.registering now name s) v = v
Transition-ConsistentDb _ _ (Transition.beginning now name id s) v =
    SameCycles-ConsistentDb (begin_run now name id) s (begin_run-SameCycles now name id s) v
Transition-ConsistentDb _ _ (Transition.setting id status s may) v = v
Transition-ConsistentDb _ _ (Transition.completing_run now name id totals s) v =
    SameCycles-ConsistentDb (complete_run now name id totals) s
      (complete_run-SameCycles now name id totals s) v
Transition-ConsistentDb _ _ (Transition.delivering_run now name id totals s) v =
    SameCycles-ConsistentDb (deliver_run now name id totals) s (unfold deliver_run in (refl, refl))
      v
Transition-ConsistentDb _ _ (Transition.failing_run now name id error is_disk s) v =
    SameCycles-ConsistentDb (fail_run now name id error is_disk) s
      (fail_run-SameCycles now name id error is_disk s) v
Transition-ConsistentDb _ _ (Transition.creating id names now s) v =
    create_cycle-ConsistentDb id names now s v
Transition-ConsistentDb _ _ (Transition.starting id name s active) v =
    start_cycle_table-ConsistentDb id name s active v
Transition-ConsistentDb _ _ (Transition.delivering id name run_id now s) v =
    deliver_cycle_table-ConsistentDb id name run_id now s v
Transition-ConsistentDb _ _ (Transition.failing id name run_id error retry_at s active) v =
    fail_cycle_table-ConsistentDb id name run_id error retry_at s active v
Transition-ConsistentDb _ _ (Transition.completing id now s done) v =
    complete_cycle-ConsistentDb id now s done v
Transition-ConsistentDb _ _ (Transition.abandoning s) v = abandon_active_cycle-ConsistentDb s v
Transition-ConsistentDb _ _ (Transition.recovering now s) v =
    recover_interrupted_cycle-ConsistentDb now s v

-- In every state that the operations reach from the empty database, no table has two active runs,
-- identifiers of cycles are unique, one cycle at most is active, and a COMPLETED cycle is not active
-- and has only delivered tables; where a run is set to an active status only while it is active, a
-- table of a cycle is started or failed only while the cycle is active, and a cycle is completed only
-- once its tables are delivered.
pub Reachable-sound : (s : Db) → Reachable s → IsExclusive s × ConsistentDb s
Reachable-sound _ Reachable.initial =
    (record { at_most_one = λ t. omega arith }, IsConsistent-empty)
Reachable-sound _ (Reachable.after s s' before step) =
    let v = Reachable-sound s before in
    (Transition-IsExclusive s s' step v.0, Transition-ConsistentDb s s' step v.1)

-- ===== src/Source/CycleRunner/Consistent.antt =====
-- A run of the cycle keeps the invariant of the cycles, whatever the surroundings answer, also
-- where it ends by an error.
use mathlib.Core.Path.{subst₂}
use airgap_sync.Base.{
  Bool, Bool-cases, List, Option, String, [], ap, arith, false, inl, inr, none, refl, sym, true, ℕ,
  ◌&&◌, ◌+◌, ◌∙◌, ◌∷◌, ◌≡◌,
}
use airgap_sync.Base.Exec.{Keeps, Keeps-bind, Result, err, ok, ◌>>=◌, ◌>>◌}
use airgap_sync.Base.Rows.{exists_row-update_mono, update_where}
use airgap_sync.Source.CycleRunner.{
  SnapshotResult, Step, Surroundings, World, after_sync, call, call_sync, mark_failed, on_world,
  run_tables, sync_one, unless_delivered, unless_stopped,
}
use airgap_sync.Source.Cycles.{deliver_cycle_table, fail_cycle_table, of_cycle, start_cycle_table}
use airgap_sync.Source.Cycles.Consistent.{IsConsistent, has_active}
use airgap_sync.Source.Cycles.Keeps.{
  ConsistentDb, SameCycles, deliver_cycle_table-ConsistentDb, fail_cycle_table-ConsistentDb,
  start_cycle_table-ConsistentDb,
}
use airgap_sync.Source.Schema.{
  Call, CycleTable, Db, StateError, SyncCycle, TableStatus, is_active_cycle, is_delivered_table,
}

-- What the callback must leave alone: `DeliveryRunner.sync` writes tables, runs and artifacts only.
pub record LeavesCycles (env : Surroundings) : Type 0 where
  pub same : (i : ℕ) (name : String) (s : Db) → SameCycles s (env.sync_table i name s).1

-- The invariant while the cycle `id` is being run.
abbrev pub IsOpen : String → Db → Type 0
IsOpen id s = ConsistentDb s × (has_active id s.sync_cycles ≡ true)

abbrev pub Holds : (Db → Type 0) → World → Type 0
Holds P w = P w.db

IsOpen-same : (id : String) (s s' : Db) → SameCycles s s' → IsOpen id s → IsOpen id s'
IsOpen-same id s s' same h = (
  subst₂ (λ cs es. IsConsistent cs es) (sym same.0) (sym same.1) h.0,
  ap (has_active id) same.0 ∙ h.1,
)

-- An update that leaves the rows of the cycle active.
still_active :
    (id : String) (f : SyncCycle → SyncCycle) (cs : List SyncCycle)
    → ((c : SyncCycle) → (f c).cycle_id ≡ c.cycle_id)
    → ((c : SyncCycle) → is_active_cycle (f c).status ≡ true)
    → has_active id cs ≡ true
    → has_active id (update_where (of_cycle id) f cs) ≡ true
still_active id f cs keeps opens h =
    exists_row-update_mono (λ c. of_cycle id c && is_active_cycle c.status) (of_cycle id) f cs
      (λ c e. ground (arith, keeps c, opens c)) h

pub call-Keeps :
    {A : Type 0} (P : Db → Type 0) (m : Call A)
    → ((s : Db) → P s → P (m s).1)
    → Keeps (Holds P) (call m)
call-Keeps {A = A} P m h w p = go (m w.db) (h w.db p)
  where
    go : (r : Result StateError A × Db) → P r.1 → P (on_world w r).1.db
    go (ok a, s) q = q
    go (err e, s) q = q

start_cycle_table-IsOpen :
    (id name : String) (s : Db) → IsOpen id s → IsOpen id (start_cycle_table id name s).1
start_cycle_table-IsOpen id name s h = (
  start_cycle_table-ConsistentDb id name s h.1 h.0,
  unfold start_cycle_table is_active_cycle in
      still_active id _ s.sync_cycles (λ c. refl) (λ c. refl) h.1,
)

fail_cycle_table-IsOpen :
    (id name : String) (run_id : Option String) (error : String) (at : ℕ) (s : Db)
    → IsOpen id s
    → IsOpen id (fail_cycle_table id name run_id error at s).1
fail_cycle_table-IsOpen id name run_id error at s h = (
  fail_cycle_table-ConsistentDb id name run_id error at s h.1 h.0,
  unfold fail_cycle_table is_active_cycle in
      still_active id _ s.sync_cycles (λ c. refl) (λ c. refl) h.1,
)

deliver_cycle_table-IsOpen :
    (id name run_id : String) (now : ℕ) (s : Db)
    → IsOpen id s
    → IsOpen id (deliver_cycle_table id name run_id now s).1
deliver_cycle_table-IsOpen id name run_id now s h =
    (deliver_cycle_table-ConsistentDb id name run_id now s h.0, unfold deliver_cycle_table in h.1)

module _ (env : Surroundings) (leaves : LeavesCycles env) where
  mark_failed-Keeps :
      (id name : String) (run_id : Option String) (error : String)
      → Keeps (Holds (IsOpen id)) (mark_failed env id name run_id error)
  unfolding mark_failed
  mark_failed-Keeps id name run_id error w h =
      call-Keeps (IsOpen id)
        (fail_cycle_table id name run_id error (env.clock w.asked + env.retry_after_failure))
        (fail_cycle_table-IsOpen id name run_id error _) (record w { asked = w.asked + 1 }) h

  deliver-Keeps :
      (id name : String) (result : SnapshotResult) (rest : Step Unit)
      → Keeps (Holds (IsOpen id)) rest
      → (now : ℕ)
      → Keeps (Holds (IsOpen id)) (call (deliver_cycle_table id name result.run_id now) >> rest)
  deliver-Keeps id name result rest k now =
      Keeps-bind (Holds (IsOpen id)) (call (deliver_cycle_table id name result.run_id now))
        (λ _. rest)
        (call-Keeps (IsOpen id) (deliver_cycle_table id name result.run_id now)
          (deliver_cycle_table-IsOpen id name result.run_id now))
        (λ _. k)

  after_sync-Keeps :
      (id name : String) (rest : Step Unit) (r : Result String SnapshotResult)
      → Keeps (Holds (IsOpen id)) rest
      → Keeps (Holds (IsOpen id)) (after_sync env id name rest r)
  unfolding after_sync
  after_sync-Keeps id name rest (err text) k = mark_failed-Keeps id name none text
  after_sync-Keeps id name rest (ok result) k = by_status result.status
    where
      by_status :
          (status : TableStatus)
          → Keeps (Holds (IsOpen id)) (unless_delivered env id name result status rest)
      by_status TableStatus.delivered = λ w.
          deliver-Keeps id name result rest k (env.clock w.asked) (record w { asked = w.asked + 1 })
      by_status TableStatus.idle = mark_failed-Keeps id name _ _
      by_status _ = mark_failed-Keeps id name _ _

  call_sync-Keeps : (id name : String) → Keeps (Holds (IsOpen id)) (call_sync env name)
  unfolding call_sync
  call_sync-Keeps id name w h =
      IsOpen-same id w.db (env.sync_table w.asked name w.db).1 (leaves.same w.asked name w.db) h

  sync_one-Keeps :
      (id name : String) (rest : Step Unit)
      → Keeps (Holds (IsOpen id)) rest
      → Keeps (Holds (IsOpen id)) (sync_one env id name rest)
  unfolding sync_one
  sync_one-Keeps id name rest k =
      Keeps-bind (Holds (IsOpen id)) (call (start_cycle_table id name))
        (λ _. call_sync env name >>= after_sync env id name rest)
        (call-Keeps (IsOpen id) (start_cycle_table id name) (start_cycle_table-IsOpen id name))
        λ _.
          Keeps-bind (Holds (IsOpen id)) (call_sync env name) (after_sync env id name rest)
            (call_sync-Keeps id name) λ r. after_sync-Keeps id name rest r k

  pub run_tables-Keeps :
      (id : String) (ts : List CycleTable) → Keeps (Holds (IsOpen id)) (run_tables env id ts)
  unfolding run_tables
  run_tables-Keeps id [] w h = h
  run_tables-Keeps id (t ∷ ts) w h =
      let rest = run_tables-Keeps id ts in
      elim (Bool-cases (is_delivered_table t.status)) [
        | inl done ↦ rw done (rest w h)
        | inr more ↦ rw more (by_stop rest (env.stop_is_set w.asked))
      ]
    where
      by_stop :
          Keeps (Holds (IsOpen id)) (run_tables env id ts)
          → (stopped : Bool)
          → IsOpen id
              (unless_stopped env stopped
                (sync_one env id t.table_name (run_tables env id ts))
                (record w { asked = w.asked + 1 })).1.db
      by_stop rest true = h
      by_stop rest false =
          sync_one-Keeps id t.table_name (run_tables env id ts) rest
            (record w { asked = w.asked + 1 }) h

-- ===== src/Source/CycleRunner/Progress.antt =====
-- A run whose tables are all delivered completes its cycle.
use airgap_sync.Base.{
  Bool, Bool-cases, List, String, [], arith, eq_iff, false, if◌then◌else◌, inl, inr, nat_eq, none,
  not, option_eq, refl, some, string_eq, sym, ℕ, ◌&&◌, ◌+◌, ◌==◌, ◌||◌, ◌∙◌, ◌∷◌, ◌≡◌,
}
use airgap_sync.Base.Exec.{ok}
use airgap_sync.Base.Rows.{count_where, select_where, update_where}
use airgap_sync.Source.CycleRunner.{
  SnapshotResult, Step, Surroundings, World, after_sync, run_tables, sync_one,
}
use airgap_sync.Source.CycleRunner.Consistent.{LeavesCycles}
use airgap_sync.Source.Cycles.{cycle_entry, deliver_cycle_table, in_cycle, start_cycle_table}
use airgap_sync.Source.Cycles.Consistent.{undelivered}
use airgap_sync.Source.Schema.{CycleTable, CycleTableStatus, Db, TableStatus, is_delivered_table}

abbrev pub contains : String → List String → Bool
contains name [] = false
contains name (n ∷ ns) = name == n || contains name ns

-- The names of the tables that the loop will not skip.
abbrev pub pending_names : List CycleTable → List String
pending_names [] = []
pending_names (t ∷ ts) =
    if is_delivered_table t.status then pending_names ts else t.table_name ∷ pending_names ts

-- The tables of the cycle that are neither delivered nor named.
abbrev pub left_out : String → List String → List CycleTable → ℕ
left_out id names =
    count_where
      (λ t. in_cycle id t && not (is_delivered_table t.status) && not (contains t.table_name names))

-- The table is started, and then delivered.
abbrev started_entry : CycleTable → CycleTable
started_entry t = record t {
  status = CycleTableStatus.running;
  attempts = t.attempts + 1;
  last_error = none;
}

abbrev delivered_entry : String → ℕ → CycleTable → CycleTable
delivered_entry run_id now t = record t {
  status = CycleTableStatus.delivered;
  last_run_id = some run_id;
  last_error = none;
  delivered_at = some now;
}

left_out-deliver :
    (id n run_id : String) (now : ℕ) (names : List String) (ts : List CycleTable)
    → left_out id (n ∷ names) ts ≡ 0
    → left_out id names (
        update_where
          (cycle_entry id n)
          (delivered_entry run_id now)
          (update_where (cycle_entry id n) started_entry ts))
      ≡ 0
unfolding is_delivered_table
left_out-deliver id n run_id now names [] h = refl
left_out-deliver id n run_id now names (t ∷ ts) h =
    ground (arith, left_out-deliver id n run_id now names ts)

-- At the start of the loop nothing is left out.
left_out-nil : (id : String) (ts : List CycleTable) → left_out id [] ts ≡ undelivered id ts
left_out-nil id [] = refl
left_out-nil id (t ∷ ts) = ground (arith, left_out-nil id ts)

left_out_weaken :
    (id n : String) (names : List String) (ts : List CycleTable)
    → left_out id names ts ≡ 0
    → left_out id (n ∷ names) ts ≡ 0
left_out_weaken id n names [] h = refl
left_out_weaken id n names (t ∷ ts) h = ground (arith, left_out_weaken id n names ts)

pub left_out-pending_names :
    (id : String) (ts : List CycleTable)
    → left_out id (pending_names (select_where (in_cycle id) ts)) ts ≡ 0
left_out-pending_names id [] = refl
left_out-pending_names id (t ∷ ts) = ground (
  arith,
  eq_iff t.table_name t.table_name,
  left_out-pending_names id ts,
  left_out_weaken id t.table_name (pending_names (select_where (in_cycle id) ts)) ts,
)

-- Nobody stops the run, and each table is delivered.
pub record AlwaysDelivers (env : Surroundings) : Type 0 where
  pub never_stops : (i : ℕ) → env.stop_is_set i ≡ false
  pub result : ℕ → String → Db → SnapshotResult
  pub delivers :
      (i : ℕ) (name : String) (s : Db) → (env.sync_table i name s).0 ≡ ok (result i name s)
  pub status : (i : ℕ) (name : String) (s : Db) → (result i name s).status ≡ TableStatus.delivered

module _ (env : Surroundings) (leaves : LeavesCycles env) (good : AlwaysDelivers env) where
  abbrev synced : String → String → World → Db
  synced id name w = (env.sync_table w.asked name (start_cycle_table id name w.db).1).1

  abbrev run_of : String → String → World → String
  run_of id name w = (good.result w.asked name (start_cycle_table id name w.db).1).run_id

  -- The world after one table.
  after_delivery : String → String → World → World
  after_delivery id name w = record {
    db =
        (deliver_cycle_table id name (run_of id name w) (env.clock (w.asked + 1))
          (synced id name w)).1;
    asked = w.asked + 1 + 1;
  }

  sync_one-eq :
      (id name : String) (rest : Step Unit) (w : World)
      → sync_one env id name rest w ≡ rest (after_delivery id name w)
  unfolding sync_one after_delivery start_cycle_table deliver_cycle_table
  sync_one-eq id name rest w =
      let s = (start_cycle_table id name w.db).1 in
      rw (good.delivers w.asked name s, after_sync) (rw (good.status w.asked name s) refl)

  -- One round leaves out no table.
  left_out-after_delivery :
      (id name : String) (names : List String) (w : World)
      → left_out id (name ∷ names) w.db.cycle_tables ≡ 0
      → left_out id names (after_delivery id name w).db.cycle_tables ≡ 0
  unfolding after_delivery start_cycle_table deliver_cycle_table
  left_out-after_delivery id name names w h =
      rw ((leaves.same w.asked name (start_cycle_table id name w.db).1).1) (
        left_out-deliver id name (run_of id name w) (env.clock (w.asked + 1)) names
          w.db.cycle_tables h)

  -- The loop returns, and leaves out no table.
  pub run_tables-delivers :
      (id : String) (ts : List CycleTable) (w : World)
      → left_out id (pending_names ts) w.db.cycle_tables ≡ 0
      → ((run_tables env id ts w).0 ≡ ok tt)
        × (undelivered id (run_tables env id ts w).1.db.cycle_tables ≡ 0)
  unfolding run_tables
  run_tables-delivers id [] w h = (refl, sym (left_out-nil id w.db.cycle_tables) ∙ h)
  run_tables-delivers id (t ∷ ts) w h =
      let w₁ = record w { asked = w.asked + 1 } in
      let rest = run_tables-delivers id ts in
      elim (Bool-cases (is_delivered_table t.status)) [
        | inl done ↦ rw done (rest w (rw done at h))
        | inr more ↦
            rw (more, good.never_stops w.asked)
              (rw (sync_one-eq id t.table_name (run_tables env id ts) w₁) (
                rest (after_delivery id t.table_name w₁)
                  (left_out-after_delivery id t.table_name (pending_names ts) w₁ (rw more at h))))
      ]

-- ===== src/Source/CycleRunner/Run.antt =====
-- The whole run: from the choice of the cycle to its completion.
use mathlib.Core.Path.{subst}
use airgap_sync.Base.{
  Bool, List, Option, Option-cases, String, [], all_of, arith, eq_iff, false, inl, inr, none, refl,
  some, sym, true, ℕ, ◌+◌, ◌∷◌, ◌≡◌,
}
use airgap_sync.Base.Exec.{Result, bind_post, continue, err, ok, ◌>>=◌}
use airgap_sync.Base.Rows.{select_where}
use airgap_sync.Source.CycleRunner.{
  Surroundings, World, assert_some, call, choose, complete_if, finish, on_world, run, run_cycle,
  run_tables, view,
}
use airgap_sync.Source.CycleRunner.Consistent.{
  Holds, IsOpen, LeavesCycles, call-Keeps, run_tables-Keeps,
}
use airgap_sync.Source.Cycles.{
  active_cycle, active_row, complete_cycle, create_cycle, created, cycle_tables, in_cycle,
  latest_by, latest_cycle,
}
use airgap_sync.Source.Cycles.Consistent.{has_active, undelivered}
use airgap_sync.Source.Cycles.Creation.{create_cycle-ConsistentDb}
use airgap_sync.Source.Cycles.Keeps.{ConsistentDb, complete_cycle-ConsistentDb}
use airgap_sync.Source.Recovery.{recover_interrupted_cycle}
use airgap_sync.Source.Recovery.Keeps.{recover_interrupted_cycle-ConsistentDb}
use airgap_sync.Source.Schema.{CycleTable, Db, StateError, SyncCycle, is_delivered_table}

-- The choice of the newest active cycle gives one that is active.
has_active-latest :
    (cs : List SyncCycle) (c : SyncCycle)
    → latest_by created (select_where active_row cs) ≡ some c
    → has_active c.cycle_id cs ≡ true
has_active-latest [] c h = cc
has_active-latest (x ∷ xs) c h =
    elim (Option-cases (latest_by created (select_where active_row xs))) [
      | inl end ↦ ground (arith, eq_iff x.cycle_id c.cycle_id)
      | inr (d, e) ↦ ground (arith, eq_iff x.cycle_id c.cycle_id, has_active-latest xs c)
    ]

pub has_active-active_cycle :
    (s : Db) (c : SyncCycle) → active_cycle s ≡ some c → has_active c.cycle_id s.sync_cycles ≡ true
unfolding active_cycle
has_active-active_cycle s c h = has_active-latest s.sync_cycles c h

undelivered-of_all :
    (id : String) (ts : List CycleTable)
    → all_of (λ t. is_delivered_table t.status) (select_where (in_cycle id) ts) ≡ true
    → undelivered id ts ≡ 0
undelivered-of_all id [] h = refl
undelivered-of_all id (t ∷ ts) h = ground (arith, undelivered-of_all id ts)

abbrev IsDone : String → Db → Type 0
IsDone id s = ConsistentDb s × (undelivered id s.cycle_tables ≡ 0)

pub assert_some-db : {A : Type 0} (o : Option A) (w : World) → (assert_some o w).1.db ≡ w.db
assert_some-db none w = refl
assert_some-db (some a) w = refl

module _ (env : Surroundings) (leaves : LeavesCycles env) where
  finish-ConsistentDb :
      (id : String) (w : World) → IsOpen id w.db → ConsistentDb (finish env id w).1.db
  unfolding finish cycle_tables
  finish-ConsistentDb id w h =
      by_test (all_of (λ t. is_delivered_table t.status) (cycle_tables id w.db)) refl
    where
      by_test :
          (b : Bool)
          → all_of (λ t. is_delivered_table t.status) (cycle_tables id w.db) ≡ b
          → ConsistentDb (complete_if env b id w).1.db
      by_test false e = h.0
      by_test true e =
          (call-Keeps (IsDone id) (complete_cycle id (env.clock w.asked))
            (λ s d. (
              complete_cycle-ConsistentDb id (env.clock w.asked) s d.1 d.0,
              unfold complete_cycle in d.1,
            ))
            (record w { asked = w.asked + 1 }) (h.0, undelivered-of_all id w.db.cycle_tables e)).0

  pub run_cycle-ConsistentDb :
      (c : SyncCycle) (w : World) → IsOpen c.cycle_id w.db → ConsistentDb (run_cycle env c w).1.db
  unfolding run_cycle
  run_cycle-ConsistentDb c w h =
      bind_post (Holds (IsOpen c.cycle_id)) (Holds ConsistentDb)
        (run_tables env c.cycle_id (cycle_tables c.cycle_id w.db)) _ w
        (run_tables-Keeps env leaves c.cycle_id (cycle_tables c.cycle_id w.db) w h) (λ w' o. o.0)
        λ _ w' o.
          bind_post (Holds ConsistentDb) (Holds ConsistentDb) (finish env c.cycle_id) _ w'
            (finish-ConsistentDb c.cycle_id w' o) (λ _ v. v)
            λ _ w'' v. subst ConsistentDb (sym (assert_some-db (latest_cycle w''.db) w'')) v

  choose-ConsistentDb :
      (o : Option SyncCycle) (w : World)
      → ConsistentDb w.db
      → active_cycle w.db ≡ o
      → ConsistentDb ((choose env o >>= run_cycle env) w).1.db
  unfolding choose
  choose-ConsistentDb (some c) w v e =
      run_cycle-ConsistentDb c w (v, has_active-active_cycle w.db c e)
  choose-ConsistentDb none w v e =
      created_then (create_cycle id env.enabled_tables now w.db)
        (create_cycle-ConsistentDb id env.enabled_tables now w.db v)
    where
      now : ℕ
      now = env.clock w.asked

      id : String
      id = env.cycle_id now (w.asked + 1)

      started : World
      started = record w { asked = w.asked + 1 + 1 }

      found_then :
          (w' : World) (o : Option SyncCycle)
          → ConsistentDb w'.db
          → active_cycle w'.db ≡ o
          → ConsistentDb (continue (run_cycle env) (assert_some o w')).1.db
      found_then w' none v' e' = v'
      found_then w' (some c) v' e' =
          run_cycle-ConsistentDb c w' (v', has_active-active_cycle w'.db c e')

      created_then :
          (r : Result StateError Unit × Db)
          → ConsistentDb r.1
          → ConsistentDb
              (continue
                (run_cycle env)
                (continue (λ _. view active_cycle >>= assert_some) (on_world started r))).1.db
      created_then (ok a, s) v' = found_then (record started { db = s }) (active_cycle s) v' refl
      created_then (err x, s) v' = v'

  -- `run` keeps the invariant of the cycles: identifiers are unique, one cycle at most is active, and
  -- a COMPLETED cycle is not active and has only DELIVERED tables. It does so whatever the clock, the
  -- stop event and `sync_table` answer, and also where it ends by an error; `sync_table` is only asked
  -- to leave the rows of the cycles and of their tables as they are.
  pub run-ConsistentDb : (w : World) → ConsistentDb w.db → ConsistentDb (run env w).1.db
  unfolding run
  run-ConsistentDb w v =
      let now = env.utcnow w.asked in
      bind_post (Holds ConsistentDb) (Holds ConsistentDb) (call (recover_interrupted_cycle now)) _
        (record w { asked = w.asked + 1 })
        (call-Keeps ConsistentDb (recover_interrupted_cycle now)
          (recover_interrupted_cycle-ConsistentDb now) (record w { asked = w.asked + 1 }) v)
        (λ w' v'. v') λ _ w' v'. choose-ConsistentDb (active_cycle w'.db) w' v' refl

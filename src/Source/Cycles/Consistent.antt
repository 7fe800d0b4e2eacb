-- ===== src/Source/Cycles/Consistent.antt =====
-- The invariant of the cycles: identifiers are unique, one cycle at most is active, and what is
-- COMPLETED has all its tables delivered. Each operation on cycles keeps it.
use mathlib.Core.Path.{subst}
use airgap_sync.Base.{
  Bool, Bool-cases, List, String, [], ap, arith, eq_iff, false, inl, inr, nat_eq, not, option_eq,
  string_eq, sym, true, ℕ, ◌&&◌, ◌==◌, ◌≡◌, ◌≢◌, ◌≤◌, ◌⊎◌,
}
use airgap_sync.Base.Rows.{
  count_where, count_where-update_eq, count_where-update_le, count_where-update_unique, exists_row,
  exists_row-update_eq, exists_row-update_false, update_where,
}
use airgap_sync.Source.Cycles.{active_row, in_cycle, of_cycle}
use airgap_sync.Source.Schema.{
  CycleStatus, CycleTable, SyncCycle, is_active_cycle, is_completed_cycle, is_delivered_table,
}

abbrev pub has_active : String → List SyncCycle → Bool
has_active id = exists_row (λ c. of_cycle id c && is_active_cycle c.status)

abbrev pub has_completed : String → List SyncCycle → Bool
has_completed id = exists_row (λ c. of_cycle id c && is_completed_cycle c.status)

-- The tables of a cycle that are not DELIVERED.
abbrev pub undelivered : String → List CycleTable → ℕ
undelivered id = count_where (λ t. in_cycle id t && not (is_delivered_table t.status))

pub record IsConsistent (cycles : List SyncCycle) (entries : List CycleTable) : Type 0 where
  pub unique : (id : String) → count_where (of_cycle id) cycles ≤ 1
  pub single : count_where active_row cycles ≤ 1
  pub settled :
      (id : String)
      → has_completed id cycles ≡ true
      → (has_active id cycles ≡ false) × (undelivered id entries ≡ 0)

pub IsConsistent-empty : IsConsistent [] []
IsConsistent-empty = record {
  unique = λ id. omega arith;
  single = omega arith;
  settled = λ id h. cc;
}

-- Another cycle's rows stay as they are under an update of the cycle `k`.
module _ (k id : String) (f : SyncCycle → SyncCycle)
    (keeps : (c : SyncCycle) → (f c).cycle_id ≡ c.cycle_id) where
  of_cycle-update :
      (cs : List SyncCycle)
      → count_where (of_cycle id) (update_where (of_cycle k) f cs) ≡ count_where (of_cycle id) cs
  of_cycle-update cs =
      count_where-update_eq (of_cycle id) (of_cycle k) f cs (λ c h. ground (arith, keeps c))

  module _ (other : k ≢ id) where
    has_active-update_ne :
        (cs : List SyncCycle) → has_active id (update_where (of_cycle k) f cs) ≡ has_active id cs
    has_active-update_ne cs =
        exists_row-update_eq _ (of_cycle k) f cs
          (λ c h. ground (arith, keeps c, eq_iff c.cycle_id k, eq_iff c.cycle_id id))

    has_completed-update_ne :
        (cs : List SyncCycle)
        → has_completed id (update_where (of_cycle k) f cs) ≡ has_completed id cs
    has_completed-update_ne cs =
        exists_row-update_eq _ (of_cycle k) f cs
          (λ c h. ground (arith, keeps c, eq_iff c.cycle_id k, eq_iff c.cycle_id id))

-- Another cycle's tables stay as they are under an update of the tables of `k`.
undelivered-update_ne :
    (k id : String) (p : CycleTable → Bool) (g : CycleTable → CycleTable)
    → k ≢ id
    → ((t : CycleTable) → p t ≡ true → t.cycle_id ≡ k)
    → ((t : CycleTable) → (g t).cycle_id ≡ t.cycle_id)
    → (ts : List CycleTable) → undelivered id (update_where p g ts) ≡ undelivered id ts
undelivered-update_ne k id p g ne within keeps ts =
    count_where-update_eq _ p g ts
      (λ t h. ground (arith, within t h, keeps t, eq_iff t.cycle_id id))

not-completed_active :
    (status : CycleStatus) → is_active_cycle status ≡ true → is_completed_cycle status ≡ false
unfolding is_active_cycle is_completed_cycle
not-completed_active status h = ground arith

-- An update that makes every row of the cycle `k` active (RUNNING or RETRY_WAIT), and changes
-- tables of that cycle only.
pub IsConsistent-reopen :
    (k : String) (f : SyncCycle → SyncCycle) (p : CycleTable → Bool) (g : CycleTable → CycleTable)
    → ((c : SyncCycle) → (f c).cycle_id ≡ c.cycle_id)
    → ((c : SyncCycle) → is_active_cycle (f c).status ≡ true)
    → ((t : CycleTable) → p t ≡ true → t.cycle_id ≡ k)
    → ((t : CycleTable) → (g t).cycle_id ≡ t.cycle_id)
    → (cs : List SyncCycle) (ts : List CycleTable) → has_active k cs ≡ true
    → IsConsistent cs ts
    → IsConsistent (update_where (of_cycle k) f cs) (update_where p g ts)
IsConsistent-reopen k f p g keeps opens within keeps_g cs ts active v = record {
  unique = λ id. omega (arith, of_cycle-update k id f keeps cs, v.unique id);
  single =
      omega (
        arith,
        count_where-update_unique active_row (of_cycle k) f cs (v.unique k) active,
        v.single,
      );
  settled = λ id done. elim (Bool-cases (k == id)) [
    | inl same ↦ absurd (reopened id ((eq_iff k id).0 same) done)
    | inr other ↦ elsewhere id (λ e. ground (arith, eq_iff k id)) done
  ];
}
  where
    reopened : (id : String) → k ≡ id → has_completed id (update_where (of_cycle k) f cs) ≡ true → ⊥
    reopened id e done = cc (
      ap (λ x. has_completed x (update_where (of_cycle k) f cs)) e,
      exists_row-update_false (λ c. of_cycle k c && is_completed_cycle c.status) (of_cycle k) f cs
          (λ c h. ground (arith, not-completed_active (f c).status (opens c)))
          (λ c h. ground arith),
    )

    elsewhere :
        (id : String)
        → k ≢ id
        → has_completed id (update_where (of_cycle k) f cs) ≡ true
        → (has_active id (update_where (of_cycle k) f cs) ≡ false)
          × (undelivered id (update_where p g ts) ≡ 0)
    elsewhere id ne done = ground (
      arith,
      has_active-update_ne k id f keeps ne cs,
      has_completed-update_ne k id f keeps ne cs,
      undelivered-update_ne k id p g ne within keeps_g ts,
      v.settled id,
    )

-- An update that makes every row of the cycle `k` COMPLETED or ABANDONED: its tables are
-- delivered, or it is not COMPLETED.
pub IsConsistent-close :
    (k : String) (f : SyncCycle → SyncCycle)
    → ((c : SyncCycle) → (f c).cycle_id ≡ c.cycle_id)
    → ((c : SyncCycle) → is_active_cycle (f c).status ≡ false)
    → (cs : List SyncCycle) (ts : List CycleTable)
    → (((c : SyncCycle) → is_completed_cycle (f c).status ≡ false) ⊎ (undelivered k ts ≡ 0))
    → IsConsistent cs ts
    → IsConsistent (update_where (of_cycle k) f cs) ts
IsConsistent-close k f keeps closes cs ts why v = record {
  unique = λ id. omega (arith, of_cycle-update k id f keeps cs, v.unique id);
  single = omega (
    arith,
    count_where-update_le active_row (of_cycle k) f cs (λ c _ h. cc (closes c)),
    v.single,
  );
  settled = λ id done. elim (Bool-cases (k == id)) [
    | inl same ↦ closed id ((eq_iff k id).0 same) done
    | inr other ↦ elsewhere id (λ e. ground (arith, eq_iff k id)) done
  ];
}
  where
    inactive : has_active k (update_where (of_cycle k) f cs) ≡ false
    inactive =
        exists_row-update_false (λ c. of_cycle k c && is_active_cycle c.status) (of_cycle k) f cs
          (λ c h. ground (arith, closes c)) (λ c h. ground arith)

    delivered :
        (why : ((c : SyncCycle) → is_completed_cycle (f c).status ≡ false) ⊎ (undelivered k ts ≡ 0))
        → has_completed k (update_where (of_cycle k) f cs) ≡ true
        → undelivered k ts ≡ 0
    delivered (inl never) done = cc (
        exists_row-update_false (λ c. of_cycle k c && is_completed_cycle c.status) (of_cycle k) f cs
          (λ c h. ground (arith, never c)) (λ c h. ground arith))
    delivered (inr h) done = h

    closed :
        (id : String)
        → k ≡ id
        → has_completed id (update_where (of_cycle k) f cs) ≡ true
        → (has_active id (update_where (of_cycle k) f cs) ≡ false) × (undelivered id ts ≡ 0)
    closed id e done = (
      cc (inactive, ap (λ x. has_active x (update_where (of_cycle k) f cs)) e),
      subst (λ x. undelivered x ts ≡ 0) e
          (delivered why
            (subst (λ x. has_completed x (update_where (of_cycle k) f cs) ≡ true) (sym e) done)),
    )

    elsewhere :
        (id : String)
        → k ≢ id
        → has_completed id (update_where (of_cycle k) f cs) ≡ true
        → (has_active id (update_where (of_cycle k) f cs) ≡ false) × (undelivered id ts ≡ 0)
    elsewhere id ne done = ground (
      arith,
      has_active-update_ne k id f keeps ne cs,
      has_completed-update_ne k id f keeps ne cs,
      v.settled id,
    )

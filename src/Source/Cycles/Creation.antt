-- ===== src/Source/Cycles/Creation.antt =====
-- `create_cycle` keeps the invariant: it makes a cycle only where none is active, under a fresh
-- identifier.
use mathlib.Core.Path.{subst}
use airgap_sync.Base.{
  Bool-cases, List, Option-cases, String, [], arith, eq_iff, false, inl, inr, nat_eq, none, not,
  option_eq, refl, string_eq, sym, true, ℕ, ◌&&◌, ◌++◌, ◌==◌, ◌∷◌, ◌≡◌, ◌≢◌,
}
use airgap_sync.Base.Exec.{commit_or_restore-keeps}
use airgap_sync.Base.Rows.{
  count_where, count_where-append, count_where-exists, count_where-of_find?-none, exists_row,
  exists_row-append, exists_row-of_none, find?,
}
use airgap_sync.Source.Cycles.{
  active_row, create_cycle, create_cycle_body, cycle_entry, in_cycle, insert_cycle, insert_entries,
  insert_entry, new_cycle, new_entry, of_cycle,
}
use airgap_sync.Source.Cycles.Consistent.{IsConsistent, has_active, has_completed, undelivered}
use airgap_sync.Source.Cycles.Keeps.{ConsistentDb}
use airgap_sync.Source.Schema.{
  CycleTable, Db, SyncCycle, is_active_cycle, is_completed_cycle, is_delivered_table,
}

sync_cycles-insert_entries :
    (k : String) (names : List String) (s : Db)
    → (insert_entries k names s).1.sync_cycles ≡ s.sync_cycles
unfolding insert_entries
sync_cycles-insert_entries k [] s = refl
sync_cycles-insert_entries k (name ∷ names) s = ground (
  arith,
  sync_cycles-insert_entries k names
      (record s { cycle_tables = s.cycle_tables ++ new_entry k name ∷ [] }),
)

undelivered-insert_entries :
    (k id : String) (names : List String) (s : Db)
    → k ≢ id
    → undelivered id (insert_entries k names s).1.cycle_tables ≡ undelivered id s.cycle_tables
unfolding insert_entries
undelivered-insert_entries k id [] s ne = refl
undelivered-insert_entries k id (name ∷ names) s ne = ground (
  arith,
  eq_iff k id,
  undelivered-insert_entries k id names
      (record s { cycle_tables = s.cycle_tables ++ new_entry k name ∷ [] }) ne,
  count_where-append (λ t. in_cycle id t && not (is_delivered_table t.status)) s.cycle_tables
      (new_entry k name ∷ []),
)

IsConsistent-create :
    (k : String) (now : ℕ) (cs : List SyncCycle) (ts ts' : List CycleTable)
    → count_where active_row cs ≡ 0
    → exists_row (of_cycle k) cs ≡ false
    → ((id : String) → k ≢ id → undelivered id ts' ≡ undelivered id ts)
    → IsConsistent cs ts
    → IsConsistent (cs ++ new_cycle k now ∷ []) ts'
unfolding is_active_cycle is_completed_cycle
IsConsistent-create k now cs ts ts' idle fresh others v = record {
  unique = λ id. ground (
    arith,
    eq_iff k id,
    v.unique id,
    count_where-append (of_cycle id) cs (new_cycle k now ∷ []),
    unique_fresh id,
  );
  single = omega (arith, count_where-append active_row cs (new_cycle k now ∷ []), idle);
  settled = λ id done. elim (Bool-cases (k == id)) [
    | inl same ↦ absurd (not_new id ((eq_iff k id).0 same) done)
    | inr other ↦ elsewhere id (λ e. ground (arith, eq_iff k id)) done
  ];
}
  where
    unique_fresh : (id : String) → k ≡ id → count_where (of_cycle id) cs ≡ 0
    unique_fresh id e =
        subst (λ x. count_where (of_cycle x) cs ≡ 0) e (count_where-exists (of_cycle k) cs fresh)

    not_new : (id : String) → k ≡ id → has_completed id (cs ++ new_cycle k now ∷ []) ≡ true → ⊥
    not_new id e done = ground (
      arith,
      exists_row-append (λ c. of_cycle id c && is_completed_cycle c.status) cs
          (new_cycle k now ∷ []),
      exists_row-of_none (of_cycle id) (λ c. is_completed_cycle c.status) cs (unique_fresh id e),
    )

    elsewhere :
        (id : String)
        → k ≢ id
        → has_completed id (cs ++ new_cycle k now ∷ []) ≡ true
        → (has_active id (cs ++ new_cycle k now ∷ []) ≡ false) × (undelivered id ts' ≡ 0)
    elsewhere id ne done = ground (
      arith,
      eq_iff k id,
      exists_row-append (λ c. of_cycle id c && is_completed_cycle c.status) cs
          (new_cycle k now ∷ []),
      exists_row-append (λ c. of_cycle id c && is_active_cycle c.status) cs (new_cycle k now ∷ []),
      others id ne,
      v.settled id,
    )

pub create_cycle-ConsistentDb :
    (k : String) (names : List String) (now : ℕ) (s : Db)
    → ConsistentDb s
    → ConsistentDb (create_cycle k names now s).1
unfolding create_cycle insert_cycle
create_cycle-ConsistentDb k names now s v =
    commit_or_restore-keeps ConsistentDb s (create_cycle_body k names now s) v
      (elim (Option-cases (find? active_row s.sync_cycles)) [
        | inr (c, e) ↦ rw e v
        | inl idle ↦ elim (Bool-cases (exists_row (of_cycle k) s.sync_cycles)) [
          | inl clash ↦ rw (idle, clash) v
          | inr fresh ↦ rw (idle, fresh) (opened idle fresh)
        ]
      ])
  where
    inserted : Db
    inserted = record s { sync_cycles = s.sync_cycles ++ new_cycle k now ∷ [] }

    opened :
        find? active_row s.sync_cycles ≡ none
        → exists_row (of_cycle k) s.sync_cycles ≡ false
        → ConsistentDb (insert_entries k names inserted).1
    opened idle fresh =
        subst (λ cs. IsConsistent cs (insert_entries k names inserted).1.cycle_tables)
          (sym (sync_cycles-insert_entries k names inserted))
          (IsConsistent-create k now s.sync_cycles s.cycle_tables _
            (count_where-of_find?-none active_row s.sync_cycles idle) fresh
            (λ id ne. undelivered-insert_entries k id names inserted ne) v)

-- The runs are left alone.
abbrev SameRuns : Db → Db → Type 0
SameRuns s s' = s'.sync_runs ≡ s.sync_runs

insert_entries-SameRuns :
    (k : String) (names : List String) (s : Db) → SameRuns s (insert_entries k names s).1
unfolding insert_entries insert_entry
insert_entries-SameRuns k [] s = refl
insert_entries-SameRuns k (n ∷ ns) s =
    elim (Bool-cases (exists_row (cycle_entry k n) s.cycle_tables)) [
      | inl clash ↦ rw clash refl
      | inr fresh ↦ rw fresh (
          insert_entries-SameRuns k ns
            (record s { cycle_tables = s.cycle_tables ++ new_entry k n ∷ [] }))
    ]

pub sync_runs-create_cycle :
    (k : String) (names : List String) (now : ℕ) (s : Db)
    → (create_cycle k names now s).1.sync_runs ≡ s.sync_runs
unfolding create_cycle insert_cycle
sync_runs-create_cycle k names now s =
    commit_or_restore-keeps (SameRuns s) s (create_cycle_body k names now s) refl
      (elim (Option-cases (find? active_row s.sync_cycles)) [
        | inr (c, e) ↦ rw e refl
        | inl idle ↦ elim (Bool-cases (exists_row (of_cycle k) s.sync_cycles)) [
          | inl clash ↦ rw (idle, clash) refl
          | inr fresh ↦
              rw (idle, fresh)
                (insert_entries-SameRuns k names
                  (record s { sync_cycles = s.sync_cycles ++ new_cycle k now ∷ [] }))
        ]
      ])

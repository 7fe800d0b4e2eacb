-- ===== src/Source/Migrations/Upgrade.antt =====
-- What `initialize` of `src/airgap_sync/source/state.py` makes of a file of each version.
use airgap_sync.Base.{All, List, String, [], ap, arith, map, none, refl, some, ◌∷◌, ◌≡◌, ◌≤◌}
use airgap_sync.Base.Exec.{ok}
use airgap_sync.Base.Rows.{count_where}
use airgap_sync.Source.Cycles.Consistent.{IsConsistent-empty}
use airgap_sync.Source.Cycles.Keeps.{ConsistentDb}
use airgap_sync.Source.Migrations.{
  StateFile, TableStateV2, initialize, migrated_row, rows_v1, rows_v2, rows_v4,
}
use airgap_sync.Source.Runs.{active_for}
use airgap_sync.Source.Runs.Exclusive.{IsExclusive}
use airgap_sync.Source.Schema.{Db, RunArtifact, SyncRun, TableState, empty_db}

-- The files that the versions of the program leave: no tables yet, or those of version 1, 2, 3 or 4.
pub data Stored : Type 0 where
  no_version version_1 : Stored
  version_2 : List TableStateV2 → Stored
  version_3 : List TableState → List SyncRun → List RunArtifact → Stored
  version_4 : Db → Stored

abbrev pub no_tables : StateFile
no_tables = record {
  version = none;
  table_state = none;
  table_state_v2 = none;
  sync_runs = none;
  run_artifacts = none;
  sync_cycles = none;
  cycle_tables = none;
}

abbrev pub file_of : Stored → StateFile
file_of no_version = no_tables
file_of version_1 = record no_tables { version = some 1; table_state = some rows_v1 }
file_of (version_2 rows) = record no_tables { version = some 2; table_state = some (rows_v2 rows) }
file_of (version_3 tables runs artifacts) = record no_tables {
  version = some 3;
  table_state = some (rows_v4 tables);
  sync_runs = some runs;
  run_artifacts = some artifacts;
}
file_of (version_4 s) = record {
  version = some 4;
  table_state = some (rows_v4 s.table_state);
  table_state_v2 = none;
  sync_runs = some s.sync_runs;
  run_artifacts = some s.run_artifacts;
  sync_cycles = some s.sync_cycles;
  cycle_tables = some s.cycle_tables;
}

-- The columns that version 2 had already.
abbrev pub shared_columns : TableState → TableStateV2
shared_columns t = record {
  table_name = t.table_name;
  current_run_id = t.last_snapshot_run_id;
  status = t.status;
  last_run_id = t.last_run_id;
  last_error = t.last_error;
  created_at = t.created_at;
  updated_at = t.updated_at;
}

-- The database holds what the file held, of version 2 on; a table of version 2 has no delivered run.
abbrev pub Retains : Stored → Db → Type 0
Retains no_version s = s ≡ empty_db
Retains version_1 s = s ≡ empty_db
Retains (version_2 rows) s =
    (map shared_columns s.table_state ≡ rows)
    × All (λ t. t.last_delivered_run_id ≡ none) s.table_state
    × (record s { table_state = [] } ≡ empty_db)
Retains (version_3 tables runs artifacts) s =
    (s.table_state ≡ tables)
    × (s.sync_runs ≡ runs)
    × (s.run_artifacts ≡ artifacts)
    × (s.sync_cycles ≡ [])
    × (s.cycle_tables ≡ [])
Retains (version_4 old) s = s ≡ old

-- What a stored file must hold: its runs leave one active run at most for each table, and its cycles,
-- where it has any, are consistent.
abbrev pub IsSoundStored : Stored → Type 0
IsSoundStored (version_3 tables runs artifacts) =
    (name : String) → count_where (active_for name) runs ≤ 1
IsSoundStored (version_4 s) = IsExclusive s × ConsistentDb s
IsSoundStored _ = Unit

map-shared_columns : (rows : List TableStateV2) → map shared_columns (map migrated_row rows) ≡ rows
map-shared_columns [] = refl
map-shared_columns (r ∷ rs) = ap (λ xs. r ∷ xs) (map-shared_columns rs)

undelivered :
    (rows : List TableStateV2) → All (λ t. t.last_delivered_run_id ≡ none) (map migrated_row rows)
undelivered [] = tt
undelivered (r ∷ rs) = (refl, undelivered rs)

-- The file of version 4 with the database `s` is what `initialize` leaves, and it is left as it is
-- when it is opened again.
abbrev pub OpensAs : Stored → Db → Type 0
OpensAs stored s =
    (initialize (file_of stored) ≡ (ok tt, file_of (version_4 s)))
    × (initialize (file_of (version_4 s)) ≡ (ok tt, file_of (version_4 s)))

-- A sound file of any version is opened without an error, as a file of version 4 that is left as it is
-- when it is opened again. Its database is empty for a new file and one of version 1, and holds what
-- the file held otherwise; it has one active run at most for each table, and its cycles are consistent.
pub initialize_upgrades :
    (stored : Stored)
    → IsSoundStored stored
    → (s : Db) × OpensAs stored s × Retains stored s × IsExclusive s × ConsistentDb s
unfolding initialize
initialize_upgrades no_version v =
    (empty_db, (refl, refl), refl, record { at_most_one = λ t. omega arith }, IsConsistent-empty)
initialize_upgrades version_1 v =
    (empty_db, (refl, refl), refl, record { at_most_one = λ t. omega arith }, IsConsistent-empty)
initialize_upgrades (version_2 rows) v = (
  record empty_db { table_state = map migrated_row rows },
  (refl, refl),
  (map-shared_columns rows, undelivered rows, refl),
  record { at_most_one = λ t. omega arith },
  IsConsistent-empty,
)
initialize_upgrades (version_3 tables runs artifacts) v = (
  record empty_db { table_state = tables; sync_runs = runs; run_artifacts = artifacts },
  (refl, refl),
  (refl, refl, refl, refl, refl),
  record { at_most_one = v },
  IsConsistent-empty,
)
initialize_upgrades (version_4 old) v = (old, (refl, refl), refl, v.0, v.1)

-- ===== src/Source/Snapshot.antt =====
-- `SnapshotRunner` of `src/airgap_sync/source/snapshot.py`: a run from `begin_run` to `complete_run` or
-- `fail_run`, and its body `_generate`. What MySQL, the disk and the clock answer, the text functions on
-- the DDL, SHA-256 and the text of an exception are parameters.
pub mod Valid
pub mod Settled
use airgap_sync.Base.{
  Bool, List, Option, String, [], false, length, nat_eq, none, not, option_eq, some, string_eq,
  sum_of, true, ℕ, ◌&&◌, ◌==◌, ◌||◌, ◌∷◌,
}
use airgap_sync.Base.Exec.{Exec, Result, err, modify, ok, pure, raise, raise_if, ◌>>=◌, ◌>>◌}
use airgap_sync.Common.Manifest.{Manifest, protocol_version, run_type_full_snapshot}
use airgap_sync.Common.Verification.{digest_algorithm}
use airgap_sync.Source.CycleRunner.{SnapshotResult}
use airgap_sync.Source.Runs.{Totals, begin_run, complete_run, fail_run, register_table}
use airgap_sync.Source.Scanner.{ScanError, ScanResult, Setting, scan_table}
use airgap_sync.Source.Schema.{Call, Db, StateError, TableStatus}

pub data SnapshotFailure : Type 0 where
  table_not_configured table_not_enabled : SnapshotFailure
  table_check_failed : String → SnapshotFailure
  os_failed : SnapshotFailure
  ddl_unreadable : SnapshotFailure
  scan_failed : ScanError → SnapshotFailure
  schema_changed_during_snapshot row_count_mismatch invalid_columns : SnapshotFailure
  state_failed : StateError → SnapshotFailure

-- The files of the run besides the chunks.
pub record Outbox : Type 0 where
  pub schema_file : Option (List ℕ)
  pub manifest_file : Option Manifest

pub record SnapshotSetting (Row : Type 0) : Type 0 where
  pub scan : Setting Row
  pub columns : List String
  pub batches : List (List Row)
  -- the table in the configuration, with its `enabled`, and the error of `check_table`
  pub configured : Option Bool
  pub table_check : Option String
  pub run_id : String
  pub run_dir : String
  pub database : String
  pub directory_made : Bool
  pub schema_written : Bool
  pub manifest_written : Bool
  pub ddl_before : Option String
  pub ddl_after : Option String
  pub normalize_ddl : String → String
  pub schema_file_bytes : String → List ℕ
  pub sha256 : List ℕ → String
  pub created_at : String
  pub begun_at : ℕ
  pub ended_at : ℕ
  pub registered_at : ℕ
  pub text_of : SnapshotFailure → String

abbrev pub Generating : Type 0 → Type 0
Generating A = Exec Outbox SnapshotFailure A

abbrev pub contains_text : String → List String → Bool
contains_text a [] = false
contains_text a (b ∷ bs) = a == b || contains_text a bs

abbrev all_unique : List String → Bool
all_unique [] = true
all_unique (a ∷ bs) = not (contains_text a bs) && all_unique bs

-- `columns_not_empty_and_unique` of the manifest
abbrev pub columns_valid : List String → Bool
columns_valid [] = false
columns_valid (a ∷ bs) = all_unique (a ∷ bs)

module _ {Row : Type 0} (at : SnapshotSetting Row) (table : String) where
  abbrev pub require : {A : Type 0} → Option A → SnapshotFailure → Generating A
  require none e = raise e
  require (some a) e = pure a

  -- `scan_table`, of which only the result is used here.
  scanned : Result ScanError ScanResult → Generating ScanResult
  scanned (ok scan) = pure scan
  scanned (err e) = raise (scan_failed e)

  abbrev pub manifest_of : List ℕ → ScanResult → Manifest
  manifest_of schema_bytes scan = record {
    protocol_version = protocol_version;
    run_id = at.run_id;
    run_type = run_type_full_snapshot;
    source = record { database = at.database; table = table };
    schema_file = record { file = "schema.sql"; sha256 = at.sha256 schema_bytes };
    columns = scan.columns;
    row_count = scan.verification.row_count;
    chunks = scan.chunks;
    verification = record {
      algorithm = digest_algorithm;
      row_count = scan.verification.row_count;
      digest_a = scan.verification.digest_a;
      digest_b = scan.verification.digest_b;
    };
    created_at = at.created_at;
  }

  -- `_generate`
  unfoldable pub generate : Generating ScanResult
  unfolding scanned
  generate = do
    raise_if (not at.directory_made) os_failed
    ddl_before ← require at.ddl_before ddl_unreadable
    scan ← scanned (scan_table at.scan at.columns at.batches).0
    ddl_after ← require at.ddl_after ddl_unreadable
    raise_if (not (at.normalize_ddl ddl_before == at.normalize_ddl ddl_after))
        schema_changed_during_snapshot
    raise_if (not at.schema_written) os_failed
    modify (λ s. record s { schema_file = some (at.schema_file_bytes ddl_before) })
    raise_if (not (sum_of (λ c. c.rows) scan.chunks == scan.verification.row_count))
        row_count_mismatch
    raise_if (not (columns_valid scan.columns)) invalid_columns
    raise_if (not at.manifest_written) os_failed
    modify (λ s. record s {
      manifest_file = some (manifest_of (at.schema_file_bytes ddl_before) scan);
    })
    pure scan

  abbrev pub scan_totals : ScanResult → Totals
  scan_totals scan = record {
    row_count = scan.verification.row_count;
    chunk_count = length scan.chunks;
    raw_bytes = sum_of (λ c. c.uncompressed_bytes) scan.chunks;
    compressed_bytes = sum_of (λ c. c.compressed_bytes) scan.chunks;
  }

  abbrev failed_result : SnapshotFailure → SnapshotResult
  failed_result e = record {
    table = table;
    run_id = at.run_id;
    status = TableStatus.failed;
    row_count = 0;
    chunk_count = 0;
    raw_bytes = 0;
    compressed_bytes = 0;
    run_dir = at.run_dir;
    error = some (at.text_of e);
  }

  abbrev completed_result : ScanResult → SnapshotResult
  completed_result scan = record {
    table = table;
    run_id = at.run_id;
    status = TableStatus.completed;
    row_count = scan.verification.row_count;
    chunk_count = length scan.chunks;
    raw_bytes = sum_of (λ c. c.uncompressed_bytes) scan.chunks;
    compressed_bytes = sum_of (λ c. c.compressed_bytes) scan.chunks;
    run_dir = at.run_dir;
    error = none;
  }

  -- What follows `_generate`.
  conclude : Result SnapshotFailure ScanResult → Call SnapshotResult
  conclude (err e) = do
    fail_run at.ended_at table at.run_id (at.text_of e) false
    pure (failed_result e)
  conclude (ok scan) = do
    complete_run at.ended_at table at.run_id (scan_totals scan)
    pure (completed_result scan)

  snapshot_run : Call SnapshotResult
  unfolding generate conclude
  snapshot_run = do
    register_table at.registered_at table
    begin_run at.begun_at table at.run_id
    conclude (generate (record { schema_file = none; manifest_file = none })).0

  abbrev as_failure :
      Result StateError SnapshotResult × Db → Result SnapshotFailure SnapshotResult × Db
  as_failure (ok r, s) = (ok r, s)
  as_failure (err e, s) = (err (state_failed e), s)

  -- `snapshot`: its checks come before anything is written.
  checked_run : Option Bool → Option String → Db → Result SnapshotFailure SnapshotResult × Db
  unfolding snapshot_run
  checked_run none code s = (err table_not_configured, s)
  checked_run (some false) code s = (err table_not_enabled, s)
  checked_run (some true) (some code) s = (err (table_check_failed code), s)
  checked_run (some true) none s = as_failure (snapshot_run s)

  unfoldable pub snapshot : Db → Result SnapshotFailure SnapshotResult × Db
  unfolding checked_run
  snapshot s = checked_run at.configured at.table_check s

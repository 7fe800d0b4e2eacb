-- ===== src/Source/Schema.antt =====
-- The tables of the Source state database, src/airgap_sync/source/state.py: status enumerations, row types and
-- the whole database. A point of time is the number of its seconds: the texts that the program
-- stores are all UTC in one fixed-width format, so they compare as these numbers do.
use airgap_sync.Base.{Bool, List, Option, String, [], false, true, ℕ}
use airgap_sync.Base.Exec.{Exec, Result, err, ok, transaction}

pub data TableStatus : Type 0 where
  idle running completed delivered failed disk_pressure : TableStatus

pub data RunStatus : Type 0 where
  generating uploading finalizing snapshot_ready delivered failed disk_pressure : RunStatus

pub data UploadStatus : Type 0 where
  pending uploading uploaded failed : UploadStatus

pub data CycleStatus : Type 0 where
  running retry_wait completed abandoned : CycleStatus

pub data CycleTableStatus : Type 0 where
  pending running delivered failed : CycleTableStatus

-- `status IN _ACTIVE_RUN_STATUSES`
unfoldable pub is_active_run : RunStatus → Bool
is_active_run RunStatus.generating = true
is_active_run RunStatus.uploading = true
is_active_run RunStatus.finalizing = true
is_active_run _ = false

-- `status IN ('FAILED','DISK_PRESSURE')`
unfoldable pub is_failed_run : RunStatus → Bool
is_failed_run RunStatus.failed = true
is_failed_run RunStatus.disk_pressure = true
is_failed_run _ = false

-- `status IN ('RUNNING','RETRY_WAIT')`
unfoldable pub is_active_cycle : CycleStatus → Bool
is_active_cycle CycleStatus.running = true
is_active_cycle CycleStatus.retry_wait = true
is_active_cycle _ = false

-- `status='COMPLETED'`
unfoldable pub is_completed_cycle : CycleStatus → Bool
is_completed_cycle CycleStatus.completed = true
is_completed_cycle _ = false

-- `status='RUNNING'` and `status == "DELIVERED"` of a table in a cycle
unfoldable pub is_running_table : CycleTableStatus → Bool
is_running_table CycleTableStatus.running = true
is_running_table _ = false

unfoldable pub is_delivered_table : CycleTableStatus → Bool
is_delivered_table CycleTableStatus.delivered = true
is_delivered_table _ = false

pub record TableState : Type 0 where
  pub table_name : String
  pub last_snapshot_run_id : Option String
  pub last_delivered_run_id : Option String
  pub status : TableStatus
  pub last_run_id : Option String
  pub last_error : Option String
  pub created_at : ℕ
  pub updated_at : ℕ

pub record SyncRun : Type 0 where
  pub run_id : String
  pub table_name : String
  pub status : RunStatus
  pub created_at : ℕ
  pub snapshot_completed_at : Option ℕ
  pub delivered_at : Option ℕ
  pub row_count : Option ℕ
  pub chunk_count : Option ℕ
  pub raw_bytes : Option ℕ
  pub compressed_bytes : Option ℕ
  pub last_error : Option String

-- The program writes three kinds of artifact.
pub data ArtifactKind : Type 0 where
  chunk schema manifest : ArtifactKind

pub record RunArtifact : Type 0 where
  pub run_id : String
  pub kind : ArtifactKind
  pub sequence : Option ℕ
  pub logical_name : String
  pub transport_name : String
  pub size : ℕ
  pub sha256 : String
  pub upload_status : UploadStatus
  pub attempts : ℕ
  pub request_id : Option String
  pub last_error : Option String
  pub uploaded_at : Option ℕ
  pub cleanup_error : Option String
  pub created_at : ℕ

pub record SyncCycle : Type 0 where
  pub cycle_id : String
  pub status : CycleStatus
  pub created_at : ℕ
  pub started_at : Option ℕ
  pub completed_at : Option ℕ
  pub next_attempt_at : Option ℕ
  pub last_error : Option String

pub record CycleTable : Type 0 where
  pub cycle_id : String
  pub table_name : String
  pub status : CycleTableStatus
  pub attempts : ℕ
  pub last_run_id : Option String
  pub last_error : Option String
  pub delivered_at : Option ℕ

pub record Db : Type 0 where
  pub table_state : List TableState
  pub sync_runs : List SyncRun
  pub run_artifacts : List RunArtifact
  pub sync_cycles : List SyncCycle
  pub cycle_tables : List CycleTable

-- What `_create_v4` leaves.
abbrev pub empty_db : Db
empty_db = record {
  table_state = [];
  sync_runs = [];
  run_artifacts = [];
  sync_cycles = [];
  cycle_tables = [];
}

-- `StateError` by its message, and `sqlite3.IntegrityError`, which a broken primary key or UNIQUE
-- raises. `operation_failed` is that error as `_execute` wraps it.
pub data StateError : Type 0 where
  active_run : String → String → StateError
  not_registered : String → StateError
  active_cycle_exists : String → StateError
  no_active_cycle : StateError
  integrity_error : StateError
  operation_failed : StateError

abbrev pub Call : Type 0 → Type 0
Call A = Exec Db StateError A

abbrev wrap_error : StateError → StateError
wrap_error StateError.integrity_error = StateError.operation_failed
wrap_error e = e

abbrev wrap_result : {A : Type 0} → Result StateError A × Db → Result StateError A × Db
wrap_result (ok a, s) = (ok a, s)
wrap_result (err e, s) = (err (wrap_error e), s)

-- `SourceState._execute`: one statement in a transaction of its own.
abbrev pub execute : {A : Type 0} → Call A → Call A
execute m s = wrap_result (transaction m s)

-- ===== src/Destination/Database.antt =====
-- The Destination database as `DestinationMySQLConnection` of src/airgap_sync/destination/mysql.py sees it: the metadata
-- tables, the tables of the configured database, and the incoming files. A point of time is a number.
pub mod Statements
pub mod Runs
pub mod Chunks
pub mod Versions
pub mod Catalog
pub mod Monitoring
pub mod Stable
pub mod Returns
pub mod Rules
use airgap_sync.Base.{
  Bool, List, Option, String, false, nat_eq, option_eq, string_eq, true, ℕ, ◌&&◌, ◌==◌,
}
use airgap_sync.Base.Rows.{update_where}
use airgap_sync.Common.Manifest.{protocol_version}
use airgap_sync.Common.RowCodec.{Integer, Value}

pub data RunState : Type 0 where
  validated importing staged verifying mismatch superseded swapping verified failed : RunState

pub data ChunkState : Type 0 where
  pending importing imported failed : ChunkState

-- `status IN ('VALIDATED','IMPORTING','STAGED','VERIFYING','SWAPPING')`
unfoldable pub is_active_state : RunState → Bool
is_active_state RunState.mismatch = false
is_active_state RunState.superseded = false
is_active_state RunState.verified = false
is_active_state RunState.failed = false
is_active_state _ = true

-- status='VERIFIED', status='SUPERSEDED', status='SWAPPING', status IN ('MISMATCH','FAILED')
unfoldable pub is_verified : RunState → Bool
is_verified RunState.verified = true
is_verified _ = false

unfoldable pub is_superseded : RunState → Bool
is_superseded RunState.superseded = true
is_superseded _ = false

unfoldable pub is_swapping : RunState → Bool
is_swapping RunState.swapping = true
is_swapping _ = false

unfoldable pub is_problem : RunState → Bool
is_problem RunState.mismatch = true
is_problem RunState.failed = true
is_problem _ = false

-- status='IMPORTED'
unfoldable pub is_imported : ChunkState → Bool
is_imported ChunkState.imported = true
is_imported _ = false

-- A row of the table `runs`; a `RunRecord` and a `MonitoringRunRecord` are some of its columns.
pub record RunRow : Type 0 where
  pub run_id : String
  pub source_database : String
  pub table_name : String
  pub status : RunState
  pub protocol_version : ℕ
  pub row_count : ℕ
  pub chunk_count : ℕ
  pub staging_table : String
  pub source_created_at : Option ℕ
  pub expected_digest_a : Option String
  pub expected_digest_b : Option String
  pub actual_row_count : Option ℕ
  pub actual_digest_a : Option String
  pub actual_digest_b : Option String
  pub digest_verified_at : Option ℕ
  pub target_existed : Option Bool
  pub backup_table : Option String
  pub applied_at : Option ℕ
  pub cleanup_error : Option String
  pub backup_cleanup_error : Option String
  pub incoming_cleanup_completed_at : Option ℕ
  pub backup_cleanup_completed_at : Option ℕ
  pub manifest_received_at : ℕ
  pub validated_at : Option ℕ
  pub import_started_at : Option ℕ
  pub import_completed_at : Option ℕ
  pub last_error : Option String
  pub created_at : ℕ
  pub updated_at : ℕ

-- A row of the table `chunks`.
pub record ChunkRow : Type 0 where
  pub run_id : String
  pub sequence : ℕ
  pub logical_name : String
  pub expected_rows : ℕ
  pub compressed_bytes : ℕ
  pub sha256 : String
  pub status : ChunkState
  pub imported_rows : Option ℕ
  pub imported_at : Option ℕ
  pub last_error : Option String

-- A row of the table `table_versions`.
pub record TableVersion : Type 0 where
  pub run_id : String
  pub source_database : String
  pub table_name : String
  pub source_created_at : ℕ
  pub row_count : ℕ
  pub previous_run_id : Option String
  pub previous_row_count : Option ℕ
  pub net_change : Option Integer
  pub verified_at : ℕ
  pub applied_at : ℕ

pub record DestinationColumn : Type 0 where
  pub name : String
  pub extra : String
  pub generation_expression : String

-- information_schema.TABLES.TABLE_TYPE in capitals, for a table or anything else.
pub data ObjectType : Type 0 where
  base_table : ObjectType
  other_type : String → ObjectType

-- An object of the configured database: its columns in the order of ORDINAL_POSITION, and its rows in the
-- order of their insertion, each with all columns.
pub record TableObject : Type 0 where
  pub name : String
  pub kind : ObjectType
  pub engine : String
  pub columns : List DestinationColumn
  pub rows : List (List Value)

-- `steps` counts the calls of the server, of the clock and of the file system; `locks` are the names that the
-- session holds by GET_LOCK; `supports_generation_expression` is what the connection found of it; `files` are the names in the incoming directory.
pub record Destination : Type 0 where
  pub runs : List RunRow
  pub chunks : List ChunkRow
  pub table_versions : List TableVersion
  pub objects : List TableObject
  pub locks : List String
  pub supports_generation_expression : Option Bool
  pub files : List String
  pub steps : ℕ

abbrev pub set_runs : (RunRow → Bool) → (RunRow → RunRow) → Destination → Destination
set_runs p f s = record s { runs = update_where p f s.runs }

abbrev pub set_chunks : (ChunkRow → Bool) → (ChunkRow → ChunkRow) → Destination → Destination
set_chunks p f s = record s { chunks = update_where p f s.chunks }

abbrev pub of_run_id : String → RunRow → Bool
of_run_id id r = r.run_id == id

abbrev pub of_chunk : String → ℕ → ChunkRow → Bool
of_chunk id sequence c = c.run_id == id && c.sequence == sequence

abbrev pub of_source : String → String → TableVersion → Bool
of_source database table v = v.source_database == database && v.table_name == table

abbrev pub named : String → TableObject → Bool
named name o = o.name == name

-- ===== src/Destination/Processor.antt =====
-- The processor of a run, src/airgap_sync/destination/processor.py: its settings, the verifier, the order of versions and the
-- removal of incoming files. The children hold the import of chunks (Import), the staging (Stage), the
-- promotion and its recovery (Promote), the cleanups (Cleanup) and the whole run (Process).
-- The progress file and the log are left out.
pub mod Import
pub mod Stage
pub mod Cleanup
pub mod Promote
pub mod Process
pub mod Keeps
pub mod History
pub mod Locks
pub mod Live
use Prim.Native.String.{◌++◌ as str_append}
use airgap_sync.Base.{
  Bool, List, Option, String, [], false, if◌then◌else◌, ltb, nat_eq, none, not, option_eq, some,
  string_eq, suc, true, zero, ℕ, ◌&&◌, ◌==◌, ◌∷◌,
}
use airgap_sync.Base.Exec.{Result, err, gets, ok, pure, raise}
use airgap_sync.Base.Rows.{select_where}
use airgap_sync.Common.Manifest.{Manifest, VerificationMeta}
use airgap_sync.Common.RowCodec.{CodecError, Library, Value, and_next, encode_row}
use airgap_sync.Common.Transport.{transport_filename}
use airgap_sync.Common.Verification.{
  Bytes, Hashes, VerificationSummary, new_digest, summary, update_rows,
}
use airgap_sync.Destination.Database.{Destination, RunRow, RunState, TableVersion}
use airgap_sync.Destination.Database.Catalog.{stream_table_columns}
use airgap_sync.Destination.Database.Runs.{get_run, or_raise, run_missing, set_superseded}
use airgap_sync.Destination.Database.Statements.{
  Call, DbFailure, Server, destination_error, driver_error, mysql_error, os_error, other_exception,
  outcome, schema_error, ◌>>=◌, ◌>>◌,
}
use airgap_sync.Destination.Database.Versions.{latest_version}
use airgap_sync.Destination.Discovery.{candidate}
use airgap_sync.Destination.Incoming.{Incoming, chunk_paths}

-- What the processor is given, and the library functions that it calls.
pub record Setting : Type 0 where
  pub server : Server
  -- what the files of the incoming directory hold
  pub incoming : List String → Incoming
  -- the lines of a decompressed chunk; `none` is where reading it raises
  pub chunk_lines : String → List (Option Bytes)
  pub read_schema : String → Option String
  -- `rewrite_create_table_target`: a statement, or the code of a `SchemaError`
  pub rewrite : String → String → String → Result String String
  pub codec : Library
  pub hashes : Hashes
  -- `parse_source_created_at` of a valid text, and `parse_transport_filename`
  pub read_time : String → ℕ
  pub parse_name : String → Option (String × String)
  -- `"GENERATED" in extra.upper()`, `engine.upper() == "INNODB"`
  pub says_generated : String → Bool
  pub is_innodb : String → Bool
  -- `hashlib.sha256(text.encode()).hexdigest()`, and the letters and digits of a text, in small letters
  pub hex_sha256 : String → String
  pub safe_text : String → String
  pub insert_batch_rows : ℕ

-- text[:n]
take_text : ℕ → String → String
take_text zero t = ""
take_text (suc n) String.[] = ""
take_text (suc n) (String.◌∷◌ c t) = String.◌∷◌ c (take_text n t)

-- The validated run: the manifest and the paths of its files.
pub record ValidatedRun : Type 0 where
  pub manifest : Manifest
  pub manifest_path : String
  pub schema_path : String
  pub chunk_paths : List String

pub data VersionRelation : Type 0 where
  no_previous same_run newer older same_timestamp_different_run : VersionRelation

pub record VersionOrdering : Type 0 where
  pub relation : VersionRelation
  pub latest : Option TableVersion

-- The statuses of a run, and those that only a result has.
pub data ResultStatus : Type 0 where
  run_status : RunState → ResultStatus
  incomplete busy : ResultStatus

pub record ProcessResult : Type 0 where
  pub run_id : String
  pub status : ResultStatus
  pub table : Option String
  pub staging_table : Option String
  pub rows : ℕ
  pub chunks : ℕ
  pub error : Option String

unfoldable pub result_of : RunRow → ProcessResult
result_of run = record {
  run_id = run.run_id;
  status = run_status run.status;
  table = some run.table_name;
  staging_table = some run.staging_table;
  rows = run.row_count;
  chunks = run.chunk_count;
  error = none;
}

-- except (DestinationError, DestinationMySQLError, SchemaError)
unfoldable pub is_listed : DbFailure → Bool
is_listed (destination_error code) = true
is_listed (schema_error code) = true
is_listed (mysql_error text) = true
is_listed _ = false

-- except DestinationMySQLError
unfoldable pub is_mysql : DbFailure → Bool
is_mysql (mysql_error text) = true
is_mysql _ = false

-- except (OSError, DestinationMySQLError), except OSError
unfoldable pub is_os : DbFailure → Bool
is_os os_error = true
is_os _ = false

-- str(exc)
unfoldable pub message_of : DbFailure → String
message_of (destination_error code) = code
message_of (schema_error code) = code
message_of (mysql_error text) = text
message_of os_error = "OSError"
message_of driver_error = "pymysql.Error"
message_of other_exception = "Exception"

module _ {A : Type 0} where
  abbrev pub caught :
      (DbFailure → Bool)
      → (DbFailure → Call A)
      → Result DbFailure A × Destination
      → Result DbFailure A × Destination
  caught test handler (ok a, s) = (ok a, s)
  caught test handler (err e, s) = if test e then handler e s else (err e, s)

  -- try: body, except the tested: handler
  unfoldable pub catch : (DbFailure → Bool) → Call A → (DbFailure → Call A) → Call A
  catch test body handler s = caught test handler (body s)

  abbrev pub settled :
      Result DbFailure A → Result DbFailure Unit × Destination → Result DbFailure A × Destination
  settled r (ok u, s) = (r, s)
  settled r (err e, s) = (err e, s)

  -- try: body, finally: cleanup
  unfoldable pub finally : Call A → Call Unit → Call A
  finally body cleanup s = let (r, s') = body s in settled r (cleanup s')

-- The three comparisons of `_matches` and of `_recover_swap`.
unfoldable pub same_summary : VerificationMeta → VerificationSummary → Bool
same_summary expected found =
    found.row_count == expected.row_count
    && found.digest_a == expected.digest_a
    && found.digest_b == expected.digest_b

unfoldable pub relation_to : String → ℕ → Option TableVersion → VersionRelation
relation_to run_id source_time none = no_previous
relation_to run_id source_time (some latest) =
    if latest.run_id == run_id
    then same_run
    else if ltb source_time latest.source_created_at
    then older
    else if source_time == latest.source_created_at
    then same_timestamp_different_run
    else newer

module _ (at : Setting) where
  derived_name : String → String → String
  unfolding take_text
  derived_name prefix run_id = take_text 64 (
      str_append prefix (
        str_append (take_text 40 (at.safe_text run_id))
          (str_append "_" (take_text 8 (at.hex_sha256 run_id)))))

  pub staging_table_name : String → String
  unfolding derived_name
  staging_table_name run_id = derived_name "__airgap_stg_" run_id

  unfoldable pub backup_table_name : String → String
  unfolding derived_name
  backup_table_name run_id = derived_name "__airgap_old_" run_id

  lock_name : String → String → String
  unfolding take_text
  lock_name prefix identity = str_append prefix (take_text 40 (at.hex_sha256 identity))

  pub run_lock : String → String
  unfolding lock_name
  run_lock run_id = lock_name "airgap:" run_id

  pub table_lock : String → String → String
  unfolding lock_name
  table_lock database table =
      lock_name "airgap-table:" (str_append database (str_append "\0" table))

  -- digest.update(encode_row(row)) for the rows
  abbrev pub encoded_rows : List (List Value) → Result CodecError (List Bytes)
  encoded_rows [] = ok []
  encoded_rows (row ∷ rows) = and_next ◌∷◌ (encode_row at.codec row) (encoded_rows rows)

  abbrev pub or_other : {A : Type 0} → Result CodecError A → Call A
  or_other (ok a) = pure a
  or_other (err e) = raise other_exception

  unfoldable pub summary_of : List Bytes → VerificationSummary
  unfolding summary update_rows
  summary_of rows = summary (update_rows at.hashes rows new_digest)

  -- `DestinationVerifier.verify`
  unfoldable pub verify : String → List String → Call VerificationSummary
  unfolding stream_table_columns summary_of
  verify table columns = do
    rows ← stream_table_columns at.server table columns
    encoded ← or_other (encoded_rows rows)
    pure (summary_of encoded)

  unfoldable pub compare_run_to_latest_version : String → String → String → ℕ → Call VersionOrdering
  unfolding latest_version relation_to
  compare_run_to_latest_version run_id database table source_time = do
    latest ← latest_version at.server database table
    pure (record { relation = relation_to run_id source_time latest; latest = latest })

  abbrev pub after_comparison : String → VersionRelation → Call Unit
  after_comparison run_id older = set_superseded at.server run_id
  after_comparison run_id same_timestamp_different_run =
      raise (destination_error "RUN_ORDER_AMBIGUOUS")
  after_comparison run_id _ = pure tt

  unfoldable pub ordering : String → String → String → ℕ → Call VersionOrdering
  unfolding compare_run_to_latest_version set_superseded
  ordering run_id database table source_time = do
    found ← compare_run_to_latest_version run_id database table source_time
    after_comparison run_id found.relation
    pure found

  unfoldable pub require_run : String → Call RunRow
  unfolding get_run
  require_run run_id = do run ← get_run at.server run_id; or_raise run_missing run

  abbrev removed : String → List String → List String
  removed name files = select_where (λ f. not (f == name)) files

  -- path.unlink(missing_ok=True)
  unfoldable pub unlink : String → Call Unit
  unlink name s =
      outcome (at.server.fate s.steps) os_error tt (λ x. record x { files = removed name x.files })
        s

  unfoldable pub unlink_all : List String → Call Unit
  unfolding unlink
  unlink_all [] = pure tt
  unlink_all (f ∷ fs) = let rest = unlink_all fs in unlink f >> rest

  -- candidate_run == run_id and logical != "manifest.json"
  abbrev belongs : String → Option (String × String) → Bool
  belongs run_id none = false
  belongs run_id (some (candidate, logical)) =
      candidate == run_id && not (logical == "manifest.json")

  abbrev artifacts_of : String → Destination → List String
  artifacts_of run_id s = select_where (λ f. belongs run_id (at.parse_name f)) s.files

  -- `_cleanup_incoming`, with the validated run or without it: the manifest first.
  unfoldable pub cleanup_incoming : String → Option ValidatedRun → Call Unit
  unfolding unlink unlink_all transport_filename
  cleanup_incoming run_id (some v) =
      unlink v.manifest_path >> unlink_all (v.schema_path ∷ v.chunk_paths)
  cleanup_incoming run_id none = do
    patterns ← gets (λ s. (at.incoming s.files).patterns)
    manifest ← or_raise other_exception (transport_filename patterns run_id "manifest.json")
    unlink manifest
    rest ← gets (artifacts_of run_id)
    unlink_all rest

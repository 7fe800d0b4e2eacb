-- ===== src/Destination/Processor/Stage.antt =====
-- `_stage`, src/airgap_sync/destination/processor.py.
pub mod Complete
use airgap_sync.Base.{
  Bool, List, Option, String, [], false, if◌then◌else◌, length, map, nat_eq, none, not, option_eq,
  some, string_eq, true, ◌&&◌, ◌==◌, ◌∷◌,
}
use airgap_sync.Base.Exec.{Result, err, ok, pure, raise, raise_if}
use airgap_sync.Common.Manifest.{ChunkMeta, Manifest}
use airgap_sync.Destination.Database.{ChunkState, DestinationColumn, RunRow, is_imported}
use airgap_sync.Destination.Database.Catalog.{
  create_staging_table, staging_columns, storage_engine, table_exists,
}
use airgap_sync.Destination.Database.Chunks.{chunk_status, complete_staged, has_imported_chunks}
use airgap_sync.Destination.Database.Runs.{begin_import, or_raise}
use airgap_sync.Destination.Database.Statements.{
  Call, DbFailure, destination_error, other_exception, schema_error, ◌>>=◌, ◌>>◌,
}
use airgap_sync.Destination.Processor.{Setting, ValidatedRun}
use airgap_sync.Destination.Processor.Import.{import_chunk}

abbrev staging_mismatch : DbFailure
staging_mismatch = destination_error "STAGING_STATE_MISMATCH"

abbrev pub or_schema_error : Result String String → Call String
or_schema_error (ok ddl) = pure ddl
or_schema_error (err code) = raise (schema_error code)

abbrev column_names : List DestinationColumn → List String
column_names columns = map (λ c. c.name) columns

abbrev pub same_names : List String → List String → Bool
same_names [] [] = true
same_names (a ∷ as_) (b ∷ bs) = a == b && same_names as_ bs
same_names _ _ = false

abbrev is_some {ℓ} : {A : Type ℓ} → Option A → Bool
is_some none = false
is_some (some a) = true

module _ (at : Setting) where
  abbrev engine_supported : Option String → Bool
  engine_supported none = false
  engine_supported (some e) = at.is_innodb e

  unfoldable pub import_unless :
      Manifest → ChunkMeta → String → String → List DestinationColumn → ChunkState → Call Unit
  unfolding import_chunk is_imported
  import_unless m c path staging columns status =
      if is_imported status
      then pure tt
      else import_chunk at m.run_id c.sequence path c.rows (length m.columns) staging columns

  -- for chunk, path in zip(manifest.chunks, validated.chunk_paths, strict=True)
  unfoldable pub import_chunks :
      Manifest → String → List DestinationColumn → List ChunkMeta → List String → Call Unit
  unfolding chunk_status import_unless
  import_chunks m staging columns [] [] = pure tt
  import_chunks m staging columns (c ∷ cs) (p ∷ ps) =
      let rest = import_chunks m staging columns cs ps in
      do
        status ← chunk_status at.server m.run_id c.sequence
        import_unless m c p staging columns status
        rest
  import_chunks m staging columns _ _ = raise other_exception

  abbrev pub create_unless : Bool → String → Call Unit
  create_unless true ddl = pure tt
  create_unless false ddl = create_staging_table at.server ddl

  -- existing is not None and not staging_exists and has_imported_chunks(...)
  abbrev pub check_lost : Option RunRow → Bool → String → Call Unit
  check_lost (some run) false run_id = do
    some_imported ← has_imported_chunks at.server run_id
    raise_if some_imported staging_mismatch
  check_lost _ _ run_id = pure tt

  -- What makes the staging table, and what checks it: its columns.
  unfoldable pub staging_ready :
      ValidatedRun → String → Option RunRow → Call (List DestinationColumn)
  unfolding table_exists has_imported_chunks create_staging_table storage_engine staging_columns
  staging_ready v staging existing = do
    ddl ← or_raise (destination_error "INVALID_SCHEMA_DDL") (at.read_schema v.schema_path)
    rewritten ← or_schema_error (at.rewrite ddl v.manifest.source.table staging)
    staging_exists ← table_exists at.server staging
    raise_if (not (is_some existing) && staging_exists) staging_mismatch
    check_lost existing staging_exists v.manifest.run_id
    create_unless staging_exists rewritten
    engine ← storage_engine at.server staging
    raise_if (not (engine_supported engine)) (destination_error "UNSUPPORTED_STORAGE_ENGINE")
    columns ← staging_columns at.server staging
    raise_if (not (same_names (column_names columns) v.manifest.columns))
        (destination_error "STAGING_COLUMN_MISMATCH")
    pure columns

  unfoldable pub stage : ValidatedRun → String → Option RunRow → Call Unit
  unfolding staging_ready begin_import import_chunks complete_staged
  stage v staging existing = do
    columns ← staging_ready v staging existing
    begin_import at.server v.manifest.run_id
    import_chunks v.manifest staging columns v.manifest.chunks v.chunk_paths
    complete_staged at.server v.manifest.run_id v.manifest.row_count

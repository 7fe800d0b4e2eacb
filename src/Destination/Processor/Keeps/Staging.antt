-- ===== src/Destination/Processor/Keeps/Staging.antt =====
-- The import and the staging keep a stable property,
-- src/airgap_sync/destination/processor.py.
use airgap_sync.Base.{
  Bool, List, Option, String, [], false, leb, length, none, some, true, ℕ, ◌+◌, ◌∷◌,
}
use airgap_sync.Base.Exec.{Result, err, ok}
use airgap_sync.Common.Manifest.{ChunkMeta, Manifest}
use airgap_sync.Common.RowCodec.{CodecError, Value, decode_row}
use airgap_sync.Common.Verification.{Bytes}
use airgap_sync.Destination.Database.{Destination, DestinationColumn, RunRow, is_imported}
use airgap_sync.Destination.Database.Stable.{
  IsStable, Kept, Kept-bind, Kept-if, Kept-or_raise, Kept-pure, Kept-raise, Kept-raise_if,
  in_transaction-Kept,
}
use airgap_sync.Destination.Database.Stable.Calls.{
  begin_import-Kept, chunk_status-Kept, complete_staged-Kept, fail_chunk-Kept,
  has_imported_chunks-Kept, set_chunk_imported-Kept, set_chunk_importing-Kept,
}
use airgap_sync.Destination.Database.Stable.Tables.{
  create_staging_table-Kept, insert_rows-Kept, staging_columns-Kept, storage_engine-Kept,
  table_exists-Kept,
}
use airgap_sync.Destination.Database.Statements.{other_exception}
use airgap_sync.Destination.Processor.{Setting, ValidatedRun}
use airgap_sync.Destination.Processor.Import.{
  decoded_line, flush_full, import_chunk, import_lines, of_width,
}
use airgap_sync.Destination.Processor.Keeps.{catch-Kept}
use airgap_sync.Destination.Processor.Stage.{
  check_lost, create_unless, import_chunks, or_schema_error, stage, staging_ready,
}

module _ (P : Destination → Type 0) (st : IsStable P) (at : Setting) where
  of_width-Kept : (width : ℕ) (r : Result CodecError (List Value)) → Kept P (of_width at width r)
  of_width-Kept width (ok row) = Kept-bind (Kept-raise_if _ _) λ _. Kept-pure row
  of_width-Kept width (err e) = Kept-raise other_exception

  decoded_line-Kept : (width : ℕ) (line : Option Bytes) → Kept P (decoded_line at width line)
  unfolding decoded_line
  decoded_line-Kept width none = Kept-raise other_exception
  decoded_line-Kept width (some line) = of_width-Kept width (decode_row at.codec line)

  flush_full-Kept :
      (staging : String) (columns : List String) (batch : List (List Value))
      → Kept P (flush_full at staging columns batch)
  unfolding flush_full
  flush_full-Kept staging columns batch =
      Kept-if (leb at.insert_batch_rows (length batch))
        (Kept-bind (insert_rows-Kept P st at.server staging columns batch) λ _. Kept-pure [])
        (Kept-pure batch)

  import_lines-Kept :
      (width : ℕ) (staging : String) (columns : List DestinationColumn)
      (lines : List (Option Bytes)) (batch : List (List Value)) (n : ℕ)
      → Kept P (import_lines at width staging columns lines batch n)
  unfolding import_lines
  import_lines-Kept width staging columns [] batch n =
      Kept-bind (insert_rows-Kept P st at.server staging _ batch) λ _. Kept-pure n
  import_lines-Kept width staging columns (line ∷ lines) batch n =
      Kept-bind (decoded_line-Kept width line) λ row.
        Kept-bind (flush_full-Kept staging _ _)
          λ rest. import_lines-Kept width staging columns lines rest (n + 1)

  import_chunk-Kept :
      (id : String) (sequence : ℕ) (path : String) (rows width : ℕ) (staging : String)
      (columns : List DestinationColumn)
      → Kept P (import_chunk at id sequence path rows width staging columns)
  unfolding import_chunk
  import_chunk-Kept id sequence path rows width staging columns =
      catch-Kept _
        (in_transaction-Kept P st.steps st.rolled at.server (
          Kept-bind (set_chunk_importing-Kept P st at.server id sequence) λ _.
            Kept-bind (import_lines-Kept width staging columns (at.chunk_lines path) [] 0) λ n.
              Kept-bind (Kept-raise_if _ _)
                λ _. set_chunk_imported-Kept P st at.server id sequence n))
        λ e. Kept-bind (fail_chunk-Kept P st at.server id sequence _) λ _. Kept-raise _

  import_chunks-Kept :
      (m : Manifest) (staging : String) (columns : List DestinationColumn) (cs : List ChunkMeta)
      (paths : List String)
      → Kept P (import_chunks at m staging columns cs paths)
  unfolding import_chunks
  import_chunks-Kept m staging columns [] [] = Kept-pure tt
  import_chunks-Kept m staging columns (c ∷ cs) [] = Kept-raise other_exception
  import_chunks-Kept m staging columns [] (p ∷ ps) = Kept-raise other_exception
  import_chunks-Kept m staging columns (c ∷ cs) (p ∷ ps) =
      Kept-bind (chunk_status-Kept P st at.server m.run_id c.sequence) λ status.
        Kept-bind
          (Kept-if (is_imported status) (Kept-pure tt)
            (import_chunk-Kept m.run_id c.sequence p c.rows (length m.columns) staging columns))
          λ _. import_chunks-Kept m staging columns cs ps

  create_unless-Kept : (there : Bool) (ddl : String) → Kept P (create_unless at there ddl)
  create_unless-Kept true ddl = Kept-pure tt
  create_unless-Kept false ddl = create_staging_table-Kept P st at.server ddl

  check_lost-Kept :
      (o : Option RunRow) (there : Bool) (id : String) → Kept P (check_lost at o there id)
  check_lost-Kept none true id = Kept-pure tt
  check_lost-Kept none false id = Kept-pure tt
  check_lost-Kept (some r) true id = Kept-pure tt
  check_lost-Kept (some r) false id =
      Kept-bind (has_imported_chunks-Kept P st at.server id) λ found. Kept-raise_if found _

  or_schema_error-Kept : (r : Result String String) → Kept P (or_schema_error r)
  or_schema_error-Kept (ok ddl) = Kept-pure ddl
  or_schema_error-Kept (err code) = Kept-raise _

  staging_ready-Kept :
      (v : ValidatedRun) (staging : String) (o : Option RunRow)
      → Kept P (staging_ready at v staging o)
  unfolding staging_ready
  staging_ready-Kept v staging o = Kept-bind (Kept-or_raise _ (at.read_schema v.schema_path)) λ ddl.
      Kept-bind (or_schema_error-Kept (at.rewrite ddl v.manifest.source.table staging)) λ rewritten.
        Kept-bind (table_exists-Kept P st at.server staging) λ there.
          Kept-bind (Kept-raise_if _ _) λ _.
            Kept-bind (check_lost-Kept o there v.manifest.run_id) λ _.
              Kept-bind (create_unless-Kept there rewritten) λ _.
                Kept-bind (storage_engine-Kept P st at.server staging) λ engine.
                  Kept-bind (Kept-raise_if _ _) λ _.
                    Kept-bind (staging_columns-Kept P st at.server staging)
                      λ columns. Kept-bind (Kept-raise_if _ _) λ _. Kept-pure columns

  pub stage-Kept :
      (v : ValidatedRun) (staging : String) (o : Option RunRow) → Kept P (stage at v staging o)
  unfolding stage
  stage-Kept v staging o = Kept-bind (staging_ready-Kept v staging o) λ columns.
      Kept-bind (begin_import-Kept P st at.server v.manifest.run_id) λ _.
        Kept-bind (import_chunks-Kept v.manifest staging columns v.manifest.chunks v.chunk_paths)
          λ _. complete_staged-Kept P st at.server v.manifest.run_id v.manifest.row_count

-- ===== src/Destination/Processor/Import.antt =====
-- `_import_chunk`, src/airgap_sync/destination/processor.py.
pub mod Batches
pub mod Atomic
use airgap_sync.Base.{
  Bool, List, Option, String, [], if◌then◌else◌, leb, length, nat_eq, none, not, option_eq, some,
  string_eq, true, ℕ, ◌++◌, ◌+◌, ◌==◌, ◌∷◌,
}
use airgap_sync.Base.Exec.{Result, err, ok, pure, raise, raise_if}
use airgap_sync.Common.RowCodec.{CodecError, Value, decode_row}
use airgap_sync.Common.Verification.{Bytes}
use airgap_sync.Destination.Database.{DestinationColumn}
use airgap_sync.Destination.Database.Catalog.{generated, insert_rows}
use airgap_sync.Destination.Database.Chunks.{fail_chunk, set_chunk_imported, set_chunk_importing}
use airgap_sync.Destination.Database.Statements.{
  Call, DbFailure, destination_error, in_transaction, other_exception, ◌>>=◌, ◌>>◌,
}
use airgap_sync.Destination.Processor.{Setting, catch, is_listed, message_of}

-- tuple(row[index] for index in insert_indices): the values of the columns that are not generated
unfoldable pub inserted_values : (String → Bool) → List DestinationColumn → List Value → List Value
inserted_values says_generated [] row = []
inserted_values says_generated columns [] = []
inserted_values says_generated (c ∷ cs) (v ∷ vs) =
    let rest = inserted_values says_generated cs vs in
    if generated says_generated c then rest else v ∷ rest

unfoldable pub insert_columns : (String → Bool) → List DestinationColumn → List String
insert_columns says_generated [] = []
insert_columns says_generated (c ∷ cs) =
    let rest = insert_columns says_generated cs in
    if generated says_generated c then rest else c.name ∷ rest

-- isinstance(exc, (DestinationError, DestinationMySQLError, SchemaError)) or a new DestinationError
abbrev pub import_failure : DbFailure → DbFailure
import_failure e = if is_listed e then e else destination_error "CHUNK_IMPORT_FAILED"

module _ (at : Setting) where
  abbrev pub of_width : ℕ → Result CodecError (List Value) → Call (List Value)
  of_width expected_width (ok row) =
      raise_if (not (length row == expected_width)) (destination_error "ROW_WIDTH_MISMATCH")
      >> pure row
  of_width expected_width (err e) = raise other_exception

  abbrev pub line_row : ℕ → Option Bytes → Call (List Value)
  line_row expected_width none = raise other_exception
  line_row expected_width (some line) = of_width expected_width (decode_row at.codec line)

  -- decode_row(line), and the width of the row
  unfoldable pub decoded_line : ℕ → Option Bytes → Call (List Value)
  decoded_line expected_width line = line_row expected_width line

  -- if len(batch) >= insert_batch_rows: insert and clear
  unfoldable pub flush_full : String → List String → List (List Value) → Call (List (List Value))
  unfolding insert_rows
  flush_full staging columns batch =
      if leb at.insert_batch_rows (length batch)
      then insert_rows at.server staging columns batch >> pure []
      else pure batch

  -- The loop over the lines, and the insertion of what is left; it gives the number of decoded rows.
  unfoldable pub import_lines :
      ℕ → String → List DestinationColumn → List (Option Bytes) → List (List Value) → ℕ → Call ℕ
  unfolding decoded_line flush_full insert_rows inserted_values insert_columns
  import_lines expected_width staging columns [] batch decoded_rows = do
    insert_rows at.server staging (insert_columns at.says_generated columns) batch
    pure decoded_rows
  import_lines expected_width staging columns (line ∷ lines) batch decoded_rows = do
    row ← decoded_line expected_width line
    rest ←
        flush_full staging (insert_columns at.says_generated columns)
          (batch ++ (inserted_values at.says_generated columns row ∷ []))
    import_lines expected_width staging columns lines rest (decoded_rows + 1)

  unfoldable pub import_body :
      String → ℕ → String → ℕ → ℕ → String → List DestinationColumn → Call Unit
  unfolding set_chunk_importing import_lines set_chunk_imported
  import_body run_id sequence path expected_rows expected_width staging columns = do
    set_chunk_importing at.server run_id sequence
    decoded_rows ← import_lines expected_width staging columns (at.chunk_lines path) [] 0
    raise_if (not (decoded_rows == expected_rows)) (destination_error "CHUNK_ROW_COUNT_MISMATCH")
    set_chunk_imported at.server run_id sequence decoded_rows

  unfoldable pub import_chunk :
      String → ℕ → String → ℕ → ℕ → String → List DestinationColumn → Call Unit
  unfolding import_body fail_chunk message_of is_listed
  import_chunk run_id sequence path expected_rows expected_width staging columns =
      catch (λ e. true)
        (in_transaction at.server
          (import_body run_id sequence path expected_rows expected_width staging columns))
        (λ e. fail_chunk at.server run_id sequence (message_of e) >> raise (import_failure e))

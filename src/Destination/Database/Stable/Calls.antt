-- ===== src/Destination/Database/Stable/Calls.antt =====
-- Each operation of src/airgap_sync/destination/mysql.py on runs and chunks keeps a stable property.
use airgap_sync.Base.{Bool, List, Option, String, [], none, some, ℕ, ◌∷◌}
use airgap_sync.Base.Rows.{exists_row}
use airgap_sync.Common.Manifest.{ChunkMeta, Manifest}
use airgap_sync.Common.Verification.{VerificationSummary}
use airgap_sync.Destination.Database.{Destination, RunRow, of_chunk, of_run_id}
use airgap_sync.Destination.Database.Chunks.{
  chunk_status, complete_staged, fail_chunk, has_imported_chunks, set_chunk_imported,
  set_chunk_importing,
}
use airgap_sync.Destination.Database.Runs.{
  begin_import, cleanup_pending_runs, fail_run, get_run, get_runs, insert_chunk_row,
  insert_chunk_rows, insert_run_row, prepare_swapping, record_backup_cleanup_error,
  record_cleanup_error, record_verification, register_either, register_existing,
  register_validated_run, set_superseded, set_verifying, update_run,
}
use airgap_sync.Destination.Database.Stable.{
  IsStable, Kept, Kept-bind, Kept-or_raise, Kept-pure, Kept-raise_if, WhenSome-unless, attempt-Kept,
  execute-Kept, fetch-Kept, in_transaction-Kept, utcnow-Kept,
}
use airgap_sync.Destination.Database.Statements.{Server}

module _ (P : Destination → Type 0) (st : IsStable P) (server : Server) where
  pub get_run-Kept : (id : String) → Kept P (get_run server id)
  unfolding get_run
  get_run-Kept id = fetch-Kept P st.steps server _

  get_runs-Kept : (rs : List RunRow) → Kept P (get_runs server rs)
  unfolding get_runs
  get_runs-Kept [] = Kept-pure []
  get_runs-Kept (r ∷ rs) =
      Kept-bind (get_run-Kept r.run_id) λ found. Kept-bind (get_runs-Kept rs) λ others. Kept-pure _

  pub update_run-Kept : (id : String) (f : ℕ → RunRow → RunRow) → Kept P (update_run server id f)
  unfolding update_run
  update_run-Kept id f =
      Kept-bind (utcnow-Kept P st.steps server)
        λ now. execute-Kept P st.steps server _ λ s h. st.runs s _ h

  insert_chunk_rows-Kept :
      (id : String) (cs : List ChunkMeta) → Kept P (insert_chunk_rows server id cs)
  unfolding insert_chunk_rows insert_chunk_row
  insert_chunk_rows-Kept id [] = Kept-pure tt
  insert_chunk_rows-Kept id (c ∷ cs) =
      Kept-bind
        (attempt-Kept P st.steps server _ λ s h.
          WhenSome-unless P (exists_row (of_chunk id c.sequence) s.chunks) _ (st.chunks s _ h))
        λ _. insert_chunk_rows-Kept id cs

  register_existing-Kept :
      (m : Manifest) (staging : String) (created : ℕ) (existing : RunRow)
      → Kept P (register_existing server m staging created existing)
  unfolding register_existing
  register_existing-Kept m staging created existing = Kept-bind (Kept-raise_if _ _) λ _.
      Kept-bind (fetch-Kept P st.steps server _) λ read.
        Kept-bind (Kept-or_raise _ read) λ contract. Kept-bind (Kept-raise_if _ _) λ _.
          Kept-bind (Kept-raise_if _ _) λ _.
            Kept-bind (fetch-Kept P st.steps server _)
              λ stored. Kept-bind (Kept-raise_if _ _) λ _. update_run-Kept m.run_id _

  register_either-Kept :
      (m : Manifest) (staging : String) (created : ℕ) (existing : Option RunRow)
      → Kept P (register_either server m staging created existing)
  unfolding register_either insert_run_row
  register_either-Kept m staging created none = Kept-bind (utcnow-Kept P st.steps server) λ now.
      in_transaction-Kept P st.steps st.rolled server (
        Kept-bind
          (attempt-Kept P st.steps server _
            λ s h. WhenSome-unless P (exists_row (of_run_id m.run_id) s.runs) _ (st.runs s _ h))
          λ _. insert_chunk_rows-Kept m.run_id m.chunks)
  register_either-Kept m staging created (some existing) =
      register_existing-Kept m staging created existing

  pub register_validated_run-Kept :
      (m : Manifest) (staging : String) (created : ℕ)
      → Kept P (register_validated_run server m staging created)
  unfolding register_validated_run
  register_validated_run-Kept m staging created =
      Kept-bind (get_run-Kept m.run_id) (register_either-Kept m staging created)

  pub fail_run-Kept : (id error : String) → Kept P (fail_run server id error)
  unfolding fail_run
  fail_run-Kept id error =
      Kept-bind (utcnow-Kept P st.steps server)
        λ now. execute-Kept P st.steps server _ λ s h. st.runs s _ h

  pub begin_import-Kept : (id : String) → Kept P (begin_import server id)
  unfolding begin_import
  begin_import-Kept id = update_run-Kept id _

  pub set_verifying-Kept : (id : String) → Kept P (set_verifying server id)
  unfolding set_verifying
  set_verifying-Kept id = update_run-Kept id _

  pub set_superseded-Kept : (id : String) → Kept P (set_superseded server id)
  unfolding set_superseded
  set_superseded-Kept id = update_run-Kept id _

  pub record_verification-Kept :
      (id : String) (found : VerificationSummary) (matched : Bool)
      → Kept P (record_verification server id found matched)
  unfolding record_verification
  record_verification-Kept id found matched = update_run-Kept id _

  pub prepare_swapping-Kept :
      (id : String) (existed : Bool) (backup : Option String)
      → Kept P (prepare_swapping server id existed backup)
  unfolding prepare_swapping
  prepare_swapping-Kept id existed backup = update_run-Kept id _

  pub record_cleanup_error-Kept :
      (id : String) (error : Option String) → Kept P (record_cleanup_error server id error)
  unfolding record_cleanup_error
  record_cleanup_error-Kept id error = update_run-Kept id _

  pub record_backup_cleanup_error-Kept :
      (id : String) (error : Option String) → Kept P (record_backup_cleanup_error server id error)
  unfolding record_backup_cleanup_error
  record_backup_cleanup_error-Kept id error = update_run-Kept id _

  pub chunk_status-Kept : (id : String) (sequence : ℕ) → Kept P (chunk_status server id sequence)
  unfolding chunk_status
  chunk_status-Kept id sequence =
      Kept-bind (fetch-Kept P st.steps server _)
        λ row. Kept-bind (Kept-or_raise _ row) λ found. Kept-pure _

  pub has_imported_chunks-Kept : (id : String) → Kept P (has_imported_chunks server id)
  unfolding has_imported_chunks
  has_imported_chunks-Kept id = fetch-Kept P st.steps server _

  pub set_chunk_importing-Kept :
      (id : String) (sequence : ℕ) → Kept P (set_chunk_importing server id sequence)
  unfolding set_chunk_importing
  set_chunk_importing-Kept id sequence = execute-Kept P st.steps server _ λ s h. st.chunks s _ h

  pub set_chunk_imported-Kept :
      (id : String) (sequence rows : ℕ) → Kept P (set_chunk_imported server id sequence rows)
  unfolding set_chunk_imported
  set_chunk_imported-Kept id sequence rows =
      Kept-bind (utcnow-Kept P st.steps server)
        λ now. execute-Kept P st.steps server _ λ s h. st.chunks s _ h

  pub fail_chunk-Kept :
      (id : String) (sequence : ℕ) (error : String) → Kept P (fail_chunk server id sequence error)
  unfolding fail_chunk
  fail_chunk-Kept id sequence error = execute-Kept P st.steps server _ λ s h. st.chunks s _ h

  pub complete_staged-Kept :
      (id : String) (expected : ℕ) → Kept P (complete_staged server id expected)
  unfolding complete_staged
  complete_staged-Kept id expected = Kept-bind (fetch-Kept P st.steps server _) λ totals.
      Kept-bind (get_run-Kept id) λ found. Kept-bind (Kept-raise_if _ _) λ _. update_run-Kept id _

  pub cleanup_pending_runs-Kept : Kept P (cleanup_pending_runs server)
  unfolding cleanup_pending_runs
  cleanup_pending_runs-Kept = Kept-bind (fetch-Kept P st.steps server _) get_runs-Kept

-- ===== src/Destination/Processor/Keeps/Whole.antt =====
-- `process` and the loops over it keep a stable property that does not look at the locks,
-- src/airgap_sync/destination/processor.py.
use airgap_sync.Base.{Bool, List, Option, String, [], false, map, none, some, true, ◌∷◌}
use airgap_sync.Base.Exec.{Result, err, ok}
use airgap_sync.Destination.Database.{Destination, RunRow, is_superseded, is_verified}
use airgap_sync.Destination.Database.Catalog.{unlock}
use airgap_sync.Destination.Database.Stable.{
  IsStable, Kept, Kept-bind, Kept-if, Kept-pure, Kept-raise, execute-Kept,
}
use airgap_sync.Destination.Database.Stable.Calls.{cleanup_pending_runs-Kept, get_run-Kept}
use airgap_sync.Destination.Database.Stable.Tables.{lock-Kept}
use airgap_sync.Destination.Database.Statements.{Call, DbFailure, other_exception}
use airgap_sync.Destination.Incoming.{
  Checked, Rejection, artifact_hash_mismatch, artifact_size_mismatch, chunk_logical_name_mismatch,
  chunk_sequence_gap, invalid_manifest, invalid_run_id, invalid_schema_filename,
  invalid_source_timestamp, manifest_row_count_mismatch, manifest_run_id_mismatch, run_incomplete,
  uncaught_filename_error, unsupported_protocol, unsupported_run_type,
  unsupported_verification_algorithm,
}
use airgap_sync.Destination.Processor.{Setting, ValidatedRun, finally, settled}
use airgap_sync.Destination.Processor.Keeps.{cleanup_superseded-Kept, gets-Kept, retry_cleanup-Kept}
use airgap_sync.Destination.Processor.Keeps.Locked.{guarded-Kept}
use airgap_sync.Destination.Processor.Process.{
  after_validation, by_existing, process, process_all, process_new, process_validated, rejected,
  release_locks, retry_pending_cleanup, with_run_lock, with_table_lock,
}

module _ {A : Type 0} {P : Destination → Type 0} where
  finally-Kept : {m : Call A} {n : Call Unit} → Kept P m → Kept P n → Kept P (finally m n)
  unfolding finally
  finally-Kept {m} {n} km kn = record {
    keeps = λ s h. go (m s).0 (n (m s).1) (kn.keeps (m s).1 (km.keeps s h));
  }
    where
      go :
          (r : Result DbFailure A) (c : Result DbFailure Unit × Destination)
          → P c.1
          → P (settled r c).1
      go r (ok u, s') h = h
      go r (err e, s') h = h

module _ (P : Destination → Type 0) (at : Setting) where
  pub rejected-Kept : (id : String) (e : Rejection) → Kept P (rejected at id e)
  rejected-Kept id uncaught_filename_error = Kept-raise other_exception
  rejected-Kept id manifest_run_id_mismatch = Kept-pure _
  rejected-Kept id invalid_source_timestamp = Kept-pure _
  rejected-Kept id unsupported_protocol = Kept-pure _
  rejected-Kept id unsupported_run_type = Kept-pure _
  rejected-Kept id unsupported_verification_algorithm = Kept-pure _
  rejected-Kept id manifest_row_count_mismatch = Kept-pure _
  rejected-Kept id invalid_schema_filename = Kept-pure _
  rejected-Kept id chunk_sequence_gap = Kept-pure _
  rejected-Kept id chunk_logical_name_mismatch = Kept-pure _
  rejected-Kept id invalid_run_id = Kept-pure _
  rejected-Kept id invalid_manifest = Kept-pure _
  rejected-Kept id run_incomplete = Kept-pure _
  rejected-Kept id artifact_size_mismatch = Kept-pure _
  rejected-Kept id artifact_hash_mismatch = Kept-pure _

module _ (P : Destination → Type 0) (st : IsStable P)
    (locks : (s : Destination) (names : List String) → P s → P (record s { locks = names }))
    (at : Setting) where
  unlock-Kept : (name : String) → Kept P (unlock at.server name)
  unfolding unlock
  unlock-Kept name = execute-Kept P st.steps at.server _ λ s h. locks s _ h

  release_locks-Kept : (v : ValidatedRun) → Kept P (release_locks at v)
  unfolding release_locks
  release_locks-Kept v = Kept-bind (unlock-Kept _) λ _. unlock-Kept _

  with_table_lock-Kept :
      (v : ValidatedRun) (staging : String) (held : Bool)
      → Kept P (with_table_lock at v staging held)
  with_table_lock-Kept v staging true =
      finally-Kept (guarded-Kept P st at v staging) (release_locks-Kept v)
  with_table_lock-Kept v staging false = Kept-bind (unlock-Kept _) λ _. Kept-pure _

  with_run_lock-Kept :
      (v : ValidatedRun) (staging : String) (held : Bool) → Kept P (with_run_lock at v staging held)
  with_run_lock-Kept v staging true =
      Kept-bind (lock-Kept P st at.server _ λ s h. locks s _ h) (with_table_lock-Kept v staging)
  with_run_lock-Kept v staging false = Kept-pure _

  process_validated-Kept : (v : ValidatedRun) → Kept P (process_validated at v)
  unfolding process_validated
  process_validated-Kept v =
      Kept-bind (lock-Kept P st at.server _ λ s h. locks s _ h) (with_run_lock-Kept v _)

  after_validation-Kept :
      (id : String) (found : Checked ValidatedRun) → Kept P (after_validation at id found)
  after_validation-Kept id (ok v) = process_validated-Kept v
  after_validation-Kept id (err e) = rejected-Kept P at id e

  process_new-Kept : (id : String) → Kept P (process_new at id)
  unfolding process_new
  process_new-Kept id = Kept-bind (gets-Kept P st at _) λ found. after_validation-Kept id found

  by_existing-Kept : (id : String) (o : Option RunRow) → Kept P (by_existing at id o)
  by_existing-Kept id none = process_new-Kept id
  by_existing-Kept id (some r) =
      Kept-if (is_verified r.status)
        (Kept-bind (retry_cleanup-Kept P st at r none) λ _. Kept-pure _)
        (Kept-if (is_superseded r.status)
          (Kept-bind (cleanup_superseded-Kept P st at r) λ _. Kept-pure _) (process_new-Kept id))

  pub process-Kept : (id : String) → Kept P (process at id)
  unfolding process
  process-Kept id = Kept-bind (get_run-Kept P st at.server id) (by_existing-Kept id)

  pub process_all-Kept : (ids : List String) → Kept P (process_all at ids)
  unfolding process_all
  process_all-Kept [] = Kept-pure []
  process_all-Kept (id ∷ ids) =
      Kept-bind (process-Kept id) λ first. Kept-bind (process_all-Kept ids) λ others. Kept-pure _

  pub retry_pending_cleanup-Kept : Kept P (retry_pending_cleanup at)
  unfolding retry_pending_cleanup
  retry_pending_cleanup-Kept =
      Kept-bind (cleanup_pending_runs-Kept P st at.server)
        λ rows. process_all-Kept (map (λ r. r.run_id) rows)

-- ===== src/Destination/Processor/Keeps/Locked.antt =====
-- The promotion and the whole run between its locks keep a stable property, src/airgap_sync/destination/processor.py.
use airgap_sync.Base.{Bool, Option, String, false, none, some, true, ℕ}
use airgap_sync.Common.Verification.{VerificationSummary}
use airgap_sync.Destination.Database.{Destination, RunRow, RunState, TableVersion}
use airgap_sync.Destination.Database.Catalog.{is_base}
use airgap_sync.Destination.Database.Stable.{
  IsStable, Kept, Kept-bind, Kept-or_raise, Kept-pure, Kept-raise_if,
}
use airgap_sync.Destination.Database.Stable.Calls.{
  fail_run-Kept, get_run-Kept, prepare_swapping-Kept, record_verification-Kept,
  register_validated_run-Kept, set_verifying-Kept,
}
use airgap_sync.Destination.Database.Stable.Finalize.{finalize_verified-Kept}
use airgap_sync.Destination.Database.Stable.Tables.{
  object_type-Kept, rename_for_promotion-Kept, table_exists-Kept, target_dependencies-Kept,
}
use airgap_sync.Destination.Processor.{
  Setting, ValidatedRun, VersionOrdering, VersionRelation, newer, no_previous, older, same_run,
  same_timestamp_different_run,
}
use airgap_sync.Destination.Processor.Keeps.{
  catch-Kept, cleanup_superseded-Kept, ordering-Kept, require_run-Kept, retry_cleanup-Kept,
  verify-Kept,
}
use airgap_sync.Destination.Processor.Keeps.Staging.{stage-Kept}
use airgap_sync.Destination.Processor.Process.{
  by_status, guarded, matched_end, matches, needs_staging, ordered_end, process_failed,
  process_locked, promoted_end, stage_or_check, superseded_end, unpromoted_end, verify_and_promote,
}
use airgap_sync.Destination.Processor.Promote.{
  check_target, finish_swap, previous_id, promote, recover_swap, swap_ended, swap_finished,
  swap_superseded, type_of_backup,
}

module _ (P : Destination → Type 0) (st : IsStable P) (at : Setting) where
  check_target-Kept :
      (target backup : String) (there : Bool) → Kept P (check_target at target backup there)
  unfolding check_target
  check_target-Kept target backup false = Kept-pure tt
  check_target-Kept target backup true =
      Kept-bind (target_dependencies-Kept P st at.server target) λ both.
        Kept-bind (Kept-raise_if both.0 _) λ _.
          Kept-bind (Kept-raise_if both.1 _)
            λ _. Kept-bind (object_type-Kept P st at.server backup) λ kind. Kept-raise_if _ _

  promote-Kept :
      (id target staging : String) (previous : Option TableVersion)
      → Kept P (promote at id target staging previous)
  unfolding promote
  promote-Kept id target staging previous =
      Kept-bind (object_type-Kept P st at.server target) λ kind. Kept-bind (Kept-raise_if _ _) λ _.
        Kept-bind (check_target-Kept target _ (is_base kind)) λ _.
          Kept-bind (prepare_swapping-Kept P st at.server id (is_base kind) _) λ _.
            Kept-bind (rename_for_promotion-Kept P st at.server staging target _)
              λ _. finalize_verified-Kept P st at.server id (previous_id previous)

  finish_swap-Kept :
      (v : ValidatedRun) (r : RunRow) (before : Bool) (latest : Option TableVersion)
      → Kept P (finish_swap at v r before latest)
  unfolding finish_swap
  finish_swap-Kept v r true latest =
      Kept-bind
        (rename_for_promotion-Kept P st at.server r.staging_table r.table_name r.backup_table)
        λ _. finalize_verified-Kept P st at.server r.run_id (previous_id latest)
  finish_swap-Kept v r false latest =
      Kept-bind (verify-Kept P st at r.table_name v.manifest.columns) λ found.
        Kept-bind (Kept-raise_if _ _) λ _.
          Kept-bind (record_verification-Kept P st at.server r.run_id found true) λ _.
            Kept-bind (prepare_swapping-Kept P st at.server r.run_id _ r.backup_table)
              λ _. finalize_verified-Kept P st at.server r.run_id (previous_id latest)

  stage_or_check-Kept :
      (needed : Bool) (v : ValidatedRun) (staging : String) (o : Option RunRow)
      → Kept P (stage_or_check at needed v staging o)
  stage_or_check-Kept true v staging o = stage-Kept P st at v staging o
  stage_or_check-Kept false v staging o =
      Kept-bind (table_exists-Kept P st at.server staging) λ there. Kept-raise_if _ _

  swap_superseded-Kept : (r : RunRow) → Kept P (swap_superseded at r)
  unfolding swap_superseded
  swap_superseded-Kept r = Kept-bind (require_run-Kept P st at r.run_id) λ current.
      Kept-bind (cleanup_superseded-Kept P st at current)
        λ _. Kept-bind (require_run-Kept P st at r.run_id) λ again. Kept-pure _

  swap_finished-Kept :
      (v : ValidatedRun) (r : RunRow) (before : Bool) (latest : Option TableVersion)
      → Kept P (swap_finished at v r before latest)
  unfolding swap_finished
  swap_finished-Kept v r before latest = Kept-bind (finish_swap-Kept v r before latest) λ _.
      Kept-bind (require_run-Kept P st at r.run_id) λ current.
        Kept-bind (retry_cleanup-Kept P st at current (some v))
          λ _. Kept-bind (require_run-Kept P st at r.run_id) λ again. Kept-pure _

  swap_ended-Kept :
      (v : ValidatedRun) (r : RunRow) (before : Bool) (found : VersionOrdering)
      (relation : VersionRelation)
      → Kept P (swap_ended at v r before found relation)
  swap_ended-Kept v r before found older = swap_superseded-Kept r
  swap_ended-Kept v r before found no_previous = swap_finished-Kept v r before found.latest
  swap_ended-Kept v r before found same_run = swap_finished-Kept v r before found.latest
  swap_ended-Kept v r before found newer = swap_finished-Kept v r before found.latest
  swap_ended-Kept v r before found same_timestamp_different_run =
      swap_finished-Kept v r before found.latest

  type_of_backup-Kept : (o : Option String) → Kept P (type_of_backup at o)
  type_of_backup-Kept none = Kept-pure none
  type_of_backup-Kept (some name) = object_type-Kept P st at.server name

  recover_swap-Kept : (v : ValidatedRun) (r : RunRow) → Kept P (recover_swap at v r)
  unfolding recover_swap
  recover_swap-Kept v r = Kept-bind (object_type-Kept P st at.server r.table_name) λ target_type.
      Kept-bind (object_type-Kept P st at.server r.staging_table) λ staging_type.
        Kept-bind (type_of_backup-Kept r.backup_table) λ backup_type.
          Kept-bind (Kept-raise_if _ _) λ _.
            Kept-bind (Kept-or_raise _ r.source_created_at) λ made_at.
              Kept-bind (ordering-Kept P st at r.run_id r.source_database r.table_name made_at)
                λ found. swap_ended-Kept v r _ found found.relation

  superseded_end-Kept : (v : ValidatedRun) → Kept P (superseded_end at v)
  unfolding superseded_end
  superseded_end-Kept v =
      Kept-bind (require_run-Kept P st at v.manifest.run_id)
        λ r. Kept-bind (cleanup_superseded-Kept P st at r) λ _. Kept-pure _

  promoted_end-Kept :
      (v : ValidatedRun) (staging : String) (latest : Option TableVersion)
      → Kept P (promoted_end at v staging latest)
  unfolding promoted_end
  promoted_end-Kept v staging latest =
      Kept-bind (promote-Kept v.manifest.run_id v.manifest.source.table staging latest) λ _.
        Kept-bind (require_run-Kept P st at v.manifest.run_id)
          λ r. Kept-bind (retry_cleanup-Kept P st at r (some v)) λ _. Kept-pure _

  ordered_end-Kept :
      (v : ValidatedRun) (staging : String) (found : VersionOrdering) (relation : VersionRelation)
      → Kept P (ordered_end at v staging found relation)
  ordered_end-Kept v staging found older = superseded_end-Kept v
  ordered_end-Kept v staging found no_previous = promoted_end-Kept v staging found.latest
  ordered_end-Kept v staging found same_run = promoted_end-Kept v staging found.latest
  ordered_end-Kept v staging found newer = promoted_end-Kept v staging found.latest
  ordered_end-Kept v staging found same_timestamp_different_run =
      promoted_end-Kept v staging found.latest

  matched_end-Kept :
      (v : ValidatedRun) (staging : String) (time : ℕ) (found : VerificationSummary)
      (matched : Bool)
      → Kept P (matched_end at v staging time found matched)
  unfolding matched_end
  matched_end-Kept v staging time found false = Kept-pure _
  matched_end-Kept v staging time found true =
      Kept-bind (ordering-Kept P st at v.manifest.run_id _ _ time)
        λ order. ordered_end-Kept v staging order order.relation

  unpromoted_end-Kept :
      (v : ValidatedRun) (staging : String) (time : ℕ) (o : Option RunRow) (status : RunState)
      → Kept P (unpromoted_end at v staging time o status)
  unfolding unpromoted_end verify_and_promote matches
  unpromoted_end-Kept v staging time o status =
      Kept-bind (stage_or_check-Kept (needs_staging status) v staging o) λ _.
        Kept-bind (set_verifying-Kept P st at.server v.manifest.run_id) λ _.
          Kept-bind (verify-Kept P st at staging v.manifest.columns) λ found.
            Kept-bind
              (Kept-bind (record_verification-Kept P st at.server v.manifest.run_id found _)
                λ _. Kept-pure _)
              λ matched. matched_end-Kept v staging time found matched

  by_status-Kept :
      (v : ValidatedRun) (staging : String) (time : ℕ) (o : Option RunRow) (r : RunRow)
      (status : RunState)
      → Kept P (by_status at v staging time o r status)
  by_status-Kept v staging time o r RunState.verified =
      Kept-bind (retry_cleanup-Kept P st at r none) λ _. Kept-pure _
  by_status-Kept v staging time o r RunState.mismatch = Kept-pure _
  by_status-Kept v staging time o r RunState.superseded = Kept-pure _
  by_status-Kept v staging time o r RunState.swapping = recover_swap-Kept v r
  by_status-Kept v staging time o r RunState.validated = unpromoted_end-Kept v staging time o _
  by_status-Kept v staging time o r RunState.importing = unpromoted_end-Kept v staging time o _
  by_status-Kept v staging time o r RunState.staged = unpromoted_end-Kept v staging time o _
  by_status-Kept v staging time o r RunState.verifying = unpromoted_end-Kept v staging time o _
  by_status-Kept v staging time o r RunState.failed = unpromoted_end-Kept v staging time o _

  process_locked-Kept : (v : ValidatedRun) (staging : String) → Kept P (process_locked at v staging)
  unfolding process_locked
  process_locked-Kept v staging = Kept-bind (get_run-Kept P st at.server v.manifest.run_id) λ o.
      Kept-bind (register_validated_run-Kept P st at.server v.manifest staging _) λ _.
        Kept-bind (require_run-Kept P st at v.manifest.run_id)
          λ r. by_status-Kept v staging _ o r r.status

  -- Whatever `_process_locked` and the handler of `process` do.
  pub guarded-Kept : (v : ValidatedRun) (staging : String) → Kept P (guarded at v staging)
  unfolding guarded process_failed
  guarded-Kept v staging = catch-Kept _ (process_locked-Kept v staging) λ e.
      Kept-bind (catch-Kept _ (fail_run-Kept P st at.server v.manifest.run_id _) λ x. Kept-pure tt)
        λ _. Kept-pure _

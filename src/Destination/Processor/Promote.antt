-- ===== src/Destination/Processor/Promote.antt =====
-- `_promote` and `_recover_swap`, src/airgap_sync/destination/processor.py.
pub mod Recoverable
pub mod Intent
use airgap_sync.Base.{Bool, Option, String, false, if◌then◌else◌, none, not, some, true, ◌&&◌, ◌||◌}
use airgap_sync.Base.Exec.{pure, raise_if}
use airgap_sync.Destination.Database.{ObjectType, RunRow, TableVersion}
use airgap_sync.Destination.Database.Catalog.{
  is_base, object_type, rename_for_promotion, target_dependencies,
}
use airgap_sync.Destination.Database.Runs.{is_none, or_raise, prepare_swapping, record_verification}
use airgap_sync.Destination.Database.Statements.{Call, DbFailure, destination_error, ◌>>=◌, ◌>>◌}
use airgap_sync.Destination.Database.Versions.{finalize_verified}
use airgap_sync.Destination.Processor.{
  ProcessResult, Setting, ValidatedRun, VersionOrdering, VersionRelation, backup_table_name, older,
  ordering, require_run, result_of, same_summary, verify,
}
use airgap_sync.Destination.Processor.Cleanup.{cleanup_superseded, retry_cleanup}

abbrev pub swap_mismatch : DbFailure
swap_mismatch = destination_error "SWAP_STATE_MISMATCH"

-- bool(run.target_existed)
abbrev pub truth : Option Bool → Bool
truth (some true) = true
truth _ = false

-- run.target_existed is False
abbrev pub untruth : Option Bool → Bool
untruth (some false) = true
untruth _ = false

-- staging_type == "BASE TABLE" and (...), staging_type is None and target_type == "BASE TABLE" and (...)
unfoldable pub swap_not_done :
    RunRow → Option ObjectType → Option ObjectType → Option ObjectType → Bool
swap_not_done run target_type staging_type backup_type =
    is_base staging_type
    && (untruth run.target_existed && is_none target_type
        || truth run.target_existed && is_base target_type && is_none backup_type)

unfoldable pub swap_done : RunRow → Option ObjectType → Option ObjectType → Option ObjectType → Bool
swap_done run target_type staging_type backup_type =
    is_none staging_type
    && is_base target_type
    && (untruth run.target_existed && is_none run.backup_table
        || truth run.target_existed && is_base backup_type)

abbrev pub previous_id : Option TableVersion → Option String
previous_id none = none
previous_id (some v) = some v.run_id

-- object_type is not None and object_type != "BASE TABLE"
abbrev unsupported : Option ObjectType → Bool
unsupported kind = not (is_none kind) && not (is_base kind)

module _ (at : Setting) where
  abbrev pub type_of_backup : Option String → Call (Option ObjectType)
  type_of_backup none = pure none
  type_of_backup (some name) = object_type at.server name

  -- The checks of a target that is there.
  unfoldable pub check_target : String → String → Bool → Call Unit
  unfolding target_dependencies object_type
  check_target target backup false = pure tt
  check_target target backup true = do
    (fk, trigger) ← target_dependencies at.server target
    raise_if fk (destination_error "TARGET_FOREIGN_KEY_DEPENDENCY")
    raise_if trigger (destination_error "TARGET_TRIGGER_DEPENDENCY")
    kind ← object_type at.server backup
    raise_if (not (is_none kind)) swap_mismatch

  unfoldable pub promote : String → String → String → Option TableVersion → Call Unit
  unfolding object_type check_target prepare_swapping rename_for_promotion finalize_verified
      backup_table_name
  promote run_id target staging previous = do
    kind ← object_type at.server target
    raise_if (unsupported kind) (destination_error "TARGET_OBJECT_TYPE_UNSUPPORTED")
    check_target target (backup_table_name at run_id) (is_base kind)
    let backup = if is_base kind then some (backup_table_name at run_id) else none
    prepare_swapping at.server run_id (is_base kind) backup
    rename_for_promotion at.server staging target backup
    finalize_verified at.server run_id (previous_id previous)

  -- if before: ... elif after: ...
  unfoldable pub finish_swap : ValidatedRun → RunRow → Bool → Option TableVersion → Call Unit
  unfolding rename_for_promotion finalize_verified verify same_summary record_verification
      prepare_swapping
  finish_swap v run true latest = do
    rename_for_promotion at.server run.staging_table run.table_name run.backup_table
    finalize_verified at.server run.run_id (previous_id latest)
  finish_swap v run false latest = do
    found ← verify at run.table_name v.manifest.columns
    raise_if (not (same_summary v.manifest.verification found)) swap_mismatch
    record_verification at.server run.run_id found true
    prepare_swapping at.server run.run_id (truth run.target_existed) run.backup_table
    finalize_verified at.server run.run_id (previous_id latest)

  unfoldable pub swap_superseded : RunRow → Call ProcessResult
  unfolding require_run cleanup_superseded result_of
  swap_superseded run = do
    current ← require_run at run.run_id
    cleanup_superseded at current
    again ← require_run at run.run_id
    pure (result_of again)

  unfoldable pub swap_finished :
      ValidatedRun → RunRow → Bool → Option TableVersion → Call ProcessResult
  unfolding require_run finish_swap retry_cleanup result_of
  swap_finished v run before latest = do
    finish_swap v run before latest
    current ← require_run at run.run_id
    retry_cleanup at current (some v)
    again ← require_run at run.run_id
    pure (result_of again)

  abbrev pub swap_ended :
      ValidatedRun → RunRow → Bool → VersionOrdering → VersionRelation → Call ProcessResult
  swap_ended v run before found older = swap_superseded run
  swap_ended v run before found _ = swap_finished v run before found.latest

  unfoldable pub recover_swap : ValidatedRun → RunRow → Call ProcessResult
  unfolding object_type swap_not_done swap_done ordering swap_superseded swap_finished
  recover_swap v run = do
    target_type ← object_type at.server run.table_name
    staging_type ← object_type at.server run.staging_table
    backup_type ← type_of_backup run.backup_table
    let before = swap_not_done run target_type staging_type backup_type
    raise_if (not before && not (swap_done run target_type staging_type backup_type)) swap_mismatch
    created ← or_raise swap_mismatch run.source_created_at
    found ← ordering at run.run_id run.source_database run.table_name created
    swap_ended v run before found found.relation

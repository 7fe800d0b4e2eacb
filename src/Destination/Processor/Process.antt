-- ===== src/Destination/Processor/Process.antt =====
-- `process`, `_process_locked`, `process_once` and `retry_pending_cleanup`, src/airgap_sync/destination/processor.py.
use airgap_sync.Base.{
  Bool, List, Option, String, [], false, if◌then◌else◌, length, map, none, not, some, true, ℕ, ◌∷◌,
}
use airgap_sync.Base.Exec.{err, gets, ok, pure, raise, raise_if}
use airgap_sync.Common.Manifest.{Manifest}
use airgap_sync.Common.Transport.{Patterns, transport_filename}
use airgap_sync.Common.Verification.{VerificationSummary}
use airgap_sync.Destination.Database.{RunRow, RunState, TableVersion, is_superseded, is_verified}
use airgap_sync.Destination.Database.Catalog.{lock, table_exists, unlock}
use airgap_sync.Destination.Database.Runs.{
  cleanup_pending_runs, fail_run, get_run, record_verification, register_validated_run,
  set_verifying,
}
use airgap_sync.Destination.Database.Statements.{
  Call, DbFailure, destination_error, other_exception, ◌>>=◌, ◌>>◌,
}
use airgap_sync.Destination.Incoming.{
  Checked, Rejection, and_then, chunk_paths, invalid_run_id, permanent, some_or,
  uncaught_filename_error, validate_run,
}
use airgap_sync.Destination.Processor.{
  ProcessResult, ResultStatus, Setting, ValidatedRun, VersionOrdering, VersionRelation, busy, catch,
  finally, incomplete, is_listed, is_mysql, message_of, older, ordering, require_run, result_of,
  run_lock, run_status, same_summary, staging_table_name, table_lock, verify,
}
use airgap_sync.Destination.Processor.Cleanup.{cleanup_superseded, retry_cleanup}
use airgap_sync.Destination.Processor.Promote.{promote, recover_swap}
use airgap_sync.Destination.Processor.Stage.{stage}

unfoldable pub needs_staging : RunState → Bool
needs_staging RunState.staged = false
needs_staging RunState.verifying = false
needs_staging _ = true

abbrev mismatch_result : Manifest → String → VerificationSummary → ProcessResult
mismatch_result m staging found = record {
  run_id = m.run_id;
  status = run_status RunState.mismatch;
  table = some m.source.table;
  staging_table = some staging;
  rows = found.row_count;
  chunks = length m.chunks;
  error = some "DIGEST_MISMATCH: staging database content differs from manifest";
}

abbrev pub short_result :
    String → ResultStatus → Option String → Option String → String → ProcessResult
short_result id status table staging error = record {
  run_id = id;
  status = status;
  table = table;
  staging_table = staging;
  rows = 0;
  chunks = 0;
  error = some error;
}

module _ (at : Setting) where
  abbrev pub stage_or_check : Bool → ValidatedRun → String → Option RunRow → Call Unit
  stage_or_check true v staging existing = stage at v staging existing
  stage_or_check false v staging existing = do
    there ← table_exists at.server staging
    raise_if (not there) (destination_error "STAGING_STATE_MISMATCH")

  -- `_matches`
  unfoldable pub matches : Manifest → VerificationSummary → Call Bool
  unfolding same_summary record_verification
  matches m found = do
    let matched = same_summary m.verification found
    record_verification at.server m.run_id found matched
    pure matched

  unfoldable pub superseded_end : ValidatedRun → Call ProcessResult
  unfolding require_run cleanup_superseded result_of
  superseded_end v = do
    run ← require_run at v.manifest.run_id
    cleanup_superseded at run
    pure (result_of run)

  unfoldable pub promoted_end : ValidatedRun → String → Option TableVersion → Call ProcessResult
  unfolding require_run promote retry_cleanup result_of
  promoted_end v staging latest = do
    promote at v.manifest.run_id v.manifest.source.table staging latest
    run ← require_run at v.manifest.run_id
    retry_cleanup at run (some v)
    pure (result_of run)

  abbrev pub ordered_end :
      ValidatedRun → String → VersionOrdering → VersionRelation → Call ProcessResult
  ordered_end v staging found older = superseded_end v
  ordered_end v staging found _ = promoted_end v staging found.latest

  unfoldable pub matched_end :
      ValidatedRun → String → ℕ → VerificationSummary → Bool → Call ProcessResult
  unfolding ordering superseded_end promoted_end
  matched_end v staging source_time summary_found false =
      pure (mismatch_result v.manifest staging summary_found)
  matched_end v staging source_time summary_found true = do
    found ←
        ordering at v.manifest.run_id v.manifest.source.database v.manifest.source.table source_time
    ordered_end v staging found found.relation

  -- From the staging table on: `_verify`, `_matches`, the order and the promotion.
  unfoldable pub verify_and_promote : ValidatedRun → String → ℕ → Call ProcessResult
  unfolding set_verifying verify matches matched_end
  verify_and_promote v staging source_time = do
    set_verifying at.server v.manifest.run_id
    found ← verify at staging v.manifest.columns
    matched ← matches v.manifest found
    matched_end v staging source_time found matched

  unfoldable pub unpromoted_end :
      ValidatedRun → String → ℕ → Option RunRow → RunState → Call ProcessResult
  unfolding stage table_exists needs_staging verify_and_promote
  unpromoted_end v staging source_time existing status = do
    stage_or_check (needs_staging status) v staging existing
    verify_and_promote v staging source_time

  abbrev pub by_status :
      ValidatedRun → String → ℕ → Option RunRow → RunRow → RunState → Call ProcessResult
  by_status v staging source_time existing run RunState.verified =
      retry_cleanup at run none >> pure (result_of run)
  by_status v staging source_time existing run RunState.mismatch = pure (result_of run)
  by_status v staging source_time existing run RunState.superseded = pure (result_of run)
  by_status v staging source_time existing run RunState.swapping = recover_swap at v run
  by_status v staging source_time existing run status =
      unpromoted_end v staging source_time existing status

  unfoldable pub process_locked : ValidatedRun → String → Call ProcessResult
  unfolding get_run register_validated_run require_run retry_cleanup result_of recover_swap
      unpromoted_end
  process_locked v staging = do
    let source_time = at.read_time v.manifest.created_at
    existing ← get_run at.server v.manifest.run_id
    register_validated_run at.server v.manifest staging source_time
    run ← require_run at v.manifest.run_id
    by_status v staging source_time existing run run.status

  abbrev pub with_paths : Patterns → String → Manifest → Checked ValidatedRun
  with_paths patterns run_id m =
      and_then (some_or (transport_filename patterns run_id "manifest.json") invalid_run_id)
        λ manifest_path.
          and_then
            (some_or (transport_filename patterns run_id m.schema_file.file)
              uncaught_filename_error)
            λ schema_path. and_then (chunk_paths patterns run_id m.chunks) λ paths. ok (record {
              manifest = m;
              manifest_path = manifest_path;
              schema_path = schema_path;
              chunk_paths = paths;
            })

  -- `validate_run`, with the paths that it has checked.
  unfoldable pub validated_run : String → List String → Checked ValidatedRun
  unfolding validate_run transport_filename chunk_paths
  validated_run run_id files =
      and_then (validate_run (at.incoming files) run_id)
        (with_paths (at.incoming files).patterns run_id)

  -- what the handler of `process` does with one of the listed errors
  unfoldable pub process_failed : ValidatedRun → String → DbFailure → Call ProcessResult
  unfolding fail_run message_of is_mysql
  process_failed v staging e = do
    catch is_mysql (fail_run at.server v.manifest.run_id (message_of e)) (λ x. pure tt)
    pure (
        short_result v.manifest.run_id (run_status RunState.failed) (some v.manifest.source.table)
          (some staging) (message_of e))

  unfoldable pub guarded : ValidatedRun → String → Call ProcessResult
  unfolding process_locked process_failed is_listed
  guarded v staging = catch is_listed (process_locked v staging) (process_failed v staging)

  unfoldable pub release_locks : ValidatedRun → Call Unit
  unfolding unlock run_lock table_lock
  release_locks v = do
    unlock at.server (table_lock at v.manifest.source.database v.manifest.source.table)
    unlock at.server (run_lock at v.manifest.run_id)

  abbrev pub busy_result : ValidatedRun → String → ProcessResult
  busy_result v staging =
      short_result v.manifest.run_id busy (some v.manifest.source.table) (some staging) "RUN_BUSY"

  abbrev pub with_table_lock : ValidatedRun → String → Bool → Call ProcessResult
  with_table_lock v staging true = finally (guarded v staging) (release_locks v)
  with_table_lock v staging false =
      unlock at.server (run_lock at v.manifest.run_id) >> pure (busy_result v staging)

  abbrev pub with_run_lock : ValidatedRun → String → Bool → Call ProcessResult
  with_run_lock v staging false = pure (busy_result v staging)
  with_run_lock v staging true = do
    held ← lock at.server (table_lock at v.manifest.source.database v.manifest.source.table)
    with_table_lock v staging held

  unfoldable pub process_validated : ValidatedRun → Call ProcessResult
  unfolding lock run_lock table_lock staging_table_name
  process_validated v = do
    held ← lock at.server (run_lock at v.manifest.run_id)
    with_run_lock v (staging_table_name at v.manifest.run_id) held

  -- `exc.permanent` decides; a `TransportFilenameError` is not caught.
  abbrev pub rejected : String → Rejection → Call ProcessResult
  rejected run_id uncaught_filename_error = raise other_exception
  rejected run_id e = pure (
      short_result run_id (if permanent e then run_status RunState.failed else incomplete) none none
        "DestinationError")

  abbrev pub after_validation : String → Checked ValidatedRun → Call ProcessResult
  after_validation run_id (ok v) = process_validated v
  after_validation run_id (err e) = rejected run_id e

  unfoldable pub process_new : String → Call ProcessResult
  unfolding validated_run process_validated
  process_new run_id = do
    found ← gets (λ s. validated_run run_id s.files)
    after_validation run_id found

  abbrev pub by_existing : String → Option RunRow → Call ProcessResult
  by_existing run_id none = process_new run_id
  by_existing run_id (some run) =
      if is_verified run.status
      then retry_cleanup at run none >> pure (result_of run)
      else if is_superseded run.status
      then cleanup_superseded at run >> pure (result_of run)
      else process_new run_id

  unfoldable pub process : String → Call ProcessResult
  unfolding get_run process_new retry_cleanup cleanup_superseded result_of is_verified is_superseded
  process run_id = do existing ← get_run at.server run_id; by_existing run_id existing

  -- [processor.process(run_id) for run_id in ...]
  unfoldable pub process_all : List String → Call (List ProcessResult)
  unfolding process
  process_all [] = pure []
  process_all (id ∷ ids) =
      let rest = process_all ids in do first ← process id; others ← rest; pure (first ∷ others)

  unfoldable pub retry_pending_cleanup : Call (List ProcessResult)
  unfolding cleanup_pending_runs process_all
  retry_pending_cleanup = do
    runs ← cleanup_pending_runs at.server
    process_all (map (λ r. r.run_id) runs)

-- ===== src/Destination/Processor/Cleanup.antt =====
-- `_cleanup_superseded` and `_retry_cleanup`, src/airgap_sync/destination/processor.py.
use airgap_sync.Base.{
  Bool, Option, String, false, if◌then◌else◌, nat_eq, none, option_eq, some, string_eq, true, ℕ,
  ◌==◌, ◌||◌,
}
use airgap_sync.Base.Exec.{pure}
use airgap_sync.Destination.Database.{RunRow, is_verified}
use airgap_sync.Destination.Database.Catalog.{drop_table, table_exists}
use airgap_sync.Destination.Database.Runs.{record_backup_cleanup_error, record_cleanup_error}
use airgap_sync.Destination.Database.Statements.{Call, ◌>>=◌, ◌>>◌}
use airgap_sync.Destination.Processor.{
  Setting, ValidatedRun, catch, cleanup_incoming, is_mysql, is_os, message_of,
}

module _ (at : Setting) where
  abbrev pub drop_if : Bool → String → Call Unit
  drop_if true name = drop_table at.server name
  drop_if false name = pure tt

  unfoldable pub drop_existing : String → Call Unit
  unfolding table_exists drop_table
  drop_existing name = do there ← table_exists at.server name; drop_if there name

  unfoldable pub unless_done : Option ℕ → Call Unit → Call Unit
  unless_done none body = body
  unless_done (some at_) body = pure tt

  unfoldable pub cleanup_superseded : RunRow → Call Unit
  unfolding unless_done drop_existing cleanup_incoming record_cleanup_error is_os is_mysql
      message_of
  cleanup_superseded run = unless_done run.incoming_cleanup_completed_at (
      catch (λ e. is_os e || is_mysql e)
        (do
          drop_existing run.staging_table
          cleanup_incoming at run.run_id none
          record_cleanup_error at.server run.run_id none)
        (λ e. record_cleanup_error at.server run.run_id (some (message_of e))))

  -- `run.backup_table and ...`: NULL and the empty name are none.
  abbrev pub drop_backup : Option String → Call Unit
  drop_backup none = pure tt
  drop_backup (some name) = if name == "" then pure tt else drop_existing name

  unfoldable pub cleanup_backup : RunRow → Call Unit
  unfolding unless_done drop_existing record_backup_cleanup_error is_mysql message_of
  cleanup_backup run = unless_done run.backup_cleanup_completed_at (
      catch is_mysql
        (do drop_backup run.backup_table; record_backup_cleanup_error at.server run.run_id none)
        (λ e. record_backup_cleanup_error at.server run.run_id (some (message_of e))))

  unfoldable pub cleanup_files : RunRow → Option ValidatedRun → Call Unit
  unfolding unless_done cleanup_incoming record_cleanup_error is_os message_of
  cleanup_files run v = unless_done run.incoming_cleanup_completed_at (
      catch is_os
        (do cleanup_incoming at run.run_id v; record_cleanup_error at.server run.run_id none)
        (λ e. record_cleanup_error at.server run.run_id (some (message_of e))))

  unfoldable pub retry_cleanup : RunRow → Option ValidatedRun → Call Unit
  unfolding cleanup_backup cleanup_files is_verified
  retry_cleanup run v =
      if is_verified run.status then cleanup_backup run >> cleanup_files run v else pure tt

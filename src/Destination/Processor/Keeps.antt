-- ===== src/Destination/Processor/Keeps.antt =====
-- What the processor of src/airgap_sync/destination/processor.py does between its locks keeps a stable property.
pub mod Staging
pub mod Locked
pub mod Whole
use airgap_sync.Base.{
  Bool, List, Option, String, [], false, if◌then◌else◌, nat_eq, none, option_eq, some, string_eq,
  true, ℕ, ◌==◌, ◌∷◌,
}
use airgap_sync.Base.Exec.{Result, err, gets, ok}
use airgap_sync.Common.RowCodec.{CodecError}
use airgap_sync.Common.Transport.{transport_filename}
use airgap_sync.Destination.Database.{Destination, RunRow, is_verified}
use airgap_sync.Destination.Database.Stable.{
  IsStable, Kept, Kept-bind, Kept-if, Kept-or_raise, Kept-pure, Kept-raise,
}
use airgap_sync.Destination.Database.Stable.Calls.{
  get_run-Kept, record_backup_cleanup_error-Kept, record_cleanup_error-Kept, set_superseded-Kept,
}
use airgap_sync.Destination.Database.Stable.Tables.{
  drop_table-Kept, latest_version-Kept, stream_table_columns-Kept, table_exists-Kept,
}
use airgap_sync.Destination.Database.Statements.{
  Call, DbFailure, Fate, done, os_error, other_exception, outcome, refused, reply_lost, stepped_on,
}
use airgap_sync.Destination.Processor.{
  Setting, ValidatedRun, VersionRelation, after_comparison, artifacts_of, catch, caught,
  cleanup_incoming, encoded_rows, newer, no_previous, older, or_other, ordering, removed,
  require_run, same_run, same_timestamp_different_run, unlink, unlink_all, verify,
}
use airgap_sync.Destination.Processor.Cleanup.{
  cleanup_superseded, drop_backup, drop_existing, drop_if, retry_cleanup, unless_done,
}

module _ {A : Type 0} {P : Destination → Type 0} where
  pub catch-Kept :
      (test : DbFailure → Bool) {m : Call A} {handler : DbFailure → Call A}
      → Kept P m
      → ((e : DbFailure) → Kept P (handler e))
      → Kept P (catch test m handler)
  unfolding catch
  catch-Kept test {m} {handler} km kh = record { keeps = λ s h. go (m s) (km.keeps s h) }
    where
      handled :
          (b : Bool) (e : DbFailure) (s : Destination)
          → P s
          → P (if b then handler e s else (err e, s)).1
      handled true e s h = (kh e).keeps s h
      handled false e s h = h

      go : (r : Result DbFailure A × Destination) → P r.1 → P (caught test handler r).1
      go (ok a, s') h' = h'
      go (err e, s') h' = handled (test e) e s' h'

module _ (P : Destination → Type 0) (st : IsStable P) (at : Setting) where
  or_other-Kept : {A : Type 0} (r : Result CodecError A) → Kept P (or_other at r)
  or_other-Kept (ok a) = Kept-pure a
  or_other-Kept (err e) = Kept-raise other_exception

  pub verify-Kept : (table : String) (columns : List String) → Kept P (verify at table columns)
  unfolding verify
  verify-Kept table columns =
      Kept-bind (stream_table_columns-Kept P st at.server table columns)
        λ rows. Kept-bind (or_other-Kept (encoded_rows at rows)) λ encoded. Kept-pure _

  after_comparison-Kept :
      (id : String) (relation : VersionRelation) → Kept P (after_comparison at id relation)
  after_comparison-Kept id no_previous = Kept-pure tt
  after_comparison-Kept id same_run = Kept-pure tt
  after_comparison-Kept id newer = Kept-pure tt
  after_comparison-Kept id older = set_superseded-Kept P st at.server id
  after_comparison-Kept id same_timestamp_different_run = Kept-raise _

  pub ordering-Kept :
      (id database table : String) (time : ℕ) → Kept P (ordering at id database table time)
  unfolding ordering
  ordering-Kept id database table time =
      Kept-bind
        (Kept-bind (latest_version-Kept P st at.server database table) λ latest. Kept-pure _)
        λ found. Kept-bind (after_comparison-Kept id found.relation) λ _. Kept-pure found

  pub require_run-Kept : (id : String) → Kept P (require_run at id)
  unfolding require_run
  require_run-Kept id = Kept-bind (get_run-Kept P st at.server id) λ found. Kept-or_raise _ found

  unlink-Kept : (name : String) → Kept P (unlink at name)
  unfolding unlink
  unlink-Kept name = record { keeps = λ s h. go (at.server.fate s.steps) s h }
    where
      go :
          (d : Fate) (s : Destination)
          → P s
          → P (outcome d os_error tt (λ x. record x { files = removed at name x.files }) s).1
      go done s h = st.files (stepped_on s) _ (st.steps s h)
      go refused s h = st.steps s h
      go reply_lost s h = st.files (stepped_on s) _ (st.steps s h)

  unlink_all-Kept : (names : List String) → Kept P (unlink_all at names)
  unfolding unlink_all
  unlink_all-Kept [] = Kept-pure tt
  unlink_all-Kept (f ∷ fs) = Kept-bind (unlink-Kept f) λ _. unlink_all-Kept fs

  pub gets-Kept : {A : Type 0} (g : Destination → A) → Kept P (gets g)
  gets-Kept g = record { keeps = λ s h. h }

  cleanup_incoming-Kept :
      (id : String) (v : Option ValidatedRun) → Kept P (cleanup_incoming at id v)
  unfolding cleanup_incoming
  cleanup_incoming-Kept id (some v) =
      Kept-bind (unlink-Kept v.manifest_path)
        λ _. Kept-bind (unlink-Kept v.schema_path) λ _. unlink_all-Kept v.chunk_paths
  cleanup_incoming-Kept id none =
      Kept-bind (gets-Kept (λ s. (at.incoming s.files).patterns)) λ patterns.
        Kept-bind (Kept-or_raise _ (transport_filename patterns id "manifest.json")) λ manifest.
          Kept-bind (unlink-Kept manifest)
            λ _. Kept-bind (gets-Kept (artifacts_of at id)) unlink_all-Kept

  drop_if-Kept : (there : Bool) (name : String) → Kept P (drop_if at there name)
  drop_if-Kept true name = drop_table-Kept P st at.server name
  drop_if-Kept false name = Kept-pure tt

  drop_existing-Kept : (name : String) → Kept P (drop_existing at name)
  unfolding drop_existing
  drop_existing-Kept name =
      Kept-bind (table_exists-Kept P st at.server name) λ there. drop_if-Kept there name

  unless_done-Kept : {m : Call Unit} (o : Option ℕ) → Kept P m → Kept P (unless_done at o m)
  unfolding unless_done
  unless_done-Kept none km = km
  unless_done-Kept (some n) km = Kept-pure tt

  pub cleanup_superseded-Kept : (r : RunRow) → Kept P (cleanup_superseded at r)
  unfolding cleanup_superseded
  cleanup_superseded-Kept r = unless_done-Kept r.incoming_cleanup_completed_at (
      catch-Kept _
        (Kept-bind (drop_existing-Kept r.staging_table) λ _.
          Kept-bind (cleanup_incoming-Kept r.run_id none)
            λ _. record_cleanup_error-Kept P st at.server r.run_id none)
        λ e. record_cleanup_error-Kept P st at.server r.run_id _)

  drop_backup-Kept : (o : Option String) → Kept P (drop_backup at o)
  drop_backup-Kept none = Kept-pure tt
  drop_backup-Kept (some name) = Kept-if (name == "") (Kept-pure tt) (drop_existing-Kept name)

  pub retry_cleanup-Kept : (r : RunRow) (v : Option ValidatedRun) → Kept P (retry_cleanup at r v)
  unfolding retry_cleanup
  retry_cleanup-Kept r v =
      Kept-if (is_verified r.status)
        (Kept-bind
          (unless_done-Kept r.backup_cleanup_completed_at (
            catch-Kept _
              (Kept-bind (drop_backup-Kept r.backup_table)
                λ _. record_backup_cleanup_error-Kept P st at.server r.run_id none)
              λ e. record_backup_cleanup_error-Kept P st at.server r.run_id _))
          λ _. unless_done-Kept r.incoming_cleanup_completed_at (
            catch-Kept _
              (Kept-bind (cleanup_incoming-Kept r.run_id v)
                λ _. record_cleanup_error-Kept P st at.server r.run_id none)
              λ e. record_cleanup_error-Kept P st at.server r.run_id _))
        (Kept-pure tt)

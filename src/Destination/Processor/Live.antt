-- ===== src/Destination/Processor/Live.antt =====
-- The live table changes only to content that was verified, src/airgap_sync/destination/processor.py.
pub mod Promoted
pub mod Whole
use mathlib.Core.Path.{subst}
use airgap_sync.Base.{
  All, Bool, List, Option, String, [], arith, eq_iff, false, if◌then◌else◌, inl, inr, map,
  nat_beq_iff, nat_eq, none, option_eq, refl, some, string_eq, true, ℕ, ◌==◌, ◌∙◌, ◌∷◌, ◌≡◌, ◌⊎◌,
}
use airgap_sync.Base.Exec.{gets, ok}
use airgap_sync.Base.Rows.{find?, update_where}
use airgap_sync.Common.Manifest.{Manifest, VerificationMeta}
use airgap_sync.Common.Transport.{transport_filename}
use airgap_sync.Common.Verification.{Bytes, VerificationSummary}
use airgap_sync.Destination.Database.{
  Destination, RunRow, TableObject, TableVersion, is_verified, named, of_run_id,
}
use airgap_sync.Destination.Database.Catalog.{drop_table, is_base, object_named, type_in, without}
use airgap_sync.Destination.Database.Returns.{
  Returns, Returns-bind, Returns-fetch, Returns-or_raise,
}
use airgap_sync.Destination.Database.Runs.{update_run}
use airgap_sync.Destination.Database.Stable.{
  Kept, Kept-bind, Kept-if, Kept-or_raise, Kept-pure, Kept-raise_if, WhenSome-if, WhenSome-unless,
  attempt-Kept, execute-Kept, fetch-Kept, in_transaction-Kept, utcnow-Kept,
}
use airgap_sync.Destination.Database.Statements.{
  Call, Fate, done, fetch, os_error, outcome, refused, reply_lost,
}
use airgap_sync.Destination.Database.Versions.{
  checked_newer, finalize_verified, insert_version, is_run, mark_verified,
}
use airgap_sync.Destination.Processor.{
  Setting, ValidatedRun, artifacts_of, cleanup_incoming, encoded_rows, removed, require_run,
  same_summary, summary_of, unlink, unlink_all,
}
use airgap_sync.Destination.Processor.Cleanup.{
  cleanup_superseded, drop_backup, drop_existing, drop_if, retry_cleanup, unless_done,
}
use airgap_sync.Destination.Processor.Keeps.{catch-Kept}

-- The run's own tables are not the target.
abbrev pub RowApart : String → RunRow → Type 0
RowApart target r =
    ((r.staging_table == target) ≡ false) × ((r.backup_table == some target) ≡ false)

abbrev OptionApart : String → Option RunRow → Type 0
OptionApart target none = Unit
OptionApart target (some r) = RowApart target r

All-update :
    (target : String) (p : RunRow → Bool) (f : RunRow → RunRow) (rows : List RunRow)
    → ((r : RunRow) → RowApart target r → RowApart target (f r))
    → All (RowApart target) rows
    → All (RowApart target) (update_where p f rows)
All-update target p f [] k h = tt
All-update target p f (r ∷ rs) k h = (chosen (p r), All-update target p f rs k h.1)
  where
    chosen : (b : Bool) → RowApart target (if b then f r else r)
    chosen true = k r h.0
    chosen false = h.0

chosen_Apart :
    (target : String) (r : RunRow) (o : Option RunRow) (b : Bool)
    → RowApart target r
    → OptionApart target o
    → OptionApart target (if b then some r else o)
chosen_Apart target r o true h k = h
chosen_Apart target r o false h k = k

All-find :
    (target : String) (p : RunRow → Bool) (rows : List RunRow)
    → All (RowApart target) rows
    → OptionApart target (find? p rows)
All-find target p [] h = tt
All-find target p (r ∷ rs) h =
    chosen_Apart target r (find? p rs) (p r) h.0 (All-find target p rs h.1)

without_other :
    (name target : String) (objects : List TableObject)
    → (name == target) ≡ false
    → find? (named target) (without name objects) ≡ find? (named target) objects
without_other name target [] h = refl
without_other name target (o ∷ os) h = ground (
  arith,
  without_other name target os h,
  eq_iff o.name name,
  eq_iff o.name target,
  eq_iff name target,
)

-- The row count and both digests are the declared ones.
abbrev pub Agrees : VerificationMeta → VerificationSummary → Type 0
Agrees expected found =
    (found.row_count ≡ expected.row_count)
    × ((found.digest_a ≡ expected.digest_a) × (found.digest_b ≡ expected.digest_b))

pub same_summary-Agrees :
    (expected : VerificationMeta) (found : VerificationSummary)
    → same_summary expected found ≡ true
    → Agrees expected found
unfolding same_summary
same_summary-Agrees expected found h = (
  ground (arith, h, nat_beq_iff found.row_count expected.row_count),
  (
    ground (arith, h, eq_iff found.digest_a expected.digest_a),
    ground (arith, h, eq_iff found.digest_b expected.digest_b),
  ),
)

module _ (at : Setting) (m : Manifest) (target : String) (live : Option TableObject) where
  -- The table has rows whose digest is the manifest's.
  abbrev pub Verified : String → Destination → Type 0
  Verified name s =
      (o : TableObject) × ((object_named name s ≡ some o)
        × ((encoded : List Bytes) × ((encoded_rows at
                  (map (at.server.selected o.columns m.columns) o.rows)
                ≡ ok encoded)
              × Agrees m.verification (summary_of at encoded))))

  -- The target is as it was, or it is verified.
  abbrev pub LiveSafe : Destination → Type 0
  LiveSafe s = (object_named target s ≡ live) ⊎ Verified target s

  abbrev pub Safe : Destination → Type 0
  Safe s = All (RowApart target) s.runs × LiveSafe s

  update_run-Safe :
      (id : String) (f : ℕ → RunRow → RunRow)
      → ((now : ℕ) (r : RunRow) → RowApart target r → RowApart target (f now r))
      → Kept Safe (update_run at.server id f)
  unfolding update_run
  update_run-Safe id f k = Kept-bind (utcnow-Kept Safe (λ s h. h) at.server) λ now.
      execute-Kept Safe (λ s h. h) at.server _
        λ s h. (All-update target (of_run_id id) (f now) s.runs (k now) h.0, h.1)

  fetch-Safe : {A : Type 0} (g : Destination → A) → Kept Safe (fetch at.server g)
  fetch-Safe g = fetch-Kept Safe (λ s h. h) at.server g

  require_run-Safe : (id : String) → Kept Safe (require_run at id)
  unfolding require_run
  require_run-Safe id = Kept-bind (fetch-Safe _) λ o. Kept-or_raise _ o

  require_run-Apart : (id : String) → Returns Safe (λ r s. RowApart target r) (require_run at id)
  unfolding require_run
  require_run-Apart id =
      Returns-bind
        (Returns-fetch at.server {R = λ o s. OptionApart target o} _
          λ s h. All-find target (of_run_id id) s.runs h.0)
        λ o. Returns-or_raise _ o λ s r h e. subst (OptionApart target) e h

  drop_table-Safe :
      (name : String) → (name == target) ≡ false → Kept Safe (drop_table at.server name)
  unfolding drop_table
  drop_table-Safe name apart =
      attempt-Kept Safe (λ s h. h) at.server _
        λ s h. WhenSome-if Safe (is_base (type_in name s)) _ (h.0, moved_on s h.1)
    where
      moved_on :
          (s : Destination) → LiveSafe s → LiveSafe (record s { objects = without name s.objects })
      moved_on s (inl same) = inl (without_other name target s.objects apart ∙ same)
      moved_on s (inr (o, (e, rest))) =
          inr (o, (without_other name target s.objects apart ∙ e, rest))

  drop_existing-Safe :
      (name : String) → (name == target) ≡ false → Kept Safe (drop_existing at name)
  unfolding drop_existing
  drop_existing-Safe name apart = Kept-bind (Kept-bind (fetch-Safe _) λ kind. Kept-pure _) dropping
    where
      dropping : (b : Bool) → Kept Safe (drop_if at b name)
      dropping true = drop_table-Safe name apart
      dropping false = Kept-pure tt

  unlink-Safe : (name : String) → Kept Safe (unlink at name)
  unfolding unlink
  unlink-Safe name = record { keeps = λ s h. go (at.server.fate s.steps) s h }
    where
      go :
          (d : Fate) (s : Destination)
          → Safe s
          → Safe (outcome d os_error tt (λ x. record x { files = removed at name x.files }) s).1
      go done s h = h
      go refused s h = h
      go reply_lost s h = h

  unlink_all-Safe : (names : List String) → Kept Safe (unlink_all at names)
  unfolding unlink_all
  unlink_all-Safe [] = Kept-pure tt
  unlink_all-Safe (f ∷ fs) = Kept-bind (unlink-Safe f) λ _. unlink_all-Safe fs

  gets-Safe : {A : Type 0} (g : Destination → A) → Kept Safe (gets g)
  gets-Safe g = record { keeps = λ s h. h }

  cleanup_incoming-Safe :
      (id : String) (v : Option ValidatedRun) → Kept Safe (cleanup_incoming at id v)
  unfolding cleanup_incoming
  cleanup_incoming-Safe id (some v) =
      Kept-bind (unlink-Safe v.manifest_path)
        λ _. Kept-bind (unlink-Safe v.schema_path) λ _. unlink_all-Safe v.chunk_paths
  cleanup_incoming-Safe id none =
      Kept-bind (gets-Safe (λ s. (at.incoming s.files).patterns)) λ patterns.
        Kept-bind (Kept-or_raise _ (transport_filename patterns id "manifest.json")) λ manifest.
          Kept-bind (unlink-Safe manifest)
            λ _. Kept-bind (gets-Safe (artifacts_of at id)) unlink_all-Safe

  unless_done-Safe : {n : Call Unit} (o : Option ℕ) → Kept Safe n → Kept Safe (unless_done at o n)
  unfolding unless_done
  unless_done-Safe none km = km
  unless_done-Safe (some n) km = Kept-pure tt

  cleanup_superseded-Safe : (r : RunRow) → RowApart target r → Kept Safe (cleanup_superseded at r)
  unfolding cleanup_superseded
  cleanup_superseded-Safe r apart = unless_done-Safe r.incoming_cleanup_completed_at (
      catch-Kept _
        (Kept-bind (drop_existing-Safe r.staging_table apart.0) λ _.
          Kept-bind (cleanup_incoming-Safe r.run_id none)
            λ _. update_run-Safe r.run_id _ λ now x k. k)
        λ e. update_run-Safe r.run_id _ λ now x k. k)

  drop_backup-Safe : (o : Option String) → (o == some target) ≡ false → Kept Safe (drop_backup at o)
  drop_backup-Safe none apart = Kept-pure tt
  drop_backup-Safe (some name) apart =
      Kept-if (name == "") (Kept-pure tt) (drop_existing-Safe name apart)

  retry_cleanup-Safe :
      (r : RunRow) (v : Option ValidatedRun) → RowApart target r → Kept Safe (retry_cleanup at r v)
  unfolding retry_cleanup
  retry_cleanup-Safe r v apart =
      Kept-if (is_verified r.status)
        (Kept-bind
          (unless_done-Safe r.backup_cleanup_completed_at (
            catch-Kept _
              (Kept-bind (drop_backup-Safe r.backup_table apart.1)
                λ _. update_run-Safe r.run_id _ λ now x k. k)
              λ e. update_run-Safe r.run_id _ λ now x k. k))
          λ _. unless_done-Safe r.incoming_cleanup_completed_at (
            catch-Kept _
              (Kept-bind (cleanup_incoming-Safe r.run_id v)
                λ _. update_run-Safe r.run_id _ λ now x k. k)
              λ e. update_run-Safe r.run_id _ λ now x k. k))
        (Kept-pure tt)

  mark_verified-Safe : (id : String) (now : ℕ) → Kept Safe (mark_verified at.server id now)
  unfolding mark_verified
  mark_verified-Safe id now =
      execute-Kept Safe (λ s h. h) at.server _
        λ s h. (All-update target (of_run_id id) _ s.runs (λ r k. k) h.0, h.1)

  checked_newer-Safe :
      (created : ℕ) (o : Option TableVersion) {n : Call Unit}
      → Kept Safe n
      → Kept Safe (checked_newer created o n)
  checked_newer-Safe created none km = km
  checked_newer-Safe created (some w) km =
      Kept-bind (Kept-raise_if _ _) λ _. Kept-bind (Kept-raise_if _ _) λ _. km

  finalize_verified-Safe :
      (id : String) (expected : Option String) → Kept Safe (finalize_verified at.server id expected)
  unfolding finalize_verified insert_version
  finalize_verified-Safe id expected = Kept-bind (utcnow-Kept Safe (λ s h. h) at.server) λ now.
      in_transaction-Kept Safe (λ s h. h) (λ s s' h h'. h) at.server
        (Kept-bind (fetch-Safe _) λ found. Kept-bind (Kept-or_raise _ found) λ row.
          Kept-bind (Kept-or_raise _ row.source_created_at) λ made.
            Kept-bind (fetch-Safe _) λ previous.
              Kept-if (is_run id previous) (mark_verified-Safe id now) (
                Kept-bind (Kept-raise_if _ _) λ _. checked_newer-Safe made previous (
                  Kept-bind (mark_verified-Safe id now) λ _.
                    attempt-Kept Safe (λ s h. h) at.server _ λ s h. WhenSome-unless Safe _ _ h)))

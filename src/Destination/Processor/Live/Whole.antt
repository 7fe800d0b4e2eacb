-- ===== src/Destination/Processor/Live/Whole.antt =====
-- The live table through `_process_locked` from the verification on, src/airgap_sync/destination/processor.py.
use airgap_sync.Base.{
  All, Bool, List, Option, String, ap, false, inl, map, nat_eq, option_eq, refl, some, string_eq,
  sym, true, ℕ, ◌==◌, ◌∙◌, ◌≡◌,
}
use airgap_sync.Base.Exec.{Result, err, ok}
use airgap_sync.Common.RowCodec.{CodecError}
use airgap_sync.Common.Verification.{Bytes, VerificationSummary}
use airgap_sync.Destination.Database.{Destination, TableObject, TableVersion, of_run_id}
use airgap_sync.Destination.Database.Catalog.{object_named, stream_table_columns}
use airgap_sync.Destination.Database.Returns.{
  Returns, Returns-bind, Returns-fetch, Returns-or_raise, Returns-pure, Returns-raise, Returns-some,
}
use airgap_sync.Destination.Database.Rules.{Kept-fact, Kept-then, Leads-fact, Leads-next}
use airgap_sync.Destination.Database.Runs.{record_verification, set_verifying, update_run}
use airgap_sync.Destination.Database.Stable.{
  Kept, Kept-bind, Kept-or_raise, Kept-pure, Kept-raise, Leads, Leads-then, execute-Kept,
  utcnow-Kept,
}
use airgap_sync.Destination.Database.Statements.{other_exception}
use airgap_sync.Destination.Processor.{
  Setting, ValidatedRun, VersionOrdering, VersionRelation, backup_table_name, encoded_rows, newer,
  no_previous, older, or_other, same_run, same_summary, same_timestamp_different_run, summary_of,
  verify,
}
use airgap_sync.Destination.Processor.Live.{
  All-update, LiveSafe, RowApart, Safe, cleanup_superseded-Safe, fetch-Safe, require_run-Apart,
  require_run-Safe, retry_cleanup-Safe, same_summary-Agrees, update_run-Safe,
}
use airgap_sync.Destination.Processor.Live.Promoted.{Ready, ordering-Ready, promote-Leads}
use airgap_sync.Destination.Processor.Process.{
  matched_end, matches, ordered_end, promoted_end, superseded_end, verify_and_promote,
}

module _ (at : Setting) (v : ValidatedRun) (live : Option TableObject) (staging : String)
    (differ : (staging == v.manifest.source.table) ≡ false)
    (backup_target : (backup_table_name at v.manifest.run_id == v.manifest.source.table) ≡ false)
    (backup_staging : (backup_table_name at v.manifest.run_id == staging) ≡ false) where
  abbrev SafeHere : Destination → Type 0
  SafeHere = Safe at v.manifest v.manifest.source.table live

  abbrev ReadyHere : Destination → Type 0
  ReadyHere = Ready at v.manifest v.manifest.source.table live staging differ

  superseded_end-Safe : Kept SafeHere (superseded_end at v)
  unfolding superseded_end
  superseded_end-Safe =
      Kept-fact (require_run-Safe at v.manifest v.manifest.source.table live v.manifest.run_id)
        (require_run-Apart at v.manifest v.manifest.source.table live v.manifest.run_id)
        λ r apart.
          Kept-bind (cleanup_superseded-Safe at v.manifest v.manifest.source.table live r apart)
            λ _. Kept-pure _

  promoted_end-Leads :
      (latest : Option TableVersion) → Leads ReadyHere SafeHere (promoted_end at v staging latest)
  unfolding promoted_end
  promoted_end-Leads latest =
      Leads-next
        (promote-Leads at v.manifest v.manifest.source.table live staging differ v.manifest.run_id
          latest backup_target backup_staging)
        λ _.
          Kept-fact (require_run-Safe at v.manifest v.manifest.source.table live v.manifest.run_id)
            (require_run-Apart at v.manifest v.manifest.source.table live v.manifest.run_id)
            λ r apart.
              Kept-bind
                (retry_cleanup-Safe at v.manifest v.manifest.source.table live r (some v) apart)
                λ _. Kept-pure _

  ordered_end-Leads :
      (found : VersionOrdering) (relation : VersionRelation)
      → Leads ReadyHere SafeHere (ordered_end at v staging found relation)
  ordered_end-Leads found older = record { leads = λ s h. superseded_end-Safe.keeps s h.0 }
  ordered_end-Leads found no_previous = promoted_end-Leads found.latest
  ordered_end-Leads found same_run = promoted_end-Leads found.latest
  ordered_end-Leads found newer = promoted_end-Leads found.latest
  ordered_end-Leads found same_timestamp_different_run = promoted_end-Leads found.latest

  -- The staging table read back: its rows, encoded, and what the verifier finds in them.
  abbrev FoundIn : VerificationSummary → Destination → Type 0
  FoundIn found s =
      SafeHere s
      × ((o : TableObject) × ((object_named staging s ≡ some o)
            × ((encoded : List Bytes) × ((encoded_rows at
                      (map (at.server.selected o.columns v.manifest.columns) o.rows)
                    ≡ ok encoded)
                  × (summary_of at encoded ≡ found)))))

  or_other-Returns :
      (o : TableObject) (r : Result CodecError (List Bytes))
      → r ≡ encoded_rows at (map (at.server.selected o.columns v.manifest.columns) o.rows)
      → Returns
          (λ s. SafeHere s × (object_named staging s ≡ some o))
          (λ encoded s.
            (SafeHere s × (object_named staging s ≡ some o))
            × (encoded_rows at (map (at.server.selected o.columns v.manifest.columns) o.rows)
                ≡ ok encoded))
          (or_other at r)
  or_other-Returns o (err e) h = Returns-raise _
  or_other-Returns o (ok a) h = Returns-pure a λ s k. (k, sym h)

  verify-Returns : Returns SafeHere FoundIn (verify at staging v.manifest.columns)
  unfolding verify stream_table_columns
  verify-Returns =
      Returns-bind
        {R = λ rows s.
          (o : TableObject) × ((rows ≡ map (at.server.selected o.columns v.manifest.columns) o.rows)
            × (SafeHere s × (object_named staging s ≡ some o)))}
        (Returns-bind
          (Returns-fetch at.server {R = λ read s. SafeHere s × (object_named staging s ≡ read)} _
            λ s h. (h, refl))
          λ read.
            Returns-bind
              (Returns-or_raise {R = λ o s. SafeHere s × (object_named staging s ≡ some o)} _ read
                λ s o h e. (h.0, h.1 ∙ e))
              λ o. Returns-pure _ λ s h. (o, (refl, h)))
        λ rows. Returns-some λ o. Returns-some λ same.
          Returns-bind (or_other-Returns o (encoded_rows at rows) (ap (encoded_rows at) same))
            λ encoded. Returns-pure _ λ s h. (h.0.0, (o, (h.0.1, (encoded, (h.1, refl)))))

  verify-Safe : Kept SafeHere (verify at staging v.manifest.columns)
  unfolding verify stream_table_columns
  verify-Safe =
      Kept-bind
        (Kept-bind (fetch-Safe at v.manifest v.manifest.source.table live _)
          λ read. Kept-bind (Kept-or_raise _ read) λ o. Kept-pure _)
        λ rows. Kept-bind (encoded-Safe (encoded_rows at rows)) λ encoded. Kept-pure _
    where
      encoded-Safe : (r : Result CodecError (List Bytes)) → Kept SafeHere (or_other at r)
      encoded-Safe (ok a) = Kept-pure a
      encoded-Safe (err e) = Kept-raise other_exception

  matched_end-Leads :
      (time : ℕ) (found : VerificationSummary) (matched : Bool)
      → matched ≡ same_summary v.manifest.verification found
      → Leads (FoundIn found) SafeHere (matched_end at v staging time found matched)
  unfolding matched_end
  matched_end-Leads time found false h = record { leads = λ s k. k.0 }
  matched_end-Leads time found true h = record {
    leads = λ s (safe, (o, (e, (encoded, (c, same))))).
        (Leads-then (λ s' k. k.0)
            (ordering-Ready at v.manifest v.manifest.source.table live staging differ
              v.manifest.run_id v.manifest.source.database v.manifest.source.table time)
            λ order. ordered_end-Leads order order.relation).leads
          s
          (
            safe,
            (
              o,
              (
                e,
                (
                  encoded,
                  (
                    c,
                    same_summary-Agrees v.manifest.verification (summary_of at encoded)
                        (ap (same_summary v.manifest.verification) same ∙ sym h),
                  ),
                ),
              ),
            ),
          );
  }

  matches-Found : (found : VerificationSummary) → Kept (FoundIn found) (matches at v.manifest found)
  unfolding matches record_verification update_run
  matches-Found found =
      Kept-bind
        (Kept-bind (utcnow-Kept (FoundIn found) (λ s h. h) at.server) λ now.
          execute-Kept (FoundIn found) (λ s h. h) at.server _
            λ s h. (
              (
                All-update v.manifest.source.table (of_run_id v.manifest.run_id) _ s.runs (λ r k. k)
                    h.0.0,
                h.0.1,
              ),
              h.1,
            ))
        λ _. Kept-pure _

  matches-Returns :
      (found : VerificationSummary)
      → Returns
          (FoundIn found)
          (λ matched s. matched ≡ same_summary v.manifest.verification found)
          (matches at v.manifest found)
  unfolding matches
  matches-Returns found =
      Returns-bind {R = λ u s. s ≡ s} (record { returns = λ s a h e. refl })
        λ u. Returns-pure _ λ s h. refl

  verify_and_promote-Safe : (time : ℕ) → Kept SafeHere (verify_and_promote at v staging time)
  unfolding verify_and_promote set_verifying
  verify_and_promote-Safe time =
      Kept-bind
        (update_run-Safe at v.manifest v.manifest.source.table live v.manifest.run_id _
          λ now r k. k)
        λ _. Kept-then verify-Safe verify-Returns λ found.
          Leads-fact (λ s h. h.0) (matches-Found found) (matches-Returns found)
            λ matched same. matched_end-Leads time found matched same

  -- Whatever fails from the verification of the staging table on, a call of the server, the row codec or
  -- a COMMIT, the table under the target's name is what it was, or a table whose rows, encoded, have
  -- the row count and both digests of the manifest. The names of the staging table and of the backup
  -- differ from each other and from the target, and no run of the metadata has the target for its own.
  pub verify_and_promote-LiveSafe :
      (time : ℕ) (s : Destination)
      → All (RowApart v.manifest.source.table) s.runs
      → object_named v.manifest.source.table s ≡ live
      → LiveSafe at v.manifest v.manifest.source.table live
          (verify_and_promote at v staging time s).1
  verify_and_promote-LiveSafe time s apart same =
      ((verify_and_promote-Safe time).keeps s (apart, inl same)).1

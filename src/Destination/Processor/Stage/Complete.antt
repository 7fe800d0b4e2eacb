-- ===== src/Destination/Processor/Stage/Complete.antt =====
-- A run becomes STAGED only when all its chunks are imported, src/airgap_sync/destination/processor.py.
use airgap_sync.Base.{
  Option, String, ap, arith, nat_beq_iff, none, refl, some, sym, true, ℕ, ◌∙◌, ◌≡◌,
}
use airgap_sync.Base.Exec.{ok}
use airgap_sync.Base.Rows.{find?, find?-update}
use airgap_sync.Destination.Database.{Destination, RunRow, of_run_id, set_runs}
use airgap_sync.Destination.Database.Chunks.{complete_staged, imported_totals, totals_agree}
use airgap_sync.Destination.Database.Returns.{
  Returns, Returns-bind, Returns-execute, Returns-fetch, Returns-raise_if, Returns-utcnow,
}
use airgap_sync.Destination.Database.Statements.{stepped_on}
use airgap_sync.Destination.Processor.{Setting, ValidatedRun}
use airgap_sync.Destination.Processor.Stage.{stage}

module _ (at : Setting) where
  -- What the metadata shows of a run: as many chunks as it has are imported, with the expected rows.
  abbrev pub AllImported : String → ℕ → Destination → Type 0
  AllImported id expected s =
      (r : RunRow) × ((find? (of_run_id id) s.runs ≡ some r)
        × (((imported_totals id s).0 ≡ r.chunk_count) × ((imported_totals id s).1 ≡ expected)))

  agreed :
      (totals : ℕ × ℕ) (o : Option RunRow) (expected : ℕ)
      → totals_agree totals o expected ≡ true
      → (r : RunRow) × ((o ≡ some r) × ((totals.0 ≡ r.chunk_count) × (totals.1 ≡ expected)))
  unfolding totals_agree
  agreed totals none expected h = cc
  agreed totals (some r) expected h = (
    r,
    (
      refl,
      (
        ground (arith, h, nat_beq_iff totals.0 r.chunk_count),
        ground (arith, h, nat_beq_iff totals.1 expected),
      ),
    ),
  )

  checked_totals :
      (id : String) (expected : ℕ) (totals : ℕ × ℕ) (o : Option RunRow) (s : Destination)
      → (o ≡ find? (of_run_id id) s.runs) × (totals ≡ imported_totals id s)
      → totals_agree totals o expected ≡ true
      → AllImported id expected s
  checked_totals id expected totals o s (ho, ht) h =
      let (r, (e, (c, n))) = agreed totals o expected h in
      (r, (sym ho ∙ e, (ap (λ x. x.0) (sym ht) ∙ c, ap (λ x. x.1) (sym ht) ∙ n)))

  marked_staged :
      (id : String) (expected : ℕ) (f : RunRow → RunRow) (s : Destination)
      → ((r : RunRow) → of_run_id id (f r) ≡ of_run_id id r)
      → ((r : RunRow) → (f r).chunk_count ≡ r.chunk_count)
      → AllImported id expected s
      → AllImported id expected (set_runs (of_run_id id) f (stepped_on s))
  unfolding imported_totals
  marked_staged id expected f s same kept (r, (e, (c, n))) =
      (f r, (find?-update (of_run_id id) f s.runs r same e, (c ∙ sym (kept r), n)))

  complete_staged-Returns :
      (id : String) (expected : ℕ)
      → Returns (λ s. s ≡ s) (λ u. AllImported id expected) (complete_staged at.server id expected)
  unfolding complete_staged imported_totals
  complete_staged-Returns id expected =
      Returns-bind
        (Returns-fetch at.server {R = λ totals s. totals ≡ imported_totals id s} _ λ s h. refl)
        λ totals.
          Returns-bind
            (Returns-fetch at.server
              {R = λ o s. (o ≡ find? (of_run_id id) s.runs) × (totals ≡ imported_totals id s)} _
              λ s h. (refl, h))
            λ o.
              Returns-bind
                (Returns-raise_if {R = λ u. AllImported id expected} _ _
                  λ s h e. checked_totals id expected totals o s h (ground (arith, e)))
                λ u.
                  Returns-bind
                    (Returns-utcnow at.server {R = λ now. AllImported id expected} λ s now h. h)
                    λ now.
                      Returns-execute at.server _
                        λ s h. marked_staged id expected _ s (λ r. refl) (λ r. refl) h

  -- When `_stage` returns, the number of imported chunks of the run is the chunk count that its metadata
  -- holds, and their rows add up to the row count of the manifest.
  pub stage_complete :
      (v : ValidatedRun) (staging : String) (existing : Option RunRow) (s : Destination)
      → (stage at v staging existing s).0 ≡ ok tt
      → AllImported v.manifest.run_id v.manifest.row_count (stage at v staging existing s).1
  unfolding stage
  stage_complete v staging existing s e =
      (Returns-bind {Q = λ s. s ≡ s} {R = λ a s. s ≡ s} (record { returns = λ s a h e. refl })
          λ columns.
            Returns-bind {Q = λ s. s ≡ s} {R = λ a s. s ≡ s} (record { returns = λ s a h e. refl })
              λ u.
                Returns-bind {Q = λ s. s ≡ s} {R = λ a s. s ≡ s}
                  (record { returns = λ s a h e. refl })
                  λ u. complete_staged-Returns v.manifest.run_id v.manifest.row_count).returns
        s tt refl e

-- ===== src/Destination/Processor/Live/Promoted.antt =====
-- The promotion puts the verified table into place, src/airgap_sync/destination/processor.py.
use airgap_sync.Base.{
  All, Bool, List, Option, String, arith, eq_iff, false, if◌then◌else◌, inr, nat_eq, none,
  option_eq, refl, some, string_eq, true, ℕ, ◌==◌, ◌∙◌, ◌≡◌,
}
use airgap_sync.Base.Rows.{find?-of_exists}
use airgap_sync.Common.Manifest.{Manifest}
use airgap_sync.Destination.Database.{
  Destination, RunRow, TableObject, TableVersion, named, of_run_id,
}
use airgap_sync.Destination.Database.Catalog.{
  is_base, promoted, rename_for_promotion, rename_one, renamed_next, with_objects,
}
use airgap_sync.Destination.Database.Catalog.Renamed.{moved, others_same, renamed, target_there}
use airgap_sync.Destination.Database.Rules.{Leads-next}
use airgap_sync.Destination.Database.Runs.{set_superseded, update_run}
use airgap_sync.Destination.Database.Stable.{
  Kept, Kept-bind, Kept-pure, Kept-raise, Kept-raise_if, Leads, Leads-then, WhenSome, attempt-Leads,
  execute-Kept, fetch-Kept, utcnow-Kept,
}
use airgap_sync.Destination.Database.Statements.{fetch}
use airgap_sync.Destination.Processor.{
  Setting, VersionRelation, after_comparison, backup_table_name, newer, no_previous, older,
  ordering, same_run, same_timestamp_different_run,
}
use airgap_sync.Destination.Processor.Live.{
  All-update, RowApart, Safe, Verified, finalize_verified-Safe,
}
use airgap_sync.Destination.Processor.Promote.{check_target, previous_id, promote}

abbrev OtherThan : String → Option String → Type 0
OtherThan name o = (o == some name) ≡ false

WhenSome-renamed :
    (P : Destination → Type 0) (b : Bool) (objects : List TableObject) (s : Destination)
    → (b ≡ true → P (record s { objects = objects }))
    → WhenSome P (with_objects s (if b then some objects else none))
WhenSome-renamed P true objects s k = k refl
WhenSome-renamed P false objects s k = tt

module _ (at : Setting) (m : Manifest) (target : String) (live : Option TableObject)
    (staging : String) (differ : (staging == target) ≡ false) where
  -- Safe, and the staging table is verified.
  abbrev pub Ready : Destination → Type 0
  Ready s = Safe at m target live s × Verified at m target live staging s

  -- A rename that the server accepts makes the verified table the live one.
  renamed-Safe :
      (objects : List TableObject) (s : Destination)
      → All (RowApart target) s.runs
      → Verified at m target live staging (record s { objects = objects })
      → WhenSome (Safe at m target live) (with_objects s (rename_one staging target objects))
  unfolding rename_one
  renamed-Safe objects s apart (o, (e, rest)) =
      WhenSome-renamed (Safe at m target live) _ (moved staging target objects) s λ free. (
        apart,
        inr (
          renamed target o,
          (
            target_there staging target differ objects o e
                (find?-of_exists (named target) objects (ground (arith, free))),
            rest,
          ),
        ),
      )

  second_Safe :
      (b : Bool) (objects : List TableObject) (s : Destination)
      → All (RowApart target) s.runs
      → Verified at m target live staging (record s { objects = objects })
      → WhenSome
          (Safe at m target live)
          (renamed_next staging target (if b then some objects else none) s)
  unfolding renamed_next
  second_Safe true objects s apart v = renamed-Safe objects s apart v
  second_Safe false objects s apart v = tt

  promoted-Safe :
      (backup : Option String) (s : Destination)
      → OtherThan target backup
      → OtherThan staging backup
      → Ready s
      → WhenSome (Safe at m target live) (promoted staging target backup s)
  unfolding promoted rename_one
  promoted-Safe none s bt bs (safe, v) = renamed-Safe s.objects s safe.0 v
  promoted-Safe (some backup) s bt bs (safe, (o, (e, rest))) =
      second_Safe _ (moved target backup s.objects) s safe.0 (
        o,
        (
          others_same target backup (ground (arith, bt, eq_iff target backup, eq_iff backup target))
                staging s.objects differ
                (ground (arith, bs, eq_iff staging backup, eq_iff backup staging))
              ∙ e,
          rest,
        ),
      )

  rename-Leads :
      (backup : Option String)
      → OtherThan target backup
      → OtherThan staging backup
      → Leads Ready (Safe at m target live) (rename_for_promotion at.server staging target backup)
  unfolding rename_for_promotion
  rename-Leads backup bt bs =
      attempt-Leads (Safe at m target live) (λ s h. h) at.server Ready _ (λ s h. h.0)
        λ s h. promoted-Safe backup s bt bs h

  fetch-Ready : {A : Type 0} (g : Destination → A) → Kept Ready (fetch at.server g)
  fetch-Ready g = fetch-Kept Ready (λ s h. h) at.server g

  update_run-Ready :
      (id : String) (f : ℕ → RunRow → RunRow)
      → ((now : ℕ) (r : RunRow) → RowApart target r → RowApart target (f now r))
      → Kept Ready (update_run at.server id f)
  unfolding update_run
  update_run-Ready id f k = Kept-bind (utcnow-Kept Ready (λ s h. h) at.server) λ now.
      execute-Kept Ready (λ s h. h) at.server _
        λ s h. ((All-update target (of_run_id id) (f now) s.runs (k now) h.0.0, h.0.1), h.1)

  check_target-Ready : (backup : String) (b : Bool) → Kept Ready (check_target at target backup b)
  unfolding check_target
  check_target-Ready backup false = Kept-pure tt
  check_target-Ready backup true =
      Kept-bind
        (Kept-bind (fetch-Ready _)
          λ fk. Kept-bind (fetch-Ready _) λ trigger. Kept-pure (fk, trigger))
        λ both. Kept-bind (Kept-raise_if both.0 _) λ _.
          Kept-bind (Kept-raise_if both.1 _)
            λ _. Kept-bind (fetch-Ready _) λ kind. Kept-raise_if _ _

  backup_other :
      (b : Bool) (backup name : String)
      → (backup == name) ≡ false
      → OtherThan name (if b then some backup else none)
  backup_other true backup name h = h
  backup_other false backup name h = refl

  pub promote-Leads :
      (id : String) (previous : Option TableVersion)
      → (backup_table_name at id == target) ≡ false
      → (backup_table_name at id == staging) ≡ false
      → Leads Ready (Safe at m target live) (promote at id target staging previous)
  unfolding promote
  promote-Leads id previous bt bs =
      Leads-then (λ s h. h.0) (fetch-Ready _)
        λ kind.
          Leads-then (λ s h. h.0) (Kept-raise_if _ _)
            λ _.
              Leads-then (λ s h. h.0) (check_target-Ready (backup_table_name at id) (is_base kind))
                λ _.
                  Leads-then (λ s h. h.0)
                    (update_run-Ready id _ λ now r k.
                      (k.0, backup_other (is_base kind) (backup_table_name at id) target bt))
                    λ _.
                      Leads-next
                        (rename-Leads _
                          (backup_other (is_base kind) (backup_table_name at id) target bt)
                          (backup_other (is_base kind) (backup_table_name at id) staging bs))
                        λ _. finalize_verified-Safe at m target live id (previous_id previous)

  set_superseded-Ready : (id : String) → Kept Ready (set_superseded at.server id)
  unfolding set_superseded
  set_superseded-Ready id = update_run-Ready id _ λ now r k. k

  after_comparison-Ready :
      (id : String) (relation : VersionRelation) → Kept Ready (after_comparison at id relation)
  after_comparison-Ready id no_previous = Kept-pure tt
  after_comparison-Ready id same_run = Kept-pure tt
  after_comparison-Ready id newer = Kept-pure tt
  after_comparison-Ready id older = set_superseded-Ready id
  after_comparison-Ready id same_timestamp_different_run = Kept-raise _

  pub ordering-Ready :
      (id database table : String) (time : ℕ) → Kept Ready (ordering at id database table time)
  unfolding ordering
  ordering-Ready id database table time =
      Kept-bind (Kept-bind (fetch-Ready _) λ latest. Kept-pure _)
        λ found. Kept-bind (after_comparison-Ready id found.relation) λ _. Kept-pure found

-- ===== src/Destination/Processor/Promote/Recoverable.antt =====
-- An interrupted promotion is recognised, src/airgap_sync/destination/processor.py.
use airgap_sync.Base.{Bool, String, ap, false, none, refl, some, sym, true, ◌∙◌, ◌≡◌}
use airgap_sync.Destination.Database.{Destination, RunRow, TableObject, base_table}
use airgap_sync.Destination.Database.Catalog.{
  held_rows, kind_of, object_named, promoted, rows_in, type_in,
}
use airgap_sync.Destination.Database.Catalog.Renamed.{
  Apart, both_steps, promoted_backup, promoted_over, promoted_staging, promoted_target,
}
use airgap_sync.Destination.Processor.Promote.{swap_done, swap_not_done}

-- What `_recover_swap` decides on, in a state.
abbrev pub not_done_in : RunRow → String → String → String → Destination → Bool
not_done_in r staging target backup s =
    swap_not_done r (type_in target s) (type_in staging s) (type_in backup s)

abbrev pub done_in : RunRow → String → String → String → Destination → Bool
done_in r staging target backup s =
    swap_done r (type_in target s) (type_in staging s) (type_in backup s)

-- For a run that is to replace a live table, with the staging table there and no backup yet: before the
-- rename the recovery finds the swap not done, and not done already; the rename succeeds; after it the
-- recovery finds the swap done, and not to be done again. The live table then has the rows of the
-- staging table, and the backup has the rows of the old live table.
pub promoted_recoverable :
    (r : RunRow) (staging target backup : String) (s : Destination) (g o : TableObject)
    → Apart staging target backup
    → r.target_existed ≡ some true
    → object_named staging s ≡ some g
    → g.kind ≡ base_table
    → object_named target s ≡ some o
    → o.kind ≡ base_table
    → object_named backup s ≡ none
    → (not_done_in r staging target backup s ≡ true)
      × ((done_in r staging target backup s ≡ false)
          × ((s' : Destination) × ((promoted staging target (some backup) s ≡ some s')
                × ((done_in r staging target backup s' ≡ true)
                    × ((not_done_in r staging target backup s' ≡ false)
                        × ((rows_in target s' ≡ rows_in staging s)
                            × (rows_in backup s' ≡ rows_in target s)))))))
unfolding swap_not_done swap_done
promoted_recoverable r staging target backup s g o names existed hs gs ht os hb =
    let s' = both_steps staging target backup names s g o hs ht hb in
    let over = promoted_over staging target backup names s g o hs ht hb in
    let ps = promoted_staging staging target backup names s g o hs ht hb in
    let pt = promoted_target staging target backup names s g o hs ht hb in
    let pb = promoted_backup staging target backup names s g o hs ht hb in
    let ts = ap kind_of hs ∙ ap some gs in
    let tl = ap kind_of ht ∙ ap some os in
    let tb = ap kind_of hb in
    let us = ap kind_of ps in
    let ut = ap kind_of pt ∙ ap some gs in
    let ub = ap kind_of pb ∙ ap some os in
    (
      rw (existed, ts, tl, tb) refl,
      (
        rw ts refl,
        (
          s',
          (
            over,
            (
              rw (existed, us, ut, ub) refl,
              (
                rw us refl,
                (ap held_rows pt ∙ sym (ap held_rows hs), ap held_rows pb ∙ sym (ap held_rows ht)),
              ),
            ),
          ),
        ),
      ),
    )

-- ===== src/Destination/Database/Catalog/Renamed.antt =====
-- What RENAME TABLE does to the tables, src/airgap_sync/destination/mysql.py.
use airgap_sync.Base.{
  List, String, [], arith, eq_iff, false, nat_eq, none, option_eq, refl, some, string_eq, ◌==◌, ◌∙◌,
  ◌∷◌, ◌≡◌,
}
use airgap_sync.Base.Rows.{exists_row-of_find?, exists_row-of_find?-none, find?, update_where}
use airgap_sync.Destination.Database.{Destination, TableObject, named}
use airgap_sync.Destination.Database.Catalog.{object_named, promoted, rename_one}

abbrev pub renamed : String → TableObject → TableObject
renamed name o = record o { name = name }

-- `a` becomes `b`: a is gone, b is what a was, and every other name is as before.
module _ (a b : String) (apart : (a == b) ≡ false) where
  pub source_gone :
      (objects : List TableObject)
      → find? (named a) (update_where (named a) (renamed b) objects) ≡ none
  source_gone [] = refl
  source_gone (o ∷ os) = ground (arith, source_gone os, eq_iff o.name a, eq_iff a b, eq_iff b a)

  pub target_there :
      (objects : List TableObject) (o : TableObject)
      → find? (named a) objects ≡ some o
      → find? (named b) objects ≡ none
      → find? (named b) (update_where (named a) (renamed b) objects) ≡ some (renamed b o)
  target_there [] o h k = cc
  target_there (x ∷ xs) o h k =
      ground (arith, target_there xs o, eq_iff x.name a, eq_iff x.name b, eq_iff a b, eq_iff b b)

  pub others_same :
      (c : String) (objects : List TableObject)
      → (c == a) ≡ false
      → (c == b) ≡ false
      → find? (named c) (update_where (named a) (renamed b) objects) ≡ find? (named c) objects
  others_same c [] h k = refl
  others_same c (x ∷ xs) h k = ground (
    arith,
    others_same c xs,
    eq_iff x.name a,
    eq_iff x.name c,
    eq_iff b c,
    eq_iff c a,
    eq_iff c b,
  )

  pub rename_one_ok :
      (objects : List TableObject) (o : TableObject)
      → find? (named a) objects ≡ some o
      → find? (named b) objects ≡ none
      → rename_one a b objects ≡ some (update_where (named a) (renamed b) objects)
  unfolding rename_one
  rename_one_ok objects o h k =
      rw (exists_row-of_find? (named a) objects o h, exists_row-of_find?-none (named b) objects k)

-- The tables after RENAME TABLE staging TO target.
abbrev pub moved : String → String → List TableObject → List TableObject
moved a b objects = update_where (named a) (renamed b) objects

module _ (staging target : String) (differ : (staging == target) ≡ false) (s : Destination)
    (g : TableObject) (has_staging : object_named staging s ≡ some g) where
  pub promoted_fresh :
      object_named target s ≡ none
      → promoted staging target none s
        ≡ some (record s { objects = moved staging target s.objects })
  unfolding promoted
  promoted_fresh no_target =
      rw (rename_one_ok staging target differ s.objects g has_staging no_target)

-- Three different names.
pub record Apart (staging target backup : String) : Type 0 where
  pub staging_target : (staging == target) ≡ false
  pub target_backup : (target == backup) ≡ false
  pub staging_backup : (staging == backup) ≡ false

module _ (staging target backup : String) (names : Apart staging target backup) (s : Destination)
    (g o : TableObject) (has_staging : object_named staging s ≡ some g)
    (has_target : object_named target s ≡ some o) (no_backup : object_named backup s ≡ none) where
  abbrev first_step : List TableObject
  first_step = moved target backup s.objects

  abbrev pub both_steps : Destination
  both_steps = record s { objects = moved staging target first_step }

  staging_stays : find? (named staging) first_step ≡ some g
  staging_stays =
      others_same target backup names.target_backup staging s.objects names.staging_target
        names.staging_backup
      ∙ has_staging

  pub promoted_over : promoted staging target (some backup) s ≡ some both_steps
  unfolding promoted
  promoted_over = rw (
    rename_one_ok target backup names.target_backup s.objects o has_target no_backup,
    rename_one_ok staging target names.staging_target first_step g staging_stays
        (source_gone target backup names.target_backup s.objects),
  )

  pub promoted_staging : object_named staging both_steps ≡ none
  promoted_staging = source_gone staging target names.staging_target first_step

  pub promoted_target : object_named target both_steps ≡ some (renamed target g)
  promoted_target =
      target_there staging target names.staging_target first_step g staging_stays
        (source_gone target backup names.target_backup s.objects)

  pub promoted_backup : object_named backup both_steps ≡ some (renamed backup o)
  promoted_backup =
      others_same staging target names.staging_target backup first_step
        (ground (arith, names.staging_backup, eq_iff staging backup, eq_iff backup staging))
        (ground (arith, names.target_backup, eq_iff target backup, eq_iff backup target))
      ∙ target_there target backup names.target_backup s.objects o has_target no_backup

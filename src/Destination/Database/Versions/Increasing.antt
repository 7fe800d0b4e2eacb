-- ===== src/Destination/Database/Versions/Increasing.antt =====
-- In a history, each version of a table is newer than those before it, src/airgap_sync/destination/mysql.py.
use airgap_sync.Base.{
  All, Bool, List, Option, String, [], arith, false, if◌then◌else◌, none, refl, some, true, ◌++◌,
  ◌<◌, ◌∷◌, ◌≡◌, ◌≤◌,
}
use airgap_sync.Base.Rows.{first_of, select_where}
use airgap_sync.Destination.Database.{TableVersion, of_source}
use airgap_sync.Destination.Database.Stable.{Links}
use airgap_sync.Destination.Database.Versions.{latest_in, newer_first}
use airgap_sync.Destination.Database.Versions.Ordered.{IsHistory, next_version, no_version}

-- v is of the same table as w.
abbrev same_table : TableVersion → TableVersion → Bool
same_table v w = of_source v.source_database v.table_name w

-- Every earlier version of v's table is older than v.
abbrev pub NewerThanAll : TableVersion → List TableVersion → Type 0
NewerThanAll v vs = All (λ w. same_table v w ≡ true → w.source_created_at < v.source_created_at) vs

-- Each version is newer than the earlier ones of its table; the newest stands at the end.
pub data IsIncreasing : List TableVersion → Type 0 where
  nothing_yet : IsIncreasing []
  then_newer :
      (vs : List TableVersion) (v : TableVersion)
      → IsIncreasing vs
      → NewerThanAll v vs
      → IsIncreasing (vs ++ (v ∷ []))

-- No version of the table is newer than the latest one.
abbrev AtMost : Option TableVersion → String → String → List TableVersion → Type 0
AtMost none database table vs = All (λ w. of_source database table w ≡ false) vs
AtMost (some l) database table vs =
    All (λ w. of_source database table w ≡ true → w.source_created_at ≤ l.source_created_at) vs

AtMost-raise :
    (l m : TableVersion) (database table : String) (vs : List TableVersion)
    → l.source_created_at ≤ m.source_created_at
    → AtMost (some l) database table vs
    → AtMost (some m) database table vs
AtMost-raise l m database table [] le h = tt
AtMost-raise l m database table (w ∷ ws) le h =
    (λ e. ground (arith, h.0 e), AtMost-raise l m database table ws le h.1)

AtMost-none :
    (m : TableVersion) (database table : String) (vs : List TableVersion)
    → AtMost none database table vs
    → AtMost (some m) database table vs
AtMost-none m database table [] h = tt
AtMost-none m database table (w ∷ ws) h = (λ e. cc (h.0, e), AtMost-none m database table ws h.1)

chosen_AtMost :
    (b : Bool) (database table : String) (v w : TableVersion) (vs : List TableVersion)
    → (b ≡ true → w.source_created_at ≤ v.source_created_at)
    → (b ≡ false → v.source_created_at ≤ w.source_created_at)
    → AtMost (some w) database table vs
    → AtMost (if b then some v else some w) database table (v ∷ vs)
chosen_AtMost true database table v w vs higher lower h =
    (λ e. omega arith, AtMost-raise w v database table vs (higher refl) h)
chosen_AtMost false database table v w vs higher lower h = (λ e. lower refl, h)

first_AtMost :
    (database table : String) (v : TableVersion) (vs : List TableVersion) (o : Option TableVersion)
    → AtMost o database table vs
    → AtMost
        (elim o [ none ↦ some v | some w ↦ if newer_first v w then some v else some w ])
        database
        table
        (v ∷ vs)
first_AtMost database table v vs none h = (λ e. omega arith, AtMost-none v database table vs h)
first_AtMost database table v vs (some w) h =
    chosen_AtMost (newer_first v w) database table v w vs (λ e. ground (arith, e))
      (λ e. ground (arith, e)) h

other_AtMost :
    (database table : String) (v : TableVersion) (vs : List TableVersion) (o : Option TableVersion)
    → of_source database table v ≡ false
    → AtMost o database table vs
    → AtMost o database table (v ∷ vs)
other_AtMost database table v vs none e h = (e, h)
other_AtMost database table v vs (some w) e h = (λ e'. cc (e, e'), h)

kept_AtMost :
    (b : Bool) (database table : String) (v : TableVersion) (vs : List TableVersion)
    → of_source database table v ≡ b
    → AtMost (first_of newer_first (select_where (of_source database table) vs)) database table vs
    → AtMost
        (first_of newer_first (
          if b
          then v ∷ select_where (of_source database table) vs
          else select_where (of_source database table) vs))
        database
        table
        (v ∷ vs)
kept_AtMost true database table v vs e h =
    first_AtMost database table v vs
      (first_of newer_first (select_where (of_source database table) vs)) h
kept_AtMost false database table v vs e h =
    other_AtMost database table v vs
      (first_of newer_first (select_where (of_source database table) vs)) e h

latest_AtMost :
    (database table : String) (vs : List TableVersion)
    → AtMost (latest_in database table vs) database table vs
unfolding latest_in
latest_AtMost database table [] = tt
latest_AtMost database table (v ∷ vs) =
    kept_AtMost (of_source database table v) database table v vs refl
      (latest_AtMost database table vs)

linked_NewerThanAll :
    (v : TableVersion) (o : Option TableVersion) (vs : List TableVersion)
    → Links v o
    → AtMost o v.source_database v.table_name vs
    → NewerThanAll v vs
linked_NewerThanAll v o [] links h = tt
linked_NewerThanAll v none (w ∷ ws) links h =
    (λ e. cc (h.0, e), linked_NewerThanAll v none ws links h.1)
linked_NewerThanAll v (some l) (w ∷ ws) links h =
    (λ e. ground (arith, h.0 e, links.0), linked_NewerThanAll v (some l) ws links h.1)

-- In a history, each version of a table was taken from its source later than every earlier version of
-- the same table.
pub IsHistory-IsIncreasing : (vs : List TableVersion) → IsHistory vs → IsIncreasing vs
IsHistory-IsIncreasing vs no_version = nothing_yet
IsHistory-IsIncreasing vs (next_version ws v h links) =
    then_newer ws v (IsHistory-IsIncreasing ws h) (
      linked_NewerThanAll v (latest_in v.source_database v.table_name ws) ws links
        (latest_AtMost v.source_database v.table_name ws))

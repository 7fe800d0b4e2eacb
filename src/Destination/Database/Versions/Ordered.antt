-- ===== src/Destination/Database/Versions/Ordered.antt =====
-- The history of the versions, src/airgap_sync/destination/mysql.py: what a table of versions can be when each was inserted by
-- `finalize_verified`.
use airgap_sync.Base.{List, [], ◌++◌, ◌∷◌}
use airgap_sync.Destination.Database.{Destination, TableVersion}
use airgap_sync.Destination.Database.Stable.{IsStable, LinksLatest}

-- The rows of `table_versions` that come from insertions of a next version.
pub data IsHistory : List TableVersion → Type 0 where
  no_version : IsHistory []
  next_version :
      (vs : List TableVersion) (v : TableVersion)
      → IsHistory vs
      → LinksLatest v vs
      → IsHistory (vs ++ (v ∷ []))

abbrev pub HistoryOf : Destination → Type 0
HistoryOf s = IsHistory s.table_versions

pub HistoryOf-IsStable : IsStable HistoryOf
HistoryOf-IsStable = record {
  steps = λ s h. h;
  supported = λ s found h. h;
  runs = λ s rows h. h;
  chunks = λ s rows h. h;
  objects = λ s tables h. h;
  files = λ s names h. h;
  version = λ s v h links. next_version s.table_versions v h links;
  rolled = λ s s' h h'. h;
}

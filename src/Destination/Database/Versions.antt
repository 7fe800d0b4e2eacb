-- ===== src/Destination/Database/Versions.antt =====
-- The table `table_versions` and `finalize_verified`, src/airgap_sync/destination/mysql.py.
pub mod Ordered
pub mod Increasing
use airgap_sync.Base.{
  Bool, List, Option, String, [], false, if◌then◌else◌, leb, ltb, nat_eq, none, not, option_eq,
  some, string_eq, ℕ, ◌&&◌, ◌++◌, ◌-◌, ◌==◌, ◌||◌, ◌∷◌,
}
use airgap_sync.Base.Exec.{raise_if}
use airgap_sync.Base.Rows.{exists_row, first_of, order_by, select_where}
use airgap_sync.Common.RowCodec.{Integer, below_zero, from_zero}
use airgap_sync.Destination.Database.{
  Destination, RunRow, RunState, TableVersion, of_run_id, of_source, set_runs,
}
use airgap_sync.Destination.Database.Runs.{get_run, or_raise, run_missing}
use airgap_sync.Destination.Database.Statements.{
  Call, DbFailure, Server, attempt, execute, fetch, in_transaction, mysql_error, utcnow, ◌>>=◌,
  ◌>>◌,
}

-- ORDER BY source_created_at DESC, applied_at DESC
abbrev pub newer_first : TableVersion → TableVersion → Bool
newer_first v w =
    ltb w.source_created_at v.source_created_at
    || v.source_created_at == w.source_created_at && leb w.applied_at v.applied_at

unfoldable pub latest_in : String → String → List TableVersion → Option TableVersion
latest_in database table versions =
    first_of newer_first (select_where (of_source database table) versions)

-- run.row_count - previous_rows
unfoldable pub difference : ℕ → ℕ → Integer
difference a b = if leb b a then from_zero (a - b) else below_zero (b - a - 1)

abbrev pub id_of : Option TableVersion → Option String
id_of none = none
id_of (some v) = some v.run_id

unfoldable pub new_version : RunRow → ℕ → Option TableVersion → ℕ → TableVersion
unfolding difference
new_version run created previous now = record {
  run_id = run.run_id;
  source_database = run.source_database;
  table_name = run.table_name;
  source_created_at = created;
  row_count = run.row_count;
  previous_run_id = elim previous [ none ↦ none | some v ↦ some v.run_id ];
  previous_row_count = elim previous [ none ↦ none | some v ↦ some v.row_count ];
  net_change = elim previous [ none ↦ none | some v ↦ some (difference run.row_count v.row_count) ];
  verified_at = now;
  applied_at = now;
}

-- PRIMARY KEY (run_id)
unfoldable pub insert_version : TableVersion → Destination → Option Destination
insert_version v s =
    if exists_row (λ w. w.run_id == v.run_id) s.table_versions
    then none
    else some (record s { table_versions = s.table_versions ++ (v ∷ []) })

abbrev pub version_conflict : DbFailure
version_conflict = mysql_error "FINALIZE_VERSION_CONFLICT"

abbrev pub order_ambiguous : DbFailure
order_ambiguous = mysql_error "RUN_ORDER_AMBIGUOUS"

-- `run_time < previous_time` and `run_time == previous_time` raise; `rest` follows.
abbrev pub checked_newer : ℕ → Option TableVersion → Call Unit → Call Unit
checked_newer created none rest = rest
checked_newer created (some v) rest =
    raise_if (ltb created v.source_created_at) version_conflict
    >> (raise_if (created == v.source_created_at) order_ambiguous >> rest)

abbrev pub is_run : String → Option TableVersion → Bool
is_run id none = false
is_run id (some v) = v.run_id == id

module _ (server : Server) where
  unfoldable pub latest_version : String → String → Call (Option TableVersion)
  unfolding latest_in
  latest_version database table = fetch server (λ s. latest_in database table s.table_versions)

  unfoldable pub mark_verified : String → ℕ → Call Unit
  mark_verified id now = execute server (
      set_runs (of_run_id id) (λ r. record r {
        status = RunState.verified;
        applied_at = some now;
        last_error = none;
        updated_at = now;
      }))

  abbrev pub add_version : String → RunRow → ℕ → Option TableVersion → ℕ → Call Unit
  add_version id run created previous now = checked_newer created previous (do
    mark_verified id now
    attempt server (insert_version (new_version run created previous now)))

  abbrev pub finalize_over :
      String → Option String → ℕ → RunRow → ℕ → Option TableVersion → Call Unit
  finalize_over id expected_previous now run created previous =
      if is_run id previous then mark_verified id now else (do
        raise_if (not (id_of previous == expected_previous)) version_conflict
        add_version id run created previous now)

  unfoldable pub finalize_body : String → Option String → ℕ → Call Unit
  unfolding get_run latest_version
  finalize_body id expected_previous now = do
    found ← get_run server id
    run ← or_raise run_missing found
    created ← or_raise (mysql_error "run source_created_at is missing") run.source_created_at
    previous ← latest_version run.source_database run.table_name
    finalize_over id expected_previous now run created previous

  unfoldable pub finalize_verified : String → Option String → Call Unit
  unfolding finalize_body
  finalize_verified id expected_previous = do
    now ← utcnow server
    in_transaction server (finalize_body id expected_previous now)

  -- ORDER BY source_database, table_name, source_created_at: `first` compares the two names.
  unfoldable pub all_versions : (TableVersion → TableVersion → Bool) → Call (List TableVersion)
  all_versions first = fetch server (λ s. order_by first s.table_versions)

-- ===== src/Destination/ProcessTests.antt =====
-- A concrete run through the processor, src/airgap_sync/destination/processor.py.
use airgap_sync.Base.{
  List, Option, String, [], arith, false, if◌then◌else◌, nat_eq, none, option_eq, refl, some,
  string_eq, true, ℕ, ◌==◌, ◌∷◌, ◌≡◌,
}
use airgap_sync.Base.Exec.{ok}
use airgap_sync.Common.Manifest.{chunk_filename}
use airgap_sync.Common.RowCodec.{Integer, decode_row, encode_row, from_zero, int_value}
use airgap_sync.Destination.Database.{
  Destination, DestinationColumn, RunRow, RunState, TableObject, TableVersion, is_swapping,
}
use airgap_sync.Destination.Database.Catalog.{promoted, rows_in}
use airgap_sync.Destination.Database.Catalog.Renamed.{Apart}
use airgap_sync.Destination.Database.Returns.{AllOrNothing}
use airgap_sync.Destination.Database.Runs.{fail_run, register_validated_run}
use airgap_sync.Destination.Database.Statements.{
  attempt, done, execute, fetch, in_transaction, reply_lost, utcnow, ◌>>=◌,
}
use airgap_sync.Destination.Database.Versions.{difference, insert_version, latest_in, mark_verified}
use airgap_sync.Destination.Database.Versions.Increasing.{IsHistory-IsIncreasing, IsIncreasing}
use airgap_sync.Destination.Database.Versions.Ordered.{
  HistoryOf, IsHistory, next_version, no_version,
}
use airgap_sync.Destination.Processor.{Setting, ValidatedRun, backup_table_name, catch, finally}
use airgap_sync.Destination.Processor.History.{process_all-HistoryOf}
use airgap_sync.Destination.Processor.Import.{import_body, import_chunk}
use airgap_sync.Destination.Processor.Import.Atomic.{
  Inserted, import_chunk_atomic, import_chunk_complete,
}
use airgap_sync.Destination.Processor.Live.{LiveSafe}
use airgap_sync.Destination.Processor.Live.Whole.{verify_and_promote-LiveSafe}
use airgap_sync.Destination.Processor.Locks.{process_releases}
use airgap_sync.Destination.Processor.Process.{
  guarded, process, process_all, release_locks, verify_and_promote,
}
use airgap_sync.Destination.Processor.Promote.Intent.{fail_run_keeps_swapping, swapping_rows}
use airgap_sync.Destination.Processor.Promote.Recoverable.{
  done_in, not_done_in, promoted_recoverable,
}
use airgap_sync.Destination.Processor.Stage.{stage}
use airgap_sync.Destination.Processor.Stage.Complete.{AllImported, stage_complete}
use airgap_sync.Destination.Sample.{
  at_first, calm, calm_server, live_orders, on_server, run_manifest, verified_result,
}

-- The run is imported, verified and promoted.
run_verified : (process calm "run-1" at_first).0 ≡ ok verified_result
unfolding process execute fetch utcnow attempt in_transaction ◌>>=◌ catch finally chunk_filename
    release_locks guarded decode_row encode_row mark_verified insert_version
run_verified = refl

-- The live table has the two new rows; the backup is gone.
run_promoted :
    (process calm "run-1" at_first).1.objects
    ≡ record live_orders {
      rows = (int_value (from_zero 7) ∷ []) ∷ (int_value (from_zero 8) ∷ []) ∷ [];
    }
      ∷ []
unfolding process execute fetch utcnow attempt in_transaction ◌>>=◌ catch finally chunk_filename
    release_locks guarded decode_row encode_row mark_verified insert_version
run_promoted = refl

process_all-HistoryOf_example : HistoryOf (process_all calm ("run-1" ∷ "run-1" ∷ []) at_first).1
process_all-HistoryOf_example =
    process_all-HistoryOf calm ("run-1" ∷ "run-1" ∷ []) at_first no_version

process_releases_example : (process calm "run-1" at_first).1.locks ≡ []
process_releases_example = process_releases calm "run-1" at_first verified_result run_verified

abbrev version_at : String → ℕ → Option String → Option ℕ → Option Integer → TableVersion
version_at id created previous rows change = record {
  run_id = id;
  source_database = "shop";
  table_name = "orders";
  source_created_at = created;
  row_count = 2;
  previous_run_id = previous;
  previous_row_count = rows;
  net_change = change;
  verified_at = 900;
  applied_at = 900;
}

abbrev two_versions : List TableVersion
two_versions =
    version_at "a" 500 none none none
    ∷ version_at "b" 600 (some "a") (some 2) (some (from_zero 0))
    ∷ []

two_versions-IsHistory : IsHistory two_versions
unfolding latest_in difference
two_versions-IsHistory =
    next_version (version_at "a" 500 none none none ∷ [])
      (version_at "b" 600 (some "a") (some 2) (some (from_zero 0)))
      (next_version [] (version_at "a" 500 none none none) no_version (refl, refl, refl))
      (omega arith, refl, refl, refl)

IsHistory-IsIncreasing_example : IsIncreasing two_versions
IsHistory-IsIncreasing_example = IsHistory-IsIncreasing two_versions two_versions-IsHistory

abbrev staging_orders : TableObject
staging_orders = record live_orders { name = "staging"; rows = [] }

abbrev with_staging : Destination
with_staging = record at_first { objects = live_orders ∷ staging_orders ∷ [] }

abbrev id_column : List DestinationColumn
id_column = record { name = "id"; extra = ""; generation_expression = "" } ∷ []

chunk_imported :
    (import_chunk calm "run-1" 1 "chunk" 2 1 "staging" id_column with_staging).0 ≡ ok tt
unfolding import_chunk execute fetch utcnow attempt in_transaction ◌>>=◌ catch decode_row
chunk_imported = refl

import_chunk_complete_example :
    Inserted calm "staging" 1 2 id_column "chunk" staging_orders
      (import_chunk calm "run-1" 1 "chunk" 2 1 "staging" id_column with_staging).1
import_chunk_complete_example =
    import_chunk_complete calm "staging" 1 2 id_column "chunk" "run-1" 1 staging_orders with_staging
      refl chunk_imported

-- The reply to the seventh call is lost.
abbrev lossy : Setting
lossy = on_server (record calm_server { fate = λ i. if i == 6 then reply_lost else done })

import_chunk_atomic_example :
    AllOrNothing
      (import_body lossy "run-1" 1 "chunk" 2 1 "staging" id_column)
      with_staging
      (import_chunk lossy "run-1" 1 "chunk" 2 1 "staging" id_column with_staging).1
import_chunk_atomic_example =
    import_chunk_atomic lossy "staging" 1 2 id_column "chunk" "run-1" 1 with_staging

abbrev run_valid : ValidatedRun
run_valid = record {
  manifest = run_manifest;
  manifest_path = "manifest";
  schema_path = "schema";
  chunk_paths = "chunk" ∷ [];
}

abbrev registered : Destination
registered = (register_validated_run calm_server run_manifest "staging" 500 at_first).1

run_staged : (stage calm run_valid "staging" none registered).0 ≡ ok tt
unfolding stage register_validated_run execute fetch utcnow attempt in_transaction ◌>>=◌ catch
    decode_row chunk_filename
run_staged = refl

stage_complete_example :
    AllImported calm "run-1" 2 (stage calm run_valid "staging" none registered).1
stage_complete_example = stage_complete calm run_valid "staging" none registered run_staged

abbrev swapping_run : RunRow
swapping_run = record {
  run_id = "run-1";
  source_database = "shop";
  table_name = "orders";
  status = RunState.swapping;
  protocol_version = 1;
  row_count = 2;
  chunk_count = 1;
  staging_table = "staging";
  source_created_at = some 500;
  expected_digest_a = none;
  expected_digest_b = none;
  actual_row_count = none;
  actual_digest_a = none;
  actual_digest_b = none;
  digest_verified_at = none;
  target_existed = some true;
  backup_table = some "backup";
  applied_at = none;
  cleanup_error = none;
  backup_cleanup_error = none;
  incoming_cleanup_completed_at = none;
  backup_cleanup_completed_at = none;
  manifest_received_at = 100;
  validated_at = none;
  import_started_at = none;
  import_completed_at = none;
  last_error = none;
  created_at = 100;
  updated_at = 100;
}

abbrev during_swap : Destination
during_swap = record with_staging { runs = swapping_run ∷ [] }

fail_run_keeps_swapping_example :
    swapping_rows (fail_run calm_server "run-1" "lost" during_swap).1.runs ≡ swapping_run ∷ []
unfolding is_swapping
fail_run_keeps_swapping_example = fail_run_keeps_swapping calm_server "run-1" "lost" during_swap

three_names : Apart "staging" "orders" "backup"
three_names = record { staging_target = refl; target_backup = refl; staging_backup = refl }

promoted_recoverable_example :
    (not_done_in swapping_run "staging" "orders" "backup" during_swap ≡ true)
    × ((done_in swapping_run "staging" "orders" "backup" during_swap ≡ false)
        × ((s' : Destination) × ((promoted "staging" "orders" (some "backup") during_swap ≡ some s')
              × ((done_in swapping_run "staging" "orders" "backup" s' ≡ true)
                  × ((not_done_in swapping_run "staging" "orders" "backup" s' ≡ false)
                      × ((rows_in "orders" s' ≡ rows_in "staging" during_swap)
                          × (rows_in "backup" s' ≡ rows_in "orders" during_swap)))))))
promoted_recoverable_example =
    promoted_recoverable swapping_run "staging" "orders" "backup" during_swap staging_orders
      live_orders three_names refl refl refl refl refl refl

abbrev staged_orders : TableObject
staged_orders = record live_orders {
  name = "staging";
  rows = (int_value (from_zero 8) ∷ []) ∷ (int_value (from_zero 7) ∷ []) ∷ [];
}

abbrev staged_run : RunRow
staged_run = record swapping_run { status = RunState.staged; backup_table = none }

abbrev when_staged : Destination
when_staged = record at_first { runs = staged_run ∷ []; objects = live_orders ∷ staged_orders ∷ [] }

verify_and_promote-LiveSafe_example :
    LiveSafe calm run_manifest "orders"
      (some live_orders)
      (verify_and_promote calm run_valid "staging" 500 when_staged).1
unfolding backup_table_name
verify_and_promote-LiveSafe_example =
    verify_and_promote-LiveSafe calm run_valid (some live_orders) "staging" refl refl refl 500
      when_staged ((refl, refl), tt) refl

-- The rows of the staging table, in another order than the chunk's, are the live ones then.
staged_promoted :
    rows_in "orders" (verify_and_promote calm run_valid "staging" 500 when_staged).1
    ≡ some staged_orders.rows
unfolding verify_and_promote execute fetch utcnow attempt in_transaction ◌>>=◌ catch encode_row
    mark_verified insert_version chunk_filename
staged_promoted = refl

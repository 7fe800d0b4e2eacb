-- ===== src/Source/UploadTests.antt =====
-- Concrete runs of the uploader, the snapshot, and the worker's maintenance, `src/airgap_sync/source/`.
use airgap_sync.Base.{
  All, List, Option, String, [], false, if◌then◌else◌, nat_eq, none, option_eq, refl, some,
  string_eq, true, ℕ, ◌-◌, ◌==◌, ◌↔◌, ◌∷◌, ◌≡◌, ◌≢◌, ◌≤◌,
}
use airgap_sync.Base.Exec.{err, ok}
use airgap_sync.Base.Rows.{count_where, select_where}
use airgap_sync.Common.Manifest.{Manifest}
use airgap_sync.Common.Verification.{Bytes}
use airgap_sync.Destination.Incoming.{validate_manifest}
use airgap_sync.Source.ChunkWriter.{write_row}
use airgap_sync.Source.CycleRunner.{SnapshotResult}
use airgap_sync.Source.Cycles.{create_cycle, fail_cycle_table}
use airgap_sync.Source.Recovery.{active_cycle_run_ids}
use airgap_sync.Source.Runs.{active_for, begin_run, complete_run, register_table}
use airgap_sync.Source.Scanner.{scan_table}
use airgap_sync.Source.Schema.{Db, TableStatus, empty_db, is_active_cycle}
use airgap_sync.Source.Snapshot.{
  Outbox, SnapshotSetting, contains_text, generate, row_count_mismatch, snapshot,
}
use airgap_sync.Source.Snapshot.Settled.{snapshot-IsQuiet}
use airgap_sync.Source.Snapshot.Valid.{generate-row_count, validate_manifest-generate}
use airgap_sync.Source.Tests.{
  small_config-IsValidConfig, small_setting, three_rows, three_rows_result,
}
use airgap_sync.Source.Uploader.{
  JsonValue, Relay, RelayConfig, UploadConfirmation, dict, json_bool, json_int, json_other,
  json_text, not_dict, response, upload,
}
use airgap_sync.Source.Uploader.Bounded.{is_nap, is_sent, nap_of, upload_bounded}
use airgap_sync.Source.Uploader.Confirmed.{Confirms, upload-confirmed}
use airgap_sync.Source.Uploader.Health.{check_health, check_health_iff}
use airgap_sync.Source.Worker.{RunDir, cleanup_failed_runs}
use airgap_sync.Source.Worker.Safe.{cleanup_failed_runs_protected, of_run_id}

abbrev good_reply : String → JsonValue
good_reply field =
    if field == "success"
    then json_bool true
    else if field == "filename"
    then json_text "schema.sql"
    else if field == "size"
    then json_int 12
    else if field == "sha256"
    then json_text "ab"
    else if field == "request_id"
    then json_text "r-1"
    else json_other

-- The first attempt is answered 503, the second 201.
abbrev busy_relay : Relay
busy_relay = record {
  reply = λ n. if n == 1 then response 503 not_dict else response 201 (dict good_reply);
  on_attempt = λ n. none;
  opens = λ n. true;
  lower = λ t. t;
  is_blank = λ t. t == "";
  first_200 = λ t. t;
}

abbrev three_attempts : RelayConfig
three_attempts = record { max_attempts = 3; retry_base_seconds = 5; retry_max_seconds = 60 }

abbrev second_attempt : UploadConfirmation
second_attempt = record {
  filename = "schema.sql";
  size = 12;
  sha256 = "ab";
  request_id = "r-1";
  attempts = 2;
}

uploaded_twice :
    (upload three_attempts busy_relay (some 12) "schema.sql" "ab" []).0 ≡ ok second_attempt
unfolding upload
uploaded_twice = refl

upload-confirmed_example :
    (Path (Option ℕ) (some 12) (some 12))
    × (1 ≤ second_attempt.attempts)
    × (second_attempt.attempts ≤ three_attempts.max_attempts)
    × Confirms busy_relay "schema.sql" 12 "ab" second_attempt
upload-confirmed_example =
    upload-confirmed three_attempts busy_relay (some 12) "schema.sql" "ab" second_attempt
      uploaded_twice

abbrev small_snapshot : SnapshotSetting Bytes
small_snapshot = record {
  scan = small_setting;
  columns = "id" ∷ [];
  batches = three_rows;
  configured = some true;
  table_check = none;
  run_id = "run-1";
  run_dir = "outbox/orders/run-1";
  database = "shop";
  directory_made = true;
  schema_written = true;
  manifest_written = true;
  ddl_before = some "CREATE TABLE orders";
  ddl_after = some "CREATE TABLE orders";
  normalize_ddl = λ ddl. ddl;
  schema_file_bytes = λ ddl. 59 ∷ [];
  sha256 = λ bytes. "00";
  created_at = "2026-01-01T00:00:00+00:00";
  begun_at = 2;
  ended_at = 3;
  registered_at = 1;
  text_of = λ e. "failed";
}

abbrev no_files : Outbox
no_files = record { schema_file = none; manifest_file = none }

generated : (generate small_snapshot "orders" no_files).0 ≡ ok three_rows_result
unfolding generate scan_table write_row airgap_sync.Source.ChunkWriter.finish
    airgap_sync.Common.Verification.update airgap_sync.Common.Verification.summary
generated = refl

validate_manifest-generate_example :
    (manifest : Manifest) × ((generate small_snapshot "orders" no_files).1.manifest_file
      ≡ some manifest)
    × (validate_manifest (λ t. true) manifest "run-1" ≡ ok tt)
validate_manifest-generate_example =
    validate_manifest-generate small_snapshot "orders" no_files three_rows_result (λ t. true)
      small_config-IsValidConfig refl generated

generate-row_count_example : (generate small_snapshot "orders" no_files).0 ≢ err row_count_mismatch
generate-row_count_example =
    generate-row_count small_snapshot "orders" no_files small_config-IsValidConfig

-- A database with one active cycle whose table failed in the run "run-1".
abbrev failed_db : Db
failed_db =
    (fail_cycle_table "cycle-1" "orders" (some "run-1") "lost" 50
      (create_cycle "cycle-1" ("orders" ∷ []) 5 empty_db).1).1

protected_run : contains_text "run-1" (active_cycle_run_ids failed_db) ≡ true
unfolding active_cycle_run_ids create_cycle fail_cycle_table is_active_cycle
protected_run = refl

abbrev two_dirs : List RunDir
two_dirs =
    record { table_name = "orders"; run_id = "run-0" }
    ∷ record { table_name = "orders"; run_id = "run-1" }
    ∷ []

cleanup_failed_runs_protected_example :
    select_where (of_run_id "run-1") (cleanup_failed_runs (λ r. false) 1000 10 failed_db two_dirs).0
    ≡ select_where (of_run_id "run-1") two_dirs
cleanup_failed_runs_protected_example =
    cleanup_failed_runs_protected (λ r. false) 1000 10 failed_db two_dirs "run-1" protected_run

abbrev snapshot_result : SnapshotResult
snapshot_result = record {
  table = "orders";
  run_id = "run-1";
  status = TableStatus.completed;
  row_count = 3;
  chunk_count = 2;
  raw_bytes = 8;
  compressed_bytes = 3;
  run_dir = "outbox/orders/run-1";
  error = none;
}

snapshot_returned : (snapshot small_snapshot "orders" empty_db).0 ≡ ok snapshot_result
unfolding snapshot generate scan_table write_row airgap_sync.Source.ChunkWriter.finish
    airgap_sync.Common.Verification.update airgap_sync.Common.Verification.summary register_table
    begin_run complete_run
snapshot_returned = refl

snapshot-IsQuiet_example :
    count_where (active_for "orders") (snapshot small_snapshot "orders" empty_db).1.sync_runs ≡ 0
snapshot-IsQuiet_example =
    snapshot-IsQuiet small_snapshot "orders" empty_db snapshot_result snapshot_returned

abbrev healthy : String → JsonValue
healthy field = if field == "status" then json_text "ok" else json_other

check_health_iff_example : (check_health (response 200 (dict healthy)) ≡ ok tt) ↔ (
    (get : String → JsonValue) × (response 200 (dict healthy) ≡ response 200 (dict get))
    × (get "status" ≡ json_text "ok"))
check_health_iff_example = check_health_iff (response 200 (dict healthy))

upload_bounded_example :
    let events = (upload three_attempts busy_relay (some 12) "schema.sql" "ab" []).1 in
    (count_where is_sent events ≤ three_attempts.max_attempts)
    × (count_where is_nap events ≤ three_attempts.max_attempts - 1)
    × All (λ e. nap_of e ≤ three_attempts.retry_max_seconds) events
upload_bounded_example = upload_bounded three_attempts busy_relay (some 12) "schema.sql" "ab"

-- ===== src/Destination/Database/Runs.antt =====
-- The operations of `DestinationMySQLConnection` on the table `runs`, src/airgap_sync/destination/mysql.py.
use airgap_sync.Base.{
  Bool, List, Option, String, [], false, if◌then◌else◌, leb, length, map, nat_eq, none, not,
  option_eq, some, string_eq, true, ℕ, ◌&&◌, ◌++◌, ◌==◌, ◌||◌, ◌∷◌,
}
use airgap_sync.Base.Exec.{pure, raise, raise_if}
use airgap_sync.Base.Rows.{exists_row, find?, limit, order_by, select_where}
use airgap_sync.Common.Manifest.{ChunkMeta, Manifest}
use airgap_sync.Common.Verification.{VerificationSummary}
use airgap_sync.Destination.Database.{
  ChunkRow, ChunkState, Destination, RunRow, RunState, is_active_state, is_problem, is_superseded,
  is_swapping, is_verified, of_chunk, of_run_id, set_runs,
}
use airgap_sync.Destination.Database.Statements.{
  Call, DbFailure, Server, attempt, execute, fetch, in_transaction, mysql_error, utcnow, ◌>>=◌,
  ◌>>◌,
}

abbrev pub state_mismatch : DbFailure
state_mismatch = mysql_error "STAGING_STATE_MISMATCH"

abbrev pub run_missing : DbFailure
run_missing = mysql_error "run metadata is missing"

abbrev pub is_none {ℓ} : {A : Type ℓ} → Option A → Bool
is_none none = true
is_none (some a) = false

-- `status='VERIFIED' AND (...) OR status='SUPERSEDED' AND ...`
unfoldable pub cleanup_pending : RunRow → Bool
unfolding is_verified is_superseded
cleanup_pending r =
    is_verified r.status
      && (is_none r.incoming_cleanup_completed_at || is_none r.backup_cleanup_completed_at)
    || is_superseded r.status && is_none r.incoming_cleanup_completed_at

abbrev new_run_row : Manifest → String → ℕ → ℕ → RunRow
new_run_row m staging source_created_at now = record {
  run_id = m.run_id;
  source_database = m.source.database;
  table_name = m.source.table;
  status = RunState.validated;
  protocol_version = m.protocol_version;
  row_count = m.row_count;
  chunk_count = length m.chunks;
  staging_table = staging;
  source_created_at = some source_created_at;
  expected_digest_a = some m.verification.digest_a;
  expected_digest_b = some m.verification.digest_b;
  actual_row_count = none;
  actual_digest_a = none;
  actual_digest_b = none;
  digest_verified_at = none;
  target_existed = none;
  backup_table = none;
  applied_at = none;
  cleanup_error = none;
  backup_cleanup_error = none;
  incoming_cleanup_completed_at = none;
  backup_cleanup_completed_at = none;
  manifest_received_at = now;
  validated_at = some now;
  import_started_at = none;
  import_completed_at = none;
  last_error = none;
  created_at = now;
  updated_at = now;
}

abbrev new_chunk_row : String → ChunkMeta → ChunkRow
new_chunk_row id c = record {
  run_id = id;
  sequence = c.sequence;
  logical_name = c.file;
  expected_rows = c.rows;
  compressed_bytes = c.compressed_bytes;
  sha256 = c.sha256;
  status = ChunkState.pending;
  imported_rows = none;
  imported_at = none;
  last_error = none;
}

-- PRIMARY KEY (run_id) and PRIMARY KEY (run_id, sequence)
unfoldable pub insert_run_row : RunRow → Destination → Option Destination
insert_run_row r s =
    if exists_row (of_run_id r.run_id) s.runs
    then none
    else some (record s { runs = s.runs ++ (r ∷ []) })

unfoldable pub insert_chunk_row : ChunkRow → Destination → Option Destination
insert_chunk_row c s =
    if exists_row (of_chunk c.run_id c.sequence) s.chunks
    then none
    else some (record s { chunks = s.chunks ++ (c ∷ []) })

-- stored == identity
same_identity : RunRow → Manifest → String → Bool
same_identity r m staging =
    r.source_database == m.source.database
    && r.table_name == m.source.table
    && r.row_count == m.row_count
    && r.chunk_count == length m.chunks
    && r.staging_table == staging

-- `str(contract[2])`
abbrev text_of : Option String → String
text_of none = "None"
text_of (some t) = t

same_time : RunRow → ℕ → Bool
same_time r created = is_none r.source_created_at || r.source_created_at == some created

same_digests : RunRow → Manifest → Bool
same_digests r m =
    is_none r.expected_digest_a
    || text_of r.expected_digest_a == m.verification.digest_a
      && text_of r.expected_digest_b == m.verification.digest_b

same_chunk : ChunkRow → ChunkMeta → Bool
same_chunk r c =
    r.sequence == c.sequence
    && r.logical_name == c.file
    && r.expected_rows == c.rows
    && r.compressed_bytes == c.compressed_bytes
    && r.sha256 == c.sha256

same_chunks : List ChunkRow → List ChunkMeta → Bool
unfolding same_chunk
same_chunks [] [] = true
same_chunks (r ∷ rs) (c ∷ cs) = same_chunk r c && same_chunks rs cs
same_chunks _ _ = false

-- SELECT ... FROM chunks WHERE run_id=... ORDER BY sequence
chunks_of : String → Destination → List ChunkRow
chunks_of id s =
    order_by (λ a b. leb a.sequence b.sequence) (select_where (λ c. c.run_id == id) s.chunks)

-- COALESCE(column, value)
abbrev pub coalesce {ℓ} : {A : Type ℓ} → Option A → A → Option A
coalesce none a = some a
coalesce (some b) a = some b

pub filled_in : Manifest → ℕ → ℕ → RunRow → RunRow
filled_in m created now r = record r {
  source_created_at = coalesce r.source_created_at created;
  expected_digest_a = coalesce r.expected_digest_a m.verification.digest_a;
  expected_digest_b = coalesce r.expected_digest_b m.verification.digest_b;
  updated_at = now;
}

abbrev pub or_raise : {A : Type 0} → DbFailure → Option A → Call A
or_raise e none = raise e
or_raise e (some a) = pure a

abbrev later_or_null : Option ℕ → Option ℕ → Bool
later_or_null a none = true
later_or_null none (some b) = false
later_or_null (some a) (some b) = leb b a

module _ (server : Server) where
  unfoldable pub get_run : String → Call (Option RunRow)
  get_run id = fetch server (λ s. find? (of_run_id id) s.runs)

  -- UPDATE runs SET ... WHERE run_id=..., at the time `_utcnow()`
  unfoldable pub update_run : String → (ℕ → RunRow → RunRow) → Call Unit
  update_run id f = do now ← utcnow server; execute server (set_runs (of_run_id id) (f now))

  unfoldable pub insert_chunk_rows : String → List ChunkMeta → Call Unit
  unfolding insert_chunk_row
  insert_chunk_rows id [] = pure tt
  insert_chunk_rows id (c ∷ cs) =
      let rest = insert_chunk_rows id cs in
      attempt server (insert_chunk_row (new_chunk_row id c)) >> rest

  unfoldable pub register_existing : Manifest → String → ℕ → RunRow → Call Unit
  unfolding same_identity same_time same_digests same_chunks chunks_of filled_in update_run
  register_existing m staging created existing = do
    raise_if (not (same_identity existing m staging)) state_mismatch
    read ← fetch server (λ s. find? (of_run_id m.run_id) s.runs)
    contract ← or_raise state_mismatch read
    raise_if (not (same_time contract created)) state_mismatch
    raise_if (not (same_digests contract m)) state_mismatch
    stored ← fetch server (chunks_of m.run_id)
    raise_if (not (same_chunks stored m.chunks)) state_mismatch
    update_run m.run_id (filled_in m created)

  unfoldable pub register_new : Manifest → String → ℕ → Call Unit
  unfolding insert_run_row insert_chunk_rows
  register_new m staging created = do
    now ← utcnow server
    in_transaction server (do
      attempt server (insert_run_row (new_run_row m staging created now))
      insert_chunk_rows m.run_id m.chunks)

  unfoldable pub register_either : Manifest → String → ℕ → Option RunRow → Call Unit
  unfolding register_existing register_new
  register_either m staging created none = register_new m staging created
  register_either m staging created (some existing) = register_existing m staging created existing

  unfoldable pub register_validated_run : Manifest → String → ℕ → Call Unit
  unfolding get_run register_either
  register_validated_run m staging created = do
    existing ← get_run m.run_id
    register_either m staging created existing

  unfoldable pub begin_import : String → Call Unit
  unfolding update_run
  begin_import id = update_run id λ now r. record r {
    status = RunState.importing;
    import_started_at = coalesce r.import_started_at now;
    last_error = none;
    updated_at = now;
  }

  unfoldable pub set_verifying : String → Call Unit
  unfolding update_run
  set_verifying id =
      update_run id
        λ now r. record r { status = RunState.verifying; last_error = none; updated_at = now }

  unfoldable pub record_verification : String → VerificationSummary → Bool → Call Unit
  unfolding update_run
  record_verification id found matched = update_run id λ now r. record r {
    status = if matched then RunState.staged else RunState.mismatch;
    actual_row_count = some found.row_count;
    actual_digest_a = some found.digest_a;
    actual_digest_b = some found.digest_b;
    digest_verified_at = some now;
    last_error = none;
    updated_at = now;
  }

  unfoldable pub set_superseded : String → Call Unit
  unfolding update_run
  set_superseded id =
      update_run id
        λ now r. record r { status = RunState.superseded; last_error = none; updated_at = now }

  unfoldable pub prepare_swapping : String → Bool → Option String → Call Unit
  unfolding update_run
  prepare_swapping id target_existed backup_table = update_run id λ now r. record r {
    status = RunState.swapping;
    target_existed = some target_existed;
    backup_table = backup_table;
    last_error = none;
    updated_at = now;
  }

  unfoldable pub record_cleanup_error : String → Option String → Call Unit
  unfolding update_run
  record_cleanup_error id error = update_run id λ now r. record r {
    cleanup_error = error;
    incoming_cleanup_completed_at = if is_none error then some now else none;
    updated_at = now;
  }

  unfoldable pub record_backup_cleanup_error : String → Option String → Call Unit
  unfolding update_run
  record_backup_cleanup_error id error = update_run id λ now r. record r {
    backup_cleanup_error = error;
    backup_cleanup_completed_at = if is_none error then some now else none;
    updated_at = now;
  }

  -- WHERE run_id=... AND status<>'SWAPPING'
  unfoldable pub fail_run : String → String → Call Unit
  unfolding is_swapping
  fail_run id error = do
    now ← utcnow server
    execute server (
        set_runs (λ r. of_run_id id r && not (is_swapping r.status))
          (λ r. record r { status = RunState.failed; last_error = some error; updated_at = now }))

  -- [run for (run_id,) in rows if (run := self.get_run(run_id)) is not None]
  unfoldable pub get_runs : List RunRow → Call (List RunRow)
  unfolding get_run
  get_runs [] = pure []
  get_runs (r ∷ rs) =
      let rest = get_runs rs in
      do
        found ← get_run r.run_id
        others ← rest
        pure (elim found [ none ↦ others | some run ↦ run ∷ others ])

  unfoldable pub cleanup_pending_runs : Call (List RunRow)
  unfolding get_runs cleanup_pending
  cleanup_pending_runs = do
    rows ← fetch server (λ s.
        limit 100
          (order_by (λ a b. leb a.updated_at b.updated_at) (select_where cleanup_pending s.runs)))
    get_runs rows

  unfoldable pub active_run_ids : Call (List String)
  unfolding is_active_state
  active_run_ids =
      fetch server (λ s. map (λ r. r.run_id) (select_where (λ r. is_active_state r.status) s.runs))

  unfoldable pub recent_problem_runs : ℕ → Call (List RunRow)
  unfolding get_runs is_problem
  recent_problem_runs n = do
    rows ← fetch server (λ s. limit n (
        order_by (λ a b. leb b.updated_at a.updated_at)
          (select_where (λ r. is_problem r.status) s.runs)))
    get_runs rows

  -- NULL stands last in a descending order.
  unfoldable pub latest_verified_runs : ℕ → Call (List RunRow)
  unfolding get_runs is_verified
  latest_verified_runs n = do
    rows ← fetch server (λ s. limit n (
        order_by (λ a b. later_or_null a.applied_at b.applied_at)
          (select_where (λ r. is_verified r.status) s.runs)))
    get_runs rows

-- ===== src/Destination/Database/Chunks.antt =====
-- The operations of `DestinationMySQLConnection` on the table `chunks`, src/airgap_sync/destination/mysql.py.
use airgap_sync.Base.{
  Bool, Option, String, false, nat_eq, none, not, option_eq, some, string_eq, sum_of, ℕ, ◌&&◌, ◌==◌,
}
use airgap_sync.Base.Exec.{pure, raise_if}
use airgap_sync.Base.Rows.{count_where, exists_row, find?, select_where}
use airgap_sync.Destination.Database.{
  ChunkRow, ChunkState, Destination, RunRow, RunState, is_imported, of_chunk, set_chunks,
}
use airgap_sync.Destination.Database.Runs.{get_run, or_raise, state_mismatch, update_run}
use airgap_sync.Destination.Database.Statements.{Call, Server, execute, fetch, utcnow, ◌>>=◌, ◌>>◌}

abbrev pub imported_of : String → ChunkRow → Bool
imported_of id c = c.run_id == id && is_imported c.status

-- COALESCE(SUM(imported_rows),0)
abbrev rows_of : ChunkRow → ℕ
rows_of c = elim c.imported_rows [ none ↦ 0 | some n ↦ n ]

-- COUNT(*), COALESCE(SUM(imported_rows),0) of the imported chunks
unfoldable pub imported_totals : String → Destination → ℕ × ℕ
unfolding is_imported
imported_totals id s =
    (count_where (imported_of id) s.chunks, sum_of rows_of (select_where (imported_of id) s.chunks))

unfoldable pub totals_agree : ℕ × ℕ → Option RunRow → ℕ → Bool
totals_agree totals none expected_rows = false
totals_agree totals (some run) expected_rows =
    totals.0 == run.chunk_count && totals.1 == expected_rows

module _ (server : Server) where
  unfoldable pub chunk_status : String → ℕ → Call ChunkState
  chunk_status id sequence = do
    row ← fetch server (λ s. find? (of_chunk id sequence) s.chunks)
    found ← or_raise state_mismatch row
    pure found.status

  unfoldable pub has_imported_chunks : String → Call Bool
  unfolding is_imported
  has_imported_chunks id = fetch server (λ s. exists_row (imported_of id) s.chunks)

  unfoldable pub set_chunk_importing : String → ℕ → Call Unit
  set_chunk_importing id sequence = execute server (
      set_chunks (of_chunk id sequence)
        (λ c. record c { status = ChunkState.importing; last_error = none }))

  unfoldable pub set_chunk_imported : String → ℕ → ℕ → Call Unit
  set_chunk_imported id sequence rows = do
    now ← utcnow server
    execute server (
        set_chunks (of_chunk id sequence) (λ c. record c {
          status = ChunkState.imported;
          imported_rows = some rows;
          imported_at = some now;
          last_error = none;
        }))

  unfoldable pub fail_chunk : String → ℕ → String → Call Unit
  fail_chunk id sequence error = execute server (
      set_chunks (of_chunk id sequence)
        (λ c. record c { status = ChunkState.failed; last_error = some error }))

  unfoldable pub complete_staged : String → ℕ → Call Unit
  unfolding imported_totals totals_agree get_run update_run
  complete_staged id expected_rows = do
    totals ← fetch server (imported_totals id)
    run ← get_run server id
    raise_if (not (totals_agree totals run expected_rows)) state_mismatch
    update_run server id λ now r. record r {
      status = RunState.staged;
      import_completed_at = some now;
      last_error = none;
      updated_at = now;
    }

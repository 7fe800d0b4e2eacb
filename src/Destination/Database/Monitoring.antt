-- ===== src/Destination/Database/Monitoring.antt =====
-- The queries of the monitoring, src/airgap_sync/destination/mysql.py: they only read. Texts are ordered by a parameter.
use airgap_sync.Base.{
  Bool, List, String, [], leb, length, ltb, map, nat_eq, not, option_eq, string_eq, true, ℕ, ◌&&◌,
  ◌==◌, ◌||◌, ◌∷◌,
}
use airgap_sync.Base.Exec.{pure, raise_if}
use airgap_sync.Base.Rows.{exists_row, limit, order_by, select_where}
use airgap_sync.Destination.Database.{RunRow, TableVersion, is_active_state, of_source}
use airgap_sync.Destination.Database.Statements.{Call, Server, fetch, other_exception, ◌>>◌}

-- newer.source_created_at > v.source_created_at OR (... AND newer.applied_at > v.applied_at) OR (...)
abbrev supersedes : (String → String → Bool) → TableVersion → TableVersion → Bool
supersedes text_after newer_one v =
    of_source v.source_database v.table_name newer_one
    && (ltb v.source_created_at newer_one.source_created_at
        || newer_one.source_created_at == v.source_created_at
          && ltb v.applied_at newer_one.applied_at
        || newer_one.source_created_at == v.source_created_at
          && newer_one.applied_at == v.applied_at
          && text_after newer_one.run_id v.run_id)

module _ (server : Server) where
  abbrev monitoring_query : (RunRow → Bool) → ℕ → Call (List RunRow)
  monitoring_query p n =
      fetch server
        (λ s. limit n (order_by (λ a b. leb b.updated_at a.updated_at) (select_where p s.runs)))

  unfoldable pub monitoring_runs : ℕ → Call (List RunRow)
  monitoring_runs n = monitoring_query (λ r. true) n

  unfoldable pub monitoring_active_runs : Call (List RunRow)
  unfolding is_active_state
  monitoring_active_runs = monitoring_query (λ r. is_active_state r.status) 20

  -- {run_id: updated_at}; more than a hundred raise ValueError.
  unfoldable pub monitoring_known_run_ids : List String → Call (List (String × ℕ))
  monitoring_known_run_ids [] = pure []
  monitoring_known_run_ids (id ∷ ids) = do
    raise_if (ltb 100 (length (id ∷ ids))) other_exception
    fetch server (λ s.
        map (λ r. (r.run_id, r.updated_at))
          (select_where (λ r. exists_row (λ i. i == r.run_id) (id ∷ ids)) s.runs))

  -- The rows that no other row of the same table supersedes; `first` orders by the two names.
  unfoldable pub monitoring_latest_versions :
      (String → String → Bool) → (TableVersion → TableVersion → Bool) → ℕ → Call (List TableVersion)
  monitoring_latest_versions text_after first n = fetch server (λ s. limit n (
      order_by first (
        select_where (λ v. not (exists_row (λ w. supersedes text_after w v) s.table_versions))
          s.table_versions)))

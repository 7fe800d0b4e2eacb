-- ===== src/Destination/Database/Stable/Finalize.antt =====
-- `finalize_verified` keeps a stable property: the version that it inserts is the next one.
use mathlib.Core.Path.{subst}
use airgap_sync.Base.{
  Option, String, arith, false, ltb, nat_eq, none, option_eq, refl, some, string_eq, sym, ℕ, ◌==◌,
  ◌≡◌,
}
use airgap_sync.Base.Rows.{exists_row}
use airgap_sync.Destination.Database.{Destination, RunRow, TableVersion}
use airgap_sync.Destination.Database.Stable.{
  IsStable, Kept, Kept-bind, Kept-fetch, Kept-or_raise, Leads, Leads-if, Leads-then, Leads-unless,
  Leads-weaken, Links, LinksLatest, WhenSome, WhenSome-unless, attempt-Leads, execute-Kept,
  in_transaction-Kept, utcnow-Kept,
}
use airgap_sync.Destination.Database.Stable.Calls.{get_run-Kept}
use airgap_sync.Destination.Database.Statements.{Server, attempt, stepped_on, ◌>>◌}
use airgap_sync.Destination.Database.Versions.{
  add_version, finalize_over, finalize_verified, insert_version, is_run, latest_in, mark_verified,
  new_version,
}

new_version-Links :
    (run : RunRow) (created now : ℕ) (v : TableVersion)
    → ltb created v.source_created_at ≡ false
    → (created == v.source_created_at) ≡ false
    → Links (new_version run created (some v) now) (some v)
unfolding new_version
new_version-Links run created now v not_older not_same = (ground arith, refl, refl, refl)

module _ (P : Destination → Type 0) (st : IsStable P) (server : Server) where
  -- The state, and the latest version in it.
  abbrev At : String → String → Option TableVersion → Destination → Type 0
  At database table previous s = P s × (latest_in database table s.table_versions ≡ previous)

  insert_version-keeps :
      (v : TableVersion) (s : Destination)
      → P s
      → LinksLatest v s.table_versions
      → WhenSome P (insert_version v s)
  unfolding insert_version
  insert_version-keeps v s h links =
      WhenSome-unless P (exists_row (λ w. w.run_id == v.run_id) s.table_versions) _
        (st.version s v h links)

  module _ (run : RunRow) (previous : Option TableVersion) where
    abbrev Before : Destination → Type 0
    Before = At run.source_database run.table_name previous

    mark_verified-Kept : (id : String) (now : ℕ) → Kept Before (mark_verified server id now)
    unfolding mark_verified
    mark_verified-Kept id now =
        execute-Kept Before (λ s h. (st.steps s h.0, h.1)) server _ λ s h. (st.runs s _ h.0, h.1)

    marked_then_inserted :
        (id : String) (created now : ℕ)
        → Links (new_version run created previous now) previous
        → Leads Before P (
            mark_verified server id now
            >> attempt server (insert_version (new_version run created previous now)))
    unfolding new_version
    marked_then_inserted id created now links =
        Leads-then (λ s h. h.0) (mark_verified-Kept id now)
          λ _.
            attempt-Leads P st.steps server Before _ (λ s h. h.0)
              λ s h.
                insert_version-keeps (new_version run created previous now) s h.0
                  (subst (Links (new_version run created previous now)) (sym h.1) links)

  add_version-Leads :
      (id : String) (run : RunRow) (created now : ℕ) (previous : Option TableVersion)
      → Leads (Before run previous) P (add_version server id run created previous now)
  unfolding new_version
  add_version-Leads id run created now none =
      marked_then_inserted run none id created now (refl, refl, refl)
  add_version-Leads id run created now (some v) =
      Leads-unless (λ s h. h.0) _ _ _
        λ not_older.
          Leads-unless (λ s h. h.0) _ _ _
            λ not_same.
              marked_then_inserted run (some v) id created now
                (new_version-Links run created now v not_older not_same)

  finalize_over-Leads :
      (id : String) (expected : Option String) (now : ℕ) (run : RunRow) (created : ℕ)
      (previous : Option TableVersion)
      → Leads (Before run previous) P (finalize_over server id expected now run created previous)
  finalize_over-Leads id expected now run created previous =
      Leads-if (is_run id previous)
        (Leads-weaken (λ s h. h.0) (mark_verified-Kept run previous id now))
        (Leads-unless (λ s h. h.0) _ _ _ λ _. add_version-Leads id run created now previous)

  pub finalize_verified-Kept :
      (id : String) (expected : Option String) → Kept P (finalize_verified server id expected)
  unfolding finalize_verified
  finalize_verified-Kept id expected = Kept-bind (utcnow-Kept P st.steps server) λ now.
      in_transaction-Kept P st.steps st.rolled server (
        Kept-bind (get_run-Kept P st server id) λ found. Kept-bind (Kept-or_raise _ found) λ row.
          Kept-bind (Kept-or_raise _ row.source_created_at) λ created.
            Kept-fetch P st.steps server _ _ λ s h.
              (finalize_over-Leads id expected now row created
                  (latest_in row.source_database row.table_name s.table_versions)).leads
                (stepped_on s) (st.steps s h, refl))

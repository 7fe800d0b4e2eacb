-- ===== src/Destination/Processor/Promote/Intent.antt =====
-- A run in SWAPPING stays so when its processing fails, src/airgap_sync/destination/mysql.py.
use airgap_sync.Base.{List, String, [], arith, not, refl, some, ℕ, ◌&&◌, ◌∙◌, ◌∷◌, ◌≡◌}
use airgap_sync.Base.Rows.{select_where, update_where}
use airgap_sync.Destination.Database.{Destination, RunRow, RunState, is_swapping, of_run_id}
use airgap_sync.Destination.Database.Runs.{fail_run}
use airgap_sync.Destination.Database.Stable.{Kept-bind, execute-Kept, utcnow-Kept}
use airgap_sync.Destination.Database.Statements.{Server}

abbrev pub swapping_rows : List RunRow → List RunRow
unfolding is_swapping
swapping_rows rows = select_where (λ r. is_swapping r.status) rows

untouched :
    (id error : String) (now : ℕ) (rows : List RunRow)
    → swapping_rows (
        update_where
          (λ r. of_run_id id r && not (is_swapping r.status))
          (λ r. record r { status = RunState.failed; last_error = some error; updated_at = now })
          rows)
      ≡ swapping_rows rows
unfolding is_swapping swapping_rows
untouched id error now [] = refl
untouched id error now (r ∷ rs) = ground (arith, untouched id error now rs)

-- Marking a run as failed leaves every run in SWAPPING as it is, so that the recovery of the swap finds
-- its intent again.
pub fail_run_keeps_swapping :
    (server : Server) (id error : String) (s : Destination)
    → swapping_rows (fail_run server id error s).1.runs ≡ swapping_rows s.runs
unfolding fail_run
fail_run_keeps_swapping server id error s =
    (Kept-bind (utcnow-Kept (λ x. swapping_rows x.runs ≡ swapping_rows s.runs) (λ x h. h) server)
        λ now.
          execute-Kept (λ x. swapping_rows x.runs ≡ swapping_rows s.runs) (λ x h. h) server _
            λ x h. untouched id error now x.runs ∙ h).keeps
      s refl

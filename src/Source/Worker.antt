-- ===== src/Source/Worker.antt =====
-- The scheduler and the maintenance of `src/airgap_sync/source/cycle.py`: `next_action_at`, `tick` of
-- `SourceWorker`, and `cleanup_failed_runs`.
pub mod Safe
pub mod Due
use airgap_sync.Base.{
  Bool, List, Option, String, [], false, if◌then◌else◌, nat_eq, none, not, option_eq, some,
  string_eq, true, ℕ, ◌&&◌, ◌+◌, ◌-◌, ◌==◌, ◌∷◌,
}
use airgap_sync.Base.Exec.{ok, pure, ◌>>=◌, ◌>>◌}
use airgap_sync.Base.Rows.{exists_row, select_where}
use airgap_sync.Source.CycleRunner.{Step, Surroundings, ask, run, view}
use airgap_sync.Source.Cycles.{active_cycle, latest_completed_cycle}
use airgap_sync.Source.Recovery.{active_cycle_run_ids, failed_runs_before}
use airgap_sync.Source.Schema.{CycleStatus, Db, SyncCycle, SyncRun}
use airgap_sync.Source.Snapshot.{contains_text}
use airgap_sync.Source.Uploader.{delay}

abbrev pub is_running_cycle : CycleStatus → Bool
is_running_cycle CycleStatus.running = true
is_running_cycle _ = false

abbrev or_now : Option ℕ → ℕ → ℕ → ℕ
or_now none extra now = now
or_now (some t) extra now = t + extra

abbrev after_completed : Option SyncCycle → ℕ → ℕ → ℕ
after_completed none wait now = now
after_completed (some c) wait now = or_now c.completed_at wait now

abbrev action_of : Option SyncCycle → Option SyncCycle → ℕ → ℕ → ℕ
action_of (some c) completed wait now =
    if is_running_cycle c.status then now else or_now c.next_attempt_at 0 now
action_of none completed wait now = after_completed completed wait now

-- `wait` is `delay_after_success` in seconds.
unfoldable pub next_action_at : Db → ℕ → ℕ → ℕ
unfolding active_cycle latest_completed_cycle
next_action_at s wait now = action_of (active_cycle s) (latest_completed_cycle s) wait now

-- `waiter i delay` is true where the wait is interrupted; the maintenance only changes files.
pub record Scheduling : Type 0 where
  pub around : Surroundings
  pub waiter : ℕ → ℕ → Bool

module _ (env : Scheduling) where
  abbrev interrupted_wait : ℕ → Step Bool
  interrupted_wait delay w =
      if delay == 0
      then (ok false, w)
      else (ok (env.waiter w.asked delay), record w { asked = w.asked + 1 })

  go_on : Step (Option SyncCycle)
  go_on = do cycle ← run env.around; now ← ask env.around.clock; pure (some cycle)

  unless : Bool → Step (Option SyncCycle) → Step (Option SyncCycle)
  unless true rest = pure none
  unless false rest = rest

  -- `delay` is max(0, due - now).
  unfoldable pub tick : Step (Option SyncCycle)
  unfolding go_on unless next_action_at
  tick = do
    now ← ask env.around.clock
    due ← view (λ s. next_action_at s env.around.delay_after_success now)
    woken ← interrupted_wait (due - now)
    unless woken do stopped ← ask env.around.stop_is_set; unless stopped go_on

-- A run directory below `outbox`.
pub record RunDir : Type 0 where
  pub table_name : String
  pub run_id : String

abbrev pub is_dir : SyncRun → RunDir → Bool
is_dir r d = d.table_name == r.table_name && d.run_id == r.run_id

-- What is left after `shutil.rmtree`, and how many directories are gone.
abbrev pub Cleaned : Type 0
Cleaned = List RunDir × ℕ

remove_run : Bool → SyncRun → Cleaned → Cleaned
remove_run true r (dirs, removed) = (dirs, removed)
remove_run false r (dirs, removed) =
    if exists_row (is_dir r) dirs
    then (select_where (λ d. not (is_dir r d)) dirs, removed + 1)
    else (dirs, removed)

-- `fails` is whether the removal of a run's directory raises an `OSError`.
unfoldable pub remove_runs : (SyncRun → Bool) → List String → List SyncRun → Cleaned → Cleaned
unfolding remove_run
remove_runs fails protected [] at = at
remove_runs fails protected (r ∷ rs) at =
    remove_runs fails protected rs
      (if contains_text r.run_id protected then at else remove_run (fails r) r at)

-- `retention` is `failed_run_retention` in seconds, before `now`.
unfoldable pub cleanup_failed_runs : (SyncRun → Bool) → ℕ → ℕ → Db → List RunDir → Cleaned
cleanup_failed_runs fails now retention s dirs =
    remove_runs fails (active_cycle_run_ids s) (failed_runs_before (now - retention) s) (dirs, 0)

-- ===== src/Source/Worker/Due.antt =====
-- When a tick of the worker runs a cycle: `tick` and `next_action_at` of `src/airgap_sync/source/cycle.py`.
use airgap_sync.Base.{
  Bool, Bool-cases, Option, arith, false, inl, inr, nat_eq, none, option_eq, refl, some, string_eq,
  true, ℕ, ◌+◌, ◌-◌, ◌<◌, ◌==◌, ◌≡◌, ◌≤◌, ◌⊎◌,
}
use airgap_sync.Base.Exec.{ok, ◌>>=◌}
use airgap_sync.Source.CycleRunner.{Step, World, ask}
use airgap_sync.Source.Cycles.{active_cycle, latest_completed_cycle}
use airgap_sync.Source.Schema.{Db, SyncCycle}
use airgap_sync.Source.Worker.{Scheduling, go_on, is_running_cycle, next_action_at, tick, unless}

-- The time that the next cycle waits for: that of the next attempt, or the delay after the last success.
pub data DueAt (s : Db) (wait : ℕ) : ℕ → Type 0 where
  retry_at :
      {c : SyncCycle} {t : ℕ}
      → active_cycle s ≡ some c
      → is_running_cycle c.status ≡ false
      → c.next_attempt_at ≡ some t
      → DueAt s wait t
  next_at :
      {c : SyncCycle} {t : ℕ}
      → active_cycle s ≡ none
      → latest_completed_cycle s ≡ some c
      → c.completed_at ≡ some t
      → DueAt s wait (t + wait)

next_action_at-DueAt :
    (s : Db) (wait due now : ℕ) → DueAt s wait due → next_action_at s wait now ≡ due
unfolding next_action_at
next_action_at-DueAt s wait due now (retry_at active waits at) =
    rw (active, waits, at) (omega arith)
next_action_at-DueAt s wait due now (next_at idle_now last at) = rw (idle_now, last, at) refl

unless_ran :
    (env : Scheduling) (stop : Bool) (rest : Step (Option SyncCycle)) (w : World) (c : SyncCycle)
    → (unless env stop rest w).0 ≡ ok (some c)
    → (stop ≡ false) × ((rest w).0 ≡ ok (some c))
unfolding unless
unless_ran env true rest w c h = cc
unless_ran env false rest w c h = (refl, h)

-- A tick that returns a cycle, while the next cycle waits for the time `due`: the time of the tick and
-- the wait that was not interrupted, if one was needed, together reach `due`, and the stop event, which
-- is looked at after that, is not set.
pub tick_due :
    (env : Scheduling) (w : World) (c : SyncCycle) (due : ℕ)
    → DueAt w.db env.around.delay_after_success due
    → (tick env w).0 ≡ ok (some c)
    → (pause : ℕ) × (due ≤ env.around.clock w.asked + pause)
      × ((pause ≡ 0) ⊎ (env.waiter (w.asked + 1) pause ≡ false))
      × ((i : ℕ) × (w.asked < i) × (env.around.stop_is_set i ≡ false))
unfolding tick
tick_due env w c due at h = elim (Bool-cases (pause == 0)) [
  | inl early ↦
      let ran = went_on false started (rw early at h) in
      (pause, reached, inl (ground (arith, early)), (started.asked, omega arith, ran.1))
  | inr late ↦
      let waited : World = record started { asked = started.asked + 1 } in
      let ran = went_on (env.waiter started.asked pause) waited (rw late at h) in
      (pause, reached, inr ran.0, (waited.asked, omega arith, ran.1))
]
  where
    started : World
    started = record w { asked = w.asked + 1 }

    now : ℕ
    now = env.around.clock w.asked

    pause : ℕ
    pause = next_action_at w.db env.around.delay_after_success now - now

    reached : due ≤ now + pause
    reached = omega (arith, next_action_at-DueAt w.db env.around.delay_after_success due now at)

    rest : Step (Option SyncCycle)
    rest = ask env.around.stop_is_set >>= λ stopped. unless env stopped (go_on env)

    went_on :
        (woken : Bool) (w' : World)
        → (unless env woken rest w').0 ≡ ok (some c)
        → (woken ≡ false) × (env.around.stop_is_set w'.asked ≡ false)
    went_on woken w' h' =
        let ran = unless_ran env woken rest w' c h' in
        (ran.0, (unless_ran env (env.around.stop_is_set w'.asked) (go_on env) _ c ran.1).0)

-- ===== src/Destination/Processor/Locks.antt =====
-- The two locks of a run are released again, src/airgap_sync/destination/processor.py.
use airgap_sync.Base.{
  Bool, List, Option, String, ap, arith, eq_iff, false, none, refl, some, true, ◌∙◌, ◌∷◌, ◌≡◌,
}
use airgap_sync.Base.Exec.{Result, err, ok}
use airgap_sync.Destination.Database.{Destination, RunRow, is_superseded, is_verified}
use airgap_sync.Destination.Database.Catalog.{lock, lock_if, release_one, unlock}
use airgap_sync.Destination.Database.Returns.{
  Returns, Returns-bind, Returns-execute, Returns-fetch, Returns-if, Returns-pure,
}
use airgap_sync.Destination.Database.Stable.{IsStable, Kept}
use airgap_sync.Destination.Database.Stable.Calls.{get_run-Kept}
use airgap_sync.Destination.Database.Statements.{Call, DbFailure}
use airgap_sync.Destination.Incoming.{Checked, Rejection}
use airgap_sync.Destination.Processor.{
  ProcessResult, Setting, ValidatedRun, finally, run_lock, settled, table_lock,
}
use airgap_sync.Destination.Processor.Keeps.{cleanup_superseded-Kept, gets-Kept, retry_cleanup-Kept}
use airgap_sync.Destination.Processor.Keeps.Locked.{guarded-Kept}
use airgap_sync.Destination.Processor.Keeps.Whole.{rejected-Kept}
use airgap_sync.Destination.Processor.Process.{
  after_validation, by_existing, process, process_new, process_validated, rejected, release_locks,
  with_run_lock, with_table_lock,
}

abbrev LocksAre : List String → Destination → Type 0
LocksAre held s = s.locks ≡ held

LocksAre-IsStable : (held : List String) → IsStable (LocksAre held)
LocksAre-IsStable held = record {
  steps = λ s h. h;
  supported = λ s found h. h;
  runs = λ s rows h. h;
  chunks = λ s rows h. h;
  objects = λ s tables h. h;
  files = λ s names h. h;
  version = λ s v h links. h;
  rolled = λ s s' h h'. h';
}

Returns-Kept :
    {A : Type 0} {P : Destination → Type 0} {m : Call A} → Kept P m → Returns P (λ a. P) m
Returns-Kept km = record { returns = λ s a h e. km.keeps s h }

module _ {A : Type 0} {Q : Destination → Type 0} {R : A → Destination → Type 0}
    {T : A → Destination → Type 0} {m : Call A} {n : Call Unit} where
  Returns-finally :
      Returns Q R m → ((a : A) → Returns (R a) (λ u. T a) n) → Returns Q T (finally m n)
  unfolding finally
  Returns-finally km kn = record { returns = λ s a h e. go (m s) (λ b e'. km.returns s b h e') a e }
    where
      ended :
          (r : Result DbFailure A) (c : Result DbFailure Unit × Destination) (a : A)
          → ((b : A) → r ≡ ok b → (u : Unit) → c.0 ≡ ok u → T b c.1)
          → (settled r c).0 ≡ ok a
          → T a (settled r c).1
      ended r (ok u, s') a k e = k a e u refl
      ended r (err x, s') a k e = cc

      go :
          (r : Result DbFailure A × Destination)
          → ((b : A) → r.0 ≡ ok b → R b r.1)
          → (a : A) → (settled r.0 (n r.1)).0 ≡ ok a
          → T a (settled r.0 (n r.1)).1
      go (r, s') k a e = ended r (n s') a (λ b e' u e''. (kn b).returns s' u (k b e') e'') e

module _ (at : Setting) where
  abbrev with_lock : Bool → String → List String → List String
  with_lock true name held = name ∷ held
  with_lock false name held = held

  release_held : (name : String) (held : List String) → release_one name (name ∷ held) ≡ held
  release_held name held = ground (arith, eq_iff name name)

  unlock-Returns :
      (name : String) (held : List String)
      → Returns (LocksAre (name ∷ held)) (λ u. LocksAre held) (unlock at.server name)
  unfolding unlock
  unlock-Returns name held =
      Returns-execute at.server _ λ s h. ap (release_one name) h ∙ release_held name held

  lock_if-Returns :
      (free : Bool) (name : String) (held : List String)
      → Returns
          (LocksAre held)
          (λ b. LocksAre (with_lock b name held))
          (lock_if at.server free name)
  lock_if-Returns true name held =
      Returns-bind
        (Returns-execute at.server {R = λ u. LocksAre (name ∷ held)} _ λ s h. ap (λ l. name ∷ l) h)
        λ u. Returns-pure true λ s h. h
  lock_if-Returns false name held = Returns-fetch at.server _ λ s h. h

  lock-Returns :
      (name : String) (held : List String)
      → Returns (LocksAre held) (λ b. LocksAre (with_lock b name held)) (lock at.server name)
  unfolding lock
  lock-Returns name held = record {
    returns =
        λ s a h e. (lock_if-Returns (at.server.lock_free s.steps name) name held).returns s a h e;
  }

  module _ (v : ValidatedRun) (staging : String) (held : List String) where
    abbrev of_run : String
    of_run = run_lock at v.manifest.run_id

    abbrev of_table : String
    of_table = table_lock at v.manifest.source.database v.manifest.source.table

    with_table_lock-Returns :
        (b : Bool)
        → Returns
            (LocksAre (with_lock b of_table (of_run ∷ held)))
            (λ r. LocksAre held)
            (with_table_lock at v staging b)
    unfolding release_locks
    with_table_lock-Returns true =
        Returns-finally
          (Returns-Kept
            (guarded-Kept (LocksAre (of_table ∷ of_run ∷ held)) (LocksAre-IsStable _) at v staging))
          λ r.
            Returns-bind (unlock-Returns of_table (of_run ∷ held)) λ u. unlock-Returns of_run held
    with_table_lock-Returns false =
        Returns-bind (unlock-Returns of_run held) λ u. Returns-pure _ λ s h. h

    with_run_lock-Returns :
        (b : Bool)
        → Returns
            (LocksAre (with_lock b of_run held))
            (λ r. LocksAre held)
            (with_run_lock at v staging b)
    with_run_lock-Returns true =
        Returns-bind (lock-Returns of_table (of_run ∷ held)) with_table_lock-Returns
    with_run_lock-Returns false = Returns-pure _ λ s h. h

  process_validated-Returns :
      (v : ValidatedRun) (held : List String)
      → Returns (LocksAre held) (λ r. LocksAre held) (process_validated at v)
  unfolding process_validated
  process_validated-Returns v held =
      Returns-bind (lock-Returns (run_lock at v.manifest.run_id) held)
        (with_run_lock-Returns v _ held)

  rejected-Returns :
      (id : String) (e : Rejection) (held : List String)
      → Returns (LocksAre held) (λ r. LocksAre held) (rejected at id e)
  rejected-Returns id e held = Returns-Kept (rejected-Kept (LocksAre held) at id e)

  after_validation-Returns :
      (id : String) (found : Checked ValidatedRun) (held : List String)
      → Returns (LocksAre held) (λ r. LocksAre held) (after_validation at id found)
  after_validation-Returns id (ok v) held = process_validated-Returns v held
  after_validation-Returns id (err e) held = rejected-Returns id e held

  process_new-Returns :
      (id : String) (held : List String)
      → Returns (LocksAre held) (λ r. LocksAre held) (process_new at id)
  unfolding process_new
  process_new-Returns id held =
      Returns-bind (Returns-Kept (gets-Kept (LocksAre held) (LocksAre-IsStable held) at _))
        λ found. after_validation-Returns id found held

  by_existing-Returns :
      (id : String) (o : Option RunRow) (held : List String)
      → Returns (LocksAre held) (λ r. LocksAre held) (by_existing at id o)
  by_existing-Returns id none held = process_new-Returns id held
  by_existing-Returns id (some r) held =
      Returns-if (is_verified r.status)
        (λ _.
          Returns-bind
            (Returns-Kept (retry_cleanup-Kept (LocksAre held) (LocksAre-IsStable held) at r none))
            λ u. Returns-pure _ λ s h. h)
        (λ _.
          Returns-if (is_superseded r.status)
            (λ _.
              Returns-bind
                (Returns-Kept
                  (cleanup_superseded-Kept (LocksAre held) (LocksAre-IsStable held) at r))
                λ u. Returns-pure _ λ s h. h)
            (λ _. process_new-Returns id held))

  -- A call of `process` that returns, whatever its result and whatever failed inside, holds no more
  -- locks than before it: the lock of the run and the lock of the table are released.
  pub process_releases :
      (id : String) (s : Destination) (r : ProcessResult)
      → (process at id s).0 ≡ ok r
      → (process at id s).1.locks ≡ s.locks
  unfolding process
  process_releases id s r e =
      (Returns-bind
          (Returns-Kept (get_run-Kept (LocksAre s.locks) (LocksAre-IsStable s.locks) at.server id))
          λ o. by_existing-Returns id o s.locks).returns
        s r refl e

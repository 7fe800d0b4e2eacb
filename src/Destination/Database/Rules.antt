-- ===== src/Destination/Database/Rules.antt =====
-- Rules for sequences of calls of the Destination database that join what a call keeps with what it gives where
-- it returns, src/airgap_sync/destination/mysql.py.
use airgap_sync.Base.{refl, ◌≡◌}
use airgap_sync.Base.Exec.{Result, continue, err, ok}
use airgap_sync.Destination.Database.{Destination}
use airgap_sync.Destination.Database.Returns.{Returns}
use airgap_sync.Destination.Database.Stable.{Kept, Leads}
use airgap_sync.Destination.Database.Statements.{Call, DbFailure, ◌>>=◌}

-- A bind whose first part also shows something of what it returns.
module _ {A B : Type 0} {P : Destination → Type 0} {F : A → Type 0} {m : Call A}
    {f : A → Call B} where
  pub Kept-fact :
      Kept P m → Returns P (λ a s. F a) m → ((a : A) → F a → Kept P (f a)) → Kept P (m >>= f)
  unfolding ◌>>=◌
  Kept-fact km rm kf = record { keeps = λ s h. go (m s) (km.keeps s h) (λ a e. rm.returns s a h e) }
    where
      go :
          (r : Result DbFailure A × Destination)
          → P r.1
          → ((a : A) → r.0 ≡ ok a → F a)
          → P (continue f r).1
      go (ok a, s') h k = (kf a (k a refl)).keeps s' h
      go (err e, s') h k = h

module _ {A B : Type 0} {Q P : Destination → Type 0} {m : Call A} {f : A → Call B} where
  pub Leads-next : Leads Q P m → ((a : A) → Kept P (f a)) → Leads Q P (m >>= f)
  unfolding ◌>>=◌
  Leads-next lm kf = record { leads = λ s h. go (m s) (lm.leads s h) }
    where
      go : (r : Result DbFailure A × Destination) → P r.1 → P (continue f r).1
      go (ok a, s') h = (kf a).keeps s' h
      go (err e, s') h = h

  pub Leads-fact :
      {F : A → Type 0}
      → ((s : Destination) → Q s → P s)
      → Kept Q m
      → Returns Q (λ a s. F a) m
      → ((a : A) → F a → Leads Q P (f a))
      → Leads Q P (m >>= f)
  unfolding ◌>>=◌
  Leads-fact {F} w km rm kf = record {
    leads = λ s h. go (m s) (km.keeps s h) (λ a e. rm.returns s a h e);
  }
    where
      go :
          (r : Result DbFailure A × Destination)
          → Q r.1
          → ((a : A) → r.0 ≡ ok a → F a)
          → P (continue f r).1
      go (ok a, s') h k = (kf a (k a refl)).leads s' h
      go (err e, s') h k = w s' h

module _ {A B : Type 0} {P : Destination → Type 0} {m : Call A} {f : A → Call B} where
  -- What the first part shows of the state it returns in.
  pub Kept-then :
      {R : A → Destination → Type 0}
      → Kept P m
      → Returns P R m
      → ((a : A) → Leads (R a) P (f a))
      → Kept P (m >>= f)
  unfolding ◌>>=◌
  Kept-then {R} km rm kf = record {
    keeps = λ s h. go (m s) (km.keeps s h) (λ a e. rm.returns s a h e);
  }
    where
      go :
          (r : Result DbFailure A × Destination)
          → P r.1
          → ((a : A) → r.0 ≡ ok a → R a r.1)
          → P (continue f r).1
      go (ok a, s') h k = (kf a).leads s' (k a refl)
      go (err e, s') h k = h

-- ===== src/Destination/Database/Returns.antt =====
-- What a call of the Destination database gives where it returns, src/airgap_sync/destination/mysql.py: from `Q` before it, `R` of
-- what it returns and of the state after it.
use mathlib.Core.Path.{subst}
use airgap_sync.Base.{
  Bool, Option, false, if◌then◌else◌, inl, inr, none, refl, some, true, ℕ, ◌≡◌, ◌⊎◌,
}
use airgap_sync.Base.Exec.{Result, continue, err, ok, ok_injective, pure, raise, raise_if}
use airgap_sync.Destination.Database.{Destination}
use airgap_sync.Destination.Database.Runs.{or_raise}
use airgap_sync.Destination.Database.Statements.{
  Call, DbFailure, Fate, Server, attempt, begun, closed_by, commit, done, execute, fetch,
  in_transaction, lost, outcome, refused, reply_lost, stepped_on, tried, utcnow, ◌>>=◌,
}

pub record Returns {A : Type 0} (Q : Destination → Type 0) (R : A → Destination → Type 0)
    (m : Call A) : Type 0 where
  pub returns : (s : Destination) (a : A) → Q s → (m s).0 ≡ ok a → R a (m s).1

module _ {A : Type 0} {Q : Destination → Type 0} {R : A → Destination → Type 0} where
  pub Returns-pure : (a : A) → ((s : Destination) → Q s → R a s) → Returns Q R (pure a)
  Returns-pure a k = record { returns = λ s b h e. subst (λ x. R x s) (ok_injective e) (k s h) }

  pub Returns-raise : (e : DbFailure) → Returns Q R (raise e)
  Returns-raise e = record { returns = λ s a h e'. cc }

  pub Returns-or_raise :
      (e : DbFailure) (o : Option A)
      → ((s : Destination) (a : A) → Q s → o ≡ some a → R a s)
      → Returns Q R (or_raise e o)
  Returns-or_raise e none k = Returns-raise e
  Returns-or_raise e (some a) k = Returns-pure a λ s h. k s a h refl

  pub Returns-if :
      {m n : Call A} (b : Bool)
      → (b ≡ true → Returns Q R m)
      → (b ≡ false → Returns Q R n)
      → Returns Q R (if b then m else n)
  Returns-if true km kn = km refl
  Returns-if false km kn = kn refl

module _ {Q : Destination → Type 0} {R : Unit → Destination → Type 0} where
  pub Returns-raise_if :
      (b : Bool) (e : DbFailure)
      → ((s : Destination) → Q s → b ≡ false → R tt s)
      → Returns Q R (raise_if b e)
  Returns-raise_if true e k = record { returns = λ s a h e'. cc }
  Returns-raise_if false e k = record { returns = λ s a h e'. k s h refl }

module _ {A : Type 0} {Q Q' : Destination → Type 0} {R R' : A → Destination → Type 0}
    {m : Call A} where
  pub Returns-weaken :
      ((s : Destination) → Q' s → Q s)
      → ((a : A) (s : Destination) → R a s → R' a s)
      → Returns Q R m
      → Returns Q' R' m
  Returns-weaken before later km = record {
    returns = λ s a h e. later a (m s).1 (km.returns s a (before s h) e);
  }

module _ {X A : Type 0} {Q : X → Destination → Type 0} {R : A → Destination → Type 0}
    {m : Call A} where
  pub Returns-some : ((x : X) → Returns (Q x) R m) → Returns (λ s. (x : X) × Q x s) R m
  Returns-some k = record { returns = λ s a h e. (k h.0).returns s a h.1 e }

module _ {A B : Type 0} {Q : Destination → Type 0} {R : A → Destination → Type 0}
    {T : B → Destination → Type 0} {m : Call A} {f : A → Call B} where
  pub Returns-bind : Returns Q R m → ((a : A) → Returns (R a) T (f a)) → Returns Q T (m >>= f)
  unfolding ◌>>=◌
  Returns-bind km kf = record { returns = λ s b h e. go (m s) (λ a. km.returns s a h) b e }
    where
      go :
          (r : Result DbFailure A × Destination)
          → ((a : A) → r.0 ≡ ok a → R a r.1)
          → (b : B) → (continue f r).0 ≡ ok b
          → T b (continue f r).1
      go (ok a, s') k b e = (kf a).returns s' b (k a refl) e
      go (err x, s') k b e = cc

module _ (server : Server) where
  pub Returns-execute :
      {Q : Destination → Type 0} {R : Unit → Destination → Type 0} (f : Destination → Destination)
      → ((s : Destination) → Q s → R tt (f (stepped_on s)))
      → Returns Q R (execute server f)
  unfolding execute
  Returns-execute {Q} {R} f k = record { returns = λ s a h e. go (server.fate s.steps) s a h e }
    where
      go :
          (d : Fate) (s : Destination) (a : Unit)
          → Q s
          → (outcome d lost tt f s).0 ≡ ok a
          → R a (outcome d lost tt f s).1
      go done s a h e = k s h
      go refused s a h e = cc
      go reply_lost s a h e = cc

  pub Returns-fetch :
      {A : Type 0} {Q : Destination → Type 0} {R : A → Destination → Type 0} (g : Destination → A)
      → ((s : Destination) → Q s → R (g s) (stepped_on s))
      → Returns Q R (fetch server g)
  unfolding fetch
  Returns-fetch {A} {Q} {R} g k = record { returns = λ s a h e. go (server.fate s.steps) s a h e }
    where
      go :
          (d : Fate) (s : Destination) (a : A)
          → Q s
          → (outcome d lost (g s) (λ x. x) s).0 ≡ ok a
          → R a (outcome d lost (g s) (λ x. x) s).1
      go done s a h e = subst (λ x. R x (stepped_on s)) (ok_injective e) (k s h)
      go refused s a h e = cc
      go reply_lost s a h e = cc

  pub Returns-utcnow :
      {Q : Destination → Type 0} {R : ℕ → Destination → Type 0}
      → ((s : Destination) (now : ℕ) → Q s → R now (stepped_on s))
      → Returns Q R (utcnow server)
  unfolding utcnow
  Returns-utcnow {Q} {R} k = record { returns = λ s a h e. k s a h }

  pub Returns-attempt :
      {Q : Destination → Type 0} {R : Unit → Destination → Type 0}
      (f : Destination → Option Destination)
      → ((s s' : Destination) → Q s → f s ≡ some s' → R tt (stepped_on s'))
      → Returns Q R (attempt server f)
  unfolding attempt
  Returns-attempt {Q} {R} f k = record {
    returns = λ s a h e. go (f s) (λ s' e'. k s s' h e') (server.fate s.steps) s a e;
  }
    where
      go :
          (o : Option Destination)
          → ((s' : Destination) → o ≡ some s' → R tt (stepped_on s'))
          → (d : Fate) (s : Destination) (a : Unit) → (tried o d s).0 ≡ ok a
          → R a (tried o d s).1
      go none k' d s a e = cc
      go (some s') k' done s a e = k' s' refl
      go (some s') k' refused s a e = cc
      go (some s') k' reply_lost s a e = cc

module _ {A : Type 0} {R : A → Destination → Type 0} where
  committed :
      (d : Fate) (s : Destination) (a b : A) (s' : Destination)
      → ((x : A) (y : Destination) → R x y → R x (stepped_on y))
      → R a s'
      → (commit d s a s').0 ≡ ok b
      → R b (commit d s a s').1
  committed done s a b s' k r e = subst (λ x. R x (stepped_on s')) (ok_injective e) (k a s' r)
  committed refused s a b s' k r e = cc
  committed reply_lost s a b s' k r e = cc

module _ (server : Server) {A : Type 0} {Q : Destination → Type 0}
    {R : A → Destination → Type 0} where
  pub Returns-in_transaction :
      {m : Call A}
      → ((s : Destination) → Q s → Q (stepped_on s))
      → ((a : A) (s : Destination) → R a s → R a (stepped_on s))
      → Returns Q R m
      → Returns Q R (in_transaction server m)
  unfolding in_transaction
  Returns-in_transaction {m} before later km = record {
    returns = λ s a h e. begin_go (server.fate s.steps) s a h e;
  }
    where
      ended :
          (s : Destination) (r : Result DbFailure A × Destination) (b : A)
          → ((a : A) → r.0 ≡ ok a → R a r.1)
          → (closed_by server s r).0 ≡ ok b
          → R b (closed_by server s r).1
      ended s (ok a, s') b k e = committed (server.fate s'.steps) s a b s' later (k a refl) e
      ended s (err x, s') b k e = cc

      begin_go :
          (d : Fate) (s : Destination) (a : A)
          → Q s
          → (begun server d m s).0 ≡ ok a
          → R a (begun server d m s).1
      begin_go done s a h e =
          ended (stepped_on s) (m (stepped_on s)) a
            (λ b e'. km.returns (stepped_on s) b (before s h) e') e
      begin_go refused s a h e = cc
      begin_go reply_lost s a h e = cc

-- What a transaction leaves of the tables: all or nothing of what its body has done, also where the
-- reply to the COMMIT is lost.
abbrev pub AllOrNothing : {A : Type 0} → Call A → Destination → Destination → Type 0
AllOrNothing {A} m s s' =
    (s'.objects ≡ s.objects)
    ⊎ ((a : A) × (((m (stepped_on s)).0 ≡ ok a) × (s'.objects ≡ (m (stepped_on s)).1.objects)))

module _ {A : Type 0} (server : Server) (m : Call A) where
  commit_all :
      (d : Fate) (s : Destination) (a : A) (s' : Destination)
      → ((commit d s a s').1.objects ≡ s.objects) ⊎ ((commit d s a s').1.objects ≡ s'.objects)
  commit_all done s a s' = inr refl
  commit_all refused s a s' = inl refl
  commit_all reply_lost s a s' = inr refl

  closed_all :
      (s : Destination) (r : Result DbFailure A × Destination)
      → ((closed_by server s r).1.objects ≡ s.objects)
        ⊎ ((a : A) × ((r.0 ≡ ok a) × ((closed_by server s r).1.objects ≡ r.1.objects)))
  closed_all s (err e, s') = inl refl
  closed_all s (ok a, s') = elim (commit_all (server.fate s'.steps) s a s') [
    | inl same ↦ inl same
    | inr body ↦ inr (a, (refl, body))
  ]

  begun_all : (d : Fate) (s : Destination) → AllOrNothing m s (begun server d m s).1
  begun_all done s = closed_all (stepped_on s) (m (stepped_on s))
  begun_all refused s = inl refl
  begun_all reply_lost s = inl refl

  pub in_transaction_all : (s : Destination) → AllOrNothing m s (in_transaction server m s).1
  unfolding in_transaction
  in_transaction_all s = begun_all (server.fate s.steps) s

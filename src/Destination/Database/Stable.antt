-- ===== src/Destination/Database/Stable.antt =====
-- What every operation of the Destination database keeps, src/airgap_sync/destination/mysql.py: a property of the state that does
-- not look at runs, chunks, tables and files, and that the insertion of a next version keeps.
pub mod Calls
pub mod Tables
pub mod Finalize
use airgap_sync.Base.{
  Bool, List, Option, String, [], false, if◌then◌else◌, none, refl, some, true, ◌++◌, ◌<◌, ◌∷◌, ◌≡◌,
}
use airgap_sync.Base.Exec.{Result, continue, err, ok, pure, raise, raise_if}
use airgap_sync.Destination.Database.{ChunkRow, Destination, RunRow, TableObject, TableVersion}
use airgap_sync.Destination.Database.Runs.{or_raise}
use airgap_sync.Destination.Database.Statements.{
  Call, DbFailure, Fate, Server, attempt, begun, closed_by, commit, done, execute, fetch,
  in_transaction, lost, outcome, refused, reply_lost, rolled_back, stepped_on, tried, utcnow, ◌>>=◌,
  ◌>>◌,
}
use airgap_sync.Destination.Database.Versions.{difference, latest_in}

-- What `finalize_verified` writes beside a version: newer than the latest, with the link to it.
abbrev pub Links : TableVersion → Option TableVersion → Type 0
Links v none = (v.previous_run_id ≡ none) × (v.previous_row_count ≡ none) × (v.net_change ≡ none)
Links v (some w) =
    (w.source_created_at < v.source_created_at)
    × (v.previous_run_id ≡ some w.run_id)
    × (v.previous_row_count ≡ some w.row_count)
    × (v.net_change ≡ some (difference v.row_count w.row_count))

abbrev pub LinksLatest : TableVersion → List TableVersion → Type 0
LinksLatest v vs = Links v (latest_in v.source_database v.table_name vs)

abbrev pub with_version : TableVersion → Destination → Destination
with_version v s = record s { table_versions = s.table_versions ++ (v ∷ []) }

pub record IsStable (P : Destination → Type 0) : Type 0 where
  pub steps : (s : Destination) → P s → P (stepped_on s)
  pub runs : (s : Destination) (rows : List RunRow) → P s → P (record s { runs = rows })
  pub chunks : (s : Destination) (rows : List ChunkRow) → P s → P (record s { chunks = rows })
  pub objects :
      (s : Destination) (tables : List TableObject) → P s → P (record s { objects = tables })
  pub supported :
      (s : Destination) (found : Option Bool)
      → P s
      → P (record s { supports_generation_expression = found })
  pub files : (s : Destination) (names : List String) → P s → P (record s { files = names })
  pub version :
      (s : Destination) (v : TableVersion)
      → P s
      → LinksLatest v s.table_versions
      → P (with_version v s)
  pub rolled : (s s' : Destination) → P s → P s' → P (rolled_back s s')

-- What the server makes of a statement, where it does not reject it.
abbrev pub WhenSome : (Destination → Type 0) → Option Destination → Type 0
WhenSome P none = Unit
WhenSome P (some s) = P s

pub WhenSome-if :
    (P : Destination → Type 0) (b : Bool) (s : Destination)
    → P s
    → WhenSome P (if b then some s else none)
WhenSome-if P true s h = h
WhenSome-if P false s h = tt

pub WhenSome-unless :
    (P : Destination → Type 0) (b : Bool) (s : Destination)
    → P s
    → WhenSome P (if b then none else some s)
WhenSome-unless P true s h = tt
WhenSome-unless P false s h = h

-- `m` keeps `P`, whether it returns or raises.
pub record Kept {A : Type 0} (P : Destination → Type 0) (m : Call A) : Type 0 where
  pub keeps : (s : Destination) → P s → P (m s).1

module _ {A : Type 0} {P : Destination → Type 0} where
  pub Kept-pure : (a : A) → Kept P (pure a)
  Kept-pure a = record { keeps = λ s h. h }

  pub Kept-raise : (e : DbFailure) → Kept {A = A} P (raise e)
  Kept-raise e = record { keeps = λ s h. h }

  pub Kept-or_raise : (e : DbFailure) (o : Option A) → Kept P (or_raise e o)
  Kept-or_raise e none = record { keeps = λ s h. h }
  Kept-or_raise e (some a) = record { keeps = λ s h. h }

pub Kept-raise_if : {P : Destination → Type 0} (b : Bool) (e : DbFailure) → Kept P (raise_if b e)
Kept-raise_if b e = record { keeps = λ s h. h }

module _ {A : Type 0} {P : Destination → Type 0} where
  pub Kept-if : {m n : Call A} (b : Bool) → Kept P m → Kept P n → Kept P (if b then m else n)
  Kept-if true km kn = km
  Kept-if false km kn = kn

  -- A check that does not raise has found its condition false.
  pub Kept-unless :
      (b : Bool) (e : DbFailure) (m : Call A) → (b ≡ false → Kept P m) → Kept P (raise_if b e >> m)
  unfolding ◌>>=◌
  Kept-unless true e m k = record { keeps = λ s h. h }
  Kept-unless false e m k = record { keeps = λ s h. (k refl).keeps s h }

-- What holds before `m` leads to `P` after it.
pub record Leads {A : Type 0} (Q P : Destination → Type 0) (m : Call A) : Type 0 where
  pub leads : (s : Destination) → Q s → P (m s).1

module _ {A : Type 0} {Q P : Destination → Type 0} where
  pub Leads-if :
      {m n : Call A} (b : Bool) → Leads Q P m → Leads Q P n → Leads Q P (if b then m else n)
  Leads-if true lm ln = lm
  Leads-if false lm ln = ln

  pub Leads-unless :
      ((s : Destination) → Q s → P s)
      → (b : Bool) (e : DbFailure) (m : Call A) → (b ≡ false → Leads Q P m)
      → Leads Q P (raise_if b e >> m)
  unfolding ◌>>=◌
  Leads-unless w true e m k = record { leads = λ s h. w s h }
  Leads-unless w false e m k = record { leads = λ s h. (k refl).leads s h }

  pub Leads-weaken : {m : Call A} → ((s : Destination) → Q s → P s) → Kept Q m → Leads Q P m
  Leads-weaken {m} w km = record { leads = λ s h. w (m s).1 (km.keeps s h) }

module _ {A B : Type 0} {Q P : Destination → Type 0} {m : Call A} {f : A → Call B} where
  pub Leads-then :
      ((s : Destination) → Q s → P s) → Kept Q m → ((a : A) → Leads Q P (f a)) → Leads Q P (m >>= f)
  unfolding ◌>>=◌
  Leads-then w km kf = record { leads = λ s h. go (m s) (km.keeps s h) }
    where
      go : (r : Result DbFailure A × Destination) → Q r.1 → P (continue f r).1
      go (ok a, s') h' = (kf a).leads s' h'
      go (err e, s') h' = w s' h'

module _ {A B : Type 0} {P : Destination → Type 0} {m : Call A} {f : A → Call B} where
  pub Kept-bind : Kept P m → ((a : A) → Kept P (f a)) → Kept P (m >>= f)
  unfolding ◌>>=◌
  Kept-bind km kf = record { keeps = λ s h. go (m s) (km.keeps s h) }
    where
      go : (r : Result DbFailure A × Destination) → P r.1 → P (continue f r).1
      go (ok a, s') h' = (kf a).keeps s' h'
      go (err e, s') h' = h'

module _ (P : Destination → Type 0) (steps : (s : Destination) → P s → P (stepped_on s))
    (server : Server) where
  outcome-Keeps :
      {A : Type 0} (k : Fate) (e : DbFailure) (a : A) (f : Destination → Destination)
      (s : Destination)
      → P s
      → P (f (stepped_on s))
      → P (outcome k e a f s).1
  outcome-Keeps done e a f s h k = k
  outcome-Keeps refused e a f s h k = steps s h
  outcome-Keeps reply_lost e a f s h k = k

  pub execute-Kept :
      (f : Destination → Destination)
      → ((s : Destination) → P s → P (f s))
      → Kept P (execute server f)
  unfolding execute
  execute-Kept f k = record {
    keeps = λ s h. outcome-Keeps (server.fate s.steps) lost tt f s h (k (stepped_on s) (steps s h));
  }

  pub fetch-Kept : {A : Type 0} (f : Destination → A) → Kept P (fetch server f)
  unfolding fetch
  fetch-Kept f = record {
    keeps = λ s h. outcome-Keeps (server.fate s.steps) lost (f s) (λ x. x) s h (steps s h);
  }

  pub utcnow-Kept : Kept P (utcnow server)
  unfolding utcnow
  utcnow-Kept = record { keeps = λ s h. steps s h }

  tried-Keeps :
      (o : Option Destination) (d : Fate) (s : Destination) → P s → WhenSome P o → P (tried o d s).1
  tried-Keeps none d s h k = steps s h
  tried-Keeps (some s') d s h k = outcome-Keeps d lost tt (λ _. stepped_on s') s h (steps s' k)

  pub attempt-Kept :
      (f : Destination → Option Destination)
      → ((s : Destination) → P s → WhenSome P (f s))
      → Kept P (attempt server f)
  unfolding attempt
  attempt-Kept f k = record { keeps = λ s h. tried-Keeps (f s) (server.fate s.steps) s h (k s h) }

  pub attempt-Leads :
      (Q : Destination → Type 0) (f : Destination → Option Destination)
      → ((s : Destination) → Q s → P s)
      → ((s : Destination) → Q s → WhenSome P (f s))
      → Leads Q P (attempt server f)
  unfolding attempt
  attempt-Leads Q f w k = record {
    leads = λ s h. tried-Keeps (f s) (server.fate s.steps) s (w s h) (k s h);
  }

  -- What was read, and the state it was read in.
  pub Kept-fetch :
      {A B : Type 0} (g : Destination → A) (f : A → Call B)
      → ((s : Destination) → P s → P (f (g s) (stepped_on s)).1)
      → Kept P (fetch server g >>= f)
  unfolding fetch ◌>>=◌
  Kept-fetch g f k = record { keeps = λ s h. go (server.fate s.steps) s h }
    where
      go : (d : Fate) (s : Destination) → P s → P (continue f (outcome d lost (g s) (λ x. x) s)).1
      go done s h = k s h
      go refused s h = steps s h
      go reply_lost s h = steps s h

module _ (P : Destination → Type 0) (steps : (s : Destination) → P s → P (stepped_on s))
    (rolled : (s s' : Destination) → P s → P s' → P (rolled_back s s')) (server : Server) where
  commit-Keeps :
      {A : Type 0} (k : Fate) (s : Destination) (a : A) (s' : Destination)
      → P s
      → P s'
      → P (commit k s a s').1
  commit-Keeps done s a s' h h' = steps s' h'
  commit-Keeps refused s a s' h h' = rolled s (stepped_on s') h (steps s' h')
  commit-Keeps reply_lost s a s' h h' = steps s' h'

  closed_by-Keeps :
      {A : Type 0} (s : Destination) (r : Result DbFailure A × Destination)
      → P s
      → P r.1
      → P (closed_by server s r).1
  closed_by-Keeps s (ok a, s') h h' = commit-Keeps (server.fate s'.steps) s a s' h h'
  closed_by-Keeps s (err e, s') h h' = rolled s (stepped_on s') h (steps s' h')

  begun-Keeps :
      {A : Type 0} (k : Fate) (m : Call A) (s : Destination)
      → Kept P m
      → P s
      → P (begun server k m s).1
  begun-Keeps done m s km h =
      closed_by-Keeps (stepped_on s) (m (stepped_on s)) (steps s h)
        (km.keeps (stepped_on s) (steps s h))
  begun-Keeps refused m s km h = steps s h
  begun-Keeps reply_lost m s km h = steps s h

  pub in_transaction-Kept : {A : Type 0} {m : Call A} → Kept P m → Kept P (in_transaction server m)
  unfolding in_transaction
  in_transaction-Kept {A} {m} km = record {
    keeps = λ s h. begun-Keeps (server.fate s.steps) m s km h;
  }

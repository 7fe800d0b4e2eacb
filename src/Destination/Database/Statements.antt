-- ===== src/Destination/Database/Statements.antt =====
-- `_execute`, `_fetchone`, `_fetchall`, `_utcnow` and `transaction` of src/airgap_sync/destination/mysql.py, over a server that may
-- refuse a statement, or carry it out and lose the reply.
use airgap_sync.Base.{Bool, List, Option, String, none, some, ℕ, ◌+◌}
use airgap_sync.Base.Exec.{Exec, Result, continue, err, ok}
use airgap_sync.Common.RowCodec.{Value}
use airgap_sync.Destination.Database.{Destination, DestinationColumn, TableObject}

-- What raises: the program's own errors by their codes, `OSError`, a bare `pymysql.Error` of `begin` or `commit`.
pub data DbFailure : Type 0 where
  destination_error schema_error mysql_error : String → DbFailure
  os_error driver_error other_exception : DbFailure

pub data Fate : Type 0 where
  done refused reply_lost : Fate

-- The surroundings: the fate of the call with that number, and the reading of the clock at it.
pub record Server : Type 0 where
  pub fate : ℕ → Fate
  pub clock : ℕ → ℕ
  -- GET_LOCK(name, 0) gives 1
  pub lock_free : ℕ → String → Bool
  -- information_schema: an inbound or outbound foreign key, a trigger
  pub has_foreign_key : String → Bool
  pub has_trigger : String → Bool
  -- information_schema.COLUMNS has a column GENERATION_EXPRESSION
  pub has_generation_expression : Bool
  -- the table that a CREATE TABLE statement makes; `none` is a statement that the server rejects
  pub created_by : String → Option TableObject
  -- the row that INSERT INTO table (columns) VALUES (values) stores: generated columns are computed
  pub stored_row : List DestinationColumn → List String → List Value → List Value
  -- SELECT columns FROM table, of one row of a table with these columns
  pub selected : List DestinationColumn → List String → List Value → List Value

abbrev pub Call : Type 0 → Type 0
Call A = Exec Destination DbFailure A

module _ {A B : Type 0} where
  -- One statement of Python after the other.
  infixl 10 ◌>>=◌ ◌>>◌
  unfoldable pub ◌>>=◌ : Call A → (A → Call B) → Call B
  ◌>>=◌ m f s = continue f (m s)

  abbrev pub ◌>>◌ : Call A → Call B → Call B
  m >> n = m >>= λ _. n

abbrev pub stepped_on : Destination → Destination
stepped_on s = record s { steps = s.steps + 1 }

abbrev pub lost : DbFailure
lost = mysql_error "Destination MySQL operation failed"

-- ROLLBACK: what was read or locked meanwhile, and the files, stay as they are.
abbrev pub rolled_back : Destination → Destination → Destination
rolled_back s s' = record s' {
  runs = s.runs;
  chunks = s.chunks;
  table_versions = s.table_versions;
  objects = s.objects;
}

module _ {A : Type 0} where
  abbrev pub outcome : Fate → DbFailure → A → (Destination → Destination) → Call A
  outcome done e a f s = (ok a, f (stepped_on s))
  outcome refused e a f s = (err e, stepped_on s)
  outcome reply_lost e a f s = (err e, f (stepped_on s))

  -- COMMIT; where it is refused, ROLLBACK.
  abbrev pub commit : Fate → Destination → A → Destination → Result DbFailure A × Destination
  commit done s a s' = (ok a, stepped_on s')
  commit refused s a s' = (err driver_error, rolled_back s (stepped_on s'))
  commit reply_lost s a s' = (err driver_error, stepped_on s')

-- The call of ROLLBACK: where it raises, that error takes the place of the first one. The server takes
-- the transaction back in any case, at the latest when the session ends.
abbrev pub undone : Fate → DbFailure → DbFailure
undone done e = e
undone _ e = driver_error

abbrev pub tried : Option Destination → Fate → Call Unit
tried none d s = (err lost, stepped_on s)
tried (some s') d s = outcome d lost tt (λ _. stepped_on s') s

module _ (server : Server) where
  -- `cursor.execute(sql)` with its effect.
  unfoldable pub execute : (Destination → Destination) → Call Unit
  execute f s = outcome (server.fate s.steps) lost tt f s

  -- The same of a statement that the server rejects where `f` gives `none`.
  unfoldable pub attempt : (Destination → Option Destination) → Call Unit
  attempt f s = tried (f s) (server.fate s.steps) s

  -- `cursor.execute(sql)` and what it reads.
  unfoldable pub fetch : {A : Type 0} → (Destination → A) → Call A
  fetch f s = outcome (server.fate s.steps) lost (f s) (λ x. x) s

  unfoldable pub utcnow : Call ℕ
  utcnow s = (ok (server.clock s.steps), stepped_on s)

  abbrev pub closed_by :
      {A : Type 0}
      → Destination
      → Result DbFailure A × Destination
      → Result DbFailure A × Destination
  closed_by s (ok a, s') = commit (server.fate s'.steps) s a s'
  closed_by s (err e, s') = (err (undone (server.fate s'.steps) e), rolled_back s (stepped_on s'))

  abbrev pub begun : {A : Type 0} → Fate → Call A → Call A
  begun done m s = closed_by (stepped_on s) (m (stepped_on s))
  begun _ m s = (err driver_error, stepped_on s)

  unfoldable pub in_transaction : {A : Type 0} → Call A → Call A
  in_transaction m s = begun (server.fate s.steps) m s

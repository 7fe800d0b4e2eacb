-- ===== src/Destination/Database/Catalog.antt =====
-- The tables of the configured database and the locks of the session, src/airgap_sync/destination/mysql.py. Each operation
-- of the program on a table names the configured database; the name is left out.
pub mod Renamed
use airgap_sync.Base.{
  Bool, List, Option, String, [], false, if◌then◌else◌, map, nat_eq, none, not, option_eq, some,
  string_eq, true, ◌&&◌, ◌++◌, ◌==◌, ◌||◌, ◌∷◌,
}
use airgap_sync.Base.Exec.{gets, modify, pure}
use airgap_sync.Base.Rows.{exists_row, find?, select_where, update_where}
use airgap_sync.Common.RowCodec.{Value}
use airgap_sync.Destination.Database.{
  Destination, DestinationColumn, ObjectType, TableObject, base_table, named,
}
use airgap_sync.Destination.Database.Runs.{or_raise}
use airgap_sync.Destination.Database.Statements.{
  Call, Server, attempt, execute, fetch, lost, ◌>>=◌, ◌>>◌,
}

abbrev pub object_named : String → Destination → Option TableObject
object_named name s = find? (named name) s.objects

abbrev pub kind_of : Option TableObject → Option ObjectType
kind_of none = none
kind_of (some o) = some o.kind

abbrev pub held_rows : Option TableObject → Option (List (List Value))
held_rows none = none
held_rows (some o) = some o.rows

abbrev pub is_base : Option ObjectType → Bool
is_base (some base_table) = true
is_base _ = false

abbrev pub type_in : String → Destination → Option ObjectType
type_in name s = kind_of (object_named name s)

abbrev pub rows_in : String → Destination → Option (List (List Value))
rows_in name s = held_rows (object_named name s)

-- `bool(self.generation_expression) or "GENERATED" in self.extra.upper()`
abbrev pub generated : (String → Bool) → DestinationColumn → Bool
generated says_generated c = not (c.generation_expression == "") || says_generated c.extra

-- RENAME TABLE a TO b: a must be there, b must not.
unfoldable pub rename_one : String → String → List TableObject → Option (List TableObject)
rename_one a b objects =
    if exists_row (named a) objects && not (exists_row (named b) objects)
    then some (update_where (named a) (λ o. record o { name = b }) objects)
    else none

abbrev pub with_objects : Destination → Option (List TableObject) → Option Destination
with_objects s none = none
with_objects s (some objects) = some (record s { objects = objects })

unfoldable pub renamed_next :
    String → String → Option (List TableObject) → Destination → Option Destination
unfolding rename_one
renamed_next staging target none s = none
renamed_next staging target (some objects) s = with_objects s (rename_one staging target objects)

-- RENAME TABLE staging TO live, or RENAME TABLE live TO backup, staging TO live, as one statement.
unfoldable pub promoted : String → String → Option String → Destination → Option Destination
unfolding rename_one renamed_next
promoted staging target none s = with_objects s (rename_one staging target s.objects)
promoted staging target (some backup) s =
    renamed_next staging target (rename_one target backup s.objects) s

abbrev pub add_object : Option TableObject → Destination → Option Destination
add_object none s = none
add_object (some o) s =
    if exists_row (named o.name) s.objects
    then none
    else some (record s { objects = s.objects ++ (o ∷ []) })

abbrev pub without : String → List TableObject → List TableObject
without name objects = select_where (λ o. not (named name o)) objects

abbrev pub dropped : String → Destination → Option Destination
dropped name s =
    if is_base (type_in name s) then some (record s { objects = without name s.objects }) else none

-- RELEASE_LOCK gives back one of the session's locks of that name.
abbrev pub release_one : String → List String → List String
release_one name [] = []
release_one name (l ∷ ls) = if l == name then ls else l ∷ release_one name ls

-- The columns of a table, those of a missing one being none.
abbrev pub columns_of : String → Destination → List DestinationColumn
columns_of name s = elim (object_named name s) [ none ↦ [] | some o ↦ o.columns ]

module _ (server : Server) where
  abbrev pub appended : List String → List (List Value) → TableObject → TableObject
  appended columns rows o = record o {
    rows = o.rows ++ map (server.stored_row o.columns columns) rows;
  }

  unfoldable pub inserted :
      String → List String → List (List Value) → Destination → Option Destination
  inserted table columns rows s =
      if exists_row (named table) s.objects
      then some
          (record s { objects = update_where (named table) (appended columns rows) s.objects })
      else none

  unfoldable pub object_type : String → Call (Option ObjectType)
  object_type name = fetch server (type_in name)

  unfoldable pub table_exists : String → Call Bool
  unfolding object_type
  table_exists name = do kind ← object_type name; pure (is_base kind)

  unfoldable pub storage_engine : String → Call (Option String)
  storage_engine name = fetch server (λ s. elim (object_named name s) [
    | none ↦ none
    | some o ↦ if is_base (some o.kind) then some o.engine else none
  ])

  unfoldable pub create_staging_table : String → Call Unit
  create_staging_table ddl = attempt server (add_object (server.created_by ddl))

  -- `self._supports_generation_expression = row is not None`
  unfoldable pub remember_support : Bool → Call Unit
  remember_support b = modify (λ s. record s { supports_generation_expression = some b })

  unfoldable pub ask_unless_known : Option Bool → Call Bool
  unfolding remember_support
  ask_unless_known (some b) = pure b
  ask_unless_known none = do
    b ← fetch server (λ s. server.has_generation_expression)
    remember_support b
    pure b

  unfoldable pub has_generation_expression_column : Call Bool
  unfolding ask_unless_known
  has_generation_expression_column = do
    known ← gets (λ s. s.supports_generation_expression)
    ask_unless_known known

  abbrev pub without_expression : DestinationColumn → DestinationColumn
  without_expression c = record c { generation_expression = "" }

  unfoldable pub columns_read : String → Bool → Call (List DestinationColumn)
  columns_read name true = fetch server (columns_of name)
  columns_read name false = fetch server (λ s. map without_expression (columns_of name s))

  unfoldable pub staging_columns : String → Call (List DestinationColumn)
  unfolding has_generation_expression_column columns_read
  staging_columns name = do
    supported ← has_generation_expression_column
    columns_read name supported

  unfoldable pub insert_rows : String → List String → List (List Value) → Call Unit
  unfolding inserted
  insert_rows table columns [] = pure tt
  insert_rows table columns (row ∷ rows) = attempt server (inserted table columns (row ∷ rows))

  -- The rows that `stream_table_columns` yields: a missing table raises.
  unfoldable pub stream_table_columns : String → List String → Call (List (List Value))
  stream_table_columns table columns = do
    read ← fetch server (object_named table)
    o ← or_raise lost read
    pure (map (server.selected o.columns columns) o.rows)

  unfoldable pub target_dependencies : String → Call (Bool × Bool)
  target_dependencies name = do
    fk ← fetch server (λ s. server.has_foreign_key name)
    trigger ← fetch server (λ s. server.has_trigger name)
    pure (fk, trigger)

  unfoldable pub rename_for_promotion : String → String → Option String → Call Unit
  unfolding promoted
  rename_for_promotion staging target backup = attempt server (promoted staging target backup)

  unfoldable pub drop_table : String → Call Unit
  drop_table name = attempt server (dropped name)

  abbrev pub lock_if : Bool → String → Call Bool
  lock_if true name = execute server (λ s. record s { locks = name ∷ s.locks }) >> pure true
  lock_if false name = fetch server (λ s. false)

  -- SELECT GET_LOCK(name, 0)
  unfoldable pub lock : String → Call Bool
  lock name s = lock_if (server.lock_free s.steps name) name s

  -- SELECT RELEASE_LOCK(name)
  unfoldable pub unlock : String → Call Unit
  unlock name = execute server (λ s. record s { locks = release_one name s.locks })

-- ===== src/Destination/Database/Stable/Tables.antt =====
-- Each operation of src/airgap_sync/destination/mysql.py on tables and versions keeps a stable property.
use airgap_sync.Base.{Bool, List, Option, String, [], false, none, some, true, ℕ, ◌∷◌}
use airgap_sync.Base.Rows.{exists_row}
use airgap_sync.Common.RowCodec.{Value}
use airgap_sync.Destination.Database.{Destination, TableObject, named}
use airgap_sync.Destination.Database.Catalog.{
  add_object, ask_unless_known, columns_read, create_staging_table, drop_table,
  has_generation_expression_column, insert_rows, inserted, is_base, lock, lock_if, object_type,
  promoted, remember_support, rename_for_promotion, rename_one, renamed_next, staging_columns,
  storage_engine, stream_table_columns, table_exists, target_dependencies, type_in, with_objects,
}
use airgap_sync.Destination.Database.Stable.{
  IsStable, Kept, Kept-bind, Kept-or_raise, Kept-pure, WhenSome, WhenSome-if, WhenSome-unless,
  attempt-Kept, execute-Kept, fetch-Kept,
}
use airgap_sync.Destination.Database.Statements.{Server}
use airgap_sync.Destination.Database.Versions.{latest_version, mark_verified}

module _ (P : Destination → Type 0) (st : IsStable P) (server : Server) where
  pub object_type-Kept : (name : String) → Kept P (object_type server name)
  unfolding object_type
  object_type-Kept name = fetch-Kept P st.steps server _

  pub table_exists-Kept : (name : String) → Kept P (table_exists server name)
  unfolding table_exists
  table_exists-Kept name = Kept-bind (object_type-Kept name) λ kind. Kept-pure _

  pub storage_engine-Kept : (name : String) → Kept P (storage_engine server name)
  unfolding storage_engine
  storage_engine-Kept name = fetch-Kept P st.steps server _

  ask_unless_known-Kept : (known : Option Bool) → Kept P (ask_unless_known server known)
  unfolding ask_unless_known remember_support
  ask_unless_known-Kept (some b) = Kept-pure b
  ask_unless_known-Kept none =
      Kept-bind (fetch-Kept P st.steps server _)
        (λ b. Kept-bind (record { keeps = λ s h. st.supported s (some b) h }) (λ u. Kept-pure b))

  has_generation_expression_column-Kept : Kept P (has_generation_expression_column server)
  unfolding has_generation_expression_column
  has_generation_expression_column-Kept =
      Kept-bind (record { keeps = λ s h. h }) ask_unless_known-Kept

  columns_read-Kept : (name : String) (b : Bool) → Kept P (columns_read server name b)
  unfolding columns_read
  columns_read-Kept name true = fetch-Kept P st.steps server _
  columns_read-Kept name false = fetch-Kept P st.steps server _

  pub staging_columns-Kept : (name : String) → Kept P (staging_columns server name)
  unfolding staging_columns
  staging_columns-Kept name =
      Kept-bind has_generation_expression_column-Kept (columns_read-Kept name)

  add_object-WhenSome :
      (o : Option TableObject) (s : Destination) → P s → WhenSome P (add_object o s)
  add_object-WhenSome none s h = tt
  add_object-WhenSome (some o) s h =
      WhenSome-unless P (exists_row (named o.name) s.objects) _ (st.objects s _ h)

  pub create_staging_table-Kept : (ddl : String) → Kept P (create_staging_table server ddl)
  unfolding create_staging_table
  create_staging_table-Kept ddl =
      attempt-Kept P st.steps server _ (add_object-WhenSome (server.created_by ddl))

  pub insert_rows-Kept :
      (table : String) (columns : List String) (rows : List (List Value))
      → Kept P (insert_rows server table columns rows)
  unfolding insert_rows inserted
  insert_rows-Kept table columns [] = Kept-pure tt
  insert_rows-Kept table columns (row ∷ rows) =
      attempt-Kept P st.steps server _
        λ s h. WhenSome-if P (exists_row (named table) s.objects) _ (st.objects s _ h)

  pub stream_table_columns-Kept :
      (table : String) (columns : List String) → Kept P (stream_table_columns server table columns)
  unfolding stream_table_columns
  stream_table_columns-Kept table columns =
      Kept-bind (fetch-Kept P st.steps server _)
        λ read. Kept-bind (Kept-or_raise _ read) λ o. Kept-pure _

  pub target_dependencies-Kept : (name : String) → Kept P (target_dependencies server name)
  unfolding target_dependencies
  target_dependencies-Kept name =
      Kept-bind (fetch-Kept P st.steps server _)
        λ fk. Kept-bind (fetch-Kept P st.steps server _) λ trigger. Kept-pure _

  with_objects-WhenSome :
      (o : Option (List TableObject)) (s : Destination) → P s → WhenSome P (with_objects s o)
  with_objects-WhenSome none s h = tt
  with_objects-WhenSome (some objects) s h = st.objects s objects h

  renamed_next-WhenSome :
      (staging target : String) (o : Option (List TableObject)) (s : Destination)
      → P s
      → WhenSome P (renamed_next staging target o s)
  unfolding renamed_next
  renamed_next-WhenSome staging target none s h = tt
  renamed_next-WhenSome staging target (some objects) s h =
      with_objects-WhenSome (rename_one staging target objects) s h

  promoted-WhenSome :
      (staging target : String) (backup : Option String) (s : Destination)
      → P s
      → WhenSome P (promoted staging target backup s)
  unfolding promoted
  promoted-WhenSome staging target none s h =
      with_objects-WhenSome (rename_one staging target s.objects) s h
  promoted-WhenSome staging target (some backup) s h =
      renamed_next-WhenSome staging target (rename_one target backup s.objects) s h

  pub rename_for_promotion-Kept :
      (staging target : String) (backup : Option String)
      → Kept P (rename_for_promotion server staging target backup)
  unfolding rename_for_promotion
  rename_for_promotion-Kept staging target backup =
      attempt-Kept P st.steps server _ (promoted-WhenSome staging target backup)

  pub drop_table-Kept : (name : String) → Kept P (drop_table server name)
  unfolding drop_table
  drop_table-Kept name =
      attempt-Kept P st.steps server _
        λ s h. WhenSome-if P (is_base (type_in name s)) _ (st.objects s _ h)

  pub latest_version-Kept :
      (database table : String) → Kept P (latest_version server database table)
  unfolding latest_version
  latest_version-Kept database table = fetch-Kept P st.steps server _

  mark_verified-Kept : (id : String) (now : ℕ) → Kept P (mark_verified server id now)
  unfolding mark_verified
  mark_verified-Kept id now = execute-Kept P st.steps server _ (λ s h. st.runs s _ h)

  lock_if-Kept :
      (free : Bool) (name : String)
      → ((s : Destination) → P s → P (record s { locks = name ∷ s.locks }))
      → Kept P (lock_if server free name)
  lock_if-Kept true name k = Kept-bind (execute-Kept P st.steps server _ k) λ _. Kept-pure true
  lock_if-Kept false name k = fetch-Kept P st.steps server _

  pub lock-Kept :
      (name : String)
      → ((s : Destination) → P s → P (record s { locks = name ∷ s.locks }))
      → Kept P (lock server name)
  unfolding lock
  lock-Kept name k = record {
    keeps = λ s h. (lock_if-Kept (server.lock_free s.steps name) name k).keeps s h;
  }

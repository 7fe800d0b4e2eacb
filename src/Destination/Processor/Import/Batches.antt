-- ===== src/Destination/Processor/Import/Batches.antt =====
-- The batches of `_import_chunk`, src/airgap_sync/destination/processor.py: however long they are, the rows of the chunk are
-- inserted once each and in order.
use mathlib.Core.List.{append-nil, append_assoc, map-append}
use mathlib.Core.Path.{subst}
use airgap_sync.Base.{
  Bool, List, Option, String, [], ap, arith, false, if◌then◌else◌, leb, length, map, nat_eq, none,
  option_eq, refl, some, string_eq, sym, true, ℕ, ◌++◌, ◌+◌, ◌==◌, ◌∙◌, ◌∷◌, ◌≡◌,
}
use airgap_sync.Base.Exec.{Result, err, ok}
use airgap_sync.Base.Rows.{exists_row, find?-update}
use airgap_sync.Common.RowCodec.{CodecError, Value, decode_row}
use airgap_sync.Common.Verification.{Bytes}
use airgap_sync.Destination.Database.{Destination, DestinationColumn, TableObject, named}
use airgap_sync.Destination.Database.Catalog.{appended, insert_rows, inserted, object_named}
use airgap_sync.Destination.Database.Returns.{
  Returns, Returns-attempt, Returns-bind, Returns-if, Returns-pure, Returns-raise, Returns-raise_if,
  Returns-some, Returns-weaken,
}
use airgap_sync.Destination.Processor.{Setting}
use airgap_sync.Destination.Processor.Import.{
  decoded_line, flush_full, import_lines, insert_columns, inserted_values, of_width,
}

-- The row of one line, decoded and of the expected width, and those of all lines.
abbrev row_of_width : ℕ → Result CodecError (List Value) → Option (List Value)
row_of_width expected_width (ok row) = if length row == expected_width then some row else none
row_of_width expected_width (err e) = none

abbrev decode_one : Setting → ℕ → Option Bytes → Option (List Value)
decode_one at expected_width none = none
decode_one at expected_width (some line) = row_of_width expected_width (decode_row at.codec line)

abbrev both_rows : Option (List Value) → Option (List (List Value)) → Option (List (List Value))
both_rows (some row) (some rows) = some (row ∷ rows)
both_rows _ _ = none

unfoldable pub decode_all : Setting → ℕ → List (Option Bytes) → Option (List (List Value))
decode_all at expected_width [] = some []
decode_all at expected_width (line ∷ lines) =
    let rest = decode_all at expected_width lines in
    both_rows (decode_one at expected_width line) rest

pub taken : (b : Bool) (x y : Destination) → (if b then some x else none) ≡ some y → x ≡ y
taken true x y h = cc
taken false x y h = cc

module _ (at : Setting) (staging : String) where
  abbrev Holds : TableObject → Destination → Type 0
  Holds o s = object_named staging s ≡ some o

  appended-nil : (columns : List String) (o : TableObject) → appended at.server columns [] o ≡ o
  appended-nil columns o = ap (λ rows. record o { rows = rows }) (append-nil o.rows)

  appended-append :
      (columns : List String) (xs ys : List (List Value)) (o : TableObject)
      → appended at.server columns ys (appended at.server columns xs o)
        ≡ appended at.server columns (xs ++ ys) o
  appended-append columns xs ys o =
      ap (λ rows. record o { rows = rows })
        (append_assoc o.rows (map (at.server.stored_row o.columns columns) xs)
            (map (at.server.stored_row o.columns columns) ys)
          ∙ ap (λ zs. o.rows ++ zs)
              (sym (map-append (at.server.stored_row o.columns columns) xs ys)))

  insert_rows-Returns :
      (columns : List String) (rows : List (List Value)) (o : TableObject)
      → Returns
          (Holds o)
          (λ _. Holds (appended at.server columns rows o))
          (insert_rows at.server staging columns rows)
  unfolding insert_rows inserted
  insert_rows-Returns columns [] o =
      Returns-pure tt λ s h. h ∙ ap some (sym (appended-nil columns o))
  insert_rows-Returns columns (row ∷ rows) o = Returns-attempt at.server _ λ s s' h e.
      subst (Holds (appended at.server columns (row ∷ rows) o))
        (taken (exists_row (named staging) s.objects) _ s' e)
        (find?-update (named staging) (appended at.server columns (row ∷ rows)) s.objects o
          (λ y. refl) h)

  of_width-Returns :
      (o : TableObject) (width : ℕ) (r : Result CodecError (List Value))
      → Returns
          (Holds o)
          (λ row s. (row_of_width width r ≡ some row) × Holds o s)
          (of_width at width r)
  of_width-Returns o width (err e) = Returns-raise _
  of_width-Returns o width (ok row) =
      Returns-bind
        (Returns-raise_if {R = λ u s. ((length row == width) ≡ true) × Holds o s} _ _
          λ s h e. (ground arith, h))
        λ _. Returns-pure row λ s h. (rw h.0, h.1)

  -- The decoded line is the one that the reference decodes.
  decoded_line-Returns :
      (o : TableObject) (width : ℕ) (line : Option Bytes)
      → Returns
          (Holds o)
          (λ row s. (decode_one at width line ≡ some row) × Holds o s)
          (decoded_line at width line)
  unfolding decoded_line
  decoded_line-Returns o width none = Returns-raise _
  decoded_line-Returns o width (some line) = of_width-Returns o width (decode_row at.codec line)

  flush_full-Returns :
      (columns : List String) (o : TableObject) (batch : List (List Value))
      → Returns
          (Holds o)
          (λ rest s.
            (flushed : List (List Value)) × ((flushed ++ rest ≡ batch)
              × Holds (appended at.server columns flushed o) s))
          (flush_full at staging columns batch)
  unfolding flush_full
  flush_full-Returns columns o batch =
      Returns-if (leb at.insert_batch_rows (length batch))
        (λ _.
          Returns-bind (insert_rows-Returns columns batch o)
            λ _. Returns-pure [] λ s h. (batch, (append-nil batch, h)))
        (λ _. Returns-pure batch λ s h. ([], (refl, h ∙ ap some (sym (appended-nil columns o)))))

  abbrev names : List DestinationColumn → List String
  names columns = insert_columns at.says_generated columns

  abbrev picked : List DestinationColumn → List (List Value) → List (List Value)
  picked columns rows = map (inserted_values at.says_generated columns) rows

  -- What the loop has done when it returns n.
  abbrev Imported :
      ℕ
      → List DestinationColumn
      → List (Option Bytes)
      → List (List Value)
      → ℕ
      → TableObject
      → ℕ
      → Destination
      → Type 0
  Imported width columns lines batch start o n s =
      (rows : List (List Value)) × ((decode_all at width lines ≡ some rows)
        × (Holds (appended at.server (names columns) (batch ++ picked columns rows) o) s
            × (n ≡ start + length rows)))

  -- One more line before those that the rest of the loop imports.
  next_line :
      (width : ℕ) (columns : List DestinationColumn) (line : Option Bytes)
      (lines : List (Option Bytes)) (batch flushed rest : List (List Value)) (start n : ℕ)
      (o : TableObject) (row : List Value) (s : Destination)
      → decode_one at width line ≡ some row
      → flushed ++ rest ≡ batch ++ (inserted_values at.says_generated columns row ∷ [])
      → Imported width columns lines rest
          (start + 1)
          (appended at.server (names columns) flushed o)
          n
          s
      → Imported width columns (line ∷ lines) batch start o n s
  unfolding decode_all
  next_line width columns line lines batch flushed rest start n o row s d e (rows, (ds, (h, c))) =
      let later = picked columns rows in
      let first = inserted_values at.says_generated columns row ∷ [] in
      (
        row ∷ rows,
        (
          rw (d, ds),
          (
            h
                ∙ ap some (appended-append (names columns) flushed (rest ++ later) o)
                ∙ ap (λ b. some (appended at.server (names columns) b o))
                    (sym (append_assoc flushed rest later)
                      ∙ ap (λ b. b ++ later) e
                      ∙ append_assoc batch first later),
            omega (arith, c),
          ),
        ),
      )

  pub import_lines-Returns :
      (width : ℕ) (columns : List DestinationColumn) (lines : List (Option Bytes))
      (batch : List (List Value)) (start : ℕ) (o : TableObject)
      → Returns
          (Holds o)
          (Imported width columns lines batch start o)
          (import_lines at width staging columns lines batch start)
  unfolding import_lines decode_all
  import_lines-Returns width columns [] batch start o =
      Returns-bind (insert_rows-Returns (names columns) batch o) λ _. Returns-pure start λ s h. (
        [],
        (
          refl,
          (
            h ∙ ap (λ b. some (appended at.server (names columns) b o)) (sym (append-nil batch)),
            omega arith,
          ),
        ),
      )
  import_lines-Returns width columns (line ∷ lines) batch start o =
      Returns-bind (decoded_line-Returns o width line) λ row. Returns-some λ d.
        Returns-bind
          (flush_full-Returns (names columns) o
            (batch ++ (inserted_values at.says_generated columns row ∷ [])))
          λ rest. Returns-some λ flushed. Returns-some λ e.
            Returns-weaken (λ s h. h)
              (λ n s. next_line width columns line lines batch flushed rest start n o row s d e)
              (import_lines-Returns width columns lines rest (start + 1)
                (appended at.server (names columns) flushed o))

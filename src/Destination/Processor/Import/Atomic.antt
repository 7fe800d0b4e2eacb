-- ===== src/Destination/Processor/Import/Atomic.antt =====
-- A chunk is imported whole or not at all, src/airgap_sync/destination/processor.py.
use airgap_sync.Base.{
  Bool, List, String, [], arith, false, if◌then◌else◌, inl, inr, length, map, nat_beq_iff, refl,
  some, true, ℕ, ◌∙◌, ◌≡◌,
}
use airgap_sync.Base.Exec.{Result, continue, err, ok, raise}
use airgap_sync.Common.RowCodec.{Value}
use airgap_sync.Destination.Database.{Destination, DestinationColumn, TableObject}
use airgap_sync.Destination.Database.Catalog.{appended, object_named}
use airgap_sync.Destination.Database.Chunks.{fail_chunk, set_chunk_imported, set_chunk_importing}
use airgap_sync.Destination.Database.Returns.{
  AllOrNothing, Returns, Returns-bind, Returns-execute, Returns-in_transaction, Returns-raise,
  Returns-raise_if, Returns-utcnow, in_transaction_all,
}
use airgap_sync.Destination.Database.Statements.{
  Call, DbFailure, Fate, done, execute, in_transaction, lost, outcome, refused, reply_lost,
  stepped_on, ◌>>=◌, ◌>>◌,
}
use airgap_sync.Destination.Processor.{Setting, catch, caught, message_of}
use airgap_sync.Destination.Processor.Import.{
  import_body, import_chunk, import_failure, insert_columns, inserted_values,
}
use airgap_sync.Destination.Processor.Import.Batches.{decode_all, import_lines-Returns}

module _ {A : Type 0} {Q : Destination → Type 0} {R : A → Destination → Type 0} where
  -- Where the handler always raises, what returns is the body.
  Returns-catch :
      (test : DbFailure → Bool) {m : Call A} {handler : DbFailure → Call A}
      → Returns Q R m
      → ((e : DbFailure) → Returns (λ s. Unit) R (handler e))
      → Returns Q R (catch test m handler)
  unfolding catch
  Returns-catch test {m} {handler} km kh = record {
    returns = λ s a h e. go (m s) a (λ b e'. km.returns s b h e') e;
  }
    where
      handled :
          (b : Bool) (x : DbFailure) (s : Destination) (a : A)
          → (if b then handler x s else (err x, s)).0 ≡ ok a
          → R a (if b then handler x s else (err x, s)).1
      handled true x s a e = (kh x).returns s a tt e
      handled false x s a e = cc

      go :
          (r : Result DbFailure A × Destination) (a : A)
          → ((b : A) → r.0 ≡ ok b → R b r.1)
          → (caught test handler r).0 ≡ ok a
          → R a (caught test handler r).1
      go (ok b, s') a k e = k a e
      go (err x, s') a k e = handled (test x) x s' a e

raised_after :
    (d : Fate) (f : Destination → Destination) (s : Destination) (failure : DbFailure)
    → (f (stepped_on s)).objects ≡ s.objects
    → (continue {A = Unit} {B = Unit} (λ _. raise failure) (outcome d lost tt f s)).1.objects
      ≡ s.objects
raised_after done f s failure h = h
raised_after refused f s failure h = refl
raised_after reply_lost f s failure h = h

module _ (at : Setting) (staging : String) (width expected_rows : ℕ)
    (columns : List DestinationColumn) (path : String) where
  -- The chunk's rows, appended to those of the table `o`.
  abbrev pub Inserted : TableObject → Destination → Type 0
  Inserted o s =
      (rows : List (List Value)) × ((decode_all at width (at.chunk_lines path) ≡ some rows)
        × ((length rows ≡ expected_rows)
            × (object_named staging s
                ≡ some (
                    appended at.server (insert_columns at.says_generated columns)
                      (map (inserted_values at.says_generated columns) rows) o))))

  import_body-Returns :
      (run_id : String) (sequence : ℕ) (o : TableObject)
      → Returns
          (λ s. object_named staging s ≡ some o)
          (λ u s. Inserted o s)
          (import_body at run_id sequence path expected_rows width staging columns)
  unfolding import_body set_chunk_importing set_chunk_imported
  import_body-Returns run_id sequence o =
      Returns-bind
        (Returns-execute at.server {R = λ u s. object_named staging s ≡ some o} _ λ s h. h)
        λ _.
          Returns-bind (import_lines-Returns at staging width columns (at.chunk_lines path) [] 0 o)
            λ n.
              Returns-bind
                (Returns-raise_if {R = λ u s. Inserted o s} _ _ λ s (rows, (d, (h, c))) e.
                  (rows, (d, (ground (arith, nat_beq_iff n expected_rows), h))))
                λ _.
                  Returns-bind (Returns-utcnow at.server {R = λ now s. Inserted o s} λ s now h. h)
                    λ now. Returns-execute at.server _ λ s h. h

  -- When the import of a chunk returns, every line of the chunk was a row of the expected width, there
  -- are as many as the manifest says, and the staging table has them after its rows, once each and in
  -- order, however long the batches are.
  pub import_chunk_complete :
      (run_id : String) (sequence : ℕ) (o : TableObject) (s : Destination)
      → object_named staging s ≡ some o
      → (import_chunk at run_id sequence path expected_rows width staging columns s).0 ≡ ok tt
      → Inserted o (import_chunk at run_id sequence path expected_rows width staging columns s).1
  unfolding import_chunk
  import_chunk_complete run_id sequence o s h e =
      (Returns-catch {R = λ u s'. Inserted o s'} _
          (Returns-in_transaction at.server (λ s' h'. h') (λ u s' h'. h')
            (import_body-Returns run_id sequence o))
          (λ x.
            Returns-bind {R = λ u s'. Unit} (record { returns = λ s' u h' e'. tt })
              λ u. Returns-raise _)).returns
        s tt h e

  marked_failed :
      (run_id : String) (sequence : ℕ) (text : String) (s : Destination) (failure : DbFailure)
      → ((fail_chunk at.server run_id sequence text >> raise {A = Unit} failure) s).1.objects
        ≡ s.objects
  unfolding fail_chunk execute ◌>>=◌
  marked_failed run_id sequence text s failure =
      raised_after (at.server.fate s.steps) _ s failure refl

  after_body :
      (run_id : String) (sequence : ℕ) (r : Result DbFailure Unit × Destination)
      → (caught
          (λ e. true)
          (λ e. fail_chunk at.server run_id sequence (message_of e) >> raise (import_failure e))
          r).1.objects
        ≡ r.1.objects
  after_body run_id sequence (ok u, s) = refl
  after_body run_id sequence (err e, s) =
      marked_failed run_id sequence (message_of e) s (import_failure e)

  -- Whatever fails while a chunk is imported, a line, a statement, the COMMIT or its reply, the tables
  -- are left as they were before the chunk, or as its whole import leaves them.
  pub import_chunk_atomic :
      (run_id : String) (sequence : ℕ) (s : Destination)
      → AllOrNothing
          (import_body at run_id sequence path expected_rows width staging columns)
          s
          (import_chunk at run_id sequence path expected_rows width staging columns s).1
  unfolding import_chunk catch
  import_chunk_atomic run_id sequence s =
      let body = import_body at run_id sequence path expected_rows width staging columns in
      let same = after_body run_id sequence (in_transaction at.server body s) in
      elim (in_transaction_all at.server body s) [
        | inl before ↦ inl (same ∙ before)
        | inr (u, (e, whole)) ↦ inr (u, (e, same ∙ whole))
      ]

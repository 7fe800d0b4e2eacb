-- ===== src/Source/Scanner/Sound.antt =====
-- What a scan that returns has written: `scan_table` of `src/airgap_sync/source/scanner.py`.
use mathlib.Core.Path.{subst, subst₂}
use mathlib.Core.List.{append-nil, append_assoc}
use airgap_sync.Base.{
  All, List, Option, String, [], ap, arith, length, length-append, none, refl, some, suc, sum_of,
  sym, true, ℕ, ◌++◌, ◌+◌, ◌∙◌, ◌∷◌, ◌≡◌,
}
use airgap_sync.Base.Exec.{Result, bind_inv, err, modify, ok, ok_injective, ◌>>=◌, ◌>>◌}
use airgap_sync.Common.Manifest.{ChunkMeta}
use airgap_sync.Common.Verification.{
  Bytes, MultisetDigest, new_digest, summary, update, update_rows,
}
use airgap_sync.Common.Verification.Laws.{update_rows-append, update_rows-closed}
use airgap_sync.Source.ChunkWriter.{
  ChunkConfig, ChunkFile, Disk, Writer, WriterError, Writing, abort, finish, new_writer, write_row,
}
use airgap_sync.Source.ChunkWriter.Kept.{
  IsValidConfig, finish-ok, finish_complete, write_row-IsSound,
}
use airgap_sync.Source.ChunkWriter.Sound.{Describes, Fits, IsSound, contents}
use airgap_sync.Source.Scanner.{
  Scan, ScanError, ScanResult, Scanning, Setting, cancelled, codec_error, on_scan, or_raise,
  raise_any, scan_batches, scan_row, scan_rows, scan_table, stream_failed, writing,
}

-- The lines are the encodings of the rows, one by one and in order.
abbrev pub Encodes : {Row : Type 0} → (Row → Option Bytes) → List Row → List Bytes → Type 0
Encodes encode [] [] = Unit
Encodes encode (row ∷ rows) (line ∷ lines) = (encode row ≡ some line) × Encodes encode rows lines
Encodes encode _ _ = ⊥

abbrev pub all_rows : {Row : Type 0} → List (List Row) → List Row
all_rows [] = []
all_rows (batch ∷ batches) = batch ++ all_rows batches

Encodes-append :
    {Row : Type 0} (encode : Row → Option Bytes) (xs ys : List Row) (ls ms : List Bytes)
    → Encodes encode xs ls
    → Encodes encode ys ms
    → Encodes encode (xs ++ ys) (ls ++ ms)
Encodes-append encode [] ys [] ms h h' = h'
Encodes-append encode (x ∷ xs) ys (l ∷ ls) ms h h' = (h.0, Encodes-append encode xs ys ls ms h.1 h')
Encodes-append encode [] ys (l ∷ ls) ms h h' = absurd h
Encodes-append encode (x ∷ xs) ys [] ms h h' = absurd h

-- What the metadata count is what the files hold.
rows-of_Describes :
    (disk : Disk) (k : ℕ) (metas : List ChunkMeta) (files : List ChunkFile)
    → Describes disk k metas files
    → sum_of (λ m. m.rows) metas ≡ length (contents files)
rows-of_Describes disk k [] [] h = refl
rows-of_Describes disk k (m ∷ ms) (f ∷ fs) h =
    omega
      (arith, h.3, length-append f.lines (contents fs), rows-of_Describes disk (suc k) ms fs h.7)
rows-of_Describes disk k [] (f ∷ fs) h = absurd h
rows-of_Describes disk k (m ∷ ms) [] h = absurd h

writing_inv :
    {A : Type 0} (m : Writing A) (s : Scan) (a : A)
    → (writing m s).0 ≡ ok a
    → ((m s.writer).0 ≡ ok a) × ((writing m s).1 ≡ record s { writer = (m s.writer).1 })
writing_inv {A = A} m s a h = go (m s.writer) h
  where
    go :
        (r : Result WriterError A × Writer)
        → (on_scan s r).0 ≡ ok a
        → (r.0 ≡ ok a) × ((on_scan s r).1 ≡ record s { writer = r.1 })
    go (ok b, w) h' = (ground arith, refl)
    go (err e, w) h' = cc

-- The rest of a scan that returns is reached only where a call before it does not raise.
passed_on :
    {A : Type 0} (failure : String → ScanError) (o : Option String) (rest : Scanning A) (s : Scan)
    (a : A)
    → ((raise_any failure o >> rest) s).0 ≡ ok a
    → (raise_any failure o >> rest) s ≡ rest s
unfolding raise_any
passed_on failure none rest s a h = refl
passed_on failure (some text) rest s a h = cc

same_state :
    (failure : String → ScanError) (o : Option String) (s : Scan) → (raise_any failure o s).1 ≡ s
unfolding raise_any
same_state failure none s = refl
same_state failure (some text) s = refl

module _ {Row : Type 0} (at : Setting Row) (valid : IsValidConfig at.config) where
  -- The writer and the digest after the lines `history`.
  record Scanned (s : Scan) (history : List Bytes) : Type 0 where
    written : IsSound at.disk at.config s.writer history
    counted : s.digest ≡ update_rows at.hashes history new_digest

  written_line : Bytes → Scanning Unit
  written_line line =
      writing (write_row at.disk at.config line)
      >> modify (λ s. record s { digest = update at.hashes line s.digest })

  written_line_sound :
      (line : Bytes) (s : Scan) (history : List Bytes)
      → (written_line line s).0 ≡ ok tt
      → Scanned s history
      → Scanned (written_line line s).1 (history ++ line ∷ [])
  unfolding written_line update_rows
  written_line_sound line s history h v =
      let m = write_row at.disk at.config line in
      let (u, first, whole) = bind_inv (writing m) _ s tt h in
      let (returned, left) = writing_inv m s u first in
      subst (λ r. Scanned r.1 (history ++ line ∷ [])) (sym whole)
        (subst
          (λ s'.
            Scanned (record s' { digest = update at.hashes line s'.digest }) (history ++ line ∷ []))
          (sym left)
          (record {
            written =
                write_row-IsSound at.disk at.config line s.writer history valid v.written returned;
            counted =
                ap (update at.hashes line) v.counted
                ∙ sym (update_rows-append at.hashes history (line ∷ []) new_digest);
          }))

  scan_row_sound :
      (row : Row) (s : Scan) (history : List Bytes)
      → (scan_row at row s).0 ≡ ok tt
      → Scanned s history
      → (line : Bytes) × (at.encode row ≡ some line)
        × Scanned (scan_row at row s).1 (history ++ line ∷ [])
  unfolding scan_row written_line
  scan_row_sound row s history h v = go (at.encode row) h
    where
      go :
          (o : Option Bytes)
          → ((or_raise o codec_error >>= written_line) s).0 ≡ ok tt
          → (line : Bytes) × (o ≡ some line)
            × Scanned ((or_raise o codec_error >>= written_line) s).1 (history ++ line ∷ [])
      go none h' = cc
      go (some line) h' = (line, refl, written_line_sound line s history h' v)

  scan_rows_sound :
      (rows : List Row) (s : Scan) (history : List Bytes)
      → (scan_rows at rows s).0 ≡ ok tt
      → Scanned s history
      → (lines : List Bytes) × Encodes at.encode rows lines
        × Scanned (scan_rows at rows s).1 (history ++ lines)
  unfolding scan_rows
  scan_rows_sound [] s history h v = ([], tt, subst (Scanned s) (sym (append-nil history)) v)
  scan_rows_sound (row ∷ rows) s history h v =
      let (u, first, whole) = bind_inv (scan_row at row) _ s tt h in
      let (line, encoded, v') = scan_row_sound row s history first v in
      let (lines, encodes, v'') =
        scan_rows_sound rows (scan_row at row s).1 (history ++ line ∷ [])
          (ap (λ r. r.0) (sym whole) ∙ h) v' in
      (
        line ∷ lines,
        (encoded, encodes),
        subst₂ (λ r ls. Scanned r.1 ls) (sym whole) (append_assoc history (line ∷ []) lines) v'',
      )

  scan_batches_sound :
      (i : ℕ) (batches : List (List Row)) (s : Scan) (history : List Bytes)
      → (scan_batches at i batches s).0 ≡ ok tt
      → Scanned s history
      → (lines : List Bytes) × Encodes at.encode (all_rows batches) lines
        × Scanned (scan_batches at i batches s).1 (history ++ lines)
  unfolding scan_batches
  scan_batches_sound i [] s history h v = (
    [],
    tt,
    subst₂ Scanned (sym (same_state stream_failed (at.fetch_error i) s)) (sym (append-nil history))
        v,
  )
  scan_batches_sound i (batch ∷ batches) s history h v =
      let fetched = passed_on stream_failed (at.fetch_error i) _ s tt h in
      let checked =
        passed_on cancelled (at.cancel_check i) _ s tt (ap (λ r. r.0) (sym fetched) ∙ h) in
      let passed = fetched ∙ checked in
      let (u, first, whole) =
        bind_inv (scan_rows at batch) (λ _. scan_batches at (i + 1) batches) s tt
          (ap (λ r. r.0) (sym passed) ∙ h) in
      let (lines, encodes, v') = scan_rows_sound batch s history first v in
      let (lines', encodes', v'') =
        scan_batches_sound (i + 1) batches (scan_rows at batch s).1 (history ++ lines)
          (ap (λ r. r.0) (sym (passed ∙ whole)) ∙ h) v' in
      (
        lines ++ lines',
        Encodes-append at.encode batch (all_rows batches) lines lines' encodes encodes',
        subst₂ (λ r ls. Scanned r.1 ls) (sym (passed ∙ whole)) (append_assoc history lines lines')
            v'',
      )

-- The empty writer has written nothing.
new_writer-IsSound : (disk : Disk) (config : ChunkConfig) → IsSound disk config new_writer []
new_writer-IsSound disk config = record { kept = refl; described = tt; fitting = tt; opened = tt }

abort-finished : (w : Writer) → w.finished ≡ true → abort w ≡ w
unfolding abort
abort-finished w h = rw h (ground arith)

-- Where a scan returns, under limits of one at least, the final files hold the encodings of all rows of
-- all batches, in order; the chunk metadata describe these files one by one, numbered from 1; each file
-- without its last line is below both limits; the verification is the digest of exactly these lines;
-- its row count is the sum of the chunks' row counts; and the columns are those of the stream.
pub scan_table_sound :
    {Row : Type 0} (at : Setting Row) (columns : List String) (batches : List (List Row))
    (result : ScanResult)
    → IsValidConfig at.config
    → (scan_table at columns batches).0 ≡ ok result
    → let files = (scan_table at columns batches).1.files in
      Encodes at.encode (all_rows batches) (contents files)
      × Describes at.disk 1 result.chunks files
      × All (λ f. Fits at.config f.lines) files
      × (result.verification ≡ summary (update_rows at.hashes (contents files) new_digest))
      × (sum_of (λ m. m.rows) result.chunks ≡ result.verification.row_count)
      × (result.columns ≡ columns)
unfolding scan_table
scan_table_sound at columns batches result valid h =
    let start : Scan = record { writer = new_writer; digest = new_digest } in
    let streamed = passed_on stream_failed at.stream_error _ start result h in
    let h' = ap (λ r. r.0) (sym streamed) ∙ h in
    let (u, first, whole₀) = bind_inv (scan_batches at 0 batches) _ start result h' in
    let (lines, encodes, v) = scan_batches_sound at valid 0 batches start [] first (record {
      written = new_writer-IsSound at.disk at.config;
      counted = (unfold update_rows in refl);
    }) in
    let s = (scan_batches at 0 batches start).1 in
    let closed =
      passed_on stream_failed at.close_error _ s result (ap (λ r. r.0) (sym whole₀) ∙ h') in
    let whole = streamed ∙ whole₀ ∙ closed in
    let (metas, second, whole') =
      bind_inv (writing (finish at.disk at.config)) _ s result (ap (λ r. r.0) (sym whole) ∙ h) in
    let (returned, left) = writing_inv (finish at.disk at.config) s metas second in
    let w' = (finish at.disk at.config s.writer).1 in
    let made : Scan → ScanResult =
      λ s'. record { columns = columns; chunks = metas; verification = summary s'.digest } in
    let end = whole ∙ whole' ∙ ap (λ s'. (ok (made s'), s')) left in
    let (kept, described, fitting) =
      finish_complete at.disk at.config s.writer lines metas v.written returned in
    let sums = update_rows-closed at.hashes lines new_digest (omega arith) in
    subst₂
      (λ (res : ScanResult) fs.
        Encodes at.encode (all_rows batches) (contents fs)
        × Describes at.disk 1 res.chunks fs
        × All (λ f. Fits at.config f.lines) fs
        × (res.verification ≡ summary (update_rows at.hashes (contents fs) new_digest))
        × (sum_of (λ m. m.rows) res.chunks ≡ res.verification.row_count)
        × (res.columns ≡ columns))
      (ok_injective (ap (λ r. r.0) (sym end) ∙ h))
      (sym (
        ap (λ r. (abort r.1.writer).files) end
        ∙ ap (λ w. w.files)
            (abort-finished w' ((finish-ok at.disk at.config s.writer metas returned).4))))
      (
        subst (Encodes at.encode (all_rows batches)) (sym kept) encodes,
        described,
        fitting,
        ap summary (v.counted ∙ ap (λ ls. update_rows at.hashes ls new_digest) (sym kept)),
        unfold summary in
            omega (
              arith,
              rows-of_Describes at.disk 1 metas w'.files described,
              ap length kept,
              ap (λ (d : MultisetDigest). d.row_count) v.counted,
              sums,
            ),
        refl,
      )

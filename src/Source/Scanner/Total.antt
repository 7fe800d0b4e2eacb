-- ===== src/Source/Scanner/Total.antt =====
-- A scan that nothing interrupts returns: `scan_table` of `src/airgap_sync/source/scanner.py`.
use mathlib.Core.Path.{fun_ext}
use airgap_sync.Base.{List, String, [], arith, false, none, refl, some, true, ℕ, ◌+◌, ◌∷◌, ◌≡◌}
use airgap_sync.Base.Exec.{Result, bind_ok, continue, err, is_ok, modify, ok, ◌>>=◌}
use airgap_sync.Common.Manifest.{ChunkMeta}
use airgap_sync.Common.Verification.{Bytes, new_digest, update}
use airgap_sync.Source.ChunkWriter.{
  ChunkConfig, Disk, Line, Writer, WriterError, Writing, finish, new_writer, write_row,
}
use airgap_sync.Source.Scanner.{
  Scan, Scanning, Setting, on_scan, scan_batches, scan_row, raise_any, scan_rows, scan_table,
  writing,
}

-- The disk and the compressor work, and the callback of a closed chunk returns.
pub record DiskWorks (disk : Disk) : Type 0 where
  pub never_fails : (i : ℕ) → disk.fails i ≡ false
  pub callback_returns : (i : ℕ) (m : ChunkMeta) → disk.on_chunk_closed i m ≡ none

abbrev IsLive : Writer → Type 0
IsLive w = (w.finished ≡ false) × (w.aborted ≡ false)

module _ (disk : Disk) (config : ChunkConfig) (works : DiskWorks disk) where
  never : disk.fails ≡ λ _. false
  never = fun_ext works.never_fails

  silent : disk.on_chunk_closed ≡ λ _ _. none
  silent = fun_ext (λ i. fun_ext (works.callback_returns i))

  write_row-returns :
      (line : Line) (w : Writer)
      → IsLive w
      → ((write_row disk config line w).0 ≡ ok tt) × IsLive (write_row disk config line w).1
  unfolding write_row
  write_row-returns line w h = rw (never, silent, h.0, h.1) (ground arith)

  finish-returns : (w : Writer) → IsLive w → is_ok (finish disk config w).0 ≡ true
  unfolding finish
  finish-returns w h = rw (never, silent, h.0, h.1) (ground arith)

-- Nothing that a scan asks of its surroundings raises.
pub record Undisturbed {Row : Type 0} (at : Setting Row) : Type 0 where
  pub disk_works : DiskWorks at.disk
  pub line_of : Row → Bytes
  pub encodes : (row : Row) → at.encode row ≡ some (line_of row)
  pub not_cancelled : (i : ℕ) → at.cancel_check i ≡ none
  pub stream_opens : at.stream_error ≡ none
  pub stream_fetches : (i : ℕ) → at.fetch_error i ≡ none
  pub stream_closes : at.close_error ≡ none

writing-returns :
    {A B : Type 0} (m : Writing A) (f : A → Scanning B) (s : Scan)
    → is_ok (m s.writer).0 ≡ true
    → ((a : A) (s' : Scan) → is_ok (f a s').0 ≡ true)
    → is_ok ((writing m >>= f) s).0 ≡ true
writing-returns {A} {B} m f s h more = go (m s.writer) h
  where
    go :
        (r : Result WriterError A × Writer)
        → is_ok r.0 ≡ true
        → is_ok (continue f (on_scan s r)).0 ≡ true
    go (ok a, w) h' = more a (record s { writer = w })
    go (err e, w) h' = cc

module _ {Row : Type 0} (at : Setting Row) (quiet : Undisturbed at) where
  scan_row-returns :
      (row : Row) (s : Scan)
      → IsLive s.writer
      → ((scan_row at row s).0 ≡ ok tt) × IsLive (scan_row at row s).1.writer
  unfolding scan_row
  scan_row-returns row s h = rw (quiet.encodes row) (
      go (write_row at.disk at.config (quiet.line_of row) s.writer)
        (write_row-returns at.disk at.config quiet.disk_works (quiet.line_of row) s.writer h))
    where
      go :
          (r : Result WriterError Unit × Writer)
          → (r.0 ≡ ok tt) × IsLive r.1
          → ((continue
                (λ _. modify (λ (s' : Scan). record s' {
                  digest = update at.hashes (quiet.line_of row) s'.digest;
                }))
                (on_scan s r)).0
              ≡ ok tt)
            × IsLive
                (continue
                  (λ _. modify (λ (s' : Scan). record s' {
                    digest = update at.hashes (quiet.line_of row) s'.digest;
                  }))
                  (on_scan s r)).1.writer
      go (ok u, w) h' = (refl, h'.1)
      go (err e, w) h' = cc

  scan_rows-returns :
      (rows : List Row) (s : Scan)
      → IsLive s.writer
      → ((scan_rows at rows s).0 ≡ ok tt) × IsLive (scan_rows at rows s).1.writer
  unfolding scan_rows
  scan_rows-returns [] s h = (refl, h)
  scan_rows-returns (row ∷ rows) s h =
      let first = scan_row-returns row s h in
      rw (bind_ok (scan_row at row) (λ _. scan_rows at rows) s tt first.0)
        (scan_rows-returns rows _ first.1)

  scan_batches-returns :
      (i : ℕ) (batches : List (List Row)) (s : Scan)
      → IsLive s.writer
      → ((scan_batches at i batches s).0 ≡ ok tt) × IsLive (scan_batches at i batches s).1.writer
  unfolding scan_batches raise_any
  scan_batches-returns i [] s h = rw (quiet.stream_fetches i) (refl, h)
  scan_batches-returns i (batch ∷ batches) s h =
      let first = scan_rows-returns batch s h in
      rw
        (
          quiet.stream_fetches i,
          quiet.not_cancelled i,
          bind_ok (scan_rows at batch) (λ _. scan_batches at (i + 1) batches) s tt first.0,
        )
        (scan_batches-returns (i + 1) batches _ first.1)

  -- Where the disk works, the callback of a closed chunk returns, every row can be encoded, nobody
  -- cancels, and opening the stream, every fetch from it and closing it return, `scan_table` returns,
  -- whatever the batches.
  pub scan_table-returns :
      (columns : List String) (batches : List (List Row))
      → is_ok (scan_table at columns batches).0 ≡ true
  unfolding scan_table raise_any
  scan_table-returns columns batches =
      let start : Scan = record { writer = new_writer; digest = new_digest } in
      let first = scan_batches-returns 0 batches start (refl, refl) in
      rw
        (
          quiet.stream_opens,
          bind_ok (scan_batches at 0 batches) _ start tt first.0,
          quiet.stream_closes,
        )
        (writing-returns (finish at.disk at.config) _ (scan_batches at 0 batches start).1
          (finish-returns at.disk at.config quiet.disk_works _ first.1) (λ metas s. refl))

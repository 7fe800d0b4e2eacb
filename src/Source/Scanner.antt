-- ===== src/Source/Scanner.antt =====
-- The scan of one table, `scan_table` of src/airgap_sync/source/scanner.py: every row of every batch is encoded,
-- written and counted into the digest. `encode` stands for `encode_row` (`none`: it raises), and
-- `cancel_check i` for the `cancel_check` before batch i. The stream of the source is a parameter too: its
-- batches, and the errors of opening it, of fetching from it and of closing it.
pub mod Sound
pub mod Total
use airgap_sync.Base.{List, Option, String, [], none, some, ℕ, ◌+◌, ◌∷◌}
use airgap_sync.Base.Exec.{Exec, Result, err, gets, modify, ok, pure, raise, ◌>>=◌, ◌>>◌}
use airgap_sync.Common.Manifest.{ChunkMeta}
use airgap_sync.Common.Verification.{
  Bytes, Hashes, MultisetDigest, VerificationSummary, new_digest, summary, update,
}
use airgap_sync.Source.ChunkWriter.{
  ChunkConfig, Disk, Writer, WriterError, Writing, abort, finish, new_writer, write_row,
}

-- `ScanResult`
pub record ScanResult : Type 0 where
  pub columns : List String
  pub chunks : List ChunkMeta
  pub verification : VerificationSummary

pub record Scan : Type 0 where
  pub writer : Writer
  pub digest : MultisetDigest

pub data ScanError : Type 0 where
  writer_error : WriterError → ScanError
  codec_error : ScanError
  cancelled stream_failed : String → ScanError

abbrev pub Scanning : Type 0 → Type 0
Scanning A = Exec Scan ScanError A

abbrev on_scan : {A : Type 0} → Scan → Result WriterError A × Writer → Result ScanError A × Scan
on_scan s (ok a, w) = (ok a, record s { writer = w })
on_scan s (err e, w) = (err (writer_error e), record s { writer = w })

abbrev writing : {A : Type 0} → Writing A → Scanning A
writing m s = on_scan s (m s.writer)

abbrev or_raise : {A : Type 0} → Option A → ScanError → Scanning A
or_raise none e = raise e
or_raise (some a) e = pure a

-- A call that raises with a text, or returns.
raise_any : (String → ScanError) → Option String → Scanning Unit
raise_any failure none = pure tt
raise_any failure (some text) = raise (failure text)

pub record Setting (Row : Type 0) : Type 0 where
  pub disk : Disk
  pub config : ChunkConfig
  pub hashes : Hashes
  pub encode : Row → Option Bytes
  pub cancel_check : ℕ → Option String
  -- what `stream_table`, the i-th `next(iterator)` and the end of its `with` statement raise
  pub stream_error : Option String
  pub fetch_error : ℕ → Option String
  pub close_error : Option String

module _ {Row : Type 0} (at : Setting Row) where
  scan_row : Row → Scanning Unit
  scan_row row = do
    encoded ← or_raise (at.encode row) codec_error
    writing (write_row at.disk at.config encoded)
    modify (λ s. record s { digest = update at.hashes encoded s.digest })

  scan_rows : List Row → Scanning Unit
  unfolding scan_row
  scan_rows [] = pure tt
  scan_rows (row ∷ rows) = scan_row row >> scan_rows rows

  -- The batches of the stream; `i` numbers the fetches, the last of which finds no batch.
  scan_batches : ℕ → List (List Row) → Scanning Unit
  unfolding scan_rows raise_any
  scan_batches i [] = raise_any stream_failed (at.fetch_error i)
  scan_batches i (batch ∷ batches) =
      raise_any stream_failed (at.fetch_error i)
      >> (raise_any cancelled (at.cancel_check i)
          >> (scan_rows batch >> scan_batches (i + 1) batches))

  -- The body of the `with` statement.
  scan_body : List String → List (List Row) → Scanning ScanResult
  unfolding scan_batches raise_any
  scan_body columns batches = do
    raise_any stream_failed at.stream_error
    scan_batches 0 batches
    raise_any stream_failed at.close_error
    chunks ← writing (finish at.disk at.config)
    digest ← gets (λ s. s.digest)
    pure (record { columns = columns; chunks = chunks; verification = summary digest })

  -- `ChunkWriter.__exit__`
  exit : Result ScanError ScanResult × Scan → Result ScanError ScanResult × Writer
  exit (r, s) = (r, abort s.writer)

  unfoldable pub scan_table : List String → List (List Row) → Result ScanError ScanResult × Writer
  unfolding exit scan_body
  scan_table columns batches =
      exit (scan_body columns batches (record { writer = new_writer; digest = new_digest }))

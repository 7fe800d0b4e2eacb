-- ===== src/Source/ChunkWriter.antt =====
-- The chunk writer, src/airgap_sync/source/chunk_writer.py. A line is the bytes of an encoded row. What the writer
-- asks of the disk and of zstd may fail: `fails i` says whether question number i raises. The size
-- and the SHA-256 of the compressed file are parameters over the lines. The lines of a `.part` file
-- are those of the open chunk; a renamed file is an entry of `files`.
pub mod Sound
pub mod Kept
use airgap_sync.Base.{
  Bool, List, Option, String, [], false, if◌then◌else◌, leb, length, none, some, true, ℕ, ◌++◌, ◌+◌,
  ◌||◌, ◌∷◌,
}
use airgap_sync.Base.Exec.{Exec, err, gets, modify, ok, pure, raise, raise_if, ◌>>=◌, ◌>>◌}
use airgap_sync.Common.Manifest.{ChunkMeta, chunk_filename}

abbrev pub Line : Type 0
Line = List ℕ

pub record ChunkConfig : Type 0 where
  pub max_rows : ℕ
  pub max_uncompressed_bytes : ℕ

pub record OpenChunk : Type 0 where
  pub sequence : ℕ
  pub rows : ℕ
  pub uncompressed_bytes : ℕ
  pub lines : List Line

pub record ChunkFile : Type 0 where
  pub name : String
  pub lines : List Line

pub record Writer : Type 0 where
  pub chunks : List ChunkMeta
  pub current : Option OpenChunk
  pub finished : Bool
  pub aborted : Bool
  pub files : List ChunkFile
  pub asked : ℕ

abbrev pub new_writer : Writer
new_writer = record {
  chunks = [];
  current = none;
  finished = false;
  aborted = false;
  files = [];
  asked = 0;
}

-- `ChunkWriterError` by its message; `os_error` is what `open` raises, and `callback` what
-- `on_chunk_closed` does.
pub data WriterError : Type 0 where
  after_finish after_abort no_open_chunk finish_aborted : WriterError
  cannot_write cannot_finalize : String → WriterError
  os_error : WriterError
  callback : String → WriterError

abbrev pub Writing : Type 0 → Type 0
Writing A = Exec Writer WriterError A

pub record Disk : Type 0 where
  pub fails : ℕ → Bool
  pub compressed_size : List Line → ℕ
  pub file_sha256 : List Line → String
  -- `on_chunk_closed`: `none` returns
  pub on_chunk_closed : ℕ → ChunkMeta → Option String

-- `abort`: the open chunk is dropped, its `.part` file removed; errors of that are only logged.
unfoldable pub abort : Writer → Writer
abort w = if w.aborted || w.finished then w else record w { aborted = true; current = none }

module _ (disk : Disk) (config : ChunkConfig) where
  attempt : WriterError → Writing Unit
  attempt error w =
      (if disk.fails w.asked then err error else ok tt, record w { asked = w.asked + 1 })

  -- `_open_chunk`: the number of closed chunks plus one
  open_chunk : Writing Unit
  unfolding attempt
  open_chunk = do
    attempt os_error
    modify λ w. record w {
      current =
          some (record {
            sequence = length w.chunks + 1;
            rows = 0;
            uncompressed_bytes = 0;
            lines = [];
          });
    }

  -- if self._current is None: self._current = self._open_chunk()
  ensure_open : Option OpenChunk → Writing Unit
  unfolding open_chunk
  ensure_open none = open_chunk
  ensure_open (some c) = pure tt

  -- `_OpenChunk.write_row`: the line is the row and a newline.
  abbrev pub added : Line → OpenChunk → OpenChunk
  added encoded c = record c {
    rows = c.rows + 1;
    uncompressed_bytes = c.uncompressed_bytes + (length encoded + 1);
    lines = c.lines ++ encoded ∷ [];
  }

  write_open : Line → Option OpenChunk → Writing Unit
  unfolding attempt
  write_open encoded none = pure tt
  write_open encoded (some c) = do
    attempt (cannot_write (chunk_filename c.sequence))
    modify (λ w. record w { current = some (added encoded c) })

  abbrev pub meta_of : OpenChunk → ChunkMeta
  meta_of c = record {
    sequence = c.sequence;
    file = chunk_filename c.sequence;
    rows = c.rows;
    uncompressed_bytes = c.uncompressed_bytes;
    compressed_bytes = disk.compressed_size c.lines;
    sha256 = disk.file_sha256 c.lines;
  }

  run_callback : ChunkMeta → Writing Unit
  run_callback meta w = (
    elim (disk.on_chunk_closed w.asked meta) [ none ↦ ok tt | some text ↦ err (callback text) ],
    record w { asked = w.asked + 1 },
  )

  -- `close_current_chunk`: flush and fsync, the rename, the metadata, the callback.
  close_chunk : Option OpenChunk → Writing ChunkMeta
  unfolding attempt run_callback
  close_chunk none = raise no_open_chunk
  close_chunk (some c) = do
    attempt (cannot_finalize (chunk_filename c.sequence))
    attempt (cannot_finalize (chunk_filename c.sequence))
    modify λ w. record w {
      files = w.files ++ record { name = chunk_filename c.sequence; lines = c.lines } ∷ [];
      current = none;
      chunks = w.chunks ++ meta_of c ∷ [];
    }
    run_callback (meta_of c)
    pure (meta_of c)

  unfoldable pub close_current_chunk : Writing ChunkMeta
  unfolding close_chunk
  close_current_chunk w = close_chunk w.current w

  abbrev pub is_full : Option OpenChunk → Bool
  is_full none = false
  is_full (some c) =
      leb config.max_rows c.rows || leb config.max_uncompressed_bytes c.uncompressed_bytes

  close_if : Bool → Writing Unit
  unfolding close_current_chunk
  close_if false = pure tt
  close_if true = do close_current_chunk; pure tt

  unfoldable pub write_row : Line → Writing Unit
  unfolding ensure_open write_open close_if
  write_row encoded = do
    has_finished ← gets (λ w. w.finished)
    raise_if has_finished after_finish
    has_aborted ← gets (λ w. w.aborted)
    raise_if has_aborted after_abort
    before ← gets (λ w. w.current)
    ensure_open before
    opened ← gets (λ w. w.current)
    write_open encoded opened
    full ← gets (λ w. is_full w.current)
    close_if full

  abbrev is_open : Option OpenChunk → Bool
  is_open none = false
  is_open (some c) = true

  unfoldable pub finish : Writing (List ChunkMeta)
  unfolding close_if
  finish = do
    has_aborted ← gets (λ w. w.aborted)
    raise_if has_aborted finish_aborted
    left_open ← gets (λ w. is_open w.current)
    close_if left_open
    modify (λ w. record w { finished = true })
    gets (λ w. w.chunks)

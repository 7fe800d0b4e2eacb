-- ===== src/Source/ChunkWriter/Sound.antt =====
-- The invariant of the chunk writer: nothing is lost, and every chunk is described as it is.
use mathlib.Core.Path.{subst}
use mathlib.Core.List.{append-nil, append_assoc}
use airgap_sync.Base.{
  All, List, Option, [], arith, if◌then◌else◌, length, none, some, suc, sum_of, sum_of-append, sym,
  ℕ, ◌++◌, ◌+◌, ◌<◌, ◌∷◌, ◌≡◌,
}
use airgap_sync.Base.Exec.{ok}
use airgap_sync.Common.Manifest.{ChunkMeta, chunk_filename}
use airgap_sync.Source.ChunkWriter.{
  ChunkConfig, ChunkFile, Disk, Line, OpenChunk, Writer, added, is_full, meta_of, write_row,
}

abbrev pub line_bytes : Line → ℕ
line_bytes line = length line + 1

abbrev pub bytes_of : List Line → ℕ
bytes_of = sum_of line_bytes

abbrev pub contents : List ChunkFile → List Line
contents [] = []
contents (f ∷ fs) = f.lines ++ contents fs

abbrev pub lines_of : Option OpenChunk → List Line
lines_of none = []
lines_of (some c) = c.lines

-- The metadata describe the files one by one, numbered from k.
abbrev pub Describes : Disk → ℕ → List ChunkMeta → List ChunkFile → Type 0
Describes disk k [] [] = Unit
Describes disk k (m ∷ ms) (f ∷ fs) =
    (m.sequence ≡ k)
    × (m.file ≡ chunk_filename k)
    × (f.name ≡ m.file)
    × (m.rows ≡ length f.lines)
    × (m.uncompressed_bytes ≡ bytes_of f.lines)
    × (m.compressed_bytes ≡ disk.compressed_size f.lines)
    × (m.sha256 ≡ disk.file_sha256 f.lines)
    × Describes disk (suc k) ms fs
Describes disk k _ _ = ⊥

-- A chunk has a last line, and without it is below both limits: it was closed no later than the
-- line that reached one, and a line that passes a limit alone has a chunk of its own.
abbrev pub Fits : ChunkConfig → List Line → Type 0
Fits config lines =
    (before : List Line) × (last : Line) × (lines ≡ before ++ last ∷ [])
    × (length before < config.max_rows)
    × (bytes_of before < config.max_uncompressed_bytes)

-- The open chunk has the number k, counts its lines, and is not full.
abbrev pub Counts : ChunkConfig → ℕ → OpenChunk → Type 0
Counts config k c =
    (c.sequence ≡ k)
    × (c.rows ≡ length c.lines)
    × (c.uncompressed_bytes ≡ bytes_of c.lines)
    × (c.rows < config.max_rows)
    × (c.uncompressed_bytes < config.max_uncompressed_bytes)

abbrev pub OpenSound : ChunkConfig → ℕ → Option OpenChunk → Type 0
OpenSound config k none = Unit
OpenSound config k (some c) = Counts config k c × Fits config c.lines

-- What a writer is after the lines `history`.
pub record IsSound (disk : Disk) (config : ChunkConfig) (w : Writer) (history : List Line)
    : Type 0 where
  pub kept : contents w.files ++ lines_of w.current ≡ history
  pub described : Describes disk 1 w.chunks w.files
  pub fitting : All (λ f. Fits config f.lines) w.files
  pub opened : OpenSound config (length w.chunks + 1) w.current

pub Describes-append :
    (disk : Disk) (k : ℕ) (ms : List ChunkMeta) (fs : List ChunkFile) (m : ChunkMeta)
    (f : ChunkFile)
    → Describes disk k ms fs
    → Describes disk (k + length ms) (m ∷ []) (f ∷ [])
    → Describes disk k (ms ++ m ∷ []) (fs ++ f ∷ [])
Describes-append disk k [] [] m f h last =
    subst (λ n. Describes disk n (m ∷ []) (f ∷ [])) (omega arith) last
Describes-append disk k (m' ∷ ms) (f' ∷ fs) m f h last = (
  h.0,
  h.1,
  h.2,
  h.3,
  h.4,
  h.5,
  h.6,
  Describes-append disk (suc k) ms fs m f h.7
      (subst (λ n. Describes disk n (m ∷ []) (f ∷ [])) (omega arith) last),
)
Describes-append disk k [] (f' ∷ fs) m f h last = absurd h
Describes-append disk k (m' ∷ ms) [] m f h last = absurd h

pub contents-append :
    (fs : List ChunkFile) (f : ChunkFile) → contents (fs ++ f ∷ []) ≡ contents fs ++ f.lines
contents-append [] f = append-nil f.lines
contents-append (g ∷ fs) f =
    rw (contents-append fs f) (sym (append_assoc g.lines (contents fs) f.lines))

pub bytes_of-append :
    (ls : List Line) (l : Line) → bytes_of (ls ++ l ∷ []) ≡ bytes_of ls + (length l + 1)
bytes_of-append ls l = omega (arith, sum_of-append line_bytes ls (l ∷ []))

-- Writing one line, with nothing that fails.
abbrev pub next_open : ℕ → Option OpenChunk → OpenChunk
next_open k none = record { sequence = k; rows = 0; uncompressed_bytes = 0; lines = [] }
next_open k (some c) = c

module _ (disk : Disk) (config : ChunkConfig) where
  abbrev pub closed : OpenChunk → Writer → Writer
  closed c w = record w {
    files = w.files ++ record { name = chunk_filename c.sequence; lines = c.lines } ∷ [];
    current = none;
    chunks = w.chunks ++ meta_of disk config c ∷ [];
  }

  abbrev pub stepped : Line → Writer → Writer
  stepped encoded w =
      let c = added disk config encoded (next_open (length w.chunks + 1) w.current) in
      if is_full disk config (some c) then closed c w else record w { current = some c }

  abbrev pub SameOutput : Writer → Writer → Type 0
  SameOutput w w' =
      (w'.chunks ≡ w.chunks)
      × (w'.files ≡ w.files)
      × (w'.current ≡ w.current)
      × (w'.finished ≡ w.finished)
      × (w'.aborted ≡ w.aborted)

  -- What a successful `write_row` leaves.
  pub write_row-ok :
      (encoded : Line) (w : Writer)
      → (write_row disk config encoded w).0 ≡ ok tt
      → SameOutput (stepped encoded w) (write_row disk config encoded w).1
  unfolding write_row
  write_row-ok encoded w h = ground arith

-- ===== src/Source/ChunkWriter/Kept.antt =====
-- `write_row` and `finish` keep the invariant of the chunk writer.
use mathlib.Core.Path.{subst, subst₂, ap₂}
use mathlib.Core.List.{append-nil, append_assoc}
use airgap_sync.Base.{
  All, All-append, Bool-cases, List, Option, [], ap, arith, inl, inr, length, length-append, none,
  refl, some, sym, true, ℕ, ◌++◌, ◌+◌, ◌∙◌, ◌∷◌, ◌≡◌, ◌≤◌,
}
use airgap_sync.Base.Exec.{ok}
use airgap_sync.Common.Manifest.{ChunkMeta, chunk_filename}
use airgap_sync.Source.ChunkWriter.{
  ChunkConfig, Disk, Line, OpenChunk, Writer, added, finish, is_full, meta_of, write_row,
}
use airgap_sync.Source.ChunkWriter.Sound.{
  Counts, Describes, Describes-append, Fits, IsSound, OpenSound, SameOutput, bytes_of,
  bytes_of-append, closed, contents, contents-append, lines_of, next_open, stepped, write_row-ok,
}

pub record IsValidConfig (config : ChunkConfig) : Type 0 where
  pub some_rows : 1 ≤ config.max_rows
  pub some_bytes : 1 ≤ config.max_uncompressed_bytes

abbrev Uncounted : ℕ → OpenChunk → Type 0
Uncounted k c =
    (c.sequence ≡ k) × (c.rows ≡ length c.lines) × (c.uncompressed_bytes ≡ bytes_of c.lines)

module _ (disk : Disk) (config : ChunkConfig) where
  -- Closing a chunk that has the next number and fits.
  pub closed-IsSound :
      (c : OpenChunk) (w : Writer) (history : List Line)
      → contents w.files ++ c.lines ≡ history
      → Describes disk 1 w.chunks w.files
      → All (λ f. Fits config f.lines) w.files
      → Uncounted (length w.chunks + 1) c
      → Fits config c.lines
      → IsSound disk config (closed disk config c w) history
  closed-IsSound c w history kept described fitting counts fits = record {
    kept =
        append-nil (contents (closed disk config c w).files)
        ∙ contents-append w.files (record { name = chunk_filename c.sequence; lines = c.lines })
        ∙ kept;
    described = Describes-append disk 1 w.chunks w.files (meta_of disk config c) _ described (
      counts.0 ∙ omega arith,
      ap chunk_filename (counts.0 ∙ omega arith),
      refl,
      counts.1,
      counts.2,
      refl,
      refl,
      tt,
    );
    fitting = All-append (λ f. Fits config f.lines) w.files _ fitting (fits, tt);
    opened = tt;
  }

  module _ (valid : IsValidConfig config) where
    -- The chunk that takes the next line, before and after it.
    next_open-Counts :
        (k : ℕ) (o : Option OpenChunk) → OpenSound config k o → Counts config k (next_open k o)
    next_open-Counts k none h = (refl, refl, refl, valid.some_rows, valid.some_bytes)
    next_open-Counts k (some c) h = h.0

    next_open-lines : (k : ℕ) (o : Option OpenChunk) → (next_open k o).lines ≡ lines_of o
    next_open-lines k none = refl
    next_open-lines k (some c) = refl

    added-Fits :
        (k : ℕ) (encoded : Line) (c : OpenChunk)
        → Counts config k c
        → Fits config (added disk config encoded c).lines
    added-Fits k encoded c h = (c.lines, encoded, refl, omega (arith, h), omega (arith, h))

    added-Uncounted :
        (k : ℕ) (encoded : Line) (c : OpenChunk)
        → Counts config k c
        → Uncounted k (added disk config encoded c)
    added-Uncounted k encoded c h = (
      h.0,
      omega (arith, h.1, length-append c.lines (encoded ∷ [])),
      omega (arith, h.2, bytes_of-append c.lines encoded),
    )

    pub stepped-IsSound :
        (encoded : Line) (w : Writer) (history : List Line)
        → IsSound disk config w history
        → IsSound disk config (stepped disk config encoded w) (history ++ encoded ∷ [])
    stepped-IsSound encoded w history v = elim (Bool-cases (is_full disk config (some c'))) [
      | inl full ↦ rw full (closed-IsSound c' w _ kept' v.described v.fitting counts fits)
      | inr room ↦ rw room (record {
        kept = kept';
        described = v.described;
        fitting = v.fitting;
        opened = ((counts.0, counts.1, counts.2, ground arith, ground arith), fits);
      })
    ]
      where
        k : ℕ
        k = length w.chunks + 1

        c : OpenChunk
        c = next_open k w.current

        c' : OpenChunk
        c' = added disk config encoded c

        before : Counts config k c
        before = next_open-Counts k w.current v.opened

        counts : Uncounted k c'
        counts = added-Uncounted k encoded c before

        fits : Fits config c'.lines
        fits = added-Fits k encoded c before

        kept' : contents w.files ++ c'.lines ≡ history ++ encoded ∷ []
        kept' =
            ap (λ ls. contents w.files ++ (ls ++ encoded ∷ [])) (next_open-lines k w.current)
            ∙ sym (append_assoc (contents w.files) (lines_of w.current) (encoded ∷ []))
            ∙ ap (λ ls. ls ++ encoded ∷ []) v.kept

  SameOutput-IsSound :
      (w w' : Writer) (history : List Line)
      → SameOutput disk config w w'
      → IsSound disk config w history
      → IsSound disk config w' history
  SameOutput-IsSound w w' history same v = record {
    kept = ap₂ (λ fs o. contents fs ++ lines_of o) same.1 same.2 ∙ v.kept;
    described = subst₂ (λ ms fs. Describes disk 1 ms fs) (sym same.0) (sym same.1) v.described;
    fitting = subst (λ fs. All (λ f. Fits config f.lines) fs) (sym same.1) v.fitting;
    opened = subst₂ (λ ms o. OpenSound config (length ms + 1) o) (sym same.0) (sym same.2) v.opened;
  }

  -- A line that `write_row` accepts, under limits of one at least, keeps the invariant of the writer
  -- with that line behind those before it: the final files and the open chunk hold all lines in order,
  -- the metadata describe the files one by one, every file without its last line is below both limits,
  -- and so is the whole open chunk, whose counters are those of its lines.
  pub write_row-IsSound :
      (encoded : Line) (w : Writer) (history : List Line)
      → IsValidConfig config
      → IsSound disk config w history
      → (write_row disk config encoded w).0 ≡ ok tt
      → IsSound disk config (write_row disk config encoded w).1 (history ++ encoded ∷ [])
  write_row-IsSound encoded w history valid v h =
      SameOutput-IsSound (stepped disk config encoded w) _ _ (write_row-ok disk config encoded w h)
        (stepped-IsSound valid encoded w history v)

  abbrev sealed_at : Option OpenChunk → Writer → Writer
  sealed_at none w = w
  sealed_at (some c) w = closed disk config c w

  abbrev sealed_off : Writer → Writer
  sealed_off w = sealed_at w.current w

  pub finish-ok :
      (w : Writer) (metas : List ChunkMeta)
      → (finish disk config w).0 ≡ ok metas
      → ((finish disk config w).1.chunks ≡ (sealed_off w).chunks)
        × ((finish disk config w).1.files ≡ (sealed_off w).files)
        × ((finish disk config w).1.current ≡ none)
        × ((finish disk config w).1.chunks ≡ metas)
        × ((finish disk config w).1.finished ≡ true)
  unfolding finish
  finish-ok w metas h = ground arith

  sealed_off-IsSound :
      (w : Writer) (history : List Line)
      → IsSound disk config w history
      → IsSound disk config (sealed_off w) history
  sealed_off-IsSound w history v = go w.current v.opened v.kept
    where
      go :
          (o : Option OpenChunk)
          → OpenSound config (length w.chunks + 1) o
          → contents w.files ++ lines_of o ≡ history
          → IsSound disk config (sealed_at o w) history
      go none opened kept = v
      go (some c) opened kept =
          closed-IsSound c w history kept v.described v.fitting (opened.0.0, opened.0.1, opened.0.2)
            opened.1

  contents-sealed_off :
      (w : Writer) → contents (sealed_off w).files ≡ contents w.files ++ lines_of w.current
  contents-sealed_off w = go w.current
    where
      go : (o : Option OpenChunk) → contents (sealed_at o w).files ≡ contents w.files ++ lines_of o
      go none = sym (append-nil (contents w.files))
      go (some c) =
          contents-append w.files (record { name = chunk_filename c.sequence; lines = c.lines })

  -- Where `finish` returns on a writer that is sound after the lines `history`, the final files hold
  -- exactly these lines in order, the returned metadata describe the files one by one, numbered from 1,
  -- and every file without its last line is below both limits.
  pub finish_complete :
      (w : Writer) (history : List Line) (metas : List ChunkMeta)
      → IsSound disk config w history
      → (finish disk config w).0 ≡ ok metas
      → let w' = (finish disk config w).1 in
        (contents w'.files ≡ history)
        × Describes disk 1 metas w'.files
        × All (λ f. Fits config f.lines) w'.files
  finish_complete w history metas v h =
      let e = finish-ok w metas h in
      let v' = sealed_off-IsSound w history v in
      (
        ap contents e.1 ∙ contents-sealed_off w ∙ v.kept,
        subst₂ (λ ms fs. Describes disk 1 ms fs) (sym e.0 ∙ e.3) (sym e.1) v'.described,
        subst (λ fs. All (λ f. Fits config f.lines) fs) (sym e.1) v'.fitting,
      )

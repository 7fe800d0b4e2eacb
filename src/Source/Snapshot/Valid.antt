-- ===== src/Source/Snapshot/Valid.antt =====
-- The manifest of a snapshot is one that the Destination accepts: `_generate` of
-- `src/airgap_sync/source/snapshot.py` and `_validate_manifest` of
-- `src/airgap_sync/destination/incoming.py`.
use mathlib.Core.Path.{subst}
use airgap_sync.Base.{
  Bool, List, Option-cases, String, [], ap, arith, eq_iff, inl, inr, nat_beq_iff, refl, some,
  sum_of, true, ℕ, ◌+◌, ◌∷◌, ◌≡◌, ◌≢◌,
}
use airgap_sync.Base.Exec.{Result, err, ok}
use airgap_sync.Common.Manifest.{ChunkMeta, Manifest, chunk_filename}
use airgap_sync.Destination.Incoming.{check_chunks, validate_manifest}
use airgap_sync.Source.ChunkWriter.{ChunkFile, Disk}
use airgap_sync.Source.ChunkWriter.Kept.{IsValidConfig}
use airgap_sync.Source.ChunkWriter.Sound.{Describes}
use airgap_sync.Source.Scanner.{ScanError, ScanResult, scan_table}
use airgap_sync.Source.Scanner.Sound.{scan_table_sound}
use airgap_sync.Source.Snapshot.{Outbox, SnapshotSetting, generate, manifest_of, row_count_mismatch}

-- Chunks that are described one by one from `k` on pass the check.
check_chunks-of_Describes :
    (disk : Disk) (k : ℕ) (metas : List ChunkMeta) (files : List ChunkFile)
    → Describes disk k metas files
    → check_chunks k metas ≡ ok tt
unfolding check_chunks
check_chunks-of_Describes disk k [] [] h = refl
check_chunks-of_Describes disk k (m ∷ ms) (f ∷ fs) h = ground (
  arith,
  h.0,
  h.1,
  nat_beq_iff m.sequence k,
  eq_iff m.file (chunk_filename k),
  check_chunks-of_Describes disk (k + 1) ms fs
      (subst (λ n. Describes disk n ms fs) (omega arith) h.7),
)
check_chunks-of_Describes disk k [] (f ∷ fs) h = absurd h
check_chunks-of_Describes disk k (m ∷ ms) [] h = absurd h

module _ {Row : Type 0} (at : SnapshotSetting Row) (table : String) where
  generate-ok :
      (o : Outbox) (scan : ScanResult)
      → (generate at table o).0 ≡ ok scan
      → ((scan_table at.scan at.columns at.batches).0 ≡ ok scan)
        × ((ddl : String) × (at.ddl_before ≡ some ddl)
            × ((generate at table o).1 ≡ record {
              schema_file = some (at.schema_file_bytes ddl);
              manifest_file = some (manifest_of at table (at.schema_file_bytes ddl) scan);
            }))
  unfolding generate
  generate-ok o scan h = elim (Option-cases at.ddl_before) [
    | inl lost ↦ absurd (ground arith)
    | inr (ddl, e) ↦ (ground arith, (ddl, e, ground arith))
  ]

-- The written manifest of a snapshot that returns passes `_validate_manifest` under the run's own
-- identifier, where the limits of a chunk are one at least and the text of the creation time can be
-- read back.
pub validate_manifest-generate :
    {Row : Type 0} (at : SnapshotSetting Row) (table : String) (o : Outbox) (scan : ScanResult)
    → (valid_timestamp : String → Bool) → IsValidConfig at.scan.config
    → valid_timestamp at.created_at ≡ true
    → (generate at table o).0 ≡ ok scan
    → (manifest : Manifest) × ((generate at table o).1.manifest_file ≡ some manifest)
      × (validate_manifest valid_timestamp manifest at.run_id ≡ ok tt)
unfolding validate_manifest
validate_manifest-generate at table o scan valid_timestamp valid timely h =
    let (returned, (ddl, e, left)) = generate-ok at table o scan h in
    let m = manifest_of at table (at.schema_file_bytes ddl) scan in
    let sound = scan_table_sound at.scan at.columns at.batches scan valid returned in
    (
      m,
      ap (λ (x : Outbox). x.manifest_file) left,
      ground (
        arith,
        timely,
        sound.4,
        eq_iff at.run_id at.run_id,
        check_chunks-of_Describes at.scan.disk 1 scan.chunks
            (scan_table at.scan at.columns at.batches).1.files sound.1,
      ),
    )

-- With limits of one at least, the check of the row count never fails a snapshot.
pub generate-row_count :
    {Row : Type 0} (at : SnapshotSetting Row) (table : String) (o : Outbox)
    → IsValidConfig at.scan.config
    → (generate at table o).0 ≢ err row_count_mismatch
unfolding generate
generate-row_count at table o valid h = go (scan_table at.scan at.columns at.batches).0 refl
  where
    go : (r : Result ScanError ScanResult) → (scan_table at.scan at.columns at.batches).0 ≡ r → ⊥
    go (ok scan) e = ground (
      arith,
      scan_table_sound at.scan at.columns at.batches scan valid e,
      nat_beq_iff (sum_of (λ c. c.rows) scan.chunks) scan.verification.row_count,
    )
    go (err x) e = ground arith

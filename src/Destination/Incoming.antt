-- ===== src/Destination/Incoming.antt =====
-- `_validate_manifest` and `validate_run` of `src/airgap_sync/destination/incoming.py`. The parsing of a
-- time, of the manifest's file and of a run's identifier, and what the files hold are parameters.
pub mod Validated
use airgap_sync.Base.{
  Bool, List, Option, String, [], false, leb, nat_eq, none, option_eq, some, string_eq, sum_of,
  true, ℕ, ◌&&◌, ◌+◌, ◌==◌, ◌∷◌,
}
use airgap_sync.Base.Exec.{Result, err, ok}
use airgap_sync.Common.Manifest.{
  ChunkMeta, Manifest, chunk_filename, protocol_version, run_type_full_snapshot,
}
use airgap_sync.Common.Transport.{Patterns, transport_filename}
use airgap_sync.Common.Verification.{digest_algorithm}

-- The codes of a `DestinationError`; `RUN_INCOMPLETE` is the one that is not permanent.
pub data Rejection : Type 0 where
  manifest_run_id_mismatch invalid_source_timestamp unsupported_protocol : Rejection
  unsupported_run_type unsupported_verification_algorithm manifest_row_count_mismatch : Rejection
  invalid_schema_filename chunk_sequence_gap chunk_logical_name_mismatch : Rejection
  invalid_run_id invalid_manifest run_incomplete : Rejection
  artifact_size_mismatch artifact_hash_mismatch : Rejection
  -- a `TransportFilenameError` that nothing catches
  uncaught_filename_error : Rejection

abbrev pub permanent : Rejection → Bool
permanent run_incomplete = false
permanent _ = true

abbrev pub Checked : Type 0 → Type 0
Checked A = Result Rejection A

abbrev pub check : Bool → Rejection → Checked Unit
check true e = ok tt
check false e = err e

infixl 10 ◌>>?◌
abbrev pub ◌>>?◌ : {A B : Type 0} → Checked A → Checked B → Checked B
(ok a >>? rest) = rest
(err e >>? rest) = err e

-- for expected, chunk in enumerate(manifest.chunks, 1)
unfoldable pub check_chunks : ℕ → List ChunkMeta → Checked Unit
check_chunks expected [] = ok tt
check_chunks expected (c ∷ cs) =
    let rest = check_chunks (expected + 1) cs in
    check (c.sequence == expected) chunk_sequence_gap
    >>? check (c.file == chunk_filename expected) chunk_logical_name_mismatch
    >>? rest

-- `valid_timestamp` is whether `parse_source_created_at` returns.
unfoldable pub validate_manifest : (String → Bool) → Manifest → String → Checked Unit
unfolding check_chunks
validate_manifest valid_timestamp manifest filename_run_id =
    check (manifest.run_id == filename_run_id) manifest_run_id_mismatch
    >>? check (valid_timestamp manifest.created_at) invalid_source_timestamp
    >>? check (manifest.protocol_version == protocol_version) unsupported_protocol
    >>? check (manifest.run_type == run_type_full_snapshot) unsupported_run_type
    >>? check (manifest.verification.algorithm == digest_algorithm)
        unsupported_verification_algorithm
    >>? check (manifest.row_count == manifest.verification.row_count) manifest_row_count_mismatch
    >>? check (manifest.schema_file.file == "schema.sql") invalid_schema_filename
    >>? check_chunks 1 manifest.chunks
    >>? check (sum_of (λ c. c.rows) manifest.chunks == manifest.row_count)
        manifest_row_count_mismatch

-- What `path.stat()` shows: the size and the time of the last change.
abbrev pub Stat : Type 0
Stat = ℕ × ℕ

-- The incoming directory: the manifest behind a file's name, `stat` before and after the wait (`none`
-- raises), and the hash of a file.
pub record Incoming : Type 0 where
  pub patterns : Patterns
  pub valid_timestamp : String → Bool
  pub read_manifest : String → Option Manifest
  pub stat_before : String → Option Stat
  pub stat_after : String → Option Stat
  pub sha256_of : String → Option String

abbrev pub and_then : {A B : Type 0} → Checked A → (A → Checked B) → Checked B
and_then (ok a) f = f a
and_then (err e) f = err e

abbrev pub some_or : {A : Type 0} → Option A → Rejection → Checked A
some_or none e = err e
some_or (some a) e = ok a

-- `_stat_set`
unfoldable pub stat_set : (String → Option Stat) → List String → Checked (List Stat)
stat_set stat [] = ok []
stat_set stat (p ∷ ps) =
    let rest = stat_set stat ps in
    and_then (some_or (stat p) run_incomplete) λ s. and_then rest λ ss. ok (s ∷ ss)

abbrev pub same_stats : List Stat → List Stat → Bool
same_stats [] [] = true
same_stats ((a, b) ∷ ss) ((c, d) ∷ ts) = a == c && b == d && same_stats ss ts
same_stats _ _ = false

unfoldable pub chunk_paths : Patterns → String → List ChunkMeta → Checked (List String)
unfolding transport_filename
chunk_paths patterns run_id [] = ok []
chunk_paths patterns run_id (c ∷ cs) =
    let rest = chunk_paths patterns run_id cs in
    and_then (some_or (transport_filename patterns run_id c.file) uncaught_filename_error)
      λ p. and_then rest λ ps. ok (p ∷ ps)

module _ (at : Incoming) where
  -- The hash of a file against the declared one.
  check_hash : String → String → Checked Unit
  check_hash path sha256 =
      and_then (some_or (at.sha256_of path) run_incomplete)
        λ h. check (h == sha256) artifact_hash_mismatch

  -- One chunk: its size after the wait, then its hash.
  check_chunk : String → ChunkMeta → Checked Unit
  unfolding check_hash
  check_chunk path c = and_then (some_or (at.stat_after path) run_incomplete) λ s.
      check (leb c.compressed_bytes s.0) run_incomplete
      >>? check (leb s.0 c.compressed_bytes) artifact_size_mismatch
      >>? check_hash path c.sha256

  -- zip(chunk_paths, manifest.chunks, strict=True)
  check_files : List String → List ChunkMeta → Checked Unit
  unfolding check_chunk
  check_files [] [] = ok tt
  check_files (p ∷ ps) (c ∷ cs) = let rest = check_files ps cs in check_chunk p c >>? rest
  check_files _ _ = err uncaught_filename_error

  validated_files : String → Manifest → String → String → List String → Checked Manifest
  unfolding check_files stat_set
  validated_files run_id manifest manifest_path schema_path paths =
      let all_paths = manifest_path ∷ schema_path ∷ paths in
      and_then (stat_set at.stat_before all_paths) λ before.
        and_then (stat_set at.stat_after all_paths) λ later.
          check (same_stats before later) run_incomplete
          >>? check_hash schema_path manifest.schema_file.sha256
          >>? check_files paths manifest.chunks
          >>? ok manifest

  unfoldable pub validate_run : String → Checked Manifest
  unfolding validated_files validate_manifest chunk_paths transport_filename
  validate_run run_id =
      and_then (some_or (transport_filename at.patterns run_id "manifest.json") invalid_run_id)
        λ manifest_path.
          and_then (some_or (at.read_manifest manifest_path) invalid_manifest) λ manifest.
            and_then (validate_manifest at.valid_timestamp manifest run_id) λ _.
              and_then
                (some_or (transport_filename at.patterns run_id manifest.schema_file.file)
                  uncaught_filename_error)
                λ schema_path.
                  and_then (chunk_paths at.patterns run_id manifest.chunks)
                    λ paths. validated_files run_id manifest manifest_path schema_path paths

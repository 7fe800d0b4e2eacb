-- ===== src/Destination/Incoming/Validated.antt =====
-- What a validated run is: `validate_run` of `src/airgap_sync/destination/incoming.py`.
use mathlib.Core.Path.{subst}
use airgap_sync.Base.{
  List, Option, Option-cases, String, [], ap, arith, eq_iff, inl, inr, none, refl, some, ◌∷◌, ◌≡◌,
}
use airgap_sync.Base.Exec.{err, ok, ok_injective}
use airgap_sync.Common.Manifest.{ChunkMeta, Manifest}
use airgap_sync.Common.Transport.{transport_filename}
use airgap_sync.Destination.Incoming.{
  Checked, Incoming, Rejection, Stat, and_then, check_chunk, check_files, check_hash, chunk_paths,
  invalid_manifest, invalid_run_id, some_or, stat_set, uncaught_filename_error, validate_manifest,
  validate_run, validated_files, ◌>>?◌,
}

-- A returned value comes through both parts.
and_then_inv :
    {A B : Type 0} (r : Checked A) (f : A → Checked B) (b : B)
    → and_then r f ≡ ok b
    → (a : A) × (r ≡ ok a) × (f a ≡ ok b)
and_then_inv (ok a) f b h = (a, refl, h)
and_then_inv (err e) f b h = cc

module _ (at : Incoming) where
  -- Each chunk's file has the declared size and hash.
  abbrev pub Matches : List String → List ChunkMeta → Type 0
  Matches [] [] = Unit
  Matches (p ∷ ps) (c ∷ cs) =
      ((s : Stat) × (at.stat_after p ≡ some s) × (s.0 ≡ c.compressed_bytes))
      × (at.sha256_of p ≡ some c.sha256)
      × Matches ps cs
  Matches _ _ = ⊥

  check_hash-ok :
      (path sha256 : String) → check_hash at path sha256 ≡ ok tt → at.sha256_of path ≡ some sha256
  unfolding check_hash
  check_hash-ok path sha256 h = elim (Option-cases (at.sha256_of path)) [
    | inl none_there ↦ absurd (ground arith)
    | inr (found, e) ↦ ground (arith, eq_iff found sha256)
  ]

  check_files-ok :
      (ps : List String) (cs : List ChunkMeta) → check_files at ps cs ≡ ok tt → Matches ps cs
  unfolding check_files check_chunk
  check_files-ok [] [] h = tt
  check_files-ok (p ∷ ps) (c ∷ cs) h = elim (Option-cases (at.stat_after p)) [
    | inl none_there ↦ absurd (ground arith)
    | inr (s, e) ↦ (
      (s, e, ground arith),
      check_hash-ok p c.sha256 (ground arith),
      check_files-ok ps cs (ground arith),
    )
  ]
  check_files-ok [] (c ∷ cs) h = cc
  check_files-ok (p ∷ ps) [] h = cc

  sequel_inv :
      {B : Type 0} (q : Checked Unit) (r : Checked B) (b : B)
      → (q >>? r) ≡ ok b
      → (q ≡ ok tt) × (r ≡ ok b)
  sequel_inv (ok u) r b h = (refl, h)
  sequel_inv (err e) r b h = cc

  some_or_inv :
      {A : Type 0} (o : Option A) (e : Rejection) (a : A) → some_or o e ≡ ok a → o ≡ some a
  some_or_inv none e a h = cc
  some_or_inv (some b) e a h = ap some (ok_injective h)

  validated_files-ok :
      (run_id : String) (manifest : Manifest) (manifest_path schema_path : String)
      (paths : List String) (m : Manifest)
      → validated_files at run_id manifest manifest_path schema_path paths ≡ ok m
      → (manifest ≡ m)
        × (at.sha256_of schema_path ≡ some manifest.schema_file.sha256)
        × Matches paths manifest.chunks
  unfolding validated_files
  validated_files-ok run_id manifest manifest_path schema_path paths m h =
      let (before, b, h1) =
        and_then_inv (stat_set at.stat_before (manifest_path ∷ schema_path ∷ paths)) _ m h in
      let (later, a, h2) =
        and_then_inv (stat_set at.stat_after (manifest_path ∷ schema_path ∷ paths)) _ m h1 in
      let (checks, kept) = sequel_inv _ (ok manifest) m h2 in
      let (hashes, files) = sequel_inv _ (check_files at paths manifest.chunks) tt checks in
      let (stable, schema_ok) =
        sequel_inv _ (check_hash at schema_path manifest.schema_file.sha256) tt hashes in
      (
        ok_injective kept,
        check_hash-ok schema_path manifest.schema_file.sha256 schema_ok,
        check_files-ok paths manifest.chunks files,
      )

  -- Where `validate_run` accepts a run, the manifest behind the run's name passes `_validate_manifest`, the
  -- schema file has the declared hash, and each chunk's file has, after the wait, the declared size and
  -- hash, under the names that the transport gives them.
  pub validate_run-Matches :
      (run_id : String) (m : Manifest)
      → validate_run at run_id ≡ ok m
      → (path : String) × (transport_filename at.patterns run_id "manifest.json" ≡ some path)
        × (at.read_manifest path ≡ some m)
        × (validate_manifest at.valid_timestamp m run_id ≡ ok tt)
        × ((schema_path : String) × (transport_filename at.patterns run_id m.schema_file.file
              ≡ some schema_path)
            × (at.sha256_of schema_path ≡ some m.schema_file.sha256))
        × ((paths : List String) × (chunk_paths at.patterns run_id m.chunks ≡ ok paths)
            × Matches paths m.chunks)
  unfolding validate_run
  validate_run-Matches run_id m h =
      let (path, named, h1) =
        and_then_inv
          (some_or (transport_filename at.patterns run_id "manifest.json") invalid_run_id) _ m h in
      let (manifest, read, h2) =
        and_then_inv (some_or (at.read_manifest path) invalid_manifest) _ m h1 in
      let (u, valid, h3) =
        and_then_inv (validate_manifest at.valid_timestamp manifest run_id) _ m h2 in
      let (schema_path, schema_named, h4) =
        and_then_inv
          (some_or (transport_filename at.patterns run_id manifest.schema_file.file)
            uncaught_filename_error)
          _ m h3 in
      let (paths, chunks_named, h5) =
        and_then_inv (chunk_paths at.patterns run_id manifest.chunks) _ m h4 in
      let (same, schema_ok, chunks_ok) =
        validated_files-ok run_id manifest path schema_path paths m h5 in
      subst
        (λ (x : Manifest).
          (path : String) × (transport_filename at.patterns run_id "manifest.json" ≡ some path)
          × (at.read_manifest path ≡ some x)
          × (validate_manifest at.valid_timestamp x run_id ≡ ok tt)
          × ((schema_path : String) × (transport_filename at.patterns run_id x.schema_file.file
                ≡ some schema_path)
              × (at.sha256_of schema_path ≡ some x.schema_file.sha256))
          × ((paths : List String) × (chunk_paths at.patterns run_id x.chunks ≡ ok paths)
              × Matches paths x.chunks))
        same
        (
          path,
          some_or_inv _ invalid_run_id path named,
          some_or_inv _ invalid_manifest manifest read,
          valid,
          (schema_path, some_or_inv _ uncaught_filename_error schema_path schema_named, schema_ok),
          (paths, chunks_named, chunks_ok),
        )

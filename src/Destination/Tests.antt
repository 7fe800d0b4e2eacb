-- ===== src/Destination/Tests.antt =====
-- A concrete incoming run, `src/airgap_sync/destination/incoming.py`.
use Prim.Native.String.{compare}
use mathlib.Core.Option
use text.Mathlib.Text.{is_lt}
use airgap_sync.Base.{
  Bool, List, Option, String, [], arith, false, nat_eq, not, option_eq, pair_eq, refl, some,
  string_eq, true, ◌++◌, ◌==◌, ◌||◌, ◌∷◌, ◌≡◌,
}
use airgap_sync.Base.Exec.{ok}
use airgap_sync.Base.Rows.{exists_row}
use airgap_sync.Common.Manifest.{ChunkMeta, Manifest, chunk_filename}
use airgap_sync.Common.Transport.{transport_filename}
use airgap_sync.Destination.Ddl.{identifier_at, quote_identifier}
use airgap_sync.Destination.Ddl.RoundTrip.{identifier_at-quote_identifier}
use airgap_sync.Destination.Discovery.{
  Entry, ascending, discover_runs, discover_runs-exists, names_run,
}
use airgap_sync.Destination.Incoming.{Incoming, chunk_paths, validate_manifest, validate_run}
use airgap_sync.Destination.Incoming.Validated.{Matches, validate_run-Matches}

abbrev one_chunk : ChunkMeta
one_chunk = record {
  sequence = 1;
  file = chunk_filename 1;
  rows = 2;
  uncompressed_bytes = 9;
  compressed_bytes = 5;
  sha256 = "aa";
}

abbrev small_manifest : Manifest
small_manifest = record {
  protocol_version = 1;
  run_id = "run-1";
  run_type = "FULL_SNAPSHOT";
  source = record { database = "shop"; table = "orders" };
  schema_file = record { file = "schema.sql"; sha256 = "aa" };
  columns = "id" ∷ [];
  row_count = 2;
  chunks = one_chunk ∷ [];
  verification = record {
    algorithm = "multiset_digest_v1";
    row_count = 2;
    digest_a = "0";
    digest_b = "0";
  };
  created_at = "2026-01-01T00:00:00+00:00";
}

-- Every file has five bytes and the same hash.
abbrev small_incoming : Incoming
small_incoming = record {
  patterns = record { is_run_id = λ t. true; is_logical = λ t. true };
  valid_timestamp = λ t. true;
  read_manifest = λ path. some small_manifest;
  stat_before = λ path. some (5, 100);
  stat_after = λ path. some (5, 100);
  sha256_of = λ path. some "aa";
}

accepted : validate_run small_incoming "run-1" ≡ ok small_manifest
unfolding validate_run chunk_filename
accepted = refl

validate_run-Matches_example :
    (path : String) × (transport_filename small_incoming.patterns "run-1" "manifest.json"
      ≡ some path)
    × (small_incoming.read_manifest path ≡ some small_manifest)
    × (validate_manifest small_incoming.valid_timestamp small_manifest "run-1" ≡ ok tt)
    × ((schema_path : String) × (transport_filename small_incoming.patterns "run-1" "schema.sql"
          ≡ some schema_path)
        × (small_incoming.sha256_of schema_path ≡ some "aa"))
    × ((paths : List String) × (chunk_paths small_incoming.patterns "run-1" (one_chunk ∷ [])
          ≡ ok paths)
        × Matches small_incoming paths (one_chunk ∷ []))
validate_run-Matches_example = validate_run-Matches small_incoming "run-1" small_manifest accepted

abbrev manifest_entry : String → Entry
manifest_entry name = record { name = name; is_file = true }

-- The manifests of two runs, one twice, and a directory with a manifest's name.
abbrev some_entries : List Entry
some_entries =
    manifest_entry "b"
    ∷ manifest_entry "a"
    ∷ manifest_entry "b"
    ∷ record { name = "c"; is_file = false }
    ∷ []

-- The run of a transport name is the name itself.
abbrev named_manifest : String → Option (String × String)
named_manifest name = some (name, "manifest.json")

abbrev stands_before : String → String → Bool
stands_before a b = is_lt (compare a b) || not (is_lt (compare b a))

stands_before-total : (a b : String) → (stands_before a b || stands_before b a || a == b) ≡ true
stands_before-total a b = ground arith

found_runs : discover_runs stands_before named_manifest (some some_entries) ≡ "a" ∷ "b" ∷ []
unfolding discover_runs
found_runs = refl

discover_runs-exists_example :
    ((id : String)
      → exists_row (λ x. x == id) (discover_runs stands_before named_manifest (some some_entries))
        ≡ exists_row (names_run named_manifest id) some_entries)
    × (ascending stands_before (discover_runs stands_before named_manifest (some some_entries))
        ≡ true)
discover_runs-exists_example =
    discover_runs-exists stands_before named_manifest (some some_entries) stands_before-total

-- "a`", which is quoted as "`a```", and " (" after it
identifier_at-quote_identifier_example :
    Option.map
      (λ quoted. identifier_at (λ c. false) (quoted ++ (32 ∷ 40 ∷ [])))
      (quote_identifier (97 ∷ 96 ∷ []))
    ≡ some (some (97 ∷ 96 ∷ [], 32 ∷ 40 ∷ []))
identifier_at-quote_identifier_example =
    identifier_at-quote_identifier (λ c. false) (97 ∷ 96 ∷ []) (32 ∷ 40 ∷ []) refl

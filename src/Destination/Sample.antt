-- ===== src/Destination/Sample.antt =====
-- A server, files and a run for the tests of the processor, src/airgap_sync/destination/processor.py.
use Prim.Native.Char.{Char}
use airgap_sync.Base.{
  String, [], false, length, nat_eq, none, option_eq, some, string_eq, suc, true, zero, ℕ, ◌+◌,
  ◌==◌, ◌∷◌,
}
use airgap_sync.Base.Exec.{ok}
use airgap_sync.Common.Manifest.{ChunkMeta, Manifest, chunk_filename}
use airgap_sync.Common.RowCodec.{Library, array, from_zero, int_value, json_integer, not_json}
use airgap_sync.Common.Verification.{Hashes}
use airgap_sync.Destination.Database.{Destination, RunState, TableObject, base_table}
use airgap_sync.Destination.Database.Statements.{Server, done}
use airgap_sync.Destination.Incoming.{Incoming}
use airgap_sync.Destination.Processor.{ProcessResult, Setting, run_status, staging_table_name}

abbrev pub calm_server : Server
calm_server = record {
  fate = λ i. done;
  clock = λ i. 1000 + i;
  lock_free = λ i name. true;
  has_foreign_key = λ name. false;
  has_generation_expression = true;
  has_trigger = λ name. false;
  created_by = λ ddl. some (record {
    name = ddl;
    kind = base_table;
    engine = "InnoDB";
    columns = record { name = "id"; extra = ""; generation_expression = "" } ∷ [];
    rows = [];
  });
  stored_row = λ columns names values. values;
  selected = λ columns names row. row;
}

-- A line is one number; the row of it is that integer.
abbrev pub number_codec : Library
number_codec = record {
  dumps = λ values. length values ∷ [];
  loads = λ line. elim line [ [] ↦ not_json | n ∷ rest ↦ array (json_integer (from_zero n) ∷ []) ];
  b64encode = λ b. "";
  b64decode = λ t. none;
  read_decimal = λ t. none;
  read_datetime = λ t. none;
  read_date = λ t. none;
  read_time = λ t. none;
  show_timedelta = λ d. "";
  read_timedelta = λ t. none;
}

abbrev pub digest_hashes : Hashes
digest_hashes = record { hash_a = λ b. length b; hash_b = λ b. 2 }

abbrev pub run_chunk : ChunkMeta
run_chunk = record {
  sequence = 1;
  file = chunk_filename 1;
  rows = 2;
  uncompressed_bytes = 9;
  compressed_bytes = 5;
  sha256 = "aa";
}

abbrev pub full_text : Char → ℕ → String
full_text c zero = ""
full_text c (suc n) = String.◌∷◌ c (full_text c n)

abbrev pub run_manifest : Manifest
run_manifest = record {
  protocol_version = 1;
  run_id = "run-1";
  run_type = "FULL_SNAPSHOT";
  source = record { database = "shop"; table = "orders" };
  schema_file = record { file = "schema.sql"; sha256 = "aa" };
  columns = "id" ∷ [];
  row_count = 2;
  chunks = run_chunk ∷ [];
  verification = record {
    algorithm = "multiset_digest_v1";
    row_count = 2;
    digest_a = "0000000000000000000000000000000000000000000000000000000000000002";
    digest_b = "0000000000000000000000000000000000000000000000000000000000000004";
  };
  created_at = "2026-01-01T00:00:00+00:00";
}

abbrev pub run_incoming : Incoming
run_incoming = record {
  patterns = record { is_run_id = λ t. true; is_logical = λ t. true };
  valid_timestamp = λ t. true;
  read_manifest = λ path. some run_manifest;
  stat_before = λ path. some (5, 100);
  stat_after = λ path. some (5, 100);
  sha256_of = λ path. some "aa";
}

abbrev pub on_server : Server → Setting
on_server server = record {
  server = server;
  incoming = λ files. run_incoming;
  chunk_lines = λ path. some (7 ∷ []) ∷ some (8 ∷ []) ∷ [];
  read_schema = λ path. some "CREATE TABLE";
  rewrite = λ ddl source staging. ok staging;
  codec = number_codec;
  hashes = digest_hashes;
  read_time = λ t. 500;
  parse_name = λ name. none;
  says_generated = λ extra. false;
  is_innodb = λ engine. engine == "InnoDB";
  hex_sha256 = λ t. t;
  safe_text = λ t. t;
  insert_batch_rows = 1;
}

abbrev pub calm : Setting
calm = on_server calm_server

abbrev pub live_orders : TableObject
live_orders = record {
  name = "orders";
  kind = base_table;
  engine = "InnoDB";
  columns = record { name = "id"; extra = ""; generation_expression = "" } ∷ [];
  rows = (int_value (from_zero 1) ∷ []) ∷ [];
}

abbrev pub at_first : Destination
at_first = record {
  runs = [];
  chunks = [];
  table_versions = [];
  objects = live_orders ∷ [];
  locks = [];
  supports_generation_expression = none;
  files = [];
  steps = 0;
}

abbrev pub verified_result : ProcessResult
verified_result = record {
  run_id = "run-1";
  status = run_status RunState.verified;
  table = some "orders";
  staging_table = some (staging_table_name calm "run-1");
  rows = 2;
  chunks = 1;
  error = none;
}

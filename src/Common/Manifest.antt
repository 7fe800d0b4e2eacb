-- ===== src/Common/Manifest.antt =====
-- The records of a manifest, src/airgap_sync/common/manifest.py, and the name of a chunk file, `chunk_filename` of
-- src/airgap_sync/source/chunk_writer.py. `created_at` is the text, read by `parse_source_created_at`.
use Prim.Native.Char.{Char}
use Prim.Native.String.{◌++◌ as str_append}
use airgap_sync.Base.{
  List, String, if◌then◌else◌, ltb, nat_eq, option_eq, refl, string_eq, suc, zero, ℕ, ◌%◌, ◌+◌, ◌/◌,
  ◌==◌, ◌^◌, ◌≡◌,
}

pub record ChunkMeta : Type 0 where
  pub sequence : ℕ
  pub file : String
  pub rows : ℕ
  pub uncompressed_bytes : ℕ
  pub compressed_bytes : ℕ
  pub sha256 : String

pub record SchemaFileMeta : Type 0 where
  pub file : String
  pub sha256 : String

pub record SourceMeta : Type 0 where
  pub database : String
  pub table : String

pub record VerificationMeta : Type 0 where
  pub algorithm : String
  pub row_count : ℕ
  pub digest_a : String
  pub digest_b : String

pub record Manifest : Type 0 where
  pub protocol_version : ℕ
  pub run_id : String
  pub run_type : String
  pub source : SourceMeta
  pub schema_file : SchemaFileMeta
  pub columns : List String
  pub row_count : ℕ
  pub chunks : List ChunkMeta
  pub verification : VerificationMeta
  pub created_at : String

abbrev pub protocol_version : ℕ
protocol_version = 1

abbrev pub run_type_full_snapshot : String
run_type_full_snapshot = "FULL_SNAPSHOT"

digit_char : ℕ → Char
digit_char d =
    if d == 0
    then "0"
    else if d == 1
    then "1"
    else if d == 2
    then "2"
    else if d == 3
    then "3"
    else if d == 4
    then "4"
    else if d == 5
    then "5"
    else if d == 6
    then "6"
    else if d == 7
    then "7"
    else if d == 8
    then "8"
    else "9"

-- The last `width` decimal digits of n.
digits_text : ℕ → ℕ → String
unfolding digit_char
digits_text zero n = ""
digits_text (suc width) n = String.◌∷◌ (digit_char (n / 10 ^ width % 10)) (digits_text width n)

-- How many digits n has, six at least; the fuel n is enough, since each step divides by 10.
width_from : ℕ → ℕ → ℕ → ℕ
width_from zero n width = width
width_from (suc fuel) n width =
    let wider = width_from fuel n (width + 1) in if ltb n (10 ^ width) then width else wider

-- f"chunk-{sequence:06d}.jsonl.zst"
unfoldable pub chunk_filename : ℕ → String
unfolding digits_text width_from
chunk_filename sequence =
    str_append "chunk-"
      (str_append (digits_text (width_from sequence sequence 6) sequence) ".jsonl.zst")

chunk_filename_first : chunk_filename 1 ≡ "chunk-000001.jsonl.zst"
unfolding chunk_filename
chunk_filename_first = refl

chunk_filename_long : chunk_filename 1234567 ≡ "chunk-1234567.jsonl.zst"
unfolding chunk_filename
chunk_filename_long = refl

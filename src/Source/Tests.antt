-- ===== src/Source/Tests.antt =====
-- Concrete runs of the Source side, `src/airgap_sync/source/`: the chunk writer, the scan and the
-- state database on small inputs.
use airgap_sync.Base.{
  All, List, [], arith, false, length, none, refl, some, sum_of, true, ◌+◌, ◌∷◌, ◌≡◌,
}
use airgap_sync.Base.Exec.{is_ok, ok}
use airgap_sync.Common.Manifest.{ChunkMeta, chunk_filename}
use airgap_sync.Common.Verification.{Bytes, new_digest, summary, update_rows}
use airgap_sync.Source.ChunkWriter.{ChunkConfig, Disk, Writer, finish, new_writer, write_row}
use airgap_sync.Source.ChunkWriter.Kept.{IsValidConfig, finish_complete, write_row-IsSound}
use airgap_sync.Source.ChunkWriter.Sound.{Describes, Fits, IsSound, contents}
use airgap_sync.Source.Scanner.{ScanResult, Setting, scan_table}
use airgap_sync.Source.Scanner.Sound.{Encodes, all_rows, scan_table_sound}
use airgap_sync.Source.Scanner.Total.{Undisturbed, scan_table-returns}

-- Two rows to a chunk; the size and the name of a file's hash are made up.
abbrev pub small_config : ChunkConfig
small_config = record { max_rows = 2; max_uncompressed_bytes = 100 }

pub small_config-IsValidConfig : IsValidConfig small_config
small_config-IsValidConfig = record { some_rows = omega arith; some_bytes = omega arith }

abbrev small_disk : Disk
small_disk = record {
  fails = λ i. false;
  compressed_size = λ lines. length lines;
  file_sha256 = λ lines. "00";
  on_chunk_closed = λ i m. none;
}

abbrev row_1 : Bytes
row_1 = 1 ∷ 2 ∷ []

abbrev row_2 : Bytes
row_2 = 7 ∷ []

new_writer-IsSound_small : IsSound small_disk small_config new_writer []
new_writer-IsSound_small = record { kept = refl; described = tt; fitting = tt; opened = tt }

abbrev one_line : Writer
one_line = (write_row small_disk small_config row_1 new_writer).1

write_row-IsSound_example : IsSound small_disk small_config one_line (row_1 ∷ [])
write_row-IsSound_example =
    write_row-IsSound small_disk small_config row_1 new_writer [] small_config-IsValidConfig
      new_writer-IsSound_small (unfold write_row in refl)

one_line-IsSound : IsSound small_disk small_config one_line (row_1 ∷ [])
one_line-IsSound =
    write_row-IsSound small_disk small_config row_1 new_writer [] small_config-IsValidConfig
      new_writer-IsSound_small (unfold write_row in refl)

abbrev one_meta : ChunkMeta
one_meta = record {
  sequence = 1;
  file = chunk_filename 1;
  rows = 1;
  uncompressed_bytes = 3;
  compressed_bytes = 1;
  sha256 = "00";
}

finish_complete_example :
    (contents (finish small_disk small_config one_line).1.files ≡ row_1 ∷ [])
    × Describes small_disk 1 (one_meta ∷ []) (finish small_disk small_config one_line).1.files
    × All (λ f. Fits small_config f.lines) (finish small_disk small_config one_line).1.files
finish_complete_example =
    finish_complete small_disk small_config one_line (row_1 ∷ []) (one_meta ∷ []) one_line-IsSound
      (unfold finish write_row in refl)

-- Rows that are their own encoding.
abbrev pub small_setting : Setting Bytes
small_setting = record {
  disk = small_disk;
  config = small_config;
  hashes = record { hash_a = λ row. length row; hash_b = λ row. 1 + length row };
  encode = λ row. some row;
  cancel_check = λ i. none;
  stream_error = none;
  fetch_error = λ i. none;
  close_error = none;
}

small_setting-Undisturbed : Undisturbed small_setting
small_setting-Undisturbed = record {
  disk_works = record { never_fails = λ i. refl; callback_returns = λ i m. refl };
  line_of = λ row. row;
  encodes = λ row. refl;
  not_cancelled = λ i. refl;
  stream_opens = refl;
  stream_fetches = λ i. refl;
  stream_closes = refl;
}

abbrev pub three_rows : List (List Bytes)
three_rows = (row_1 ∷ row_2 ∷ []) ∷ [] ∷ (row_1 ∷ []) ∷ []

scan_table-returns_example : is_ok (scan_table small_setting ("id" ∷ []) three_rows).0 ≡ true
scan_table-returns_example =
    scan_table-returns small_setting small_setting-Undisturbed ("id" ∷ []) three_rows

abbrev first_meta : ChunkMeta
first_meta = record {
  sequence = 1;
  file = chunk_filename 1;
  rows = 2;
  uncompressed_bytes = 5;
  compressed_bytes = 2;
  sha256 = "00";
}

abbrev pub three_rows_result : ScanResult
three_rows_result = record {
  columns = "id" ∷ [];
  chunks = first_meta ∷ record one_meta { sequence = 2; file = chunk_filename 2 } ∷ [];
  verification = summary (record { sum_a = 5; sum_b = 8; row_count = 3 });
}

three_rows_scanned : (scan_table small_setting ("id" ∷ []) three_rows).0 ≡ ok three_rows_result
unfolding scan_table write_row finish airgap_sync.Common.Verification.update
three_rows_scanned = refl

scan_table_sound_example :
    let files = (scan_table small_setting ("id" ∷ []) three_rows).1.files in
    Encodes small_setting.encode (all_rows three_rows) (contents files)
    × Describes small_disk 1 three_rows_result.chunks files
    × All (λ f. Fits small_config f.lines) files
    × (three_rows_result.verification
        ≡ summary (update_rows small_setting.hashes (contents files) new_digest))
    × (sum_of (λ m. m.rows) three_rows_result.chunks ≡ three_rows_result.verification.row_count)
    × (three_rows_result.columns ≡ "id" ∷ [])
scan_table_sound_example =
    scan_table_sound small_setting ("id" ∷ []) three_rows three_rows_result
      small_config-IsValidConfig three_rows_scanned

-- ===== src/Common/Tests.antt =====
-- Concrete runs of the digest of `src/airgap_sync/common/verification.py` and of the row codec.
use mathlib.Core.List.{Permᴰ}
use airgap_sync.Base.{List, [], ap, arith, length, refl, some, sum_of, ◌%◌, ◌*◌, ◌+◌, ◌↔◌, ◌∷◌, ◌≡◌}
use airgap_sync.Base.Exec.{ok, ok_injective}
use airgap_sync.Common.RowCodec.{
  Library, Value, array, bytes_value, decode_row, encode_row, encode_values, from_zero, json_null,
  null_value, tagged, text_payload, timedelta_value,
}
use airgap_sync.Common.RowCodec.RoundTrip.{JsonReads, decode_row-encode_row}
use airgap_sync.Common.Verification.{Bytes, Hashes, modulus, new_digest, summary, update_rows}
use airgap_sync.Common.Verification.Changes.{IsHash, summary_iff, summary_of_change}
use airgap_sync.Common.Verification.Laws.{summary-perm}

-- Two small hashes below the modulus, in place of SHA-256.
abbrev small_hashes : Hashes
small_hashes = record {
  hash_a = λ row. (1 + sum_of (λ b. b * b) row) % modulus;
  hash_b = λ row. (3 + length row) % modulus;
}

abbrev row_a : Bytes
row_a = 1 ∷ 2 ∷ []

abbrev row_b : Bytes
row_b = 7 ∷ []

small_hashes-IsHash : IsHash small_hashes
small_hashes-IsHash = record { bound_a = λ row. omega arith; bound_b = λ row. omega arith }

digest_of_two :
    update_rows small_hashes (row_a ∷ row_b ∷ []) new_digest
    ≡ record { sum_a = 56; sum_b = 9; row_count = 2 }
unfolding update_rows
digest_of_two = refl

summary-perm_example :
    summary (update_rows small_hashes (row_a ∷ row_b ∷ []) new_digest)
    ≡ summary (update_rows small_hashes (row_b ∷ row_a ∷ []) new_digest)
summary-perm_example =
    summary-perm small_hashes (row_a ∷ row_b ∷ []) (row_b ∷ row_a ∷ []) ∣ Permᴰ.swap refl refl ∣₁

summary_iff_example :
    (summary (update_rows small_hashes (row_a ∷ []) new_digest)
      ≡ summary (update_rows small_hashes (row_b ∷ []) new_digest))
    ↔ ((length (row_a ∷ []) ≡ length (row_b ∷ []))
        × (sum_of small_hashes.hash_a (row_a ∷ []) % modulus
            ≡ sum_of small_hashes.hash_a (row_b ∷ []) % modulus)
        × (sum_of small_hashes.hash_b (row_a ∷ []) % modulus
            ≡ sum_of small_hashes.hash_b (row_b ∷ []) % modulus))
summary_iff_example = summary_iff small_hashes (row_a ∷ []) (row_b ∷ [])

summary_of_change_example :
    (summary (update_rows small_hashes (row_b ∷ row_a ∷ row_b ∷ []) new_digest)
      ≡ summary (update_rows small_hashes (row_b ∷ row_b ∷ row_b ∷ []) new_digest))
    ↔ ((small_hashes.hash_a row_a ≡ small_hashes.hash_a row_b)
        × (small_hashes.hash_b row_a ≡ small_hashes.hash_b row_b))
summary_of_change_example =
    summary_of_change small_hashes (row_b ∷ []) (row_b ∷ []) row_a row_b small_hashes-IsHash

-- A library that knows one row.
abbrev small_library : Library
small_library = record {
  dumps = λ js. length js ∷ [];
  loads = λ b. array (
      json_null
      ∷ tagged "$bytes" (text_payload "shown")
      ∷ tagged "$timedelta" (text_payload "time")
      ∷ []);
  b64encode = λ b. "shown";
  b64decode = λ t. some row_a;
  read_decimal = λ t. some t;
  read_datetime = λ t. some t;
  read_date = λ t. some t;
  read_time = λ t. some t;
  show_timedelta = λ d. "time";
  read_timedelta = λ t. some (from_zero 1, 2, 3);
}

abbrev three_values : List Value
three_values = null_value ∷ bytes_value row_a ∷ timedelta_value (from_zero 1, 2, 3) ∷ []

three_values-JsonReads : JsonReads small_library three_values
unfolding encode_values
three_values-JsonReads js e = ap (λ x. array x) (ok_injective e)

decode_row-encode_row_example :
    (b : Bytes) × ((encode_row small_library three_values ≡ ok b)
      × (decode_row small_library b ≡ ok three_values))
decode_row-encode_row_example =
    decode_row-encode_row small_library three_values (tt, (refl, (refl, tt))) three_values-JsonReads

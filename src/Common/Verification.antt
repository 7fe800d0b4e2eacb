-- ===== src/Common/Verification.antt =====
-- The multiset digest of a snapshot, src/airgap_sync/common/verification.py. A row is the list of its bytes. SHA-256
-- under the two domain prefixes is a parameter: `hash_a` and `hash_b` are the numbers that
-- `int.from_bytes(digest, "big")` reads.
pub mod Laws
pub mod Hex
use Prim.Native.Char.{Char}
pub mod Changes
use airgap_sync.Base.{
  List, String, [], if◌then◌else◌, nat_eq, option_eq, string_eq, suc, zero, ℕ, ◌%◌, ◌+◌, ◌/◌, ◌==◌,
  ◌^◌, ◌∷◌,
}

abbrev pub Bytes : Type 0
Bytes = List ℕ

pub record Hashes : Type 0 where
  pub hash_a : Bytes → ℕ
  pub hash_b : Bytes → ℕ

-- 1 << 256
abbrev pub modulus : ℕ
modulus = 2 ^ 256

pub record MultisetDigest : Type 0 where
  pub sum_a : ℕ
  pub sum_b : ℕ
  pub row_count : ℕ

abbrev pub new_digest : MultisetDigest
new_digest = record { sum_a = 0; sum_b = 0; row_count = 0 }

pub record VerificationSummary : Type 0 where
  pub algorithm : String
  pub row_count : ℕ
  pub digest_a : String
  pub digest_b : String

abbrev pub digest_algorithm : String
digest_algorithm = "multiset_digest_v1"

-- One hexadecimal digit, for d < 16.
hex_char : ℕ → Char
hex_char d =
    if d == 0
    then "0"
    else if d == 1
    then "1"
    else if d == 2
    then "2"
    else if d == 3
    then "3"
    else if d == 4
    then "4"
    else if d == 5
    then "5"
    else if d == 6
    then "6"
    else if d == 7
    then "7"
    else if d == 8
    then "8"
    else if d == 9
    then "9"
    else if d == 10
    then "a"
    else if d == 11
    then "b"
    else if d == 12
    then "c"
    else if d == 13
    then "d"
    else if d == 14
    then "e"
    else "f"

-- f"{n:0{width}x}" for n < 16 ^ width
pub hex_text : ℕ → ℕ → String
unfolding hex_char
hex_text zero n = ""
hex_text (suc width) n = String.◌∷◌ (hex_char (n / 16 ^ width % 16)) (hex_text width n)

module _ (h : Hashes) where
  unfoldable pub update : Bytes → MultisetDigest → MultisetDigest
  update row d = record {
    sum_a = (d.sum_a + h.hash_a row) % modulus;
    sum_b = (d.sum_b + h.hash_b row) % modulus;
    row_count = d.row_count + 1;
  }

  unfoldable pub update_rows : List Bytes → MultisetDigest → MultisetDigest
  unfolding update
  update_rows [] d = d
  update_rows (row ∷ rows) d = update_rows rows (update row d)

unfoldable pub summary : MultisetDigest → VerificationSummary
unfolding hex_text
summary d = record {
  algorithm = digest_algorithm;
  row_count = d.row_count;
  digest_a = hex_text 64 d.sum_a;
  digest_b = hex_text 64 d.sum_b;
}

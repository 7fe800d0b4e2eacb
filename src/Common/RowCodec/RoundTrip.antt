-- ===== src/Common/RowCodec/RoundTrip.antt =====
-- What is decoded from an encoded row is the row.
use airgap_sync.Base.{All, List, [], refl, some, ◌∷◌, ◌≡◌}
use airgap_sync.Base.Exec.{ok}
use airgap_sync.Common.RowCodec.{
  Json, Library, Value, array, bool_value, bytes_value, date_value, datetime_value, decimal_value,
  decode_row, decode_value, decode_values, encode_row, encode_value, encode_values, finite,
  float_value, infinity, int_value, minus_infinity, not_a_number, null_value, str_value, time_value,
  timedelta_value, unsupported_value,
}
use airgap_sync.Common.Verification.{Bytes}

-- A value of a supported type that the library reads back from what it shows.
abbrev pub IsShown : Library → Value → Type 0
IsShown lib (decimal_value t) = lib.read_decimal t ≡ some t
IsShown lib (datetime_value t) = lib.read_datetime t ≡ some t
IsShown lib (date_value t) = lib.read_date t ≡ some t
IsShown lib (time_value t) = lib.read_time t ≡ some t
IsShown lib (bytes_value b) = lib.b64decode (lib.b64encode b) ≡ some b
IsShown lib (timedelta_value d) = lib.read_timedelta (lib.show_timedelta d) ≡ some d
IsShown lib unsupported_value = ⊥
IsShown lib _ = Unit

-- `json` reads the array of an encoded row back from what it writes.
abbrev pub JsonReads : Library → List Value → Type 0
JsonReads lib vs =
    (js : List Json) → encode_values lib vs ≡ ok js → lib.loads (lib.dumps js) ≡ array js

module _ (lib : Library) where
  decode_value-encode_value :
      (v : Value)
      → IsShown lib v
      → (j : Json) × (encode_value lib v ≡ ok j) × (decode_value lib j ≡ ok v)
  unfolding encode_value decode_value
  decode_value-encode_value null_value k = (_, refl, refl)
  decode_value-encode_value (bool_value b) k = (_, refl, refl)
  decode_value-encode_value (int_value i) k = (_, refl, refl)
  decode_value-encode_value (str_value t) k = (_, refl, refl)
  decode_value-encode_value (float_value (finite x)) k = (_, refl, refl)
  decode_value-encode_value (float_value infinity) k = (_, refl, refl)
  decode_value-encode_value (float_value minus_infinity) k = (_, refl, refl)
  decode_value-encode_value (float_value not_a_number) k = (_, refl, refl)
  decode_value-encode_value (bytes_value b) k = (_, refl, rw k)
  decode_value-encode_value (decimal_value t) k = (_, refl, (rw k))
  decode_value-encode_value (datetime_value t) k = (_, refl, (rw k))
  decode_value-encode_value (date_value t) k = (_, refl, (rw k))
  decode_value-encode_value (time_value t) k = (_, refl, (rw k))
  decode_value-encode_value (timedelta_value d) k = (_, refl, rw k)
  decode_value-encode_value unsupported_value k = elim k [ ]

  decode_values-encode_values :
      (vs : List Value)
      → All (IsShown lib) vs
      → (js : List Json) × (encode_values lib vs ≡ ok js) × (decode_values lib js ≡ ok vs)
  unfolding encode_values decode_values
  decode_values-encode_values [] k = ([], refl, refl)
  decode_values-encode_values (v ∷ vs) k =
      let (j, e, d) = decode_value-encode_value v k.0 in
      let (js, es, ds) = decode_values-encode_values vs k.1 in (j ∷ js, rw (e, es), rw (d, ds))

  -- A row of values of supported types, which the library reads back from what it shows and `json` from
  -- what it writes, is encoded without an error, and what is decoded from those bytes is the same row.
  pub decode_row-encode_row :
      (vs : List Value)
      → All (IsShown lib) vs
      → JsonReads lib vs
      → (b : Bytes) × ((encode_row lib vs ≡ ok b) × (decode_row lib b ≡ ok vs))
  unfolding encode_row decode_row
  decode_row-encode_row vs k reads =
      let (js, e, d) = decode_values-encode_values vs k in
      (lib.dumps js, (rw e, rw (reads js e, d)))

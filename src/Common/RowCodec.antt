-- ===== src/Common/RowCodec.antt =====
-- `encode_row` and `decode_row`, src/airgap_sync/common/row_codec.py. JSON, Base64 and the text forms of Python's
-- numbers and times are parameters; a value whose type the library defines stands for its text.
pub mod RoundTrip
use airgap_sync.Base.{
  Bool, List, Option, String, [], if◌then◌else◌, nat_eq, none, option_eq, some, string_eq, ℕ, ◌==◌,
  ◌∷◌,
}
use airgap_sync.Base.Exec.{Result, err, ok}
use airgap_sync.Common.Verification.{Bytes}

-- An `int` or an integer component: its magnitude under its sign, as Python shows it.
pub data Integer : Type 0 where
  from_zero : ℕ → Integer
  -- -1 - n
  below_zero : ℕ → Integer

-- A finite float is the text of its `repr`.
pub data Float : Type 0 where
  finite : String → Float
  infinity minus_infinity not_a_number : Float

-- `decimal_value`, `datetime_value`, `date_value`, `time_value` carry `str(value)` or `value.isoformat()`.
pub data Value : Type 0 where
  null_value unsupported_value : Value
  bool_value : Bool → Value
  int_value : Integer → Value
  str_value : String → Value
  float_value : Float → Value
  bytes_value : Bytes → Value
  decimal_value datetime_value date_value time_value : String → Value
  timedelta_value : Integer × ℕ × ℕ → Value

-- The value of an object's key: a text, or `str` of anything else.
pub data Payload : Type 0 where
  text_payload other_payload : String → Payload

-- What `json` writes and reads: `tagged` is an object with exactly one key; `other_object` has none or
-- several keys, `nested_array` is a list inside a row.
pub data Json : Type 0 where
  json_null : Json
  json_bool : Bool → Json
  json_integer : Integer → Json
  json_string : String → Json
  json_number : Float → Json
  tagged : String → Payload → Json
  other_object nested_array : Json

-- `InvalidOperation` of `Decimal` is not caught.
pub data CodecError : Type 0 where
  row_codec_error invalid_operation : CodecError

pub data Loaded : Type 0 where
  not_json not_array : Loaded
  array : List Json → Loaded

pub record Library : Type 0 where
  -- `json.dumps(...).encode("utf-8")` of an array, and `json.loads(data.decode("utf-8"))`
  pub dumps : List Json → Bytes
  pub loads : Bytes → Loaded
  pub b64encode : Bytes → String
  pub b64decode : String → Option Bytes
  -- Decimal(text), datetime.fromisoformat(text), ...: the text of what they read
  pub read_decimal : String → Option String
  pub read_datetime : String → Option String
  pub read_date : String → Option String
  pub read_time : String → Option String
  -- f"{days}:{seconds}:{microseconds}", and its split at ":" with `int` of the three parts
  pub show_timedelta : Integer × ℕ × ℕ → String
  pub read_timedelta : String → Option (Integer × ℕ × ℕ)

abbrev payload_text : Payload → String
payload_text (text_payload t) = t
payload_text (other_payload t) = t

abbrev or_error : {A B : Type 0} → CodecError → (A → B) → Option A → Result CodecError B
or_error e f none = err e
or_error e f (some a) = ok (f a)

abbrev pub and_next :
    {A B : Type 0}
    → (A → List B → List B)
    → Result CodecError A
    → Result CodecError (List B)
    → Result CodecError (List B)
and_next join (err e) rest = err e
and_next join (ok a) (err e) = err e
and_next join (ok a) (ok rest) = ok (join a rest)

decode_float : Payload → Result CodecError Value
decode_float (other_payload t) = err row_codec_error
decode_float (text_payload t) =
    if t == "inf"
    then ok (float_value infinity)
    else if t == "-inf"
    then ok (float_value minus_infinity)
    else if t == "nan"
    then ok (float_value not_a_number)
    else err row_codec_error

module _ (lib : Library) where
  unfoldable pub encode_value : Value → Result CodecError Json
  encode_value null_value = ok json_null
  encode_value (bool_value b) = ok (json_bool b)
  encode_value (int_value i) = ok (json_integer i)
  encode_value (str_value t) = ok (json_string t)
  encode_value (float_value (finite x)) = ok (json_number (finite x))
  encode_value (float_value infinity) = ok (tagged "$float" (text_payload "inf"))
  encode_value (float_value minus_infinity) = ok (tagged "$float" (text_payload "-inf"))
  encode_value (float_value not_a_number) = ok (tagged "$float" (text_payload "nan"))
  encode_value (bytes_value b) = ok (tagged "$bytes" (text_payload (lib.b64encode b)))
  encode_value (decimal_value t) = ok (tagged "$decimal" (text_payload t))
  encode_value (datetime_value t) = ok (tagged "$datetime" (text_payload t))
  encode_value (date_value t) = ok (tagged "$date" (text_payload t))
  encode_value (time_value t) = ok (tagged "$time" (text_payload t))
  encode_value (timedelta_value d) = ok (tagged "$timedelta" (text_payload (lib.show_timedelta d)))
  encode_value unsupported_value = err row_codec_error

  decode_tagged : String → Payload → Result CodecError Value
  unfolding decode_float
  decode_tagged tag raw =
      let t = payload_text raw in
      if tag == "$bytes"
      then or_error row_codec_error bytes_value (lib.b64decode t)
      else if tag == "$decimal"
      then or_error invalid_operation decimal_value (lib.read_decimal t)
      else if tag == "$float"
      then decode_float raw
      else if tag == "$datetime"
      then or_error row_codec_error datetime_value (lib.read_datetime t)
      else if tag == "$date"
      then or_error row_codec_error date_value (lib.read_date t)
      else if tag == "$time"
      then or_error row_codec_error time_value (lib.read_time t)
      else if tag == "$timedelta"
      then or_error row_codec_error timedelta_value (lib.read_timedelta t)
      else err row_codec_error

  unfoldable pub decode_value : Json → Result CodecError Value
  unfolding decode_tagged
  decode_value json_null = ok null_value
  decode_value (json_bool b) = ok (bool_value b)
  decode_value (json_integer i) = ok (int_value i)
  decode_value (json_string t) = ok (str_value t)
  decode_value (json_number x) = ok (float_value x)
  decode_value (tagged tag raw) = decode_tagged tag raw
  decode_value other_object = err row_codec_error
  decode_value nested_array = ok unsupported_value

  unfoldable pub encode_values : List Value → Result CodecError (List Json)
  unfolding encode_value
  encode_values [] = ok []
  encode_values (v ∷ vs) = and_next ◌∷◌ (encode_value v) (encode_values vs)

  unfoldable pub decode_values : List Json → Result CodecError (List Value)
  unfolding decode_value
  decode_values [] = ok []
  decode_values (j ∷ js) = and_next ◌∷◌ (decode_value j) (decode_values js)

  abbrev dump : Result CodecError (List Json) → Result CodecError Bytes
  dump (ok js) = ok (lib.dumps js)
  dump (err e) = err e

  unfoldable pub encode_row : List Value → Result CodecError Bytes
  unfolding encode_values
  encode_row values = dump (encode_values values)

  decode_loaded : Loaded → Result CodecError (List Value)
  unfolding decode_values
  decode_loaded not_json = err row_codec_error
  decode_loaded not_array = err row_codec_error
  decode_loaded (array js) = decode_values js

  unfoldable pub decode_row : Bytes → Result CodecError (List Value)
  unfolding decode_loaded
  decode_row encoded = decode_loaded (lib.loads encoded)

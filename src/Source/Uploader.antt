-- ===== src/Source/Uploader.antt =====
-- `RelayUploader.upload` of `src/airgap_sync/source/uploader.py`: one PUT after the other, with a wait
-- between two of them, until a reply decides. What the relay replies to attempt n, and the functions
-- of Python's `str`, are parameters; seconds are whole numbers.
pub mod Confirmed
pub mod Health
pub mod Bounded
use airgap_sync.Base.{
  Bool, List, Option, String, [], false, if◌then◌else◌, leb, ltb, min, nat_eq, none, not, option_eq,
  some, string_eq, suc, zero, ℕ, ◌&&◌, ◌*◌, ◌++◌, ◌+◌, ◌-◌, ◌==◌, ◌^◌, ◌||◌, ◌∷◌,
}
use airgap_sync.Base.Exec.{Exec, ok, pure, raise, raise_if, ◌>>◌}

-- A value of the JSON object: `type(...) is int` holds of `int` only; `other` is every value that is
-- neither a text, nor `True` or `False`, nor an int from zero on, and a missing one.
pub data JsonValue : Type 0 where
  json_bool : Bool → JsonValue
  json_int : ℕ → JsonValue
  json_text : String → JsonValue
  json_other : JsonValue

-- What `response.json()` does: it raises, or returns something that is a `dict` or not.
pub data Payload : Type 0 where
  invalid_json : Payload
  not_dict : Payload
  dict : (String → JsonValue) → Payload

-- One PUT: `requests.RequestException` by its name, or a response.
pub data Reply : Type 0 where
  request_exception : String → Reply
  response : ℕ → Payload → Reply

pub data ErrorCode : Type 0 where
  response_mismatch file_exists_ambiguous retry_exhausted http_error relay_health_failed : ErrorCode

-- The message of an error: a fixed text, the name of an exception, or f"HTTP {status}".
pub data Reason : Type 0 where
  because : String → Reason
  http_status : ℕ → Reason

pub record UploadError : Type 0 where
  pub code : ErrorCode
  pub message : Reason
  pub attempts : ℕ
  pub request_id : Option String

-- What `upload` raises: also what `on_attempt` and the opening of the file raise.
pub data UploadFailure : Type 0 where
  upload_error : UploadError → UploadFailure
  attempt_callback_failed : String → UploadFailure
  file_unreadable : UploadFailure
  unreachable : UploadFailure

pub record UploadConfirmation : Type 0 where
  pub filename : String
  pub size : ℕ
  pub sha256 : String
  pub request_id : String
  pub attempts : ℕ

-- What an upload does to the world, in order.
pub data UploadEvent : Type 0 where
  told : ℕ → UploadEvent
  sent : ℕ → UploadEvent
  slept : ℕ → UploadEvent

pub record RelayConfig : Type 0 where
  pub max_attempts : ℕ
  pub retry_base_seconds : ℕ
  pub retry_max_seconds : ℕ

-- The relay, the callback, the file, and `str.lower`, `not s.strip()` and `s[:200]`.
pub record Relay : Type 0 where
  pub reply : ℕ → Reply
  pub on_attempt : ℕ → Option String
  pub opens : ℕ → Bool
  pub lower : String → String
  pub is_blank : String → Bool
  pub first_200 : String → String

abbrev pub Uploading : Type 0 → Type 0
Uploading A = Exec (List UploadEvent) UploadFailure A

abbrev pub event : UploadEvent → Uploading Unit
event e es = (ok tt, es ++ e ∷ [])

-- `_is_retryable`
abbrev pub is_retryable : ℕ → Bool
is_retryable status =
    (status == 429 || status == 500 || status == 507) || (leb 500 status && leb status 599)

module _ (relay : Relay) where
  -- `_safe_request_id`
  abbrev safe_text : JsonValue → Option String
  safe_text (json_text t) = if relay.is_blank t then none else some (relay.first_200 t)
  safe_text _ = none

  abbrev safe_request_id : Payload → Option String
  safe_request_id (dict get) = safe_text (get "request_id")
  safe_request_id _ = none

  -- `isinstance(request_id, str)`, and the tests of the fields
  abbrev as_text : JsonValue → Option String
  as_text (json_text t) = some t
  as_text _ = none

  abbrev is_true : JsonValue → Bool
  is_true (json_bool b) = b
  is_true _ = false

  abbrev is_size : ℕ → JsonValue → Bool
  is_size size (json_int n) = n == size
  is_size size _ = false

  abbrev is_name : String → JsonValue → Bool
  is_name filename (json_text t) = t == filename
  is_name filename _ = false

  abbrev is_hash : String → JsonValue → Bool
  is_hash sha256 (json_text t) = relay.lower t == relay.lower sha256
  is_hash sha256 _ = false

  abbrev is_id : JsonValue → Bool
  is_id (json_text t) = not (relay.is_blank t)
  is_id _ = false

  abbrev pub matches : (String → JsonValue) → String → ℕ → String → Bool
  matches get filename size sha256 =
      is_true (get "success")
      && is_name filename (get "filename")
      && is_size size (get "size")
      && is_hash sha256 (get "sha256")
      && is_id (get "request_id")

  abbrev mismatch : String → ℕ → Option String → UploadFailure
  mismatch message attempt request_id = upload_error (record {
    code = response_mismatch;
    message = because message;
    attempts = attempt;
    request_id = request_id;
  })

  -- `request_id` is a text where all fields match.
  abbrev confirmed : String → ℕ → String → ℕ → Option String → Uploading UploadConfirmation
  confirmed filename size sha256 attempt none = raise unreachable
  confirmed filename size sha256 attempt (some id) = pure (record {
    filename = filename;
    size = size;
    sha256 = relay.lower sha256;
    request_id = id;
    attempts = attempt;
  })

  unfoldable pub validate_confirmation :
      Payload → String → ℕ → String → ℕ → Uploading UploadConfirmation
  validate_confirmation invalid_json filename size sha256 attempt =
      raise (mismatch "HTTP 201 response is not valid JSON" attempt none)
  validate_confirmation not_dict filename size sha256 attempt =
      raise (mismatch "HTTP 201 confirmation fields do not match local artifact" attempt none)
  validate_confirmation (dict get) filename size sha256 attempt =
      if matches get filename size sha256
      then confirmed filename size sha256 attempt (as_text (get "request_id"))
      else raise (
          mismatch "HTTP 201 confirmation fields do not match local artifact" attempt
            (as_text (get "request_id")))

module _ (config : RelayConfig) (relay : Relay) where
  -- `_backoff`
  abbrev pub delay : ℕ → ℕ
  delay attempt = min (config.retry_base_seconds * 2 ^ (attempt - 1)) config.retry_max_seconds

  -- A reply that may be tried again: the next attempt, or the end where it was the last one.
  unfoldable pub retry :
      ℕ → Reason → Option String → Uploading UploadConfirmation → Uploading UploadConfirmation
  retry attempt reason request_id rest =
      if ltb attempt config.max_attempts
      then event (slept (delay attempt)) >> rest
      else raise (
          upload_error (record {
            code = retry_exhausted;
            message = reason;
            attempts = attempt;
            request_id = request_id;
          }))

  handle_response :
      String
      → ℕ
      → String
      → ℕ
      → Uploading UploadConfirmation
      → ℕ
      → Payload
      → Uploading UploadConfirmation
  unfolding validate_confirmation retry
  handle_response filename size sha256 attempt rest status body =
      if status == 201
      then validate_confirmation relay body filename size sha256 attempt
      else if status == 409
      then raise (
          upload_error (record {
            code = file_exists_ambiguous;
            message = because "HTTP 409; existing remote file cannot be verified";
            attempts = attempt;
            request_id = safe_request_id relay body;
          }))
      else if is_retryable status
      then retry attempt (http_status status) (safe_request_id relay body) rest
      else raise (
          upload_error (record {
            code = http_error;
            message = http_status status;
            attempts = attempt;
            request_id = safe_request_id relay body;
          }))

  handle :
      String → ℕ → String → ℕ → Uploading UploadConfirmation → Reply → Uploading UploadConfirmation
  unfolding handle_response
  handle filename size sha256 attempt rest (request_exception name) =
      retry attempt (because name) none rest
  handle filename size sha256 attempt rest (response status body) =
      handle_response filename size sha256 attempt rest status body

  notify : ℕ → Option String → Uploading Unit
  notify attempt none = event (told attempt)
  notify attempt (some text) = raise (attempt_callback_failed text)

  -- for attempt in range(1, max_attempts + 1): `left` attempts remain.
  attempts_from : ℕ → String → ℕ → String → ℕ → Uploading UploadConfirmation
  unfolding handle notify
  attempts_from zero filename size sha256 attempt = raise unreachable
  attempts_from (suc left) filename size sha256 attempt =
      let rest = attempts_from left filename size sha256 (attempt + 1) in
      notify attempt (relay.on_attempt attempt)
      >> (raise_if (not (relay.opens attempt)) file_unreadable
          >> (event (sent attempt)
              >> handle filename size sha256 attempt rest (relay.reply attempt)))

  -- `size` is `path.stat().st_size`, where that does not raise.
  unfoldable pub upload : Option ℕ → String → String → Uploading UploadConfirmation
  unfolding attempts_from
  upload none filename sha256 = raise file_unreadable
  upload (some size) filename sha256 = attempts_from config.max_attempts filename size sha256 1

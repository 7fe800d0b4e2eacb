-- ===== src/Source/Uploader/Confirmed.antt =====
-- What a confirmed upload shows: `RelayUploader.upload` of `src/airgap_sync/source/uploader.py`.
use mathlib.Core.Path.{subst}
use airgap_sync.Base.{
  Bool, Bool-cases, List, Option, String, [], ap, arith, false, if◌then◌else◌, inl, inr, ltb,
  nat_beq_iff, nat_eq, none, not, option_eq, refl, some, string_eq, suc, sym, true, zero, ℕ, ◌++◌,
  ◌+◌, ◌<◌, ◌==◌, ◌∙◌, ◌∷◌, ◌≡◌, ◌≤◌,
}
use airgap_sync.Base.Exec.{bind_inv, ok, ok_injective, raise, raise_if}
use airgap_sync.Source.Uploader.{
  JsonValue, Payload, Reason, Relay, RelayConfig, Reply, UploadConfirmation, UploadEvent, Uploading,
  as_text, attempts_from, because, confirmed, delay, dict, file_unreadable, handle, handle_response,
  http_status, invalid_json, is_retryable, json_bool, json_int, json_other, json_text, matches,
  mismatch, not_dict, notify, request_exception, response, retry, safe_request_id, sent, slept,
  upload, validate_confirmation,
}

-- The reply to the attempt is a 201 whose fields all match, and the confirmation repeats them.
abbrev pub Confirms : Relay → String → ℕ → String → UploadConfirmation → Type 0
Confirms relay filename size sha256 c =
    (get : String → JsonValue) × (relay.reply c.attempts ≡ response 201 (dict get))
    × (matches relay get filename size sha256 ≡ true)
    × (get "request_id" ≡ json_text c.request_id)
    × (c.filename ≡ filename)
    × (c.size ≡ size)
    × (c.sha256 ≡ relay.lower sha256)

module _ (relay : Relay) (filename : String) (size : ℕ) (sha256 : String) where
  confirmed-ok :
      (attempt : ℕ) (get : String → JsonValue) (es : List UploadEvent) (c : UploadConfirmation)
      → relay.reply attempt ≡ response 201 (dict get)
      → matches relay get filename size sha256 ≡ true
      → (confirmed relay filename size sha256 attempt (as_text relay (get "request_id")) es).0
        ≡ ok c
      → (c.attempts ≡ attempt) × Confirms relay filename size sha256 c
  confirmed-ok attempt get es c e fits h = go (get "request_id") refl h
    where
      go :
          (v : JsonValue)
          → get "request_id" ≡ v
          → (confirmed relay filename size sha256 attempt (as_text relay v) es).0 ≡ ok c
          → (c.attempts ≡ attempt) × Confirms relay filename size sha256 c
      go (json_text id) same h' =
          subst
            (λ (x : UploadConfirmation).
              (x.attempts ≡ attempt) × Confirms relay filename size sha256 x)
            (ok_injective h') (refl, (get, e, fits, same, refl, refl, refl))
      go (json_bool b) same h' = cc
      go (json_int n) same h' = cc
      go json_other same h' = cc

  validate_confirmation-ok :
      (attempt : ℕ) (body : Payload) (es : List UploadEvent) (c : UploadConfirmation)
      → relay.reply attempt ≡ response 201 body
      → (validate_confirmation relay body filename size sha256 attempt es).0 ≡ ok c
      → (c.attempts ≡ attempt) × Confirms relay filename size sha256 c
  unfolding validate_confirmation
  validate_confirmation-ok attempt invalid_json es c e h = cc
  validate_confirmation-ok attempt not_dict es c e h = cc
  validate_confirmation-ok attempt (dict get) es c e h =
      go (matches relay get filename size sha256) refl h
    where
      id : Option String
      id = as_text relay (get "request_id")

      go :
          (fits : Bool)
          → matches relay get filename size sha256 ≡ fits
          → ((if fits
                then confirmed relay filename size sha256 attempt id
                else raise (
                    mismatch relay "HTTP 201 confirmation fields do not match local artifact"
                      attempt id))
              es).0
            ≡ ok c
          → (c.attempts ≡ attempt) × Confirms relay filename size sha256 c
      go true same h' = confirmed-ok attempt get es c e same h'
      go false same h' = cc

module _ (config : RelayConfig) (relay : Relay) (filename : String) (size : ℕ)
    (sha256 : String) where
  -- A confirmed attempt no earlier than `attempt` and before `last`.
  abbrev ConfirmedFrom : ℕ → ℕ → UploadConfirmation → Type 0
  ConfirmedFrom attempt last c =
      (attempt ≤ c.attempts) × (c.attempts < last) × Confirms relay filename size sha256 c

  module _ (attempt last : ℕ) (c : UploadConfirmation) (more : attempt < last)
      (rest : Uploading UploadConfirmation)
      (rest-ok : (es : List UploadEvent)
        → (rest es).0 ≡ ok c
        → ConfirmedFrom (attempt + 1) last c) where
    later : ConfirmedFrom (attempt + 1) last c → ConfirmedFrom attempt last c
    later h = (omega (arith, h.0), h.1, h.2)

    settled :
        (c.attempts ≡ attempt) × Confirms relay filename size sha256 c
        → ConfirmedFrom attempt last c
    settled h = (omega (arith, h.0), omega (arith, h.0, more), h.1)

    retry-ok :
        (reason : Reason) (id : Option String) (es : List UploadEvent)
        → (retry config relay attempt reason id rest es).0 ≡ ok c
        → ConfirmedFrom attempt last c
    unfolding retry
    retry-ok reason id es h = elim (Bool-cases (ltb attempt config.max_attempts)) [
      | inl again ↦ later (rest-ok (es ++ slept (delay config relay attempt) ∷ []) (ground arith))
      | inr end ↦ absurd (ground arith)
    ]

    handle-ok :
        (reply : Reply) (es : List UploadEvent)
        → relay.reply attempt ≡ reply
        → (handle config relay filename size sha256 attempt rest reply es).0 ≡ ok c
        → ConfirmedFrom attempt last c
    unfolding handle handle_response
    handle-ok (request_exception name) es e h = retry-ok (because name) none es h
    handle-ok (response status body) es e h = elim (Bool-cases (status == 201)) [
      | inl yes_201 ↦ settled (
          validate_confirmation-ok relay filename size sha256 attempt body es c
            (e ∙ ap (λ s. response s body) ((nat_beq_iff status 201).0 yes_201)) (ground arith))
      | inr not_201 ↦ elim (Bool-cases (status == 409)) [
        | inl yes_409 ↦ absurd (ground arith)
        | inr not_409 ↦ elim (Bool-cases (is_retryable status)) [
          | inl again ↦ retry-ok (http_status status) (safe_request_id relay body) es (ground arith)
          | inr end ↦ absurd (ground arith)
        ]
      ]
    ]

  attempts_from-ok :
      (left attempt : ℕ) (es : List UploadEvent) (c : UploadConfirmation)
      → (attempts_from config relay left filename size sha256 attempt es).0 ≡ ok c
      → ConfirmedFrom attempt (attempt + left) c
  unfolding attempts_from notify
  attempts_from-ok zero attempt es c h = cc
  attempts_from-ok (suc left) attempt es c h =
      let (u, first, whole) =
        bind_inv (notify config relay attempt (relay.on_attempt attempt)) _ es c h in
      let es' = (notify config relay attempt (relay.on_attempt attempt) es).1 in
      let (u', second, whole') =
        bind_inv (raise_if (not (relay.opens attempt)) file_unreadable) _ es' c
          (ap (λ r. r.0) (sym whole) ∙ h) in
      handle-ok attempt (attempt + suc left) c (omega arith)
        (attempts_from config relay left filename size sha256 (attempt + 1))
        (λ es'' h''.
          subst (λ n. ConfirmedFrom (attempt + 1) n c) (omega arith)
            (attempts_from-ok left (attempt + 1) es'' c h''))
        (relay.reply attempt) (es' ++ sent attempt ∷ []) refl
        (ap (λ r. r.0) (sym (whole ∙ whole')) ∙ h)

-- Where `upload` returns, the relay answered the attempt that the confirmation names with HTTP 201 and
-- a JSON object whose fields all match: `success` is true, and the file's name, its size and its
-- hash, in lower case, are those of the file; the confirmation holds these and the request's
-- identifier; and the attempt is one of 1 to `max_attempts`.
pub upload-confirmed :
    (config : RelayConfig) (relay : Relay) (size : Option ℕ) (filename sha256 : String)
    (c : UploadConfirmation)
    → (upload config relay size filename sha256 []).0 ≡ ok c
    → (size ≡ some c.size)
      × (1 ≤ c.attempts)
      × (c.attempts ≤ config.max_attempts)
      × Confirms relay filename c.size sha256 c
unfolding upload
upload-confirmed config relay none filename sha256 c h = cc
upload-confirmed config relay (some size) filename sha256 c h =
    let (lower, upper, (get, replied, fits, id, named, same, hashed)) =
      attempts_from-ok config relay filename size sha256 config.max_attempts 1 [] c h in
    (
      ap some (sym same),
      lower,
      omega (arith, upper),
      (
        get,
        replied,
        subst (λ n. matches relay get filename n sha256 ≡ true) (sym same) fits,
        id,
        named,
        refl,
        hashed,
      ),
    )

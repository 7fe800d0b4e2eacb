-- ===== src/Source/Uploader/Bounded.antt =====
-- How long an upload may take: `RelayUploader.upload` of `src/airgap_sync/source/uploader.py`.
use mathlib.Core.Path.{subst}
use airgap_sync.Base.{
  All, All-append, Bool, Bool-cases, List, Option, Option-cases, String, [], arith, false, inl, inr,
  ltb, nat_eq, none, option_eq, some, string_eq, suc, sym, true, zero, ℕ, ◌++◌, ◌+◌, ◌-◌, ◌<◌, ◌==◌,
  ◌∷◌, ◌≡◌, ◌≤◌,
}
use airgap_sync.Base.Rows.{count_where, count_where-append}
use airgap_sync.Source.Uploader.{
  Payload, Reason, Relay, RelayConfig, Reply, UploadConfirmation, UploadEvent, Uploading,
  attempts_from, because, delay, handle, handle_response, http_status, is_retryable, notify,
  request_exception, response, retry, safe_request_id, sent, slept, told, upload,
  validate_confirmation,
}

abbrev pub is_sent : UploadEvent → Bool
is_sent (sent n) = true
is_sent _ = false

abbrev pub is_nap : UploadEvent → Bool
is_nap (slept n) = true
is_nap _ = false

abbrev pub nap_of : UploadEvent → ℕ
nap_of (slept n) = n
nap_of _ = 0

-- From `es` on, at most `left` requests and one wait less, and no wait above the limit.
abbrev Within : RelayConfig → ℕ → List UploadEvent → List UploadEvent → Type 0
Within config left es es' =
    (count_where is_sent es' ≤ count_where is_sent es + left)
    × (count_where is_nap es' ≤ count_where is_nap es + (left - 1))
    × All (λ e. nap_of e ≤ config.retry_max_seconds) es'

module _ (config : RelayConfig) (relay : Relay) (filename : String) (size : ℕ)
    (sha256 : String) where
  abbrev Bounded : List UploadEvent → Type 0
  Bounded = All (λ e. nap_of e ≤ config.retry_max_seconds)

  validate_confirmation-same :
      (body : Payload) (attempt : ℕ) (es : List UploadEvent)
      → (validate_confirmation relay body filename size sha256 attempt es).1 ≡ es
  unfolding validate_confirmation
  validate_confirmation-same body attempt es = ground arith

  module _ (Q : List UploadEvent → Type 0) (attempt : ℕ) (rest : Uploading UploadConfirmation)
      (es : List UploadEvent) (stays : Q es)
      (again : attempt < config.max_attempts
        → Q (rest (es ++ slept (delay config relay attempt) ∷ [])).1) where
    retry-keeps :
        (reason : Reason) (id : Option String) → Q (retry config relay attempt reason id rest es).1
    unfolding retry
    retry-keeps reason id = elim (Bool-cases (ltb attempt config.max_attempts)) [
      | inl more ↦ rw more (again (ground arith))
      | inr last ↦ rw last stays
    ]

    handle-keeps :
        (reply : Reply) → Q (handle config relay filename size sha256 attempt rest reply es).1
    unfolding handle handle_response
    handle-keeps (request_exception name) = retry-keeps (because name) none
    handle-keeps (response status body) = elim (Bool-cases (status == 201)) [
      | inl made ↦ rw made (subst Q (sym (validate_confirmation-same body attempt es)) stays)
      | inr not_201 ↦ elim (Bool-cases (status == 409)) [
        | inl clash ↦ rw (not_201, clash) stays
        | inr not_409 ↦ elim (Bool-cases (is_retryable status)) [
          | inl retryable ↦
              rw (not_201, not_409, retryable)
                (retry-keeps (http_status status) (safe_request_id relay body))
          | inr fatal ↦ rw (not_201, not_409, fatal) stays
        ]
      ]
    ]

  -- The events up to the request, and the wait after it.
  abbrev asked_once : ℕ → List UploadEvent → List UploadEvent
  asked_once attempt es = (es ++ told attempt ∷ []) ++ sent attempt ∷ []

  told-Within :
      (left attempt : ℕ) (es : List UploadEvent)
      → Bounded es
      → Within config (suc left) es (es ++ told attempt ∷ [])
  told-Within left attempt es b = (
    omega (arith, count_where-append is_sent es (told attempt ∷ [])),
    omega (arith, count_where-append is_nap es (told attempt ∷ [])),
    All-append _ es (told attempt ∷ []) b (omega arith, tt),
  )

  asked_once-Within :
      (left attempt : ℕ) (es : List UploadEvent)
      → Bounded es
      → Within config (suc left) es (asked_once attempt es)
  asked_once-Within left attempt es b =
      let es' = es ++ told attempt ∷ [] in
      let h = told-Within left attempt es b in
      (
        omega (
          arith,
          count_where-append is_sent es' (sent attempt ∷ []),
          count_where-append is_sent es (told attempt ∷ []),
        ),
        omega (arith, h.1, count_where-append is_nap es' (sent attempt ∷ [])),
        All-append _ es' (sent attempt ∷ []) h.2 (omega arith, tt),
      )

  later-Within :
      (left attempt : ℕ) (es last : List UploadEvent)
      → 1 ≤ left
      → Within config left (asked_once attempt es ++ slept (delay config relay attempt) ∷ []) last
      → Within config (suc left) es last
  later-Within left attempt es last some_left h =
      let es' = es ++ told attempt ∷ [] in
      let es'' = es' ++ sent attempt ∷ [] in
      let nap = slept (delay config relay attempt) ∷ [] in
      (
        omega (
          arith,
          h.0,
          count_where-append is_sent es'' nap,
          count_where-append is_sent es' (sent attempt ∷ []),
          count_where-append is_sent es (told attempt ∷ []),
        ),
        omega (
          arith,
          some_left,
          h.1,
          count_where-append is_nap es'' nap,
          count_where-append is_nap es' (sent attempt ∷ []),
          count_where-append is_nap es (told attempt ∷ []),
        ),
        h.2,
      )

  nap-Bounded :
      (attempt : ℕ) (es : List UploadEvent)
      → Bounded es
      → Bounded (es ++ slept (delay config relay attempt) ∷ [])
  nap-Bounded attempt es b =
      All-append _ es (slept (delay config relay attempt) ∷ []) b (omega arith, tt)

  attempts_from-Within :
      (left attempt : ℕ) (es : List UploadEvent)
      → attempt + left ≡ config.max_attempts + 1
      → Bounded es
      → Within config left es (attempts_from config relay left filename size sha256 attempt es).1
  unfolding attempts_from notify
  attempts_from-Within zero attempt es h b = (omega arith, omega arith, b)
  attempts_from-Within (suc left) attempt es h b = elim (Option-cases (relay.on_attempt attempt)) [
    | inr (text, e) ↦ rw e (omega arith, omega arith, b)
    | inl e ↦ elim (Bool-cases (relay.opens attempt)) [
      | inr shut ↦ rw (e, shut) (told-Within left attempt es b)
      | inl open_file ↦
          rw (e, open_file)
            (handle-keeps (Within config (suc left) es) attempt
              (attempts_from config relay left filename size sha256 (attempt + 1))
              (asked_once attempt es) (asked_once-Within left attempt es b)
              (λ more. later-Within left attempt es _ (omega arith) (
                attempts_from-Within left (attempt + 1)
                  (asked_once attempt es ++ slept (delay config relay attempt) ∷ []) (omega arith)
                  (nap-Bounded attempt (asked_once attempt es)
                    (asked_once-Within left attempt es b).2)))
              (relay.reply attempt))
    ]
  ]

-- Whatever the relay, the callback and the file do, an upload sends at most `max_attempts` requests,
-- waits at most one time less, and no wait is longer than `retry_max_seconds`.
pub upload_bounded :
    (config : RelayConfig) (relay : Relay) (size : Option ℕ) (filename sha256 : String)
    → let events = (upload config relay size filename sha256 []).1 in
      (count_where is_sent events ≤ config.max_attempts)
      × (count_where is_nap events ≤ config.max_attempts - 1)
      × All (λ e. nap_of e ≤ config.retry_max_seconds) events
unfolding upload
upload_bounded config relay none filename sha256 = (omega arith, omega arith, tt)
upload_bounded config relay (some size) filename sha256 =
    let h =
      attempts_from-Within config relay filename size sha256 config.max_attempts 1 [] (omega arith)
        tt in
    (omega (arith, h.0), omega (arith, h.1), h.2)

-- ===== src/Source/Uploader/Health.antt =====
-- `RelayUploader.check_health` of `src/airgap_sync/source/uploader.py`.
use airgap_sync.Base.{
  Bool, String, ap, arith, eq_iff, false, if◌then◌else◌, nat_beq_iff, nat_eq, none, not, option_eq,
  refl, string_eq, true, ◌==◌, ◌↔◌, ◌≡◌,
}
use airgap_sync.Base.Exec.{Result, err, ok}
use airgap_sync.Source.Uploader.{
  JsonValue, Reason, Reply, UploadError, because, dict, http_status, invalid_json, json_bool,
  json_int, json_other, json_text, not_dict, relay_health_failed, request_exception, response,
}

health_failed : Reason → Result UploadError Unit
health_failed reason =
    err (record { code = relay_health_failed; message = reason; attempts = 1; request_id = none })

-- `payload.get("status") != "ok"`
abbrev says_ok : JsonValue → Bool
says_ok (json_text t) = t == "ok"
says_ok _ = false

unfoldable pub check_health : Reply → Result UploadError Unit
unfolding health_failed
check_health (request_exception name) = health_failed (because name)
check_health (response status body) =
    if not (status == 200) then health_failed (http_status status) else elim body [
      | invalid_json ↦ health_failed (because "invalid JSON response")
      | not_dict ↦ health_failed (because "response status is not ok")
      | dict get ↦
          if says_ok (get "status")
          then ok tt
          else health_failed (because "response status is not ok")
    ]

-- The relay passes the health check exactly when it answers HTTP 200 with a JSON object whose
-- `status` is the text "ok".
pub check_health_iff :
    (reply : Reply)
    → (check_health reply ≡ ok tt) ↔ (
        (get : String → JsonValue) × (reply ≡ response 200 (dict get))
        × (get "status" ≡ json_text "ok"))
unfolding check_health
check_health_iff reply = (passed reply, λ (get, e, says). rw (e, says) refl)
  where
    says_ok_text : (v : JsonValue) → says_ok v ≡ true → v ≡ json_text "ok"
    says_ok_text (json_text t) h = ap json_text ((eq_iff t "ok").0 h)
    says_ok_text (json_bool b) h = cc
    says_ok_text (json_int n) h = cc
    says_ok_text json_other h = cc

    passed :
        (r : Reply)
        → check_health r ≡ ok tt
        → (get : String → JsonValue) × (r ≡ response 200 (dict get))
          × (get "status" ≡ json_text "ok")
    passed (request_exception name) h = cc
    passed (response status invalid_json) h = absurd (ground arith)
    passed (response status not_dict) h = absurd (ground arith)
    passed (response status (dict get)) h = (
      get,
      ap (λ n. response n (dict get)) (ground (arith, nat_beq_iff status 200)),
      says_ok_text (get "status") (ground arith),
    )

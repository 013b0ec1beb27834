-- ===== src/OpenAi/Errors.antt =====
-- apps/api/services/openai/errors.py: `ErrorTranslator`.
use claude_agent_api.Common.{ℕ, String, ◌=ℕ◌, if◌then◌else◌}
use claude_agent_api.Json.{Dict, str, obj, end, field}

unfoldable pub map_status_to_type : ℕ → String
map_status_to_type status_code =
    if status_code =ℕ 401
    then "authentication_error"
    else if status_code =ℕ 400
    then "invalid_request_error"
    else if status_code =ℕ 403
    then "permission_error"
    else if status_code =ℕ 404
    then "invalid_request_error"
    else if status_code =ℕ 429
    then "rate_limit_exceeded"
    else "api_error"

-- The message, the code and the status of an `APIError`.
unfoldable pub translate_error : String → String → ℕ → Dict
translate_error message code status_code =
    field "error"
      (obj (
        field "type" (str (map_status_to_type status_code))
          (field "message" (str message) (field "code" (str code) end))))
      end

-- ===== src/Dashboard/Api/Laws.antt =====
-- dashboard/src/services/api.ts with src/middleware/error.middleware.ts: what the client reads of
-- what the server answers.
use file_processing_system.Prelude.{
  some, true, false, ap, ◌∙◌, ◌&&◌, if◌then◌else◌, ℕ, ◌≡◌, refl, ◌≤◌, arith, Bool,
}
use file_processing_system.Prelude.Text.{codes}
use file_processing_system.Types.{
  ErrorCode, validation_error, not_found, rate_limited, s3_error, internal_error,
}
use file_processing_system.Effects.{Failure, api_failure, other_failure}
use file_processing_system.Http.{error_middleware}
use file_processing_system.Uploads.{ok_response}
use file_processing_system.Dashboard.Api.{
  text_or, error_property, ClientError, api_error, answered, refused, or_text, is_ok, refusal,
  read_body, request,
}
use file_processing_system.Prelude.Text.{text_eq}
use file_processing_system.Dashboard.Api.Wire.{
  JsonValue, find_member, read_property, is_truthy, code_text, error_json, body_json, sent,
}

-- What a client is told of a failure.
unfoldable pub told : Failure → ClientError
told (api_failure err) =
    api_error (code_text err.code) (or_text err.message (codes "Unknown error")) err.status_code
told (other_failure message) =
    api_error (codes "INTERNAL_ERROR") (codes "Internal server error") 500

code_text_given : (code : ErrorCode) → or_text (code_text code) (codes "UNKNOWN") ≡ code_text code
unfolding code_text or_text
code_text_given validation_error = refl
code_text_given not_found = refl
code_text_given rate_limited = refl
code_text_given s3_error = refl
code_text_given internal_error = refl

and_false : {A : Type 0} (b : Bool) (x y : A) → (if b && false then x else y) ≡ y
and_false true x y = refl
and_false false x y = refl

request-failed :
    {A : Type 0} (encode : A → JsonValue) (is_development : Bool) (err : Failure)
    → request (sent encode (error_middleware is_development err)) ≡ refused (told err)
unfolding request read_body error_middleware told refusal code_text sent body_json error_json
    text_or error_property read_property find_member is_truthy text_eq or_text
request-failed encode is_development (api_failure err) =
    and_false (is_ok err.status_code) _ _
    ∙ ap
        (λ code.
          refused (api_error code (or_text err.message (codes "Unknown error")) err.status_code))
        (code_text_given err.code)
request-failed encode is_development (other_failure message) = refl

-- Where `encode` is what JSON makes of the value that a handler returns: with a status of 2xx the
-- client gets exactly that, and a failure reaches it as an error with the code, the message and the
-- status that the server gave it: its own for an ApiError (with a fixed text for an empty message),
-- the fixed ones for any other error. What else the server tells in development is not read.
pub request-sent :
    {A : Type 0} (encode : A → JsonValue) (is_development : Bool) (status : ℕ) (value : A)
    (err : Failure)
    → 200 ≤ status
    → status ≤ 299
    → (request (sent encode (ok_response status value)) ≡ answered (some (encode value)))
      × (request (sent encode (error_middleware is_development err)) ≡ refused (told err))
unfolding ok_response request read_body is_ok sent body_json read_property find_member is_truthy
    text_eq
request-sent encode is_development status value err low high =
    (ground arith, request-failed encode is_development err)

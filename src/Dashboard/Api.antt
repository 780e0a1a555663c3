-- ===== src/Dashboard/Api.antt =====
-- dashboard/src/services/api.ts: what a request gives for the response of the server.
pub mod Wire
mod Laws
mod Tests
use file_processing_system.Prelude.{
  ℕ, Bool, true, false, ◌&&◌, ◌||◌, not, leb, List, [], ◌∷◌, Option, none, some, if◌then◌else◌,
}
use file_processing_system.Prelude.Text.{Text, codes}
use file_processing_system.Types.{
  ErrorCode, validation_error, not_found, rate_limited, s3_error, internal_error,
}
use Wire.{JsonValue, null, characters, read_property, is_truthy, WireResponse}
use file_processing_system.Http.{Response, Body, success, failure, ErrorBody}

-- The class `ApiError` of the dashboard, and any other Error by its message.
pub data ClientError : Type 0 where
  api_error : Text → Text → ℕ → ClientError
  other_error : Text → ClientError

pub data Answer (A : Type 0) : Type 0 where
  answered : A → Answer A
  refused : ClientError → Answer A

-- `text || fallback`
unfoldable pub or_text : Text → Text → Text
or_text [] fallback = fallback
or_text (c ∷ s) fallback = c ∷ s

-- `response.ok`
unfoldable pub is_ok : ℕ → Bool
is_ok status = leb 200 status && leb status 299

-- `value || fallback` where a text is expected: the server sends no other values there.
unfoldable pub text_or : Text → Option JsonValue → Text
unfolding or_text
text_or fallback (some (characters s)) = or_text s fallback
text_or fallback _ = fallback

-- `json.error?.key`
unfoldable pub error_property : Text → JsonValue → Option JsonValue
unfolding read_property
error_property key json = elim (read_property (codes "error") json) [
  | none ↦ none
  | some error ↦ read_property key error
]

-- `throw new ApiError(...)`
unfoldable pub refusal : ℕ → JsonValue → ClientError
unfolding text_or error_property
refusal status json =
    api_error (text_or (codes "UNKNOWN") (error_property (codes "code") json))
      (text_or (codes "Unknown error") (error_property (codes "message") json)) status

-- `if (!response.ok || !json.success) throw ...; return json.data`
unfoldable pub read_body : ℕ → JsonValue → Answer (Option JsonValue)
unfolding is_ok refusal is_truthy read_property
read_body status null = refused (other_error (codes "Cannot read properties of null"))
read_body status json =
    if is_ok status && is_truthy (read_property (codes "success") json)
    then answered (read_property (codes "data") json)
    else refused (refusal status json)

unfoldable pub request : WireResponse → Answer (Option JsonValue)
unfolding read_body
request response = elim response.json [
  | none ↦ refused (other_error (codes "Unexpected token in JSON"))
  | some json ↦ read_body response.status json
]

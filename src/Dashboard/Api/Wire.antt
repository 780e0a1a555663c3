-- ===== src/Dashboard/Api/Wire.antt =====
-- What the server's `res.json(...)` puts on the wire, for dashboard/src/services/api.ts: the value
-- that `JSON.parse` makes of the text of `JSON.stringify`.
use file_processing_system.Prelude.{
  ℕ, Bool, true, false, not, ◌==◌, [], ◌∷◌, Option, none, some, if◌then◌else◌,
}
use file_processing_system.Prelude.Text.{Text, codes, text_eq}
use file_processing_system.Types.{
  ErrorCode, validation_error, not_found, rate_limited, s3_error, internal_error,
}
use file_processing_system.Http.{Response, Body, success, failure, ErrorBody}

-- A parsed value. The program sends no other numbers; the keys of an array are its indices.
mutual
  pub data JsonValue : Type 0 where
    null : JsonValue
    boolean : Bool → JsonValue
    numeral : ℕ → JsonValue
    characters : Text → JsonValue
    array object : Members → JsonValue

  pub data Members : Type 0 where
    end : Members
    member : Text → JsonValue → Members → Members

unfoldable pub find_member : Text → Members → Option JsonValue
find_member key end = none
find_member key (member name value members) =
    let rest = find_member key members in if text_eq key name then some value else rest

-- `value.key` of a value that is not null; `none` is `undefined`.
unfoldable pub read_property : Text → JsonValue → Option JsonValue
unfolding find_member
read_property key (object members) = find_member key members
read_property key (array members) = find_member key members
read_property key null = none
read_property key (boolean b) = none
read_property key (numeral n) = none
read_property key (characters s) = none

unfoldable pub is_truthy : Option JsonValue → Bool
is_truthy none = false
is_truthy (some null) = false
is_truthy (some (boolean b)) = b
is_truthy (some (numeral n)) = not (n == 0)
is_truthy (some (characters [])) = false
is_truthy (some (characters (c ∷ s))) = true
is_truthy (some (array members)) = true
is_truthy (some (object members)) = true

-- The string of the enumeration, which JSON carries.
unfoldable pub code_text : ErrorCode → Text
code_text validation_error = codes "VALIDATION_ERROR"
code_text not_found = codes "NOT_FOUND"
code_text rate_limited = codes "RATE_LIMITED"
code_text s3_error = codes "S3_ERROR"
code_text internal_error = codes "INTERNAL_ERROR"

-- A member that is `undefined` is left out.
unfoldable pub optional_member : Text → Option Text → Members
optional_member key none = end
optional_member key (some s) = member key (characters s) end

unfoldable pub error_json : ErrorBody → JsonValue
unfolding code_text optional_member
error_json error = object (
    member (codes "code") (characters (code_text error.code)) (
      member (codes "message") (characters error.message)
        (optional_member (codes "details") error.details)))

-- `encode` is what `JSON.stringify` makes of the data: it gives a `Date` as a text.
unfoldable pub body_json : {A : Type 0} → (A → JsonValue) → Body A → JsonValue
unfolding error_json
body_json encode (success value) =
    object (member (codes "success") (boolean true) (member (codes "data") (encode value) end))
body_json encode (failure error) =
    object
      (member (codes "success") (boolean false) (member (codes "error") (error_json error) end))

-- A response as it arrives; `none` is a body that is no JSON.
pub record WireResponse : Type 0 where
  pub status : ℕ
  pub json : Option JsonValue

-- The response of a handler on the wire.
unfoldable pub sent : {A : Type 0} → (A → JsonValue) → Response A → WireResponse
unfolding body_json
sent encode response = record {
  status = response.status;
  json = some (body_json encode response.body);
}

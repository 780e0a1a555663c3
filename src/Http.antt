-- ===== src/Http.antt =====
-- src/utils/asyncHandler.ts, src/middleware/error.middleware.ts and the response that a handler
-- of express writes.
pub mod Laws
mod Tests
use file_processing_system.Prelude.{
  ℕ, Bool, true, false, ◌&&◌, List, [], ◌∷◌, Option, none, some, if◌then◌else◌,
}
use file_processing_system.Prelude.Text.{Text, codes}
use file_processing_system.Types.{ErrorCode, internal_error}
use file_processing_system.Effects.{
  ApiError, Failure, api_failure, other_failure, Result, ok, failed, hangs, crashes, Action,
}

pub record ErrorBody : Type 0 where
  pub code : ErrorCode
  pub message : Text
  pub details : Option Text

-- `{ success: true, data }` and `{ success: false, error }`
pub data Body (A : Type 0) : Type 0 where
  success : A → Body A
  failure : ErrorBody → Body A

pub record Response (A : Type 0) : Type 0 where
  pub status : ℕ
  pub body : Body A

-- An empty text is falsy, as `undefined` is.
pub is_given : Option Text → Bool
is_given none = false
is_given (some []) = false
is_given (some (c ∷ s)) = true

unfoldable pub error_middleware : {A : Type 0} → Bool → Failure → Response A
unfolding is_given
error_middleware is_development (api_failure err) = record {
  status = err.status_code;
  body = failure (record {
    code = err.code;
    message = err.message;
    details = if is_development && is_given err.details then err.details else none;
  });
}
error_middleware is_development (other_failure message) = record {
  status = 500;
  body =
      failure
        (record { code = internal_error; message = codes "Internal server error"; details = none });
}

-- What the client is sent of a handler wrapped by `asyncHandler`, whose `catch(next)` leads to
-- the middleware: nothing while the promise is pending or once the process has ended.
unfoldable pub async_handler :
    {W A : Type 0} → Bool → Result (Response A) × W → Option (Response A) × W
async_handler is_development (ok response, w) = (some response, w)
async_handler is_development (failed err, w) = (some (error_middleware is_development err), w)
async_handler is_development (hangs, w) = (none, w)
async_handler is_development (crashes, w) = (none, w)

-- ===== src/Http/Laws.antt =====
-- src/middleware/error.middleware.ts: what the answer to a failed request tells.
use file_processing_system.Prelude.{
  ◌≡◌, refl, ◌⊎◌, inl, inr, Bool, true, false, ◌&&◌, Option, none, if◌then◌else◌,
}
use file_processing_system.Prelude.Text.{Text, codes}
use file_processing_system.Types.{internal_error}
use file_processing_system.Effects.{ApiError, Failure, api_failure, other_failure}
use file_processing_system.Http.{failure, Response, is_given, error_middleware}

-- What the client may learn of a failure: an ApiError's own words, with its details in
-- development only, and nothing of any other error.
pub data Tells {A : Type 0} (is_development : Bool) : Failure → Response A → Type 0 where
  tells_api :
      {err : ApiError} {shown : Option Text}
      → (shown ≡ none) ⊎ ((is_development ≡ true) × (shown ≡ err.details))
      → Tells is_development (api_failure err) (record {
        status = err.status_code;
        body = failure (record { code = err.code; message = err.message; details = shown });
      })
  tells_nothing :
      {message : Text}
      → Tells is_development (other_failure message) (record {
        status = 500;
        body = failure (record {
          code = internal_error;
          message = codes "Internal server error";
          details = none;
        });
      })

shown-cases :
    (b : Bool) {details : Option Text} (given : Bool)
    → ((if b && given then details else none) ≡ none)
      ⊎ ((b ≡ true) × ((if b && given then details else none) ≡ details))
shown-cases true true = inr (refl, refl)
shown-cases true false = inl refl
shown-cases false given = inl refl

-- Every failure is answered: an ApiError by its own status, code and message, and by its details
-- in development at most; any other error by 500 and a text that does not depend on it.
pub error_middleware-Tells :
    {A : Type 0} (is_development : Bool) (err : Failure)
    → Tells {A = A} is_development err (error_middleware is_development err)
unfolding error_middleware
error_middleware-Tells is_development (api_failure err) =
    tells_api (shown-cases is_development (is_given err.details))
error_middleware-Tells is_development (other_failure message) = tells_nothing

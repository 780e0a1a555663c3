-- ===== src/Http/Tests.antt =====
-- src/middleware/error.middleware.ts at concrete errors.
use file_processing_system.Prelude.{◌≡◌, refl, false, none, some, ℕ}
use file_processing_system.Prelude.Text.{codes}
use file_processing_system.Types.{validation_error}
use file_processing_system.Effects.{bad_request, other_failure, api_failure}
use file_processing_system.Http.{failure, error_middleware}
use file_processing_system.Http.Laws.{Tells, error_middleware-Tells}

mismatch_in_production :
    error_middleware {A = ℕ} false
      (api_failure (bad_request (codes "mismatch") (some (codes "[1]"))))
    ≡ record {
      status = 400;
      body =
          failure (record { code = validation_error; message = codes "mismatch"; details = none });
    }
unfolding error_middleware bad_request
mismatch_in_production = refl

error_middleware-Tells_example :
    Tells {A = ℕ} false
      (other_failure (codes "E11000"))
      (error_middleware false (other_failure (codes "E11000")))
error_middleware-Tells_example = error_middleware-Tells false (other_failure (codes "E11000"))

-- ===== src/Dashboard/Api/Tests.antt =====
-- dashboard/src/services/api.ts at concrete responses.
use file_processing_system.Prelude.{◌≡◌, refl, arith, false, some}
use file_processing_system.Prelude.Text.{codes, text_eq}
use file_processing_system.Effects.{api_failure, not_found_error}
use file_processing_system.Http.{success, error_middleware}
use file_processing_system.Uploads.{ok_response}
use file_processing_system.Dashboard.Api.{
  request, read_body, is_ok, refusal, refused, answered, api_error, text_or, error_property,
}
use file_processing_system.Dashboard.Api.Wire.{
  numeral, sent, body_json, read_property, find_member, is_truthy,
}
use file_processing_system.Dashboard.Api.Laws.{told, request-sent}

-- A redirect is no success, whatever its body says.
redirected :
    request (sent numeral (record { status = 304; body = success 1 }))
    ≡ refused (api_error (codes "UNKNOWN") (codes "Unknown error") 304)
unfolding request read_body is_ok refusal sent body_json text_or error_property read_property
    find_member is_truthy text_eq
redirected = refl

request-sent_example :
    (request (sent numeral (ok_response 201 7)) ≡ answered (some (numeral 7)))
    × (request (
          sent numeral
            (error_middleware false (api_failure (not_found_error (codes "Job not found")))))
        ≡ refused (told (api_failure (not_found_error (codes "Job not found")))))
request-sent_example =
    request-sent numeral false 201 7 (api_failure (not_found_error (codes "Job not found")))
      (omega arith) (omega arith)

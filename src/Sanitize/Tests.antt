-- ===== src/Sanitize/Tests.antt =====
-- src/middleware/sanitize.middleware.ts at concrete requests.
use file_processing_system.Prelude.{◌≡◌, refl, [], ◌∷◌, none, some}
use file_processing_system.Prelude.Text.{codes}
use file_processing_system.Sanitize.{
  Json, scalar, object, end, field, is_operator, sanitize_object, sanitize_value,
  sanitize_middleware,
}
use file_processing_system.Sanitize.Laws.{
  IsClean, fetch, has_operator, sanitize_value_fixed_iff, fetch-sanitize_value,
}

-- { "priority": { "$gt": "" }, "filename": "a.csv" }
abbrev injection : Json
injection = object (
    field (codes "priority") (object (field (codes "$gt") (scalar []) end))
      (field (codes "filename") (scalar (codes "a.csv")) end))

abbrev cleaned : Json
cleaned =
    object (
      field (codes "priority") (object end) (field (codes "filename") (scalar (codes "a.csv")) end))

sanitize_injection :
    sanitize_middleware (record { body = some injection; params = none; query = some injection })
    ≡ record { body = some cleaned; params = none; query = some injection }
unfolding sanitize_middleware sanitize_value sanitize_object is_operator
sanitize_injection = refl

sanitize_value_fixed_iff_example : IsClean cleaned
unfolding sanitize_value sanitize_object is_operator
sanitize_value_fixed_iff_example = (sanitize_value_fixed_iff cleaned).0 refl

fetch-sanitize_value_example :
    fetch (codes "priority" ∷ codes "$gt" ∷ []) (sanitize_value injection) ≡ none
unfolding has_operator is_operator
fetch-sanitize_value_example = fetch-sanitize_value (codes "priority" ∷ codes "$gt" ∷ []) injection

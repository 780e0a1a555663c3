-- ===== src/Sanitize/Laws.antt =====
-- src/middleware/sanitize.middleware.ts: which properties of a request remain.
use mathlib.Core.Path.{subst}
use file_processing_system.Prelude.{
  ◌≡◌, refl, ap, arith, ◌↔◌, inl, inr, Bool, true, false, Option-cases, List, [], ◌∷◌, Option, none,
  some, if◌then◌else◌, ◌||◌,
}
use file_processing_system.Prelude.Text.{Text, text_eq_sound}
use file_processing_system.Sanitize.{
  Json, scalar, object, Fields, end, field, is_operator, sanitize_object, sanitize_value, property,
}

-- No key, at any depth, starts with `$`.
mutual
  pub data IsClean : Json → Type 0 where
    scalar-IsClean : {s : Text} → IsClean (scalar s)
    object-IsClean : {fields : Fields} → AreClean fields → IsClean (object fields)

  pub data AreClean : Fields → Type 0 where
    end-AreClean : AreClean end
    field-AreClean :
        {key : Text} {value : Json} {rest : Fields}
        → is_operator key ≡ false
        → IsClean value
        → AreClean rest
        → AreClean (field key value rest)

keep :
    (b : Bool) (key : Text) {value : Json} {rest : Fields}
    → is_operator key ≡ b
    → IsClean value
    → AreClean rest
    → AreClean (if b then rest else field key value rest)
keep true key e v r = r
keep false key e v r = field-AreClean e v r

mutual
  unfolding sanitize_object sanitize_value

  sanitize_object-AreClean : (fields : Fields) → AreClean (sanitize_object fields)
  sanitize_object-AreClean end = end-AreClean
  sanitize_object-AreClean (field key value rest) =
      keep (is_operator key) key refl (sanitize_value-IsClean value) (sanitize_object-AreClean rest)

  pub sanitize_value-IsClean : (value : Json) → IsClean (sanitize_value value)
  sanitize_value-IsClean (scalar s) = scalar-IsClean
  sanitize_value-IsClean (object fields) = object-IsClean (sanitize_object-AreClean fields)

mutual
  unfolding sanitize_object sanitize_value

  sanitize_object_clean : {fields : Fields} → AreClean fields → sanitize_object fields ≡ fields
  sanitize_object_clean end-AreClean = refl
  sanitize_object_clean (field-AreClean e v r) =
      rw (e, sanitize_value_clean v, sanitize_object_clean r) refl

  -- A value without operators is left as it is.
  pub sanitize_value_clean : {value : Json} → IsClean value → sanitize_value value ≡ value
  sanitize_value_clean scalar-IsClean = refl
  sanitize_value_clean (object-IsClean fields) = ap object (sanitize_object_clean fields)

-- Sanitizing leaves a value as it is exactly when no key in it, at any depth, starts with `$`.
pub sanitize_value_fixed_iff : (value : Json) → (sanitize_value value ≡ value) ↔ IsClean value
sanitize_value_fixed_iff value =
    (λ e. subst IsClean e (sanitize_value-IsClean value), λ h. sanitize_value_clean h)

-- The value that the keys of a path lead to.
unfoldable pub fetch : List Text → Json → Option Json
fetch [] value = some value
fetch (key ∷ path) (scalar s) = none
fetch (key ∷ path) (object fields) = elim (property key fields) [
  | none ↦ none
  | some value ↦ fetch path value
]

unfoldable pub has_operator : List Text → Bool
has_operator [] = false
has_operator (key ∷ path) = is_operator key || has_operator path

unfoldable pub sanitize_found : Option Json → Option Json
sanitize_found none = none
sanitize_found (some value) = some (sanitize_value value)

property-sanitize_object :
    (key : Text) (fields : Fields)
    → property key (sanitize_object fields)
      ≡ (if is_operator key then none else sanitize_found (property key fields))
unfolding sanitize_object property sanitize_found
property-sanitize_object key end = ground arith
property-sanitize_object key (field name value rest) =
    ground (arith, text_eq_sound key name, property-sanitize_object key rest)

-- A value is found along a path of the sanitized value exactly when no key of the path is an
-- operator and the path leads to a value, which is then sanitized itself.
pub fetch-sanitize_value :
    (path : List Text) (value : Json)
    → fetch path (sanitize_value value)
      ≡ (if has_operator path then none else sanitize_found (fetch path value))
unfolding fetch has_operator sanitize_found sanitize_value
fetch-sanitize_value [] value = refl
fetch-sanitize_value (key ∷ path) (scalar s) = ground arith
fetch-sanitize_value (key ∷ path) (object fields) = elim (Option-cases (property key fields)) [
  | inl e ↦ ground (arith, property-sanitize_object key fields)
  | inr (value, e) ↦
      ground (arith, property-sanitize_object key fields, fetch-sanitize_value path value)
]

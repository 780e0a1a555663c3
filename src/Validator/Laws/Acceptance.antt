-- ===== src/Validator/Laws/Acceptance.antt =====
-- What a row must be for the validator to accept it, stated without the order of the checks.
use file_processing_system.Prelude.{
  ◌≡◌, refl, ◌↔◌, ◌⊎◌, true, false, List, [], ◌∷◌, Option, none, some, length, every, every, All,
  Any, arith,
}
use file_processing_system.Prelude.Text.{Text, trim, text_eq_iff}
use file_processing_system.Types.{FieldType, Row, ValidationRules}
use file_processing_system.Validator.Pattern.{JsEngine, parse_regex}
use file_processing_system.Validator.{
  ValidationResult, valid, for_each, Property, undefined, inherited, own, get_property, is_blank,
  check_required, require_value, validate_type, check_type, check_pattern, test_pattern,
  unless_blank, check_rules, check_shape, RowValidator, validate_row,
}

abbrev pub IsBlank : Text → Type 0
IsBlank value = trim value ≡ []

pub is_blank_iff : (value : Text) → (is_blank value ≡ true) ↔ IsBlank value
unfolding is_blank
is_blank_iff value = text_eq_iff (trim value) []

-- The property is a text of the row that is not blank.
abbrev pub IsFilled : Property → Type 0
IsFilled undefined = ⊥
IsFilled inherited = ⊥
IsFilled (own value) = ¬ IsBlank value

-- The field is absent, or blank, or its text satisfies `P`.
abbrev pub IsAbsentOr : (Text → Type 0) → Property → Type 0
IsAbsentOr P undefined = Unit
IsAbsentOr P inherited = ⊥
IsAbsentOr P (own value) = IsBlank value ⊎ P value

module _ {R : Type 0} (engine : JsEngine R) where
  abbrev pub Matches : Text → Text → Type 0
  Matches pattern value =
      (regex : R) × (parse_regex engine pattern ≡ some regex) × (engine.test regex value ≡ true)

  abbrev pub MeetsRules : Option ValidationRules → Row → Type 0
  MeetsRules none row = Unit
  MeetsRules (some rules) row =
      All (λ field. IsFilled (get_property row field)) rules.required_fields
      × All (λ f. IsAbsentOr (λ v. validate_type engine v f.1 ≡ true) (get_property row f.0))
          rules.field_types
      × All (λ f. IsAbsentOr (Matches f.1) (get_property row f.0)) rules.custom_patterns

  -- As many values as headers, one value that is not blank, and every rule met.
  pub record IsAccepted (v : RowValidator) (row : Row) : Type 0 where
    pub columns : length row ≡ length v.headers
    pub filled : Any (λ entry. ¬ IsBlank entry.1) row
    pub rules : MeetsRules v.rules row

-- A loop over the rules accepts when each of its rounds does.
pub for_each-valid {ℓ} :
    {A : Type ℓ} (check : A → ValidationResult) (P : A → Type 0)
    → ((x : A) → (check x ≡ valid) ↔ P x)
    → (xs : List A) → (for_each check xs ≡ valid) ↔ All P xs
unfolding for_each
for_each-valid check P h [] = ((λ _. tt), (λ _. refl))
for_each-valid check P h (x ∷ xs) = ground (arith, h x, for_each-valid check P h xs)

IsBlank-nil : (value : Text) → value ≡ [] → IsBlank value
unfolding trim
IsBlank-nil value e = rw e refl

pub require_value-valid :
    (field : Text) (p : Property) → (require_value field p ≡ valid) ↔ IsFilled p
unfolding require_value
require_value-valid field undefined = ground arith
require_value-valid field inherited = ground arith
require_value-valid field (own value) =
    ground (arith, is_blank_iff value, text_eq_iff value [], IsBlank-nil value)

pub unless_blank-valid :
    (p : Property) (check : Text → ValidationResult) (P : Text → Type 0)
    → ((value : Text) → (check value ≡ valid) ↔ P value)
    → (unless_blank p check ≡ valid) ↔ IsAbsentOr P p
unfolding unless_blank
unless_blank-valid undefined check P h = ground arith
unless_blank-valid inherited check P h = ground arith
unless_blank-valid (own value) check P h = ground (arith, h value, is_blank_iff value)

module _ {R : Type 0} (engine : JsEngine R) (row : Row) where
  check_type-valid :
      (f : Text × FieldType)
      → (check_type engine row f ≡ valid)
        ↔ IsAbsentOr (λ v. validate_type engine v f.1 ≡ true) (get_property row f.0)
  unfolding check_type
  check_type-valid (field, type) =
      unless_blank-valid (get_property row field) _ _ (λ value. ground arith)

  test_pattern-valid :
      (field pattern : Text) (compiled : Option R) (value : Text)
      → (test_pattern engine field pattern compiled value ≡ valid)
        ↔ ((regex : R) × (compiled ≡ some regex) × (engine.test regex value ≡ true))
  unfolding test_pattern
  test_pattern-valid field pattern none value = ground arith
  test_pattern-valid field pattern (some regex) value =
      ((λ e. (regex, refl, ground arith)), (λ m. ground (arith, m.1, m.2)))

  check_pattern-valid :
      (f : Text × Text)
      → (check_pattern engine row f ≡ valid)
        ↔ IsAbsentOr (Matches engine f.1) (get_property row f.0)
  unfolding check_pattern
  check_pattern-valid (field, pattern) =
      unless_blank-valid (get_property row field) _ _
        (test_pattern-valid field pattern (parse_regex engine pattern))

  check_rules-valid :
      (rules : Option ValidationRules)
      → (check_rules engine rules row ≡ valid) ↔ MeetsRules engine rules row
  unfolding check_rules
  check_rules-valid none = ground arith
  check_rules-valid (some rules) = ground (
    arith,
    for_each-valid (check_required row) _ (λ f. require_value-valid f (get_property row f))
        rules.required_fields,
    for_each-valid (check_type engine row) _ check_type-valid rules.field_types,
    for_each-valid (check_pattern engine row) _ check_pattern-valid rules.custom_patterns,
  )

every-IsBlank :
    (row : Row)
    → (every (λ entry. is_blank entry.1) row ≡ false) ↔ Any (λ entry. ¬ IsBlank entry.1) row
every-IsBlank [] = ground arith
every-IsBlank (entry ∷ row) = ground (arith, is_blank_iff entry.1, every-IsBlank row)

check_shape-valid :
    (headers : List Text) (row : Row)
    → (check_shape headers row ≡ valid)
      ↔ ((length row ≡ length headers) × Any (λ entry. ¬ IsBlank entry.1) row)
unfolding check_shape
check_shape-valid headers row = ground (arith, every-IsBlank row)

-- The validator accepts a row exactly when it has as many values as there are headers, a value that
-- is not blank, and meets every rule: each required field is filled, each typed field is absent,
-- blank or of its type, and each field with a pattern is absent, blank or matches it.
pub validate_row-valid_iff :
    {R : Type 0} (engine : JsEngine R) (v : RowValidator) (row : Row)
    → (validate_row engine v row ≡ valid) ↔ IsAccepted engine v row
unfolding validate_row
validate_row-valid_iff engine v row =
    ground (arith, check_shape-valid v.headers row, check_rules-valid engine row v.rules)

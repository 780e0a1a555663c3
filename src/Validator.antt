-- ===== src/Validator.antt =====
-- src/processors/validator.ts. A result with `valid: false` carries its reason; `type_error` is the
-- TypeError that the row check throws where a rule names a property which every object inherits.
pub mod Number
pub mod Email
pub mod Pattern
pub mod Laws
mod Tests
use file_processing_system.Prelude.{
  ℕ, Bool, true, false, not, ◌&&◌, List, [], ◌∷◌, ◌++◌, map, Option, none, some, ◌==◌, length,
  every, exists, if◌then◌else◌,
}
use file_processing_system.Prelude.Text.{Text, codes, text_eq, trim, decimal}
use file_processing_system.Types.{FieldType, string, number, email, date, Row, ValidationRules}
use Number.{is_number}
use Email.{is_email}
use Pattern.{JsEngine, parse_regex}

pub data ValidationResult : Type 0 where
  valid : ValidationResult
  invalid : Text → ValidationResult
  type_error : ValidationResult

-- The rest of the function runs where nothing has returned or thrown.
infixr 5 ◌>>◌
abbrev pub ◌>>◌ : ValidationResult → ValidationResult → ValidationResult
valid >> next = next
invalid reason >> next = invalid reason
type_error >> next = type_error

-- A `for` loop that ends with the first element that returns or throws.
unfoldable pub for_each {ℓ} : {A : Type ℓ} → (A → ValidationResult) → List A → ValidationResult
for_each check [] = valid
for_each check (x ∷ xs) = check x >> for_each check xs

-- `row[field]`
pub data Property : Type 0 where
  undefined inherited : Property
  own : Text → Property

-- The properties of `Object.prototype`; none of them has a method `trim`.
abbrev pub prototype_names : List Text
prototype_names =
    codes "constructor"
    ∷ codes "hasOwnProperty"
    ∷ codes "isPrototypeOf"
    ∷ codes "propertyIsEnumerable"
    ∷ codes "toLocaleString"
    ∷ codes "toString"
    ∷ codes "valueOf"
    ∷ codes "__proto__"
    ∷ codes "__defineGetter__"
    ∷ codes "__defineSetter__"
    ∷ codes "__lookupGetter__"
    ∷ codes "__lookupSetter__"
    ∷ []

unfoldable pub is_prototype_name : Text → Bool
is_prototype_name field = exists (text_eq field) prototype_names

unfoldable pub get_property : Row → Text → Property
get_property [] field = if is_prototype_name field then inherited else undefined
get_property ((name, value) ∷ row) field =
    if text_eq name field then own value else get_property row field

-- `value.trim() === ''`
unfoldable pub is_blank : Text → Bool
is_blank value = text_eq (trim value) []

unfoldable pub required_reason : Text → Text
required_reason field = codes "Required field \"" ++ field ++ codes "\" is empty"

unfoldable pub require_value : Text → Property → ValidationResult
unfolding is_blank required_reason
require_value field undefined = invalid (required_reason field)
require_value field inherited = type_error
require_value field (own value) =
    if text_eq value []
    then invalid (required_reason field)
    else if is_blank value
    then invalid (required_reason field)
    else valid

unfoldable pub check_required : Row → Text → ValidationResult
unfolding get_property require_value
check_required row field = require_value field (get_property row field)

unfoldable pub type_name : FieldType → Text
type_name string = codes "string"
type_name number = codes "number"
type_name email = codes "email"
type_name date = codes "date"

-- The check of one field that may be absent or blank.
unfoldable pub unless_blank : Property → (Text → ValidationResult) → ValidationResult
unfolding is_blank
unless_blank undefined check = valid
unless_blank inherited check = type_error
unless_blank (own value) check = if is_blank value then valid else check value

unfoldable pub check_shape : List Text → Row → ValidationResult
unfolding is_blank
check_shape headers row =
    if not (length row == length headers)
    then invalid (
        codes "Column count mismatch: expected "
        ++ decimal (length headers)
        ++ codes ", got "
        ++ decimal (length row))
    else if every (λ entry. is_blank entry.1) row
    then invalid (codes "Empty row")
    else valid

pub record RowValidator : Type 0 where
  pub headers : List Text
  pub rules : Option ValidationRules

abbrev pub new_validator : RowValidator
new_validator = record { headers = []; rules = none }

unfoldable pub initialize : List Text → Option ValidationRules → RowValidator → RowValidator
initialize headers rules v = record { headers = headers; rules = rules }

module _ {R : Type 0} (engine : JsEngine R) where
  unfoldable pub validate_type : Text → FieldType → Bool
  unfolding is_number is_blank is_email
  validate_type value string = true
  validate_type value number = is_number value && not (is_blank value)
  validate_type value email = is_email value
  validate_type value date = engine.parses_as_date value

  unfoldable pub check_type : Row → Text × FieldType → ValidationResult
  unfolding unless_blank validate_type type_name
  check_type row (field, type) = unless_blank (get_property row field) λ value.
      if validate_type value type
      then valid
      else invalid (codes "Field \"" ++ field ++ codes "\" is not a valid " ++ type_name type)

  -- the body of the `try`; `none` is the exception that `catch` takes
  unfoldable pub test_pattern : Text → Text → Option R → Text → ValidationResult
  test_pattern field pattern none value =
      invalid (codes "Invalid regex pattern for field \"" ++ field ++ codes "\"")
  test_pattern field pattern (some regex) value =
      if engine.test regex value
      then valid
      else invalid (
          codes "Field \""
          ++ field
          ++ codes "\" does not match pattern \""
          ++ pattern
          ++ codes "\"")

  unfoldable pub check_pattern : Row → Text × Text → ValidationResult
  unfolding unless_blank test_pattern
  check_pattern row (field, pattern) =
      unless_blank (get_property row field)
        (test_pattern field pattern (parse_regex engine pattern))

  unfoldable pub check_rules : Option ValidationRules → Row → ValidationResult
  unfolding check_required check_type check_pattern for_each
  check_rules none row = valid
  check_rules (some rules) row = do
    for_each (check_required row) rules.required_fields
    for_each (check_type row) rules.field_types
    for_each (check_pattern row) rules.custom_patterns

  unfoldable pub validate_row : RowValidator → Row → ValidationResult
  unfolding check_shape check_rules
  validate_row v row = do check_shape v.headers row; check_rules v.rules row

-- ===== src/Validator/Tests.antt =====
-- The validator on concrete rows.
use file_processing_system.Prelude.{
  ◌≡◌, ◌≢◌, refl, ◌↔◌, true, [], ◌∷◌, ◌++◌, none, some, every, not, arith,
}
use file_processing_system.Prelude.Text.{codes, text_eq, trim, decimal}
use file_processing_system.Types.{ValidationRules}
use file_processing_system.Validator.Number.{is_number}
use file_processing_system.Validator.Email.{is_email, is_plain}
use file_processing_system.Validator.Pattern.{match_literal, is_body, is_flag}
use file_processing_system.Validator.{
  valid, invalid, type_error, RowValidator, is_prototype_name, check_shape, validate_row,
  check_required, get_property, require_value,
}
use file_processing_system.Validator.Laws.Acceptance.{IsAccepted, validate_row-valid_iff}
use file_processing_system.Validator.Laws.EmailForm.{IsEmail, is_email_iff}
use file_processing_system.Validator.Laws.PatternForm.{match_literal_iff}
use file_processing_system.Validator.Laws.Failures.{
  NamesInherited, validate_row-reason, validate_row-throws, validate_row-prototype_name,
}
use file_processing_system.Fixtures.{literal_engine, columns, person, alice, bob, person_validator}

numbers :
    (every is_number (
        codes "42"
        ∷ codes " -3.5e+10 "
        ∷ codes ".5"
        ∷ codes "5."
        ∷ codes "0x1F"
        ∷ codes "-Infinity"
        ∷ codes ""
        ∷ [])
      ≡ true)
    × (every
          (λ s. not (is_number s))
          (codes "notanumber"
            ∷ codes "1,5"
            ∷ codes "."
            ∷ codes "1e"
            ∷ codes "-0x1F"
            ∷ codes "0x"
            ∷ codes "1 2"
            ∷ [])
        ≡ true)
unfolding is_number text_eq
numbers = (refl, refl)

emails :
    (every is_email (codes "alice@test.com" ∷ codes "a@b.c.d" ∷ []) ≡ true)
    × (every
          (λ s. not (is_email s))
          (codes "notanemail" ∷ codes "a@b@c.d" ∷ codes "a@.d" ∷ codes "a b@c.d" ∷ [])
        ≡ true)
unfolding is_email is_plain
emails = (refl, refl)

literals :
    (match_literal (codes "/^a\\/b$/gi") ≡ some (codes "^a\\/b$", codes "gi"))
    × (match_literal (codes "//g") ≡ none)
    × (match_literal (codes "/a/x") ≡ none)
    × (match_literal (codes "^a$") ≡ none)
unfolding match_literal is_body
literals = (refl, refl, refl, refl)

rows :
    (validate_row literal_engine person_validator alice ≡ valid)
    × (validate_row literal_engine person_validator bob
        ≡ invalid (codes "Field \"age\" is not a valid number"))
    × (validate_row literal_engine person_validator (person (codes " ") (codes "3"))
        ≡ invalid (codes "Required field \"name\" is empty"))
    × (validate_row literal_engine person_validator ((codes "name", codes "x") ∷ [])
        ≡ invalid (codes "Column count mismatch: expected 2, got 1"))
    × (validate_row literal_engine person_validator (person (codes "") (codes " "))
        ≡ invalid (codes "Empty row"))
unfolding validate_row is_number text_eq decimal
rows = (refl, refl, refl, refl, refl)

validate_row-valid_iff_example :
    (validate_row literal_engine person_validator alice ≡ valid)
    ↔ IsAccepted literal_engine person_validator alice
validate_row-valid_iff_example = validate_row-valid_iff literal_engine person_validator alice

is_email_iff_example : (is_email (codes "a@b.c") ≡ true) ↔ IsEmail (codes "a@b.c")
is_email_iff_example = is_email_iff (codes "a@b.c")

match_literal_iff_example : (match_literal (codes "/a/g") ≡ some (codes "a", codes "g")) ↔ (
    (codes "/a/g" ≡ b'/' ∷ (codes "a" ++ b'/' ∷ codes "g"))
    × (is_body (codes "a") ≡ true)
    × (every is_flag (codes "g") ≡ true))
match_literal_iff_example = match_literal_iff (codes "/a/g") (codes "a") (codes "g")

validate_row-reason_example : codes "Field \"age\" is not a valid number" ≢ []
validate_row-reason_example = validate_row-reason literal_engine person_validator bob rows.1

abbrev proto_rules : ValidationRules
proto_rules = record {
  required_fields = codes "age" ∷ codes "constructor" ∷ [];
  field_types = [];
  custom_patterns = [];
}

abbrev proto_validator : RowValidator
proto_validator = record { headers = columns; rules = some proto_rules }

proto_name : is_prototype_name (codes "constructor") ≡ true
unfolding is_prototype_name text_eq
proto_name = refl

alice_shape : check_shape columns alice ≡ valid
unfolding check_shape text_eq trim
alice_shape = refl

age_filled : check_required alice (codes "age") ≡ valid
unfolding check_required get_property require_value text_eq trim
age_filled = refl

validate_row-prototype_name_example : validate_row literal_engine proto_validator alice ≡ type_error
validate_row-prototype_name_example =
    validate_row-prototype_name literal_engine proto_validator proto_rules alice
      (codes "constructor") (codes "age" ∷ []) [] refl refl (age_filled, tt) proto_name
      (ground arith) alice_shape

validate_row-throws_example : NamesInherited alice (some proto_rules)
validate_row-throws_example =
    validate_row-throws literal_engine proto_validator alice validate_row-prototype_name_example

-- ===== src/Validator/Laws/Failures.antt =====
-- How the row check ends where it does not accept: with a reason, or by throwing.
use file_processing_system.Prelude.{
  ◌++◌, ℕ, ◌≡◌, ◌≢◌, refl, ◌⊎◌, inl, inr, Bool, true, false, List, [], ◌∷◌, Option, none, some, All,
  Any, if◌then◌else◌, arith, cons-ne-nil, not, ◌==◌, length, every,
}
use file_processing_system.Prelude.Text.{Text, text_eq, text_eq_iff}
use file_processing_system.Types.{FieldType, Row, ValidationRules}
use file_processing_system.Validator.Pattern.{JsEngine, parse_regex}
use file_processing_system.Validator.{
  ValidationResult, valid, invalid, type_error, ◌>>◌, for_each, Property, undefined, inherited, own,
  is_prototype_name, get_property, is_blank, required_reason, require_value, check_required,
  unless_blank, check_type, validate_type, test_pattern, check_pattern, check_rules, check_shape,
  RowValidator, validate_row,
}

-- The reason is not empty, and `Q` holds where the check throws.
abbrev HowEnds : Type 0 → ValidationResult → Type 0
HowEnds Q valid = Unit
HowEnds Q (invalid reason) = reason ≢ []
HowEnds Q type_error = Q

record Ends (Q : Type 0) (result : ValidationResult) : Type 0 where
  how : HowEnds Q result

HowEnds-weaken : {Q Q' : Type 0} (r : ValidationResult) → (Q → Q') → HowEnds Q r → HowEnds Q' r
HowEnds-weaken valid f h = tt
HowEnds-weaken (invalid reason) f h = h
HowEnds-weaken type_error f h = f h

module _ {Q : Type 0} where
  Ends-then : (a b : ValidationResult) → Ends Q a → Ends Q b → Ends Q (a >> b)
  Ends-then valid b h k = k
  Ends-then (invalid reason) b h k = h
  Ends-then type_error b h k = h

  Ends-weaken : {Q' : Type 0} {a : ValidationResult} → (Q → Q') → Ends Q a → Ends Q' a
  Ends-weaken {a} f h = record { how = HowEnds-weaken a f h.how }

  Ends-if : (b : Bool) {x y : ValidationResult} → Ends Q x → Ends Q y → Ends Q (if b then x else y)
  Ends-if true h k = h
  Ends-if false h k = k

  Ends-valid : Ends Q valid
  Ends-valid = record { how = tt }

  Ends-invalid : (c : ℕ) (s : Text) → Ends Q (invalid (c ∷ s))
  Ends-invalid c s = record { how = cons-ne-nil c s }

Ends-for_each :
    {A : Type 0} (Q : A → Type 0) (check : A → ValidationResult)
    → ((x : A) → Ends (Q x) (check x))
    → (xs : List A) → Ends (Any Q xs) (for_each check xs)
unfolding for_each
Ends-for_each Q check h [] = Ends-valid
Ends-for_each Q check h (x ∷ xs) =
    Ends-then (check x) (for_each check xs) (Ends-weaken (λ q. inl q) (h x))
      (Ends-weaken (λ q. inr q) (Ends-for_each Q check h xs))

-- Only a property that every object inherits makes the check throw.
abbrev Ended : Property → ValidationResult → Type 0
Ended p result = Ends (p ≡ inherited) result

require_value-Ended : (field : Text) (p : Property) → Ended p (require_value field p)
unfolding require_value required_reason
require_value-Ended field undefined = Ends-invalid _ _
require_value-Ended field inherited = record { how = refl }
require_value-Ended field (own value) =
    Ends-if (text_eq value []) (Ends-invalid _ _)
      (Ends-if (is_blank value) (Ends-invalid _ _) Ends-valid)

unless_blank-Ended :
    (p : Property) (check : Text → ValidationResult)
    → ((value : Text) → Ended p (check value))
    → Ended p (unless_blank p check)
unfolding unless_blank
unless_blank-Ended undefined check h = Ends-valid
unless_blank-Ended inherited check h = record { how = refl }
unless_blank-Ended (own value) check h = Ends-if (is_blank value) Ends-valid (h value)

-- Some rule names a property that is no column of the row and that every object inherits.
abbrev pub NamesInherited : Row → Option ValidationRules → Type 0
NamesInherited row none = ⊥
NamesInherited row (some rules) =
    Any (λ field. get_property row field ≡ inherited) rules.required_fields
    ⊎ Any (λ f. get_property row f.0 ≡ inherited) rules.field_types
    ⊎ Any (λ f. get_property row f.0 ≡ inherited) rules.custom_patterns

module _ {R : Type 0} (engine : JsEngine R) (row : Row) where
  check_type-Ended : (f : Text × FieldType) → Ended (get_property row f.0) (check_type engine row f)
  unfolding check_type
  check_type-Ended (field, type) =
      unless_blank-Ended (get_property row field) _
        (λ value. Ends-if (validate_type engine value type) Ends-valid (Ends-invalid _ _))

  test_pattern-Ended :
      (field pattern : Text) (compiled : Option R) (p : Property) (value : Text)
      → Ended p (test_pattern engine field pattern compiled value)
  unfolding test_pattern
  test_pattern-Ended field pattern none p value = Ends-invalid _ _
  test_pattern-Ended field pattern (some regex) p value =
      Ends-if (engine.test regex value) Ends-valid (Ends-invalid _ _)

  check_pattern-Ended :
      (f : Text × Text) → Ended (get_property row f.0) (check_pattern engine row f)
  unfolding check_pattern
  check_pattern-Ended (field, pattern) =
      unless_blank-Ended (get_property row field) _
        (test_pattern-Ended field pattern (parse_regex engine pattern) (get_property row field))

  check_rules-Ends :
      (rules : Option ValidationRules)
      → Ends (NamesInherited row rules) (check_rules engine rules row)
  unfolding check_rules
  check_rules-Ends none = Ends-valid
  check_rules-Ends (some rules) =
      let required =
        Ends-for_each _ (check_required row) (λ f. require_value-Ended f (get_property row f))
          rules.required_fields in
      let typed = Ends-for_each _ (check_type engine row) check_type-Ended rules.field_types in
      let matched =
        Ends-for_each _ (check_pattern engine row) check_pattern-Ended rules.custom_patterns in
      Ends-then _ _ (Ends-weaken (λ q. inl q) required) (
        Ends-then _ _ (Ends-weaken (λ q. inr (inl q)) typed)
          (Ends-weaken (λ q. inr (inr q)) matched))

check_shape-Ends : (headers : List Text) (row : Row) → Ends ⊥ (check_shape headers row)
unfolding check_shape
check_shape-Ends headers row =
    Ends-if (not (length row == length headers)) (Ends-invalid _ _)
      (Ends-if (every (λ entry. is_blank entry.1) row) (Ends-invalid _ _) Ends-valid)

module _ {R : Type 0} (engine : JsEngine R) (v : RowValidator) (row : Row) where
  validate_row-Ends : Ends (NamesInherited row v.rules) (validate_row engine v row)
  unfolding validate_row
  validate_row-Ends =
      Ends-then (check_shape v.headers row) (check_rules engine v.rules row)
        (Ends-weaken absurd (check_shape-Ends v.headers row)) (check_rules-Ends engine row v.rules)

  -- A row is never refused without a reason: the text that comes with a refusal is not empty.
  pub validate_row-reason :
      {reason : Text} → validate_row engine v row ≡ invalid reason → reason ≢ []
  validate_row-reason e = (rw e at validate_row-Ends).how

  -- The row check throws only where a rule names a property that is no column of the row and that
  -- every object inherits.
  pub validate_row-throws : validate_row engine v row ≡ type_error → NamesInherited row v.rules
  validate_row-throws e = (rw e at validate_row-Ends).how

get_property-inherited :
    (row : Row) (field : Text)
    → is_prototype_name field ≡ true
    → All (λ entry. entry.0 ≢ field) row
    → get_property row field ≡ inherited
unfolding get_property
get_property-inherited [] field h k = rw h refl
get_property-inherited ((name, value) ∷ row) field h (ne, k) =
    ground (arith, text_eq_iff name field, get_property-inherited row field h k)

check_required-inherited :
    (row : Row) (field : Text)
    → is_prototype_name field ≡ true
    → All (λ entry. entry.0 ≢ field) row
    → check_required row field ≡ type_error
unfolding check_required require_value
check_required-inherited row field proto absent =
    rw (get_property-inherited row field proto absent) refl

-- A check before which others accept the row.
for_each-append :
    {A : Type 0} (check : A → ValidationResult) (before after : List A) (a : A)
    → All (λ b. check b ≡ valid) before
    → check a ≡ type_error
    → for_each check (before ++ a ∷ after) ≡ type_error
unfolding for_each
for_each-append check [] after a accepted throws = rw throws refl
for_each-append check (b ∷ before) after a (first, accepted) throws =
    rw first (for_each-append check before after a accepted throws)

-- Once the columns of a row are in order, a required field that is spelled like a property of
-- `Object.prototype`, and is no column of the row, makes the check throw, provided that each
-- required field that stands before it is filled.
pub validate_row-prototype_name :
    {R : Type 0} (engine : JsEngine R) (v : RowValidator) (rules : ValidationRules) (row : Row)
    (field : Text) (before after : List Text)
    → v.rules ≡ some rules
    → rules.required_fields ≡ before ++ field ∷ after
    → All (λ other. check_required row other ≡ valid) before
    → is_prototype_name field ≡ true
    → All (λ entry. entry.0 ≢ field) row
    → check_shape v.headers row ≡ valid
    → validate_row engine v row ≡ type_error
unfolding validate_row check_rules
validate_row-prototype_name engine v rules row field before after r f filled proto absent shape =
    rw
      (
        shape,
        r,
        f,
        for_each-append (check_required row) before after field filled
            (check_required-inherited row field proto absent),
      )
      refl

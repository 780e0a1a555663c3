-- ===== src/Dashboard/Zone/Rules.antt =====
-- src/validators/upload.validator.ts: which of the rules that the form of
-- dashboard/src/components/upload emits the schema takes.
use file_processing_system.Prelude.{
  ◌≡◌, refl, ap, ◌∙◌, ◌↔◌, ◌⊎◌, inl, inr, arith, Bool-cases, List, [], ◌∷◌, Option, none, some, All,
}
use file_processing_system.Prelude.Text.{Text, codes, text_eq, text_eq_sound}
use file_processing_system.Uploads.Schemas.{
  RulesBody, read_type, read_types, read_rules, read_optional_rules, or_default,
}

-- A type that the enumeration `FieldType` has.
abbrev pub IsFieldType : Text → Type 0
IsFieldType s =
    (s ≡ codes "string") ⊎ (s ≡ codes "number") ⊎ (s ≡ codes "email") ⊎ (s ≡ codes "date")

abbrev pub HasFieldTypes : List (Text × Text) → Type 0
HasFieldTypes entries = All (λ entry. IsFieldType entry.1) entries

abbrev pub Reads : {A : Type 0} → Option A → Type 0
Reads {A} read = (a : A) × (read ≡ some a)

read_type_sound : (s : Text) → Reads (read_type s) → IsFieldType s
unfolding read_type
read_type_sound s (type, e) = elim (Bool-cases (text_eq s (codes "string"))) [
  | inl is ↦ inl (text_eq_sound s (codes "string") is)
  | inr no1 ↦ elim (Bool-cases (text_eq s (codes "number"))) [
    | inl is ↦ inr (inl (text_eq_sound s (codes "number") is))
    | inr no2 ↦ elim (Bool-cases (text_eq s (codes "email"))) [
      | inl is ↦ inr (inr (inl (text_eq_sound s (codes "email") is)))
      | inr no3 ↦ elim (Bool-cases (text_eq s (codes "date"))) [
        | inl is ↦ inr (inr (inr (text_eq_sound s (codes "date") is)))
        | inr no4 ↦ ground (arith, e, no1, no2, no3, no4)
      ]
    ]
  ]
]

read_of_eq : (s literal : Text) → s ≡ literal → Reads (read_type literal) → Reads (read_type s)
read_of_eq s literal e (type, read) = (type, ap read_type e ∙ read)

read_type_complete : (s : Text) → IsFieldType s → Reads (read_type s)
unfolding read_type text_eq
read_type_complete s (inl e) = read_of_eq s _ e (_, refl)
read_type_complete s (inr (inl e)) = read_of_eq s _ e (_, refl)
read_type_complete s (inr (inr (inl e))) = read_of_eq s _ e (_, refl)
read_type_complete s (inr (inr (inr e))) = read_of_eq s _ e (_, refl)

pub Option-cases : {A : Type 0} (x : Option A) → (x ≡ none) ⊎ Reads x
Option-cases none = inl refl
Option-cases (some a) = inr (a, refl)

read_types_sound :
    (entries : List (Text × Text)) → Reads (read_types entries) → HasFieldTypes entries
unfolding read_types
read_types_sound [] read = tt
read_types_sound ((name, text) ∷ entries) (types, e) = elim (Option-cases (read_type text)) [
  | inl unknown ↦ cc
  | inr known ↦ elim (Option-cases (read_types entries)) [
    | inl unread ↦ ground (arith, known.1, unread, e)
    | inr rest ↦ (read_type_sound text known, read_types_sound entries rest)
  ]
]

read_types_complete :
    (entries : List (Text × Text)) → HasFieldTypes entries → Reads (read_types entries)
unfolding read_types
read_types_complete [] known = ([], refl)
read_types_complete ((name, text) ∷ entries) (known, rest) =
    let (type, e) = read_type_complete text known in
    let (types, f) = read_types_complete entries rest in
    ((name, type) ∷ types, ground (arith, e, f))

-- The schema takes the rules exactly when each type is one of the enumeration.
pub read_optional_rules_iff :
    (body : RulesBody)
    → Reads (read_optional_rules (some body)) ↔ HasFieldTypes (or_default [] body.field_types)
unfolding read_optional_rules read_rules
read_optional_rules_iff body = elim (Option-cases (read_types (or_default [] body.field_types))) [
  | inl unread ↦ (
    λ (rules, e). ground (arith, unread, e),
    λ known. let read = read_types_complete (or_default [] body.field_types) known in cc,
  )
  | inr read ↦ (
    λ rules. read_types_sound (or_default [] body.field_types) read,
    λ known. rw (read.1, read_optional_rules, read_rules) (_, refl),
  )
]

-- ===== src/Uploads/Schemas.antt =====
-- src/validators/upload.validator.ts: the bounds and the defaults of the members of a body whose
-- types are right.
use file_processing_system.Prelude.{
  ℕ, ◌-◌, Bool, true, false, ◌&&◌, ◌||◌, leb, ◌==◌, List, [], ◌∷◌, Option, none, some,
  if◌then◌else◌, length, drop,
}
use file_processing_system.Prelude.Text.{Text, codes, text_eq}
use file_processing_system.Types.{FieldType, string, number, email, date, ValidationRules}
use file_processing_system.Storage.{max_file_size}

-- The members as the body has them, where any may be missing.
pub record RulesInput : Type 0 where
  pub required_fields : Option (List Text)
  pub field_types : Option (List (Text × FieldType))
  pub custom_patterns : Option (List (Text × Text))

-- The same in a body that is not parsed, where a type is any text.
pub record RulesBody : Type 0 where
  pub required_fields : Option (List Text)
  pub field_types : Option (List (Text × Text))
  pub custom_patterns : Option (List (Text × Text))

pub record PresignInput : Type 0 where
  pub filename : Text
  pub file_size : ℕ
  pub mime_type : Text
  pub priority : Option ℕ
  pub validation_rules : Option RulesBody
  pub batch_id : Option Text

pub record PresignRequest : Type 0 where
  pub filename : Text
  pub file_size : ℕ
  pub mime_type : Text
  pub priority : ℕ
  pub validation_rules : Option RulesInput
  pub batch_id : Option Text

-- What the handler reads of `PresignRequestSchema.partial()`.
pub record PresignOptions : Type 0 where
  pub priority : Option ℕ
  pub validation_rules : Option RulesInput
  pub batch_id : Option Text

pub record ConfirmUpload : Type 0 where
  pub s3_key : Text
  pub original_name : Text
  pub file_size : ℕ

pub record BatchConfirm : Type 0 where
  pub batch_id : Text
  pub files : List ConfirmUpload
  pub priority : ℕ
  pub validation_rules : Option RulesInput

-- `value ?? fallback`
unfoldable pub or_default : {A : Type 0} → A → Option A → A
or_default fallback none = fallback
or_default fallback (some value) = value

unfoldable pub parse_rules : RulesInput → ValidationRules
parse_rules rules = record {
  required_fields = or_default [] rules.required_fields;
  field_types = or_default [] rules.field_types;
  custom_patterns = or_default [] rules.custom_patterns;
}

-- `.min(low).max(high)`
unfoldable pub in_range : ℕ → ℕ → ℕ → Bool
in_range low high n = leb low n && leb n high

-- the last `n` units of a text
abbrev pub ending : ℕ → Text → Text
ending n s = drop (length s - n) s

-- `.` and the letters of `csv` in either case
unfoldable pub is_csv_suffix : Text → Bool
is_csv_suffix (dot ∷ c ∷ s ∷ v ∷ []) =
    dot == 46 && (c == 67 || c == 99) && (s == 83 || s == 115) && (v == 86 || v == 118)
is_csv_suffix _ = false

-- `/\.csv$/i.test(filename)`
unfoldable pub has_csv_suffix : Text → Bool
has_csv_suffix filename = is_csv_suffix (ending 4 filename)

unfoldable pub valid_size : ℕ → Bool
valid_size n = in_range 1 max_file_size n

unfoldable pub valid_name : Text → Bool
valid_name s = in_range 1 255 (length s)

-- `.optional().default(5)` after `.min(1).max(10)`
unfoldable pub valid_priority : Option ℕ → Bool
valid_priority none = true
valid_priority (some n) = in_range 1 10 n

-- `z.nativeEnum(FieldType)`
unfoldable pub read_type : Text → Option FieldType
read_type s =
    if text_eq s (codes "string")
    then some string
    else if text_eq s (codes "number")
    then some number
    else if text_eq s (codes "email")
    then some email
    else if text_eq s (codes "date")
    then some date
    else none

-- `z.record(z.string(), z.nativeEnum(FieldType))`
unfoldable pub read_types : List (Text × Text) → Option (List (Text × FieldType))
read_types [] = some []
read_types ((name, text) ∷ entries) =
    let rest = read_types entries in
    elim (read_type text) [
      | none ↦ none
      | some type ↦ elim rest [ none ↦ none | some types ↦ some ((name, type) ∷ types) ]
    ]

-- `ValidationRulesSchema`, with its defaults
unfoldable pub read_rules : RulesBody → Option RulesInput
unfolding or_default
read_rules body = elim (read_types (or_default [] body.field_types)) [
  | none ↦ none
  | some types ↦ some (record {
    required_fields = some (or_default [] body.required_fields);
    field_types = some types;
    custom_patterns = some (or_default [] body.custom_patterns);
  })
]

-- `ValidationRulesSchema.optional()`
unfoldable pub read_optional_rules : Option RulesBody → Option (Option RulesInput)
unfolding read_rules
read_optional_rules none = some none
read_optional_rules (some body) = elim (read_rules body) [
  | none ↦ none
  | some rules ↦ some (some rules)
]

module _ (is_uuid : Text → Bool) where
  unfoldable pub valid_batch : Option Text → Bool
  valid_batch none = true
  valid_batch (some id) = is_uuid id

  unfoldable pub valid_members : PresignInput → Bool
  unfolding valid_name has_csv_suffix valid_size valid_priority valid_batch
  valid_members input =
      valid_name input.filename
      && has_csv_suffix input.filename
      && valid_size input.file_size
      && text_eq input.mime_type (codes "text/csv")
      && valid_priority input.priority
      && valid_batch input.batch_id

  unfoldable pub check_presign : PresignInput → Option PresignRequest
  unfolding valid_members read_optional_rules
  check_presign input = elim (read_optional_rules input.validation_rules) [
    | none ↦ none
    | some rules ↦
        if valid_members input
        then some (record {
          filename = input.filename;
          file_size = input.file_size;
          mime_type = input.mime_type;
          priority = or_default 5 input.priority;
          validation_rules = rules;
          batch_id = input.batch_id;
        })
        else none
  ]

unfoldable pub valid_upload : ConfirmUpload → Bool
valid_upload upload =
    leb 1 (length upload.s3_key) && valid_name upload.original_name && valid_size upload.file_size

unfoldable pub check_confirm : ConfirmUpload → Option ConfirmUpload
check_confirm upload = if valid_upload upload then some upload else none

-- `z.array(...).min(1).max(20)`
unfoldable pub valid_count : {A : Type 0} → List A → Bool
valid_count files = in_range 1 20 (length files)

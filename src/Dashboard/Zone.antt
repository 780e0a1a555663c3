-- ===== src/Dashboard/Zone.antt =====
-- dashboard/src/components/upload: ValidationRulesForm.tsx, which gathers the rules, and
-- UploadZone.tsx, which hands the chosen file to `upload`; and the request that
-- dashboard/src/hooks/useUpload.ts makes of it.
mod Ready
mod Handed
mod Rules
mod Laws
mod Tests
use file_processing_system.Prelude.{
  ℕ, zero, suc, ◌+◌, ◌-◌, ◌*◌, Bool, true, false, not, ◌&&◌, ◌||◌, ltb, leb, List, [], ◌∷◌, ◌++◌,
  map, Option, none, some, if◌then◌else◌, length, drop,
}
use file_processing_system.Prelude.Text.{Text, codes, text_eq}
use file_processing_system.Uploads.Schemas.{RulesBody, PresignInput, or_default}
use file_processing_system.Dashboard.Batches.{LocalFile}

-- The rules as the form emits them, where `undefined` is `none`.
pub record FormRules : Type 0 where
  pub required_fields : Option (List Text)
  pub field_types : Option (List (Text × Text))
  pub custom_patterns : Option (List (Text × Text))

-- The form's three states and what it emitted last, which the zone keeps in a ref.
pub record RulesForm : Type 0 where
  pub required_fields : List Text
  pub field_types : List (Text × Text)
  pub custom_patterns : List (Text × Text)
  pub emitted : FormRules

-- `list.length > 0 ? list : undefined`
abbrev pub unless_empty : {A : Type 0} → List A → Option (List A)
unless_empty [] = none
unless_empty (x ∷ xs) = some (x ∷ xs)

unfoldable pub emit_rules : List Text → List (Text × Text) → List (Text × Text) → FormRules
emit_rules required_fields field_types custom_patterns = record {
  required_fields = unless_empty required_fields;
  field_types = unless_empty field_types;
  custom_patterns = unless_empty custom_patterns;
}

unfoldable pub handle_required_fields : List Text → RulesForm → RulesForm
unfolding emit_rules
handle_required_fields fields form = record form {
  required_fields = fields;
  emitted = emit_rules fields form.field_types form.custom_patterns;
}

unfoldable pub handle_field_types : List (Text × Text) → RulesForm → RulesForm
unfolding emit_rules
handle_field_types field_types form = record form {
  field_types = field_types;
  emitted = emit_rules form.required_fields field_types form.custom_patterns;
}

unfoldable pub handle_custom_patterns : List (Text × Text) → RulesForm → RulesForm
unfolding emit_rules
handle_custom_patterns patterns form = record form {
  custom_patterns = patterns;
  emitted = emit_rules form.required_fields form.field_types patterns;
}

unfoldable pub rule_count : RulesForm → ℕ
rule_count form =
    length form.required_fields + length form.field_types + length form.custom_patterns

abbrev pub empty_form : RulesForm
empty_form = record {
  required_fields = [];
  field_types = [];
  custom_patterns = [];
  emitted = record { required_fields = none; field_types = none; custom_patterns = none };
}

-- `MAX_FILE_SIZE`
abbrev pub max_zone_size : ℕ
max_zone_size = 500 * 1024 * 1024

-- `toLowerCase()` of the letters of ASCII: no other unit becomes one of `.csv`, the only text that
-- is looked for.
abbrev pub lower_unit : ℕ → ℕ
lower_unit c = if leb 65 c && leb c 90 then c + 32 else c

unfoldable pub ends_with : Text → Text → Bool
ends_with suffix s =
    leb (length suffix) (length s) && text_eq (drop (length s - length suffix) s) suffix

unfoldable pub is_csv_name : Text → Bool
unfolding ends_with
is_csv_name name = ends_with (codes ".csv") (map lower_unit name)

unfoldable pub has_rules : FormRules → Bool
has_rules rules =
    ltb 0 (length (or_default [] rules.required_fields))
    || ltb 0 (length (or_default [] rules.field_types))
    || ltb 0 (length (or_default [] rules.custom_patterns))

-- The call `upload(file, { priority, validationRules })`.
pub record UploadCall : Type 0 where
  pub file : LocalFile
  pub priority : ℕ
  pub validation_rules : Option FormRules

pub record UploadZone : Type 0 where
  pub validation_error : Option Text
  pub priority : ℕ
  pub form : RulesForm

unfoldable pub not_csv_message : Text → Text
not_csv_message name =
    codes "\"" ++ (name ++ codes "\" is not a CSV file. Only .csv files are supported.")

unfoldable pub oversize_message : Text → Text
oversize_message name = codes "\"" ++ (name ++ codes "\" exceeds 500MB limit.")

unfoldable pub refuse_file : Text → UploadZone → UploadZone × Option UploadCall
refuse_file message zone = (record zone { validation_error = some message }, none)

unfoldable pub call_upload : LocalFile → UploadZone → UploadZone × Option UploadCall
unfolding has_rules
call_upload file zone = (
  zone,
  some (record {
    file = file;
    priority = zone.priority;
    validation_rules = if has_rules zone.form.emitted then some zone.form.emitted else none;
  }),
)

-- Only the first of the files is read.
unfoldable pub check_files : List LocalFile → UploadZone → UploadZone × Option UploadCall
unfolding refuse_file call_upload not_csv_message oversize_message is_csv_name
check_files [] zone = (zone, none)
check_files (file ∷ files) zone =
    if not (is_csv_name file.0)
    then refuse_file (not_csv_message file.0) zone
    else if ltb max_zone_size file.1
    then refuse_file (oversize_message file.0) zone
    else call_upload file zone

unfoldable pub handle_files : List LocalFile → UploadZone → UploadZone × Option UploadCall
unfolding check_files
handle_files files zone = check_files files (record zone { validation_error = none })

-- The options of the priority, and the one at an index.
abbrev pub priority_options : List ℕ
priority_options = 1 ∷ 2 ∷ 3 ∷ 4 ∷ 5 ∷ 6 ∷ 7 ∷ 8 ∷ 9 ∷ 10 ∷ []

unfoldable pub choose_option : ℕ → List ℕ → UploadZone → UploadZone
choose_option i [] zone = zone
choose_option zero (n ∷ options) zone = record zone { priority = n }
choose_option (suc i) (n ∷ options) zone = choose_option i options zone

-- What the user does at the zone.
pub data ZoneAction : Type 0 where
  selects : List LocalFile → ZoneAction
  chooses : ℕ → ZoneAction
  requires : List Text → ZoneAction
  types_as patterns_as : List (Text × Text) → ZoneAction

unfoldable pub act_on_zone : ZoneAction → UploadZone → UploadZone
unfolding handle_files choose_option handle_required_fields handle_field_types
    handle_custom_patterns
act_on_zone (selects files) zone = (handle_files files zone).0
act_on_zone (chooses i) zone = choose_option i priority_options zone
act_on_zone (requires fields) zone = record zone { form = handle_required_fields fields zone.form }
act_on_zone (types_as field_types) zone = record zone {
  form = handle_field_types field_types zone.form;
}
act_on_zone (patterns_as patterns) zone = record zone {
  form = handle_custom_patterns patterns zone.form;
}

unfoldable pub use_zone : List ZoneAction → UploadZone → UploadZone
use_zone [] zone = zone
use_zone (action ∷ actions) zone = use_zone actions (act_on_zone action zone)

abbrev pub new_zone : UploadZone
new_zone = record { validation_error = none; priority = 5; form = empty_form }

abbrev pub rules_body : Option FormRules → Option RulesBody
rules_body none = none
rules_body (some rules) = some (record {
  required_fields = rules.required_fields;
  field_types = rules.field_types;
  custom_patterns = rules.custom_patterns;
})

-- The body of the request for the URL.
unfoldable pub presign_body : UploadCall → PresignInput
presign_body call = record {
  filename = call.file.0;
  file_size = call.file.1;
  mime_type = codes "text/csv";
  priority = some call.priority;
  validation_rules = rules_body call.validation_rules;
  batch_id = none;
}

-- ===== src/Dashboard/Zone/Laws.antt =====
-- dashboard/src/components/upload/UploadZone.tsx: which files it hands over, with which rules, and
-- what the schema of src/validators/upload.validator.ts says of them.
use mathlib.Core.Path.{subst}
use file_processing_system.Dashboard.Zone.Rules.{
  Reads, Option-cases, HasFieldTypes, read_optional_rules_iff,
}
use file_processing_system.Prelude.{
  ◌+◌, sym, ℕ, ◌<◌, ◌≤◌, ◌≡◌, refl, ap, ◌∙◌, ◌↔◌, inl, inr, arith, Bool, true, false, ◌&&◌,
  Bool-cases, ltb, leb, List, [], ◌∷◌, Option, none, some, if◌then◌else◌, length,
}
use file_processing_system.Prelude.Text.{Text, codes, text_eq, text_eq_refl}
use file_processing_system.Storage.{max_file_size}
use file_processing_system.Uploads.Schemas.{
  PresignInput, valid_members, read_optional_rules, PresignRequest, or_default, check_presign,
  has_csv_suffix, valid_name, valid_size, valid_priority, valid_batch, in_range,
}
use file_processing_system.Dashboard.Batches.{LocalFile}
use file_processing_system.Dashboard.Zone.{
  rules_body, FormRules, RulesForm, unless_empty, emit_rules, rule_count, has_rules, UploadCall,
  UploadZone, handle_files, ZoneAction, use_zone, new_zone, presign_body,
}
use file_processing_system.Dashboard.Zone.Ready.{IsReady, use_zone-IsReady, new_zone-IsReady}
use file_processing_system.Dashboard.Zone.Handed.{
  Handed, handed, handle_files-Handed, none-ne-some, is_csv_name-has_csv_suffix,
}

or_default-unless_empty : {A : Type 0} (xs : List A) → or_default [] (unless_empty xs) ≡ xs
unfolding or_default
or_default-unless_empty [] = refl
or_default-unless_empty (x ∷ xs) = refl

-- The rules of a call are those of the form, and are left out only when the form has none.
pub data Carries (form : RulesForm) (rules : Option FormRules) : Type 0 where
  carries_none : rules ≡ none → rule_count form ≡ 0 → Carries form rules
  carries_some :
      {sent : FormRules}
      → rules ≡ some sent
      → 0 < rule_count form
      → or_default [] sent.required_fields ≡ form.required_fields
      → or_default [] sent.field_types ≡ form.field_types
      → or_default [] sent.custom_patterns ≡ form.custom_patterns
      → Carries form rules

has_rules-rule_count :
    (form : RulesForm)
    → has_rules (emit_rules form.required_fields form.field_types form.custom_patterns)
      ≡ ltb 0 (rule_count form)
unfolding has_rules emit_rules rule_count
has_rules-rule_count form =
    rw
      (
        or_default-unless_empty form.required_fields,
        or_default-unless_empty form.field_types,
        or_default-unless_empty form.custom_patterns,
      )
      (ground arith)

Handed-Carries :
    (zone : UploadZone) (call : UploadCall)
    → IsReady zone
    → Handed zone call
    → Carries zone.form call.validation_rules
unfolding emit_rules
Handed-Carries zone call (_, kept) (handed csv fits priority rules) =
    let counted : has_rules zone.form.emitted ≡ ltb 0 (rule_count zone.form) =
      ap has_rules kept ∙ has_rules-rule_count zone.form in
    elim (Bool-cases (ltb 0 (rule_count zone.form))) [
      | inl some_rule ↦
          carries_some
            (rules ∙ ap (λ b. if b then some zone.form.emitted else none) (counted ∙ some_rule))
            (ground (arith, some_rule))
            (ap (λ r. or_default [] r.required_fields) kept
              ∙ or_default-unless_empty zone.form.required_fields)
            (ap (λ r. or_default [] r.field_types) kept
              ∙ or_default-unless_empty zone.form.field_types)
            (ap (λ r. or_default [] r.custom_patterns) kept
              ∙ or_default-unless_empty zone.form.custom_patterns)
      | inr no_rule ↦
          carries_none
            (rules ∙ ap (λ b. if b then some zone.form.emitted else none) (counted ∙ no_rule))
            (ground (arith, no_rule))
    ]

-- Whatever the user did before: a call carries no rules when the form has none, and otherwise
-- the required fields, the types and the patterns that the form has.
pub handle_files-Carries :
    (actions : List ZoneAction) (files : List LocalFile) (call : UploadCall)
    → (handle_files files (use_zone actions new_zone)).1 ≡ some call
    → Carries (use_zone actions new_zone).form call.validation_rules
handle_files-Carries actions files call e =
    Handed-Carries (use_zone actions new_zone) call
      (use_zone-IsReady actions new_zone new_zone-IsReady)
      (handle_files-Handed files (use_zone actions new_zone) call e)

abbrev pub IsTaken : Option PresignRequest → Type 0
IsTaken taken = (request : PresignRequest) × (taken ≡ some request)

if-IsTaken :
    (b : Bool) (request : PresignRequest) → IsTaken (if b then some request else none) ↔ (b ≡ true)
if-IsTaken true request = (λ taken. refl, λ e. (request, refl))
if-IsTaken false request = (λ (other, e). absurd (none-ne-some e), λ e. cc)

abbrev presign_tests : ℕ → ℕ → ℕ → Bool → Bool → Bool
presign_tests len size priority suffix text_csv =
    leb 1 len
    && leb len 255
    && suffix
    && (leb 1 size && leb size max_file_size)
    && text_csv
    && (leb 1 priority && leb priority 10)
    && true

-- The tests of the schema, of which the zone makes all but two bounds sure.
tests_iff :
    (len size priority : ℕ) (suffix text_csv : Bool)
    → suffix ≡ true
    → text_csv ≡ true
    → 4 ≤ len
    → size ≤ max_file_size
    → 1 ≤ priority
    → priority ≤ 10
    → (presign_tests len size priority suffix text_csv ≡ true) ↔ ((len ≤ 255) × (1 ≤ size))
tests_iff len size priority suffix text_csv is_suffix is_csv long fits low high = (
  λ e. ground (arith, e, is_suffix, is_csv, long, fits, low, high),
  λ h. ground (arith, h, is_suffix, is_csv, long, fits, low, high),
)

-- A form without rules has no types.
no_types : (required types patterns : ℕ) → required + types + patterns ≡ 0 → types ≡ 0
no_types required types patterns e = omega (arith, e)

HasFieldTypes-empty : (entries : List (Text × Text)) → length entries ≡ 0 → HasFieldTypes entries
HasFieldTypes-empty [] e = tt
HasFieldTypes-empty (entry ∷ entries) e = absurd (omega (arith, e))

-- The schema takes the rules of a call exactly when it knows the types of the form.
rules_body_iff :
    (form : RulesForm) (rules : Option FormRules)
    → Carries form rules
    → Reads (read_optional_rules (rules_body rules)) ↔ HasFieldTypes form.field_types
unfolding read_optional_rules rule_count
rules_body_iff form rules (carries_none e empty) =
    let no_entries =
      no_types (length form.required_fields) (length form.field_types) (length form.custom_patterns)
        empty in
    (
      λ read. HasFieldTypes-empty form.field_types no_entries,
      λ known. (none, ap (λ r. read_optional_rules (rules_body r)) e),
    )
rules_body_iff form rules (carries_some {sent} e counted required types patterns) =
    subst (λ r. Reads (read_optional_rules (rules_body r)) ↔ HasFieldTypes form.field_types) (sym e)
      (subst
        (λ entries. Reads (read_optional_rules (rules_body (some sent))) ↔ HasFieldTypes entries)
        types
        (read_optional_rules_iff (record {
          required_fields = sent.required_fields;
          field_types = sent.field_types;
          custom_patterns = sent.custom_patterns;
        })))

check_presign_iff :
    (is_uuid : Text → Bool) (input : PresignInput)
    → IsTaken (check_presign is_uuid input)
      ↔ ((valid_members is_uuid input ≡ true) × Reads (read_optional_rules input.validation_rules))
unfolding check_presign
check_presign_iff is_uuid input = elim (Option-cases (read_optional_rules input.validation_rules)) [
  | inl unread ↦ (
    λ (request, e). ground (arith, unread, e),
    λ (valid, (rules, read)). absurd (none-ne-some (sym unread ∙ read)),
  )
  | inr (rules, read) ↦
      rw (read, check_presign)
        (
          (λ taken. ((if-IsTaken (valid_members is_uuid input) _).0 taken, (rules, refl))),
          λ (valid, _). (if-IsTaken (valid_members is_uuid input) _).1 valid,
        )
]

Handed-valid_members :
    (is_uuid : Text → Bool) (zone : UploadZone) (call : UploadCall)
    → IsReady zone
    → Handed zone call
    → (valid_members is_uuid (presign_body call) ≡ true)
      ↔ ((length call.file.0 ≤ 255) × (1 ≤ call.file.1))
unfolding valid_members presign_body valid_name valid_size valid_priority valid_batch in_range
Handed-valid_members is_uuid zone call ((low, high), _) (handed csv fits priority _) =
    let (suffix, long) = is_csv_name-has_csv_suffix call.file.0 csv in
    tests_iff (length call.file.0) call.file.1 call.priority (has_csv_suffix call.file.0)
      (text_eq (codes "text/csv") (codes "text/csv")) suffix (text_eq_refl (codes "text/csv")) long
      fits (ground (arith, low, priority)) (ground (arith, high, priority))

-- Whatever the user did before: the schema of the server takes the request for a file that the zone
-- hands over exactly when the file's name has at most 255 units, the file is not empty and each
-- type that the form gives a column is `string`, `number`, `email` or `date`.
pub handle_files-check_presign :
    (actions : List ZoneAction) (files : List LocalFile) (call : UploadCall) (is_uuid : Text → Bool)
    → (handle_files files (use_zone actions new_zone)).1 ≡ some call
    → IsTaken (check_presign is_uuid (presign_body call)) ↔ (
        (length call.file.0 ≤ 255)
        × (1 ≤ call.file.1)
        × HasFieldTypes (use_zone actions new_zone).form.field_types)
unfolding presign_body
handle_files-check_presign actions files call is_uuid e =
    let zone = use_zone actions new_zone in
    let taken = check_presign_iff is_uuid (presign_body call) in
    let members =
      Handed-valid_members is_uuid zone call (use_zone-IsReady actions new_zone new_zone-IsReady)
        (handle_files-Handed files zone call e) in
    let rules =
      rules_body_iff zone.form call.validation_rules (handle_files-Carries actions files call e) in
    (
      λ t.
          let (valid, read) = taken.0 t in
          let (short, full) = members.0 valid in (short, full, rules.0 read),
      λ (short, full, known). taken.1 (members.1 (short, full), rules.1 known),
    )

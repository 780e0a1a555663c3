-- ===== src/Dashboard/Zone/Handed.antt =====
-- dashboard/src/components/upload/UploadZone.tsx: the call that a selection ends in.
use mathlib.Core.Path.{subst}
use file_processing_system.Prelude.{
  ℕ, zero, suc, ◌-◌, ◌≤◌, ◌≡◌, refl, sym, ap, ◌∙◌, inl, inr, arith, Bool, true, false, ◌&&◌,
  Bool-cases, ltb, leb, List, [], ◌∷◌, map, Option, none, some, if◌then◌else◌, length, drop,
}
use file_processing_system.Prelude.Text.{Text, codes, text_eq}
use file_processing_system.Uploads.Schemas.{has_csv_suffix, is_csv_suffix, ending}
use file_processing_system.Dashboard.Batches.{LocalFile}
use file_processing_system.Dashboard.Zone.{
  lower_unit, ends_with, is_csv_name, has_rules, UploadCall, UploadZone, max_zone_size, call_upload,
  refuse_file, check_files, handle_files,
}

drop-map : {A B : Type 0} (f : A → B) (n : ℕ) (xs : List A) → drop n (map f xs) ≡ map f (drop n xs)
drop-map f zero xs = refl
drop-map f (suc n) [] = refl
drop-map f (suc n) (x ∷ xs) = drop-map f n xs

length-map : {A B : Type 0} (f : A → B) (xs : List A) → length (map f xs) ≡ length xs
length-map f [] = refl
length-map f (x ∷ xs) = ap suc (length-map f xs)

and-split : (b c : Bool) → (b && c) ≡ true → (b ≡ true) × (c ≡ true)
and-split true c e = (refl, e)
and-split false c e = cc

-- A text of four units that is `.csv` in lower case.
is_csv_suffix-lower :
    (s : Text) → text_eq (map lower_unit s) (codes ".csv") ≡ true → is_csv_suffix s ≡ true
unfolding text_eq is_csv_suffix
is_csv_suffix-lower [] e = cc
is_csv_suffix-lower (a ∷ []) e = ground arith
is_csv_suffix-lower (a ∷ b ∷ []) e = ground arith
is_csv_suffix-lower (a ∷ b ∷ c ∷ []) e = ground arith
is_csv_suffix-lower (a ∷ b ∷ c ∷ d ∷ []) e = ground arith
is_csv_suffix-lower (a ∷ b ∷ c ∷ d ∷ x ∷ s) e = ground arith

pub is_csv_name-has_csv_suffix :
    (name : Text) → is_csv_name name ≡ true → (has_csv_suffix name ≡ true) × (4 ≤ length name)
unfolding is_csv_name ends_with has_csv_suffix
is_csv_name-has_csv_suffix name e =
    let (long, ends) =
      and-split (leb (length (codes ".csv")) (length (map lower_unit name)))
        (text_eq (drop (length (map lower_unit name) - length (codes ".csv")) (map lower_unit name))
          (codes ".csv"))
        e in
    let count : length (map lower_unit name) ≡ length name = length-map lower_unit name in
    (
      is_csv_suffix-lower (ending 4 name) (
          ap (λ t. text_eq t (codes ".csv"))
            (sym (drop-map lower_unit (length name - 4) name)
              ∙ ap (λ n. drop (n - 4) (map lower_unit name)) (sym count))
          ∙ ends),
      ground (arith, long, count),
    )

some-eq : {A : Type 0} {a b : A} → some a ≡ some b → a ≡ b
some-eq e = cc

-- The call that a selection ends in.
pub data Handed (zone : UploadZone) (call : UploadCall) : Type 0 where
  handed :
      is_csv_name call.file.0 ≡ true
      → call.file.1 ≤ max_zone_size
      → call.priority ≡ zone.priority
      → call.validation_rules
        ≡ (if has_rules zone.form.emitted then some zone.form.emitted else none)
      → Handed zone call

check_files_other :
    (file : LocalFile) (files : List LocalFile) (zone : UploadZone)
    → is_csv_name file.0 ≡ false
    → (check_files (file ∷ files) zone).1 ≡ none
unfolding check_files refuse_file
check_files_other file files zone other = rw other refl

check_files_large :
    (file : LocalFile) (files : List LocalFile) (zone : UploadZone)
    → is_csv_name file.0 ≡ true
    → ltb max_zone_size file.1 ≡ true
    → (check_files (file ∷ files) zone).1 ≡ none
unfolding check_files refuse_file
check_files_large file files zone csv large = rw (csv, large) refl

check_files_passed :
    (file : LocalFile) (files : List LocalFile) (zone : UploadZone)
    → is_csv_name file.0 ≡ true
    → ltb max_zone_size file.1 ≡ false
    → check_files (file ∷ files) zone ≡ call_upload file zone
unfolding check_files
check_files_passed file files zone csv fits = rw (csv, fits) refl

pub none-ne-some : {A : Type 0} {a : A} → ◌≡◌ {A = Option A} none (some a) → ⊥
none-ne-some e = cc

call_upload-Handed :
    (file : LocalFile) (zone : UploadZone) (call : UploadCall)
    → is_csv_name file.0 ≡ true
    → ltb max_zone_size file.1 ≡ false
    → (call_upload file zone).1 ≡ some call
    → Handed zone call
unfolding call_upload
call_upload-Handed file zone call csv fits e =
    subst (Handed zone) (some-eq e) (handed csv (ground (arith, fits)) refl refl)

check_files-Handed :
    (files : List LocalFile) (zone : UploadZone) (call : UploadCall)
    → (check_files files zone).1 ≡ some call
    → Handed zone call
unfolding check_files
check_files-Handed [] zone call e = cc
check_files-Handed (file ∷ files) zone call e = elim (Bool-cases (is_csv_name file.0)) [
  | inr other ↦ absurd (none-ne-some (sym (check_files_other file files zone other) ∙ e))
  | inl csv ↦ elim (Bool-cases (ltb max_zone_size file.1)) [
    | inl large ↦ absurd (none-ne-some (sym (check_files_large file files zone csv large) ∙ e))
    | inr fits ↦
        call_upload-Handed file zone call csv fits
          (sym (ap (λ r. r.1) (check_files_passed file files zone csv fits)) ∙ e)
  ]
]

Handed-cleared :
    {zone : UploadZone} {call : UploadCall}
    → Handed (record zone { validation_error = none }) call
    → Handed zone call
Handed-cleared (handed csv fits priority rules) = handed csv fits priority rules

pub handle_files-Handed :
    (files : List LocalFile) (zone : UploadZone) (call : UploadCall)
    → (handle_files files zone).1 ≡ some call
    → Handed zone call
unfolding handle_files
handle_files-Handed files zone call e =
    Handed-cleared (check_files-Handed files (record zone { validation_error = none }) call e)

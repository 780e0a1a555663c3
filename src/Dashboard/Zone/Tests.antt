-- ===== src/Dashboard/Zone/Tests.antt =====
-- dashboard/src/components/upload/UploadZone.tsx: a file that is handed over with one rule.
use file_processing_system.Prelude.{◌≡◌, refl, ◌≤◌, ◌↔◌, true, List, [], ◌∷◌, none, some, length}
use file_processing_system.Prelude.Text.{codes, text_eq}
use file_processing_system.Uploads.Schemas.{check_presign, or_default}
use file_processing_system.Dashboard.Batches.{LocalFile}
use file_processing_system.Dashboard.Zone.Rules.{HasFieldTypes}
use file_processing_system.Dashboard.Zone.{
  UploadCall, ZoneAction, chooses, requires, types_as, selects, handle_files, use_zone, act_on_zone,
  new_zone, presign_body,
}
use file_processing_system.Dashboard.Zone.Laws.{
  IsTaken, handle_files-check_presign, Carries, handle_files-Carries,
}

abbrev urgent : List ZoneAction
urgent =
    chooses 0
    ∷ selects ((codes "a.txt", 3) ∷ [])
    ∷ requires (codes "id" ∷ [])
    ∷ types_as ((codes "id", codes "number") ∷ [])
    ∷ []

abbrev one_file : List LocalFile
one_file = (codes "b.CSV", 12) ∷ []

abbrev one_call : UploadCall
one_call = record {
  file = (codes "b.CSV", 12);
  priority = 1;
  validation_rules = some (record {
    required_fields = some (codes "id" ∷ []);
    field_types = some ((codes "id", codes "number") ∷ []);
    custom_patterns = none;
  });
}

was_called : (handle_files one_file (use_zone urgent new_zone)).1 ≡ some one_call
unfolding handle_files use_zone act_on_zone text_eq or_default
was_called = refl

handle_files-check_presign_example :
    IsTaken (check_presign (λ id. true) (presign_body one_call)) ↔ (
      (length one_call.file.0 ≤ 255)
      × (1 ≤ one_call.file.1)
      × HasFieldTypes (use_zone urgent new_zone).form.field_types)
handle_files-check_presign_example =
    handle_files-check_presign urgent one_file one_call (λ id. true) was_called

handle_files-Carries_example : Carries (use_zone urgent new_zone).form one_call.validation_rules
handle_files-Carries_example = handle_files-Carries urgent one_file one_call was_called

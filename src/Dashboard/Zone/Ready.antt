-- ===== src/Dashboard/Zone/Ready.antt =====
-- dashboard/src/components/upload/UploadZone.tsx: what the zone keeps through every action.
use file_processing_system.Prelude.{
  ℕ, zero, suc, ◌≤◌, ◌≡◌, refl, arith, not, ltb, if-elim, List, [], ◌∷◌, Option, All,
}
use file_processing_system.Dashboard.Batches.{LocalFile}
use file_processing_system.Dashboard.Zone.{
  emit_rules, is_csv_name, UploadCall, UploadZone, max_zone_size, call_upload, refuse_file,
  check_files, handle_files, priority_options, choose_option, ZoneAction, selects, chooses,
  requires, types_as, patterns_as, act_on_zone, handle_required_fields, handle_field_types,
  handle_custom_patterns, use_zone, new_zone,
}

-- What the zone is after any actions: the priority is one of the options, and the rules that it
-- keeps are those of the form.
abbrev pub IsReady : UploadZone → Type 0
IsReady zone =
    ((1 ≤ zone.priority) × (zone.priority ≤ 10))
    × (zone.form.emitted
        ≡ emit_rules zone.form.required_fields zone.form.field_types zone.form.custom_patterns)

choose_option-IsReady :
    (i : ℕ) (options : List ℕ) (zone : UploadZone)
    → All (λ n. (1 ≤ n) × (n ≤ 10)) options
    → IsReady zone
    → IsReady (choose_option i options zone)
unfolding choose_option
choose_option-IsReady i [] zone all ready = ready
choose_option-IsReady zero (n ∷ options) zone (bounds, all) (_, rules) = (bounds, rules)
choose_option-IsReady (suc i) (n ∷ options) zone (_, all) ready =
    choose_option-IsReady i options zone all ready

handle_files-IsReady :
    (files : List LocalFile) (zone : UploadZone)
    → IsReady zone
    → IsReady (handle_files files zone).0
unfolding handle_files check_files call_upload refuse_file
handle_files-IsReady [] zone ready = ready
handle_files-IsReady (file ∷ files) zone ready =
    if-elim {A = UploadZone × Option UploadCall} (λ r. IsReady r.0) (not (is_csv_name file.0)) ready
      (if-elim {A = UploadZone × Option UploadCall} (λ r. IsReady r.0) (ltb max_zone_size file.1)
        ready ready)

options_bounded : All (λ n. (1 ≤ n) × (n ≤ 10)) priority_options
options_bounded = ground arith

act_on_zone-IsReady :
    (action : ZoneAction) (zone : UploadZone) → IsReady zone → IsReady (act_on_zone action zone)
unfolding act_on_zone handle_required_fields handle_field_types handle_custom_patterns
act_on_zone-IsReady (selects files) zone ready = handle_files-IsReady files zone ready
act_on_zone-IsReady (chooses i) zone ready =
    choose_option-IsReady i priority_options zone options_bounded ready
act_on_zone-IsReady (requires fields) zone (bounds, rules) = (bounds, refl)
act_on_zone-IsReady (types_as field_types) zone (bounds, rules) = (bounds, refl)
act_on_zone-IsReady (patterns_as patterns) zone (bounds, rules) = (bounds, refl)

pub use_zone-IsReady :
    (actions : List ZoneAction) (zone : UploadZone) → IsReady zone → IsReady (use_zone actions zone)
unfolding use_zone
use_zone-IsReady [] zone ready = ready
use_zone-IsReady (action ∷ actions) zone ready =
    use_zone-IsReady actions (act_on_zone action zone) (act_on_zone-IsReady action zone ready)

pub new_zone-IsReady : IsReady new_zone
unfolding emit_rules
new_zone-IsReady = ((omega arith, omega arith), refl)

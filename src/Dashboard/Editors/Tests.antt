-- ===== src/Dashboard/Editors/Tests.antt =====
-- dashboard/src/components/upload: the editors at concrete rows.
use file_processing_system.Prelude.{◌≡◌, true, List, [], ◌∷◌, some}
use file_processing_system.Prelude.Text.{Text, codes}
use file_processing_system.Validator.Pattern.{JsEngine}
use file_processing_system.Dashboard.Editors.{
  FieldsAction, types, adds, removes, edit_fields, no_fields,
}
use file_processing_system.Dashboard.Editors.Types.{FieldTypeRow, TypesEditor, emit_types}
use file_processing_system.Dashboard.Editors.Patterns.{
  PatternsEditor, set_name, set_pattern, add_pattern_row, update_pattern_row, open_patterns,
  adds_row, updates_row, first, later,
}
use file_processing_system.Dashboard.Editors.Emissions.{lookup, last_type, last_pattern}
use file_processing_system.Dashboard.Editors.Laws.{
  AreFields, edit_fields-AreFields, emit_types-last_type,
}
use file_processing_system.Dashboard.Editors.Patterns.Laws.{PatternsReach-last_pattern}

abbrev typing : List FieldsAction
typing =
    types (codes " a ")
    ∷ adds
    ∷ types (codes "a")
    ∷ adds
    ∷ types (codes "b")
    ∷ adds
    ∷ removes (codes "b")
    ∷ []

edit_fields-AreFields_example : AreFields (edit_fields typing no_fields).fields
edit_fields-AreFields_example = edit_fields-AreFields typing

abbrev two_types : List FieldTypeRow
two_types =
    record { id = 0; name = codes "a "; type_name = codes "string" }
    ∷ record { id = 1; name = codes "a"; type_name = codes "date" }
    ∷ []

abbrev no_types : TypesEditor
no_types = record { next_id = 2; rows = []; emitted = [] }

emit_types-last_type_example :
    lookup (codes "a") (emit_types two_types no_types).emitted ≡ last_type (codes "a") two_types
emit_types-last_type_example =
    emit_types-last_type two_types no_types (codes "a") (λ e. cc) (λ e. cc)

-- An engine that knows every pattern and matches every text.
abbrev any_engine : JsEngine Text
any_engine = record {
  compile = λ pattern flags. some pattern;
  test = λ r t. true;
  parses_as_date = λ t. true;
}

abbrev edited : PatternsEditor
edited = update_pattern_row any_engine 0 (set_pattern (codes "x")) (
    update_pattern_row any_engine 0 (set_name (codes "a"))
      (add_pattern_row (open_patterns any_engine 0 [])))

PatternsReach-last_pattern_example :
    lookup (codes "a") edited.emitted ≡ last_pattern any_engine (codes "a") edited.rows
PatternsReach-last_pattern_example =
    PatternsReach-last_pattern any_engine (codes "a")
      (later (later (first 0 [] adds_row) (updates_row 0 (set_name (codes "a"))))
        (updates_row 0 (set_pattern (codes "x"))))
      (λ e. cc) (λ e. cc)

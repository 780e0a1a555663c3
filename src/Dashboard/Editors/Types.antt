-- ===== src/Dashboard/Editors/Types.antt =====
-- dashboard/src/components/upload/FieldTypesEditor.tsx: the rows of the editor and the object of
-- types that each change emits.
use file_processing_system.Prelude.{ℕ, suc, ◌==◌, List, [], ◌∷◌, ◌++◌, if◌then◌else◌}
use file_processing_system.Prelude.Text.{Text, codes, trim}
use file_processing_system.Dashboard.Editors.{assign_key, is_falsy}

pub record FieldTypeRow : Type 0 where
  pub id : ℕ
  pub name : Text
  pub type_name : Text

-- The module's `nextId`, the rows, and the last object that was given to `onChange`.
pub record TypesEditor : Type 0 where
  pub next_id : ℕ
  pub rows : List FieldTypeRow
  pub emitted : List (Text × Text)

-- The loop of `updateAndEmit`.
unfoldable pub fill_types : List (Text × Text) → List FieldTypeRow → List (Text × Text)
fill_types entries [] = entries
fill_types entries (row ∷ rows) =
    fill_types
      (if is_falsy (trim row.name)
        then entries
        else assign_key (trim row.name) row.type_name entries)
      rows

unfoldable pub emit_types : List FieldTypeRow → TypesEditor → TypesEditor
unfolding fill_types
emit_types rows editor = record editor { rows = rows; emitted = fill_types [] rows }

unfoldable pub add_type_row : TypesEditor → TypesEditor
unfolding emit_types
add_type_row editor =
    emit_types
      (editor.rows ++ record { id = editor.next_id; name = []; type_name = codes "string" } ∷ [])
      (record editor { next_id = suc editor.next_id })

-- `field` and `value` of `updateRow`
pub data TypeChange : Type 0 where
  set_name set_type : Text → TypeChange

unfoldable pub change_type_row : TypeChange → FieldTypeRow → FieldTypeRow
change_type_row (set_name value) row = record row { name = value }
change_type_row (set_type value) row = record row { type_name = value }

unfoldable pub change_type_rows : ℕ → TypeChange → List FieldTypeRow → List FieldTypeRow
unfolding change_type_row
change_type_rows id change [] = []
change_type_rows id change (row ∷ rows) =
    (if row.id == id then change_type_row change row else row) ∷ change_type_rows id change rows

unfoldable pub update_type_row : ℕ → TypeChange → TypesEditor → TypesEditor
unfolding emit_types change_type_rows
update_type_row id change editor = emit_types (change_type_rows id change editor.rows) editor

unfoldable pub other_type_rows : ℕ → List FieldTypeRow → List FieldTypeRow
other_type_rows id [] = []
other_type_rows id (row ∷ rows) =
    let rest = other_type_rows id rows in if row.id == id then rest else row ∷ rest

unfoldable pub remove_type_row : ℕ → TypesEditor → TypesEditor
unfolding emit_types other_type_rows
remove_type_row id editor = emit_types (other_type_rows id editor.rows) editor

-- The editor opens with a row for each entry of the object that the form has.
unfoldable pub open_type_rows : ℕ → List (Text × Text) → List FieldTypeRow
open_type_rows next_id [] = []
open_type_rows next_id ((name, type_name) ∷ entries) =
    record { id = next_id; name = name; type_name = type_name }
    ∷ open_type_rows (suc next_id) entries

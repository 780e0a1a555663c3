-- ===== src/Dashboard/Editors.antt =====
-- dashboard/src/components/upload: the editors of the validation rules. This file has the objects
-- that they emit and RequiredFieldsEditor.tsx.
pub mod Types
pub mod Patterns
mod Laws
mod Emissions
mod Tests
use file_processing_system.Prelude.{
  Bool, true, false, ◌||◌, List, [], ◌∷◌, ◌++◌, Option, none, some, if◌then◌else◌,
}
use file_processing_system.Prelude.Text.{Text, codes, text_eq, trim}

-- `record[key] = value` on an object that began as `{}`: a key that is there keeps its place. The
-- order of the keys is the one of their first assignments, and nothing is said of it.
unfoldable pub set_key : {A : Type 0} → Text → A → List (Text × A) → List (Text × A)
set_key key value [] = (key, value) ∷ []
set_key key value (entry ∷ entries) =
    let rest = set_key key value entries in
    if text_eq entry.0 key then (key, value) ∷ entries else entry ∷ rest

-- A string that is assigned to `__proto__` is ignored.
unfoldable pub assign_key : Text → Text → List (Text × Text) → List (Text × Text)
unfolding set_key
assign_key key value entries =
    if text_eq key (codes "__proto__") then entries else set_key key value entries

-- `!s` of a string
abbrev pub is_falsy : Text → Bool
is_falsy [] = true
is_falsy (c ∷ s) = false

-- `fields.includes(name)`
unfoldable pub has_field : Text → List Text → Bool
has_field name [] = false
has_field name (field ∷ fields) = text_eq field name || has_field name fields

-- `fields.filter((f) => f !== field)`
unfoldable pub without_field : Text → List Text → List Text
without_field field [] = []
without_field field (f ∷ fields) =
    let rest = without_field field fields in if text_eq f field then rest else f ∷ rest

-- The editor's input and the fields, which its parent keeps.
pub record FieldsEditor : Type 0 where
  pub input : Text
  pub fields : List Text

unfoldable pub add_field : FieldsEditor → FieldsEditor
unfolding has_field
add_field editor =
    let name = trim editor.input in
    if is_falsy name || has_field name editor.fields
    then editor
    else record { input = []; fields = editor.fields ++ name ∷ [] }

unfoldable pub remove_field : Text → FieldsEditor → FieldsEditor
unfolding without_field
remove_field field editor = record editor { fields = without_field field editor.fields }

-- What the user does.
pub data FieldsAction : Type 0 where
  types : Text → FieldsAction
  adds : FieldsAction
  removes : Text → FieldsAction

unfoldable pub act_on_fields : FieldsAction → FieldsEditor → FieldsEditor
unfolding add_field remove_field
act_on_fields (types text) editor = record editor { input = text }
act_on_fields adds editor = add_field editor
act_on_fields (removes field) editor = remove_field field editor

unfoldable pub edit_fields : List FieldsAction → FieldsEditor → FieldsEditor
edit_fields [] editor = editor
edit_fields (action ∷ actions) editor = edit_fields actions (act_on_fields action editor)

abbrev pub no_fields : FieldsEditor
no_fields = record { input = []; fields = [] }

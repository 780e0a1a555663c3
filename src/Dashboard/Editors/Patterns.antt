-- ===== src/Dashboard/Editors/Patterns.antt =====
-- dashboard/src/components/upload/CustomPatternsEditor.tsx: the rows of the editor and the object
-- of patterns that each change emits.
pub mod Laws
use file_processing_system.Prelude.{
  ℕ, suc, ◌+◌, ◌==◌, Bool, true, false, not, ◌&&◌, List, [], ◌∷◌, ◌++◌, Option, none, some,
  if◌then◌else◌, length,
}
use file_processing_system.Prelude.Text.{Text, codes, trim}
use file_processing_system.Validator.Pattern.{JsEngine}
use file_processing_system.Dashboard.Editors.{assign_key, is_falsy}

pub record PatternRow : Type 0 where
  pub id : ℕ
  pub name : Text
  pub pattern : Text
  pub error_message : Option Text

-- The module's `nextId`, the rows, and the last object that was given to `onChange`.
pub record PatternsEditor : Type 0 where
  pub next_id : ℕ
  pub rows : List PatternRow
  pub emitted : List (Text × Text)

abbrev pub has_none : {A : Type 0} → Option A → Bool
has_none none = true
has_none (some a) = false

abbrev pub invalid_pattern : Text
invalid_pattern = codes "Invalid regex pattern"

-- `field` and `value` of `updateRow`
pub data PatternChange : Type 0 where
  set_name set_pattern : Text → PatternChange

-- `row.name.trim() && row.pattern.trim() && !row.error`
unfoldable pub is_complete : PatternRow → Bool
is_complete row =
    not (is_falsy (trim row.name))
    && not (is_falsy (trim row.pattern))
    && has_none row.error_message

-- The loop of `updateAndEmit`.
unfoldable pub fill_patterns : List (Text × Text) → List PatternRow → List (Text × Text)
unfolding is_complete
fill_patterns entries [] = entries
fill_patterns entries (row ∷ rows) =
    fill_patterns
      (if is_complete row then assign_key (trim row.name) (trim row.pattern) entries else entries)
      rows

unfoldable pub emit_patterns : List PatternRow → PatternsEditor → PatternsEditor
unfolding fill_patterns
emit_patterns rows editor = record editor { rows = rows; emitted = fill_patterns [] rows }

unfoldable pub add_pattern_row : PatternsEditor → PatternsEditor
unfolding emit_patterns
add_pattern_row editor =
    emit_patterns
      (editor.rows
        ++ record { id = editor.next_id; name = []; pattern = []; error_message = none } ∷ [])
      (record editor { next_id = suc editor.next_id })

unfoldable pub other_pattern_rows : ℕ → List PatternRow → List PatternRow
other_pattern_rows id [] = []
other_pattern_rows id (row ∷ rows) =
    let rest = other_pattern_rows id rows in if row.id == id then rest else row ∷ rest

unfoldable pub remove_pattern_row : ℕ → PatternsEditor → PatternsEditor
unfolding emit_patterns other_pattern_rows
remove_pattern_row id editor = emit_patterns (other_pattern_rows id editor.rows) editor

module _ {R : Type 0} (engine : JsEngine R) where
  -- `new RegExp(pattern)` has no flags.
  unfoldable pub validate_regex : Text → Option Text
  validate_regex pattern =
      if is_falsy (trim pattern)
      then none
      else elim (engine.compile pattern []) [ none ↦ some invalid_pattern | some regex ↦ none ]

  unfoldable pub change_pattern_row : PatternChange → PatternRow → PatternRow
  unfolding validate_regex
  change_pattern_row (set_name value) row = record row { name = value }
  change_pattern_row (set_pattern value) row = record row {
    pattern = value;
    error_message = validate_regex value;
  }

  unfoldable pub change_pattern_rows : ℕ → PatternChange → List PatternRow → List PatternRow
  unfolding change_pattern_row
  change_pattern_rows id change [] = []
  change_pattern_rows id change (row ∷ rows) =
      (if row.id == id then change_pattern_row change row else row)
      ∷ change_pattern_rows id change rows

  unfoldable pub update_pattern_row : ℕ → PatternChange → PatternsEditor → PatternsEditor
  unfolding emit_patterns change_pattern_rows
  update_pattern_row id change editor =
      emit_patterns (change_pattern_rows id change editor.rows) editor

  -- The editor opens with a row for each entry of the object that the form has.
  unfoldable pub open_pattern_rows : ℕ → List (Text × Text) → List PatternRow
  unfolding validate_regex
  open_pattern_rows next_id [] = []
  open_pattern_rows next_id ((name, pattern) ∷ entries) =
      record {
        id = next_id;
        name = name;
        pattern = pattern;
        error_message = validate_regex pattern;
      }
      ∷ open_pattern_rows (suc next_id) entries

  unfoldable pub open_patterns : ℕ → List (Text × Text) → PatternsEditor
  unfolding open_pattern_rows
  open_patterns next_id entries = record {
    next_id = next_id + length entries;
    rows = open_pattern_rows next_id entries;
    emitted = entries;
  }

  -- What the user does.
  pub data PatternsStep (editor : PatternsEditor) : PatternsEditor → Type 0 where
    adds_row : PatternsStep editor (add_pattern_row editor)
    updates_row :
        (id : ℕ) (change : PatternChange)
        → PatternsStep editor (update_pattern_row id change editor)
    removes_row : (id : ℕ) → PatternsStep editor (remove_pattern_row id editor)

  -- What an editor becomes that opens on any object, with at least one change.
  pub data PatternsReach : PatternsEditor → Type 0 where
    first :
        (next_id : ℕ) (entries : List (Text × Text)) {next : PatternsEditor}
        → PatternsStep (open_patterns next_id entries) next
        → PatternsReach next
    later :
        {editor next : PatternsEditor}
        → PatternsReach editor
        → PatternsStep editor next
        → PatternsReach next

-- ===== src/Dashboard/Editors/Patterns/Laws.antt =====
-- dashboard/src/components/upload/CustomPatternsEditor.tsx: what the editor emits.
use file_processing_system.Prelude.{
  suc, ℕ, ◌==◌, ◌≡◌, ◌≢◌, refl, ap, ◌∙◌, List, [], ◌∷◌, if-elim, All, All-append,
}
use file_processing_system.Prelude.Text.{Text, codes, trim}
use file_processing_system.Validator.Pattern.{JsEngine}
use file_processing_system.Dashboard.Editors.Patterns.{
  PatternRow, PatternsEditor, PatternChange, set_name, set_pattern, fill_patterns, emit_patterns,
  add_pattern_row, change_pattern_row, change_pattern_rows, update_pattern_row, other_pattern_rows,
  remove_pattern_row, open_patterns, open_pattern_rows, PatternsStep, PatternsReach, adds_row,
  updates_row, removes_row, first, later,
}
use file_processing_system.Dashboard.Editors.Emissions.{
  lookup, last_pattern, or_else-none, blank_checked, IsChecked, lookup-fill_patterns,
}

module _ {R : Type 0} (engine : JsEngine R) where
  abbrev Emitted : PatternsEditor → Type 0
  Emitted editor =
      All (IsChecked engine) editor.rows × (editor.emitted ≡ fill_patterns [] editor.rows)

  change_pattern_rows-IsChecked :
      (id : ℕ) (change : PatternChange) (rows : List PatternRow)
      → All (IsChecked engine) rows
      → All (IsChecked engine) (change_pattern_rows engine id change rows)
  unfolding change_pattern_rows change_pattern_row
  change_pattern_rows-IsChecked id change [] all = tt
  change_pattern_rows-IsChecked id (set_name value) (row ∷ rows) (checked, all) = (
    if-elim (IsChecked engine) (row.id == id) checked checked,
    change_pattern_rows-IsChecked id (set_name value) rows all,
  )
  change_pattern_rows-IsChecked id (set_pattern value) (row ∷ rows) (checked, all) = (
    if-elim (IsChecked engine) (row.id == id) refl checked,
    change_pattern_rows-IsChecked id (set_pattern value) rows all,
  )

  other_pattern_rows-IsChecked :
      (id : ℕ) (rows : List PatternRow)
      → All (IsChecked engine) rows
      → All (IsChecked engine) (other_pattern_rows id rows)
  unfolding other_pattern_rows
  other_pattern_rows-IsChecked id [] all = tt
  other_pattern_rows-IsChecked id (row ∷ rows) (checked, all) =
      let rest = other_pattern_rows-IsChecked id rows all in
      if-elim (All (IsChecked engine)) (row.id == id) rest (checked, rest)

  step-Emitted :
      {editor next : PatternsEditor}
      → All (IsChecked engine) editor.rows
      → PatternsStep engine editor next
      → Emitted next
  unfolding add_pattern_row emit_patterns update_pattern_row remove_pattern_row trim
  step-Emitted {editor} checked adds_row =
      (All-append (IsChecked engine) editor.rows _ checked (blank_checked engine, tt), refl)
  step-Emitted {editor} checked (updates_row id change) =
      (change_pattern_rows-IsChecked id change editor.rows checked, refl)
  step-Emitted {editor} checked (removes_row id) =
      (other_pattern_rows-IsChecked id editor.rows checked, refl)

  open_pattern_rows-IsChecked :
      (next_id : ℕ) (entries : List (Text × Text))
      → All (IsChecked engine) (open_pattern_rows engine next_id entries)
  unfolding open_pattern_rows
  open_pattern_rows-IsChecked next_id [] = tt
  open_pattern_rows-IsChecked next_id ((name, pattern) ∷ entries) =
      (refl, open_pattern_rows-IsChecked (suc next_id) entries)

  PatternsReach-Emitted : {editor : PatternsEditor} → PatternsReach engine editor → Emitted editor
  unfolding open_patterns open_pattern_rows
  PatternsReach-Emitted (first next_id entries step) =
      step-Emitted (open_pattern_rows-IsChecked next_id entries) step
  PatternsReach-Emitted (later before step) = step-Emitted (PatternsReach-Emitted before).0 step

  -- Whatever object the editor opens on, and however the user then adds, changes and removes rows:
  -- the object that was emitted last has for each column name, but for the empty one and
  -- `__proto__`, the trimmed pattern of the last row whose trimmed name it is and whose pattern, as
  -- it was typed, is not blank and compiles.
  pub PatternsReach-last_pattern :
      {editor : PatternsEditor} (key : Text)
      → PatternsReach engine editor
      → key ≢ []
      → key ≢ codes "__proto__"
      → lookup key editor.emitted ≡ last_pattern engine key editor.rows
  unfolding lookup
  PatternsReach-last_pattern {editor} key reach nonempty other =
      let (checked, emitted) = PatternsReach-Emitted reach in
      ap (lookup key) emitted
      ∙ lookup-fill_patterns engine key nonempty other [] editor.rows checked
      ∙ or_else-none (last_pattern engine key editor.rows)

-- ===== src/Dashboard/Editors/Laws.antt =====
-- dashboard/src/components/upload: what the editors give to the form.
use file_processing_system.Prelude.{
  ◌≡◌, ◌≢◌, inl, inr, refl, sym, ap, ◌∙◌, true, false, Bool-cases, List, [], ◌∷◌, ◌++◌, if-elim,
  arith, All, All-append,
}
use file_processing_system.Prelude.Text.{Text, codes, text_eq, text_eq_refl, trim}
use file_processing_system.Dashboard.Editors.{
  is_falsy, has_field, without_field, FieldsEditor, add_field, remove_field, FieldsAction, types,
  adds, removes, act_on_fields, edit_fields, no_fields,
}
use file_processing_system.Dashboard.Editors.Types.{FieldTypeRow, TypesEditor, emit_types}
use file_processing_system.Dashboard.Editors.Emissions.{
  lookup, last_type, or_else, or_else-none, lookup-fill_types,
}

-- A name that no later field repeats, that is not empty and is what `trim` left of an input.
abbrev pub IsField : Text → Type 0
IsField name = (name ≢ []) × ((typed : Text) × (name ≡ trim typed))

abbrev pub AreDistinct : List Text → Type 0
AreDistinct [] = Unit
AreDistinct (field ∷ fields) = All (λ f. f ≢ field) fields × AreDistinct fields

All-without_field :
    (P : Text → Type 0) (field : Text) (fields : List Text)
    → All P fields
    → All P (without_field field fields)
unfolding without_field
All-without_field P field [] all = tt
All-without_field P field (f ∷ fields) (p, all) =
    let rest = All-without_field P field fields all in
    if-elim (All P) (text_eq f field) rest (p, rest)

AreDistinct-without_field :
    (field : Text) (fields : List Text)
    → AreDistinct fields
    → AreDistinct (without_field field fields)
unfolding without_field
AreDistinct-without_field field [] distinct = tt
AreDistinct-without_field field (f ∷ fields) (apart, distinct) =
    let rest = AreDistinct-without_field field fields distinct in
    if-elim AreDistinct (text_eq f field) rest (All-without_field _ field fields apart, rest)

true-ne-false : true ≡ false → ⊥
true-ne-false e = cc

AreDistinct-append :
    (name : Text) (fields : List Text)
    → has_field name fields ≡ false
    → AreDistinct fields
    → AreDistinct (fields ++ name ∷ [])
unfolding has_field
AreDistinct-append name [] fresh distinct = (tt, tt)
AreDistinct-append name (field ∷ fields) fresh (apart, distinct) =
    elim (Bool-cases (text_eq field name)) [
      | inl same ↦ cc
      | inr different ↦ (
        All-append (λ f. f ≢ field) fields (name ∷ []) apart
            (
              (λ e.
                  true-ne-false
                    (sym (text_eq_refl field) ∙ ap (text_eq field) (sym e) ∙ different)),
              tt,
            ),
        AreDistinct-append name fields (ground (arith, fresh, different)) distinct,
      )
    ]

-- The fields are pairwise distinct, and each is the trimmed text of an input and not empty.
abbrev pub AreFields : List Text → Type 0
AreFields fields = AreDistinct fields × All IsField fields

is_falsy_sound : (s : Text) → is_falsy s ≡ false → s ≢ []
is_falsy_sound [] e = cc
is_falsy_sound (c ∷ s) e = λ empty. cc

add_field-AreFields :
    (editor : FieldsEditor) → AreFields editor.fields → AreFields (add_field editor).fields
unfolding add_field
add_field-AreFields editor (distinct, all) = elim (Bool-cases (is_falsy (trim editor.input))) [
  | inl blank ↦ rw blank (distinct, all)
  | inr named ↦ elim (Bool-cases (has_field (trim editor.input) editor.fields)) [
    | inl known ↦ rw (named, known) (distinct, all)
    | inr fresh ↦
        rw (named, fresh)
          (
            AreDistinct-append (trim editor.input) editor.fields fresh distinct,
            All-append IsField editor.fields _ all
                ((is_falsy_sound _ named, (editor.input, refl)), tt),
          )
  ]
]

act_on_fields-AreFields :
    (action : FieldsAction) (editor : FieldsEditor)
    → AreFields editor.fields
    → AreFields (act_on_fields action editor).fields
unfolding act_on_fields remove_field
act_on_fields-AreFields (types text) editor ok = ok
act_on_fields-AreFields adds editor ok = add_field-AreFields editor ok
act_on_fields-AreFields (removes field) editor (distinct, all) = (
  AreDistinct-without_field field editor.fields distinct,
  All-without_field IsField field editor.fields all,
)

keeps-AreFields :
    (actions : List FieldsAction) (editor : FieldsEditor)
    → AreFields editor.fields
    → AreFields (edit_fields actions editor).fields
unfolding edit_fields
keeps-AreFields [] editor ok = ok
keeps-AreFields (action ∷ actions) editor ok =
    keeps-AreFields actions (act_on_fields action editor) (act_on_fields-AreFields action editor ok)

-- However the user types, adds and removes: the required fields are pairwise distinct, and each is
-- the trimmed text of an input and not empty.
pub edit_fields-AreFields :
    (actions : List FieldsAction) → AreFields (edit_fields actions no_fields).fields
edit_fields-AreFields actions = keeps-AreFields actions no_fields (tt, tt)

-- Whatever the rows are, the object that is emitted with them has for each column name, but for
-- the empty one and `__proto__`, the type of the last row whose trimmed name it is, and nothing
-- for a column that no row names.
pub emit_types-last_type :
    (rows : List FieldTypeRow) (editor : TypesEditor) (key : Text)
    → key ≢ []
    → key ≢ codes "__proto__"
    → lookup key (emit_types rows editor).emitted ≡ last_type key rows
unfolding emit_types lookup or_else
emit_types-last_type rows editor key nonempty other =
    lookup-fill_types key nonempty other [] rows ∙ or_else-none (last_type key rows)

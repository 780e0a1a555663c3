-- ===== src/Dashboard/Editors/Emissions.antt =====
-- dashboard/src/components/upload: what a key of an emitted object has.
use file_processing_system.Prelude.{
  ◌≡◌, ◌≢◌, refl, sym, ap, ◌∙◌, Bool, true, false, not, ◌&&◌, Bool-cases, Option-cases, inl, inr,
  List, [], ◌∷◌, Option, none, some, if◌then◌else◌, arith, All,
}
use file_processing_system.Prelude.Text.{Text, codes, text_eq, text_eq_sound, trim}
use file_processing_system.Validator.Pattern.{JsEngine}
use file_processing_system.Dashboard.Editors.{set_key, assign_key, is_falsy}
use file_processing_system.Dashboard.Editors.Types.{FieldTypeRow, fill_types}
use file_processing_system.Dashboard.Editors.Patterns.{
  PatternRow, is_complete, fill_patterns, validate_regex, has_none,
}

-- `entries[key]` of the object itself
unfoldable pub lookup : {A : Type 0} → Text → List (Text × A) → Option A
lookup key [] = none
lookup key (entry ∷ entries) =
    let rest = lookup key entries in if text_eq entry.0 key then some entry.1 else rest

text_eq_sym : (s t : Text) → text_eq s t ≡ text_eq t s
unfolding text_eq
text_eq_sym [] [] = refl
text_eq_sym [] (b ∷ t) = refl
text_eq_sym (a ∷ s) [] = refl
text_eq_sym (a ∷ s) (b ∷ t) = ground (arith, text_eq_sym s t)

lookup-set_key :
    {A : Type 0} (key k : Text) (value : A) (entries : List (Text × A))
    → lookup key (set_key k value entries)
      ≡ (if text_eq k key then some value else lookup key entries)
unfolding lookup set_key
lookup-set_key key k value [] = refl
lookup-set_key key k value ((j, v) ∷ entries) = elim (Bool-cases (text_eq j k)) [
  | inl same ↦ ground (arith, same, ap (λ t. text_eq t key) (text_eq_sound j k same))
  | inr different ↦ elim (Bool-cases (text_eq j key)) [
    | inl here ↦ ground (
      arith,
      different,
      here,
      lookup-set_key key k value entries,
      text_eq_sym j k,
      ap (λ t. text_eq k t) (text_eq_sound j key here),
    )
    | inr there ↦ ground (arith, different, there, lookup-set_key key k value entries)
  ]
]

lookup-assign_key :
    (key k value : Text) (entries : List (Text × Text))
    → key ≢ codes "__proto__"
    → lookup key (assign_key k value entries)
      ≡ (if text_eq k key then some value else lookup key entries)
unfolding assign_key
lookup-assign_key key k value entries other = elim (Bool-cases (text_eq k (codes "__proto__"))) [
  | inl proto ↦ elim (Bool-cases (text_eq k key)) [
    | inl same ↦
        absurd (other (sym (text_eq_sound k key same) ∙ text_eq_sound k (codes "__proto__") proto))
    | inr different ↦ rw (proto, different) refl
  ]
  | inr plain ↦ rw (plain) (lookup-set_key key k value entries)
]

blank_differs : (name key : Text) → key ≢ [] → is_falsy name ≡ true → text_eq name key ≡ false
unfolding text_eq
blank_differs [] [] nonempty e = absurd (nonempty refl)
blank_differs [] (c ∷ key) nonempty e = refl
blank_differs (c ∷ name) key nonempty e = cc

-- The type of the last row that names the column.
unfoldable pub last_type : Text → List FieldTypeRow → Option Text
last_type key [] = none
last_type key (row ∷ rows) = elim (last_type key rows) [
  | some type_name ↦ some type_name
  | none ↦ if text_eq (trim row.name) key then some row.type_name else none
]

-- `first ?? second`
unfoldable pub or_else : {A : Type 0} → Option A → Option A → Option A
or_else none second = second
or_else (some a) second = some a

pub or_else-none : {A : Type 0} (o : Option A) → or_else o none ≡ o
unfolding or_else
or_else-none none = refl
or_else-none (some a) = refl

module _ (key : Text) (nonempty : key ≢ []) (other : key ≢ codes "__proto__") where
  lookup-type_row :
      (row : FieldTypeRow) (entries : List (Text × Text))
      → lookup key (
          if is_falsy (trim row.name)
          then entries
          else assign_key (trim row.name) row.type_name entries)
        ≡ (if text_eq (trim row.name) key then some row.type_name else lookup key entries)
  lookup-type_row row entries = elim (Bool-cases (is_falsy (trim row.name))) [
    | inl blank ↦ rw (blank, blank_differs (trim row.name) key nonempty blank) refl
    | inr named ↦ rw named (lookup-assign_key key (trim row.name) row.type_name entries other)
  ]

  pub lookup-fill_types :
      (entries : List (Text × Text)) (rows : List FieldTypeRow)
      → lookup key (fill_types entries rows) ≡ or_else (last_type key rows) (lookup key entries)
  unfolding fill_types last_type or_else
  lookup-fill_types entries [] = refl
  lookup-fill_types entries (row ∷ rows) = ground (
    arith,
    lookup-fill_types entries rows,
    lookup-fill_types (assign_key (trim row.name) row.type_name entries) rows,
    lookup-type_row row entries,
  )

module _ {R : Type 0} (engine : JsEngine R) where
  -- The pattern is not blank, and RegExp takes it.
  abbrev pub is_accepted : Text → Bool
  is_accepted pattern = not (is_falsy (trim pattern)) && not (has_none (engine.compile pattern []))

  -- The trimmed pattern of the last row that names the column and whose pattern is accepted.
  unfoldable pub last_pattern : Text → List PatternRow → Option Text
  last_pattern key [] = none
  last_pattern key (row ∷ rows) = elim (last_pattern key rows) [
    | some pattern ↦ some pattern
    | none ↦
        if text_eq (trim row.name) key && is_accepted row.pattern
        then some (trim row.pattern)
        else none
  ]

  -- The error of a row is the one of its pattern.
  abbrev pub IsChecked : PatternRow → Type 0
  IsChecked row = row.error_message ≡ validate_regex engine row.pattern

  pub blank_checked : validate_regex engine [] ≡ none
  unfolding validate_regex trim
  blank_checked = refl

  is_complete-is_accepted :
      (row : PatternRow)
      → IsChecked row
      → is_complete row ≡ (not (is_falsy (trim row.name)) && is_accepted row.pattern)
  unfolding is_complete validate_regex
  is_complete-is_accepted row checked =
      rw checked (elim (Bool-cases (is_falsy (trim row.pattern))) [
        | inl blank ↦ rw blank (ground arith)
        | inr written ↦ elim (Option-cases (engine.compile row.pattern [])) [
          | inl failed ↦ rw (written, failed) (ground arith)
          | inr (regex, compiled) ↦ rw (written, compiled) (ground arith)
        ]
      ])

  module _ (key : Text) (nonempty : key ≢ []) (other : key ≢ codes "__proto__") where
    lookup-pattern_row :
        (row : PatternRow) (entries : List (Text × Text))
        → IsChecked row
        → lookup key (
            if is_complete row
            then assign_key (trim row.name) (trim row.pattern) entries
            else entries)
          ≡ (if text_eq (trim row.name) key && is_accepted row.pattern
              then some (trim row.pattern)
              else lookup key entries)
    lookup-pattern_row row entries checked = elim (Bool-cases (is_falsy (trim row.name))) [
      | inl blank ↦
          rw
            (
              is_complete-is_accepted row checked,
              blank,
              blank_differs (trim row.name) key nonempty blank,
            )
            refl
      | inr named ↦ elim (Bool-cases (is_accepted row.pattern)) [
        | inl accepted ↦
            rw (is_complete-is_accepted row checked, named, accepted)
              (ground
                (arith, lookup-assign_key key (trim row.name) (trim row.pattern) entries other))
        | inr refused ↦ rw (is_complete-is_accepted row checked, named, refused) (ground arith)
      ]
    ]

    pub lookup-fill_patterns :
        (entries : List (Text × Text)) (rows : List PatternRow)
        → All IsChecked rows
        → lookup key (fill_patterns entries rows)
          ≡ or_else (last_pattern key rows) (lookup key entries)
    unfolding fill_patterns last_pattern or_else
    lookup-fill_patterns entries [] checked = refl
    lookup-fill_patterns entries (row ∷ rows) (checked, rest) = ground (
      arith,
      lookup-fill_patterns entries rows rest,
      lookup-fill_patterns (assign_key (trim row.name) (trim row.pattern) entries) rows rest,
      lookup-pattern_row row entries checked,
    )

-- ===== src/Csv/Counting.antt =====
-- src/processors/csv.processor.ts: what the listeners count on the rows of a file.
use file_processing_system.Prelude.{
  ◌+◌, ◌≡◌, ◌≢◌, refl, ap, ◌∙◌, ◌⊎◌, inl, inr, true, false, List, [], ◌∷◌, Option, none, some, All,
  arith, Bool-cases, Option-cases,
}
use file_processing_system.Prelude.Text.{Text}
use file_processing_system.Types.{Row}
use file_processing_system.Validator.{
  RowValidator, ValidationResult, valid, invalid, type_error, validate_row,
}
use file_processing_system.Validator.Pattern.{JsEngine}
use file_processing_system.Duplicates.{Hashing, hash_detector, member, hash_row, add, is_duplicate}
use file_processing_system.Csv.{
  CsvState, next_row, count_invalid, count_valid, after_validation, on_data,
}
use file_processing_system.Csv.Exact.{
  Advances, IsReading, on_data-ready, Advances-invalid, Advances-repeated, Advances-new,
  Advances-nil, IsReading-invalid,
}

ValidationResult-cases :
    (x : ValidationResult)
    → (x ≡ valid) ⊎ ((reason : Text) × (x ≡ invalid reason)) ⊎ (x ≡ type_error)
ValidationResult-cases valid = inl refl
ValidationResult-cases (invalid reason) = inr (inl (reason, refl))
ValidationResult-cases type_error = inr (inr refl)

module _ {F R : Type 0} (h : Hashing F) (engine : JsEngine R) where
  -- the `data` listener for each row in turn; `none` where one throws
  unfoldable pub on_rows : List Row → CsvState F → Option (CsvState F)
  on_rows [] s = some s
  on_rows (row ∷ rows) s = elim (on_data h engine row s) [ none ↦ none | some s' ↦ on_rows rows s' ]

  module _ (v : RowValidator) where
    abbrev pub NeverThrows : Row → Type 0
    NeverThrows row = validate_row engine v row ≢ type_error

    count_valid-repeated :
        (row : Row) (s : CsvState F) (seen : List Text)
        → s.detector ≡ hash_detector seen
        → member (hash_row h row) seen ≡ true
        → count_valid h row (next_row s)
          ≡ record (next_row s) { duplicate_rows = s.duplicate_rows + 1 }
    unfolding count_valid is_duplicate
    count_valid-repeated row s seen d old = ground arith

    count_valid-new :
        (row : Row) (s : CsvState F) (seen : List Text)
        → s.detector ≡ hash_detector seen
        → member (hash_row h row) seen ≡ false
        → count_valid h row (next_row s) ≡ record (next_row s) {
          detector = hash_detector (hash_row h row ∷ seen);
          valid_rows = s.valid_rows + 1;
        }
    unfolding count_valid is_duplicate add
    count_valid-new row s seen d new = ground arith

    on_data-eq :
        (row : Row) (s : CsvState F) {seen : List Text} (x : ValidationResult)
        → IsReading h engine v s seen
        → validate_row engine v row ≡ x
        → on_data h engine row s ≡ after_validation h x row (next_row s)
    on_data-eq row s x r e =
        on_data-ready h engine v row s r.ready r.checks
        ∙ ap (λ y. after_validation h y row (next_row s)) e

    -- What reading the rows comes to.
    abbrev Reads : List Row → CsvState F → List Text → Type 0
    Reads rows s seen =
        (s' : CsvState F) × (seen' : List Text) × (on_rows rows s ≡ some s')
        × Advances h engine v s s' rows seen seen'

    Reads-step :
        (row : Row) (rows : List Row) (s s₁ : CsvState F) (seen seen₁ : List Text)
        → on_data h engine row s ≡ some s₁
        → ((s' : CsvState F) (seen' : List Text)
            → Advances h engine v s₁ s' rows seen₁ seen'
            → Advances h engine v s s' (row ∷ rows) seen seen')
        → Reads rows s₁ seen₁
        → Reads (row ∷ rows) s seen
    unfolding on_rows
    Reads-step row rows s s₁ seen seen₁ e longer (s', seen', e', a) =
        (s', seen', rw (e, on_rows) e', longer s' seen' a)

    pub Reads-All :
        (rows : List Row) (s : CsvState F) (seen : List Text)
        → IsReading h engine v s seen
        → All NeverThrows rows
        → Reads rows s seen
    unfolding on_rows after_validation
    Reads-All [] s seen r _ = (s, seen, refl, Advances-nil h engine v s seen r)
    Reads-All (row ∷ rows) s seen r (fine, all) =
        elim (ValidationResult-cases (validate_row engine v row)) [
          | inr (inr throws) ↦ absurd (fine throws)
          | inr (inl (reason, e)) ↦
              Reads-step row rows s (count_invalid row reason (next_row s)) seen seen
                (on_data-eq row s (invalid reason) r e)
                (λ s' seen' a.
                  Advances-invalid h engine v row reason s s' rows seen seen' e r.few a)
                (Reads-All rows (count_invalid row reason (next_row s)) seen
                  (IsReading-invalid h engine v row reason s seen r) all)
          | inl e ↦ elim (Bool-cases (member (hash_row h row) seen)) [
            | inl old ↦
                let s₁ : CsvState F = record (next_row s) {
                  duplicate_rows = s.duplicate_rows + 1;
                } in
                Reads-step row rows s s₁ seen seen
                  (on_data-eq row s valid r e
                    ∙ ap some (count_valid-repeated row s seen r.detector old))
                  (λ s' seen' a. Advances-repeated h engine v row s s' rows seen seen' e old a)
                  (Reads-All rows s₁ seen
                    (record {
                      ready = r.ready;
                      checks = r.checks;
                      detector = r.detector;
                      distinct = r.distinct;
                      few = r.few;
                    })
                    all)
            | inr new ↦
                let key = hash_row h row in
                let s₁ : CsvState F = record (next_row s) {
                  detector = hash_detector (key ∷ seen);
                  valid_rows = s.valid_rows + 1;
                } in
                Reads-step row rows s s₁ seen (key ∷ seen)
                  (on_data-eq row s valid r e ∙ ap some (count_valid-new row s seen r.detector new))
                  (λ s' seen' a. Advances-new h engine v row s s' rows seen seen' e a)
                  (Reads-All rows s₁ (key ∷ seen)
                    (record {
                      ready = r.ready;
                      checks = r.checks;
                      detector = refl;
                      distinct = (new, r.distinct);
                      few = r.few;
                    })
                    all)
          ]
        ]

module _ {F R : Type 0} (h : Hashing F) (engine : JsEngine R) where
  pub on_rows-cons :
      (row : Row) (rows : List Row) (s s' : CsvState F)
      → on_rows h engine (row ∷ rows) s ≡ some s'
      → (s₁ : CsvState F) × (on_data h engine row s ≡ some s₁)
        × (on_rows h engine rows s₁ ≡ some s')
  unfolding on_rows
  on_rows-cons row rows s s' e = elim (Option-cases (on_data h engine row s)) [
    | inl threw ↦ absurd (ground arith)
    | inr (s₁, went) ↦ (s₁, went, rw (went, on_rows) at e)
  ]

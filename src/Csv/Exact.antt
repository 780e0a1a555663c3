-- ===== src/Csv/Exact.antt =====
-- A whole file read with the hash detector: the report against a description of the file's rows
-- that does not go through the listeners' variables.
use file_processing_system.Prelude.{
  ℕ, zero, suc, ◌+◌, ◌≤◌, ◌≡◌, refl, ap, sym, ◌∙◌, ◌↔◌, ◌⊎◌, inl, inr, true, false, List, [], ◌∷◌,
  ◌++◌, Any, arith, length, length-append, take, ltb, Bool-cases, if◌then◌else◌,
}
use mathlib.Core.List.{append_assoc, append-nil}
use file_processing_system.Prelude.Text.{Text}
use file_processing_system.Types.{ErrorDetail, Row}
use file_processing_system.Validator.{RowValidator, valid, invalid, type_error, validate_row}
use file_processing_system.Validator.Pattern.{JsEngine}
use file_processing_system.Duplicates.{Hashing, hash_detector, member, hash_row}
use file_processing_system.Duplicates.Laws.{member-cons, member_of_eq}
use file_processing_system.Csv.{
  max_error_samples, CsvState, error_detail, next_row, count_invalid, after_validation, on_data,
}

-- No text stands twice in the list.
abbrev pub HasNoRepeats : List Text → Type 0
HasNoRepeats [] = Unit
HasNoRepeats (k ∷ ks) = (member k ks ≡ false) × HasNoRepeats ks

pub take-length : {A : Type 0} (n : ℕ) (xs : List A) → length xs ≤ n → take n xs ≡ xs
take-length zero [] h = refl
take-length zero (x ∷ xs) h = absurd (omega arith)
take-length (suc n) [] h = refl
take-length (suc n) (x ∷ xs) h = ap (λ t. x ∷ t) (take-length n xs (omega arith))

take-append_full : {A : Type 0} (n : ℕ) (xs ys : List A) → length xs ≡ n → take n (xs ++ ys) ≡ xs
take-append_full zero [] ys h = refl
take-append_full zero (x ∷ xs) ys h = absurd (omega arith)
take-append_full (suc n) [] ys h = absurd (omega arith)
take-append_full (suc n) (x ∷ xs) ys h = ap (λ t. x ∷ t) (take-append_full n xs ys (omega arith))

unfoldable pub push_sample : List ErrorDetail → ErrorDetail → List ErrorDetail
push_sample es e = if ltb (length es) max_error_samples then es ++ e ∷ [] else es

pub take-push_sample :
    (es : List ErrorDetail) (e : ErrorDetail) (rest : List ErrorDetail)
    → length es ≤ max_error_samples
    → take max_error_samples (push_sample es e ++ rest) ≡ take max_error_samples (es ++ e ∷ rest)
unfolding push_sample
take-push_sample es e rest few = elim (Bool-cases (ltb (length es) max_error_samples)) [
  | inl room ↦ rw room (ap (take max_error_samples) (append_assoc es (e ∷ []) rest))
  | inr full ↦
      let exact : length es ≡ max_error_samples = ground arith in
      rw full (
        take-append_full max_error_samples es rest exact
        ∙ sym (take-append_full max_error_samples es (e ∷ rest) exact))
]

pub length-push_sample :
    (es : List ErrorDetail) (e : ErrorDetail)
    → length es ≤ max_error_samples
    → length (push_sample es e) ≤ max_error_samples
unfolding push_sample
length-push_sample es e few = ground (arith, length-append es (e ∷ []))

module _ {R : Type 0} (engine : JsEngine R) (v : RowValidator) where
  abbrev pub IsValidRow : Row → Type 0
  IsValidRow row = validate_row engine v row ≡ valid

  -- The details of the refused rows, in order; `n` rows stand before the list.
  unfoldable pub refused : ℕ → List Row → List ErrorDetail
  refused n [] = []
  refused n (row ∷ rows) =
      let rest = refused (n + 1) rows in
      elim (validate_row engine v row) [
        | valid ↦ rest
        | invalid reason ↦ error_detail (n + 1) row reason ∷ rest
        | type_error ↦ rest
      ]

module _ {F R : Type 0} (h : Hashing F) (engine : JsEngine R) (v : RowValidator) where
  -- The key is that of a valid row of the list.
  abbrev pub IsKey : Text → List Row → Type 0
  IsKey k rows = Any (λ row. IsValidRow engine v row × (k ≡ hash_row h row)) rows

  -- What the rows change of the state, where the set of the detector goes from `seen` to `seen'`.
  pub record Advances (s s' : CsvState F) (rows : List Row) (seen seen' : List Text) : Type 0 where
    pub total : s'.total_rows ≡ s.total_rows + length rows
    pub refusals : s'.invalid_rows ≡ s.invalid_rows + length (refused engine v s.total_rows rows)
    pub samples :
        s'.error_details
        ≡ take max_error_samples (s.error_details ++ refused engine v s.total_rows rows)
    pub detector : s'.detector ≡ hash_detector seen'
    pub distinct : HasNoRepeats seen'
    pub keys : (k : Text) → (member k seen' ≡ true) ↔ ((member k seen ≡ true) ⊎ IsKey k rows)
    pub accepted : s'.valid_rows + length seen ≡ s.valid_rows + length seen'

  -- A state that reads rows with this validator.
  pub record IsReading (s : CsvState F) (seen : List Text) : Type 0 where
    pub ready : s.headers_initialized ≡ true
    pub checks : s.validator ≡ v
    pub detector : s.detector ≡ hash_detector seen
    pub distinct : HasNoRepeats seen
    pub few : length s.error_details ≤ max_error_samples

  -- the `data` listener for each row in turn; `none` where one throws

  pub on_data-ready :
      (row : Row) (s : CsvState F)
      → s.headers_initialized ≡ true
      → s.validator ≡ v
      → on_data h engine row s ≡ after_validation h (validate_row engine v row) row (next_row s)
  unfolding on_data
  on_data-ready row s ready checks = ground arith

  refused-invalid :
      (n : ℕ) (row : Row) (rows : List Row) (reason : Text)
      → validate_row engine v row ≡ invalid reason
      → refused engine v n (row ∷ rows)
        ≡ error_detail (n + 1) row reason ∷ refused engine v (n + 1) rows
  unfolding refused
  refused-invalid n row rows reason e = rw (e, refused) refl

  refused-valid :
      (n : ℕ) (row : Row) (rows : List Row)
      → validate_row engine v row ≡ valid
      → refused engine v n (row ∷ rows) ≡ refused engine v (n + 1) rows
  unfolding refused
  refused-valid n row rows e = rw (e, refused) refl

  pub Advances-invalid :
      (row : Row) (reason : Text) (s s' : CsvState F) (rows : List Row) (seen seen' : List Text)
      → validate_row engine v row ≡ invalid reason
      → length s.error_details ≤ max_error_samples
      → Advances (count_invalid row reason (next_row s)) s' rows seen seen'
      → Advances s s' (row ∷ rows) seen seen'
  unfolding count_invalid push_sample
  Advances-invalid row reason s s' rows seen seen' e few a = record {
    total = omega (arith, a.total);
    refusals = rw (refused-invalid s.total_rows row rows reason e) (omega (arith, a.refusals));
    samples = rw (refused-invalid s.total_rows row rows reason e) (
        a.samples
        ∙ take-push_sample s.error_details (error_detail (s.total_rows + 1) row reason)
            (refused engine v (s.total_rows + 1) rows) few);
    detector = a.detector;
    distinct = a.distinct;
    keys = λ k. ground (arith, a.keys k, e);
    accepted = a.accepted;
  }

  pub Advances-repeated :
      (row : Row) (s s' : CsvState F) (rows : List Row) (seen seen' : List Text)
      → validate_row engine v row ≡ valid
      → member (hash_row h row) seen ≡ true
      → Advances (record (next_row s) { duplicate_rows = s.duplicate_rows + 1 }) s' rows seen seen'
      → Advances s s' (row ∷ rows) seen seen'
  Advances-repeated row s s' rows seen seen' e old a = record {
    total = omega (arith, a.total);
    refusals = rw (refused-valid s.total_rows row rows e) a.refusals;
    samples = rw (refused-valid s.total_rows row rows e) a.samples;
    detector = a.detector;
    distinct = a.distinct;
    keys = λ k. ground (arith, a.keys k, e, member_of_eq k (hash_row h row) seen);
    accepted = a.accepted;
  }

  pub Advances-new :
      (row : Row) (s s' : CsvState F) (rows : List Row) (seen seen' : List Text)
      → validate_row engine v row ≡ valid
      → Advances
          (record (next_row s) {
            detector = hash_detector (hash_row h row ∷ seen);
            valid_rows = s.valid_rows + 1;
          })
          s'
          rows
          (hash_row h row ∷ seen)
          seen'
      → Advances s s' (row ∷ rows) seen seen'
  Advances-new row s s' rows seen seen' e a = record {
    total = omega (arith, a.total);
    refusals = rw (refused-valid s.total_rows row rows e) a.refusals;
    samples = rw (refused-valid s.total_rows row rows e) a.samples;
    detector = a.detector;
    distinct = a.distinct;
    keys = λ k. ground (arith, a.keys k, e, member-cons k (hash_row h row) seen);
    accepted = omega (arith, a.accepted);
  }

  pub Advances-nil :
      (s : CsvState F) (seen : List Text) → IsReading s seen → Advances s s [] seen seen
  unfolding refused
  Advances-nil s seen r = record {
    total = omega arith;
    refusals = omega arith;
    samples = sym (
        ap (take max_error_samples) (append-nil s.error_details)
        ∙ take-length max_error_samples s.error_details r.few);
    detector = r.detector;
    distinct = r.distinct;
    keys = λ k. ((λ m. inl m), elim [ inl m ↦ m | inr key ↦ absurd key ]);
    accepted = refl;
  }

  pub IsReading-invalid :
      (row : Row) (reason : Text) (s : CsvState F) (seen : List Text)
      → IsReading s seen
      → IsReading (count_invalid row reason (next_row s)) seen
  unfolding count_invalid push_sample
  IsReading-invalid row reason s seen r = record {
    ready = r.ready;
    checks = r.checks;
    detector = r.detector;
    distinct = r.distinct;
    few = length-push_sample s.error_details (error_detail (s.total_rows + 1) row reason) r.few;
  }

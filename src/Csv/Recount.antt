-- ===== src/Csv/Recount.antt =====
-- The report of any file, by any detector, against a count of the file's events that does not go
-- through the listeners' variables.
use mathlib.Core.List.{append-nil}
use mathlib.Core.Path.{subst}
use file_processing_system.Prelude.{
  ℕ, ◌+◌, ◌≤◌, ◌≡◌, ◌≢◌, refl, ap, sym, ◌∙◌, Bool, true, false, List, [], ◌∷◌, ◌++◌, Option, some,
  arith, length, take,
}
use file_processing_system.Prelude.Text.{Text}
use file_processing_system.Types.{ErrorDetail, ProcessingReport, Row, ValidationRules}
use file_processing_system.Validator.{
  RowValidator, new_validator, initialize, valid, invalid, type_error, ValidationResult,
  validate_row,
}
use file_processing_system.Validator.Pattern.{JsEngine}
use file_processing_system.Duplicates.{Hashing, DuplicateDetector}
use file_processing_system.Csv.{
  JsNumber, max_error_samples, CsvState, CsvEvent, headers, row_read, ended, csv_error,
  stream_error, Outcome, pending, resolved, rejected, process_died, Run, start, error_detail,
  next_row, count_invalid, count_valid, settle, after_validation, on_data, after_data, listen, step,
  run, process_csv, report,
}
use file_processing_system.Csv.Consistency.{IsTally, process_csv-IsTally}
use file_processing_system.Csv.Exact.{
  on_data-ready, push_sample, take-length, take-push_sample, length-push_sample,
}
use file_processing_system.Csv.Settling.{run-settled}

-- The number of rows of the file: those after the header and before the end. An error ends the
-- file too, and then there is no report.
unfoldable pub rows_read : Bool → List CsvEvent → ℕ
rows_read ready [] = 0
rows_read ready (headers names ∷ events) = rows_read true events
rows_read true (row_read row ∷ events) = 1 + rows_read true events
rows_read false (row_read row ∷ events) = rows_read false events
rows_read ready (ended ms ∷ events) = 0
rows_read ready (csv_error message ∷ events) = 0
rows_read ready (stream_error message ∷ events) = 0

module _ {R : Type 0} (engine : JsEngine R) (rules : Option ValidationRules) where
  -- The details of all the rows of the file that `validateRow` refuses under the last header before
  -- them, each with the number of its row; `n` rows stand before the list.
  unfoldable pub refusals : RowValidator → Bool → ℕ → List CsvEvent → List ErrorDetail
  refusals v ready n [] = []
  refusals v ready n (headers names ∷ events) = refusals (initialize names rules v) true n events
  refusals v false n (row_read row ∷ events) = refusals v false n events
  refusals v true n (row_read row ∷ events) =
      let rest = refusals v true (n + 1) events in
      elim (validate_row engine v row) [
        | valid ↦ rest
        | invalid reason ↦ error_detail (n + 1) row reason ∷ rest
        | type_error ↦ rest
      ]
  refusals v ready n (ended ms ∷ events) = []
  refusals v ready n (csv_error message ∷ events) = []
  refusals v ready n (stream_error message ∷ events) = []

-- The report counts every row of the file and every refused row, and its samples are the first
-- hundred refusals.
pub record IsRecount (rows : ℕ) (refused : List ErrorDetail) (r : ProcessingReport) : Type 0 where
  pub total : r.total_rows ≡ rows
  pub refusals : r.invalid_rows ≡ length refused
  pub samples : r.error_details ≡ take max_error_samples refused
  pub tally : IsTally r.total_rows r.valid_rows r.invalid_rows r.duplicate_rows r.error_details

-- The same of a report that a state leads to.
record Recounts {F : Type 0} (s : CsvState F) (rows : ℕ) (refused : List ErrorDetail)
    (r : ProcessingReport) : Type 0 where
  total : r.total_rows ≡ s.total_rows + rows
  refusals : r.invalid_rows ≡ s.invalid_rows + length refused
  samples : r.error_details ≡ take max_error_samples (s.error_details ++ refused)

abbrev HasRoom : {F : Type 0} → CsvState F → Type 0
HasRoom s = length s.error_details ≤ max_error_samples

abbrev still_pending : {F : Type 0} → CsvState F → Run F
still_pending s = record { state = s; outcome = pending }

resolved-eq : {r r' : ProcessingReport} → resolved r ≡ resolved r' → r ≡ r'
resolved-eq e = cc

module _ {F R D : Type 0} (h : Hashing F) (engine : JsEngine R) (number : JsNumber D)
    (file_size : ℕ) (rules : Option ValidationRules) where
  abbrev Leads : List CsvEvent → CsvState F → ProcessingReport → Type 0
  Leads events s r =
      (run h engine number file_size rules events (still_pending s)).outcome ≡ resolved r

  abbrev After : List CsvEvent → CsvState F → ProcessingReport → Type 0
  After events s r =
      Recounts s (rows_read s.headers_initialized events)
        (refusals engine rules s.validator s.headers_initialized s.total_rows events) r

  settled_only :
      (events : List CsvEvent) (s : CsvState F) (done : Outcome) (r : ProcessingReport)
      → done ≢ pending
      → (run h engine number file_size rules events (record { state = s; outcome = done })).outcome
        ≡ resolved r
      → done ≡ resolved r
  settled_only events s done r ne e =
      sym (
        run-settled h engine number file_size rules events (record { state = s; outcome = done })
          ne)
      ∙ e

  Recounts-nil :
      (s : CsvState F) (ms : ℕ) → HasRoom s → Recounts s 0 [] (report number file_size ms s)
  unfolding report
  Recounts-nil s ms room = record {
    total = omega arith;
    refusals = omega arith;
    samples = sym (
        ap (take max_error_samples) (append-nil s.error_details)
        ∙ take-length max_error_samples s.error_details room);
  }

  Recounts-valid :
      (row : Row) (s : CsvState F) (rows : ℕ) (refused : List ErrorDetail) (r : ProcessingReport)
      → Recounts (count_valid h row (next_row s)) rows refused r
      → Recounts s (1 + rows) refused r
  unfolding count_valid
  Recounts-valid row s rows refused r a = record {
    total = ground (arith, a.total);
    refusals = ground (arith, a.refusals);
    samples = ground (arith, a.samples);
  }

  Recounts-invalid :
      (row : Row) (reason : Text) (s : CsvState F) (rows : ℕ) (refused : List ErrorDetail)
      (r : ProcessingReport)
      → HasRoom s
      → Recounts (count_invalid row reason (next_row s)) rows refused r
      → Recounts s (1 + rows) (error_detail (s.total_rows + 1) row reason ∷ refused) r
  unfolding count_invalid push_sample
  Recounts-invalid row reason s rows refused r room a = record {
    total = omega (arith, a.total);
    refusals = omega (arith, a.refusals);
    samples =
        a.samples
        ∙ take-push_sample s.error_details (error_detail (s.total_rows + 1) row reason) refused
            room;
  }

  -- One row that is read under the validator `v`, where the rest of the file is known.
  recount_row :
      (v : RowValidator) (row : Row) (events : List CsvEvent) (s : CsvState F)
      (r : ProcessingReport) (result : ValidationResult)
      → validate_row engine v row ≡ result
      → HasRoom s
      → ((s' : CsvState F)
          → HasRoom s'
          → s'.headers_initialized ≡ true
          → s'.validator ≡ s.validator
          → s'.total_rows ≡ s.total_rows + 1
          → Leads events s' r
          → Recounts s'
              (rows_read true events)
              (refusals engine rules v true (s.total_rows + 1) events)
              r)
      → s.headers_initialized ≡ true
      → (run h engine number file_size rules events (
          after_data h engine number file_size rules
            (after_validation h result row (next_row s))
            (still_pending s))).outcome
        ≡ resolved r
      → Recounts s
          (rows_read true (row_read row ∷ events))
          (refusals engine rules v true s.total_rows (row_read row ∷ events))
          r
  unfolding rows_read refusals after_validation settle count_invalid count_valid push_sample
  recount_row v row events s r valid e room rest ready leads =
      rw (e, refusals)
        (Recounts-valid row s _ _ r (
          rest (count_valid h row (next_row s)) (ground arith) (ground arith) (ground arith)
            (ground arith) leads))
  recount_row v row events s r (invalid reason) e room rest ready leads =
      rw (e, refusals)
        (Recounts-invalid row reason s _ _ r room (
          rest (count_invalid row reason (next_row s))
            (length-push_sample s.error_details (error_detail (s.total_rows + 1) row reason) room)
            ready refl refl leads))
  recount_row v row events s r type_error e room rest ready leads =
      let died = settled_only events s process_died r (λ p. cc p) leads in cc

  on_data-idle :
      (row : Row) (s : CsvState F) → s.headers_initialized ≡ false → on_data h engine row s ≡ some s
  unfolding on_data
  on_data-idle row s idle = ground arith

  after_row :
      (row : Row) (events : List CsvEvent) (s : CsvState F) (o : Option (CsvState F))
      (r : ProcessingReport)
      → on_data h engine row s ≡ o
      → Leads (row_read row ∷ events) s r
      → (run h engine number file_size rules events
          (after_data h engine number file_size rules o (still_pending s))).outcome
        ≡ resolved r
  unfolding run step listen
  after_row row events s o r e leads =
      ap
        (λ x.
          (run h engine number file_size rules events
            (after_data h engine number file_size rules x (still_pending s))).outcome)
        (sym e)
      ∙ leads

  recount :
      (events : List CsvEvent) (ready : Bool) (v : RowValidator) (n : ℕ) (s : CsvState F)
      (r : ProcessingReport)
      → HasRoom s
      → s.headers_initialized ≡ ready
      → s.validator ≡ v
      → s.total_rows ≡ n
      → Leads events s r
      → Recounts s (rows_read ready events) (refusals engine rules v ready n events) r
  unfolding run step listen rows_read refusals settle report
  recount [] ready v n s r room at checks counted leads = cc
  recount (headers names ∷ events) ready v n s r room at checks counted leads =
      let rest =
        recount events true (initialize names rules v) n
          (record s { validator = initialize names rules s.validator; headers_initialized = true })
          r room refl (ap (initialize names rules) checks) counted leads in
      record { total = rest.total; refusals = rest.refusals; samples = rest.samples }
  recount (row_read row ∷ events) false v n s r room at checks counted leads =
      recount events false v n s r room at checks counted
        (after_row row events s (some s) r (on_data-idle row s at) leads)
  recount (row_read row ∷ events) true v n s r room at checks counted leads = rw⁻¹ counted (
      recount_row v row events s r (validate_row engine v row) refl room
        (λ s' room' at' checks' counted'.
          recount events true v (s.total_rows + 1) s' r room' at' (checks' ∙ checks) counted')
        at (after_row row events s _ r (on_data-ready h engine v row s at checks) leads))
  recount (ended ms ∷ events) ready v n s r room at checks counted leads =
      let done =
        settled_only events s (resolved (report number file_size ms s)) r (λ p. cc p) leads in
      subst (Recounts s 0 []) (resolved-eq done) (Recounts-nil s ms room)
  recount (csv_error message ∷ events) ready v n s r room at checks counted leads =
      let other = settled_only events s (rejected message) r (λ p. cc p) leads in cc
  recount (stream_error message ∷ events) ready v n s r room at checks counted leads =
      let other = settled_only events s (rejected message) r (λ p. cc p) leads in cc

  -- Whatever the streams emit and whatever the detector, a report is right about the file's events:
  -- the rows it counts are those read after a header and before the end of the file, the invalid
  -- ones those that `validateRow` refuses, and the samples are the first hundred of these, in order,
  -- each with the number of its row. Each row is counted once, as valid, invalid or duplicate; a
  -- sample has 500 code units at most and its reason is not empty.
  pub process_csv-IsRecount :
      (detector : DuplicateDetector F) (events : List CsvEvent) (r : ProcessingReport)
      → process_csv h engine number file_size rules detector events ≡ resolved r
      → IsRecount (rows_read false events) (refusals engine rules new_validator false 0 events) r
  unfolding process_csv start
  process_csv-IsRecount detector events r e =
      let counts =
        recount events false new_validator 0 (start detector).state r (omega arith) refl refl refl
          e in
      record {
        total = omega (arith, counts.total);
        refusals = omega (arith, counts.refusals);
        samples = counts.samples;
        tally = process_csv-IsTally h engine number file_size rules detector events r e;
      }

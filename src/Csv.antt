-- ===== src/Csv.antt =====
-- src/processors/csv.processor.ts. The package csv-parser and the S3 stream are the list of the
-- events that they emit; a duration is what the clock of the machine shows, and the division of
-- doubles is a parameter.
pub mod Json
pub mod Consistency
pub mod Settling
pub mod Exact
pub mod Recount
pub mod Counting
pub mod Whole
mod Moving
pub mod Approximation
mod Tests
use file_processing_system.Prelude.{
  ℕ, ◌+◌, Bool, true, false, List, [], ◌∷◌, ◌++◌, Option, none, some, ltb, length, if◌then◌else◌,
}
use file_processing_system.Prelude.Text.{Text, codes, substring}
use file_processing_system.Types.{
  DuplicateStrategy, hash, bloom, ErrorDetail, ProcessingReport, Row, ValidationRules,
}
use file_processing_system.Validator.{
  RowValidator, new_validator, initialize, validate_row, ValidationResult, valid, invalid,
  type_error,
}
use file_processing_system.Validator.Pattern.{JsEngine}
use file_processing_system.Duplicates.{Hashing, DuplicateDetector, add, is_duplicate, get_strategy}
use Json.{stringify}

-- The numbers of the language, as far as the program divides them.
pub record JsNumber (D : Type 0) : Type 0 where
  pub of_ℕ : ℕ → D
  pub div : D → D → D
  pub mul : D → D → D
  -- `Math.round` of a number that is not negative
  pub round : D → ℕ

abbrev pub max_error_samples : ℕ
max_error_samples = 100

-- The local variables that the listeners share.
pub record CsvState (F : Type 0) : Type 0 where
  pub validator : RowValidator
  pub headers_initialized : Bool
  pub detector : DuplicateDetector F
  pub total_rows : ℕ
  pub valid_rows : ℕ
  pub invalid_rows : ℕ
  pub duplicate_rows : ℕ
  pub error_details : List ErrorDetail

-- What the two streams emit; `ended` tells the milliseconds since the start.
pub data CsvEvent : Type 0 where
  headers : List Text → CsvEvent
  row_read : Row → CsvEvent
  ended : ℕ → CsvEvent
  csv_error stream_error : Text → CsvEvent

-- The promise, which settles once. A TypeError in a listener is caught by nobody: it ends the
-- process.
pub data Outcome : Type 0 where
  pending : Outcome
  resolved : ProcessingReport → Outcome
  rejected : Text → Outcome
  process_died : Outcome

pub record Run (F : Type 0) : Type 0 where
  pub state : CsvState F
  pub outcome : Outcome

unfoldable pub start : {F : Type 0} → DuplicateDetector F → Run F
start detector = record {
  state = record {
    validator = new_validator;
    headers_initialized = false;
    detector = detector;
    total_rows = 0;
    valid_rows = 0;
    invalid_rows = 0;
    duplicate_rows = 0;
    error_details = [];
  };
  outcome = pending;
}

-- `validation.reason || 'Unknown validation error'`
unfoldable pub or_unknown : Text → Text
or_unknown [] = codes "Unknown validation error"
or_unknown (c ∷ s) = c ∷ s

abbrev pub sample_limit : ℕ
sample_limit = 500

unfoldable pub error_detail : ℕ → Row → Text → ErrorDetail
unfolding or_unknown stringify substring
error_detail row_number row reason = record {
  row = row_number;
  sample = substring sample_limit (stringify row);
  reason = or_unknown reason;
}

module _ {F : Type 0} where
  -- `totalRows++`
  abbrev pub next_row : CsvState F → CsvState F
  next_row s = record s { total_rows = s.total_rows + 1 }

  -- the branch for a row that is not valid
  unfoldable pub count_invalid : Row → Text → CsvState F → CsvState F
  count_invalid row reason s = record s {
    invalid_rows = s.invalid_rows + 1;
    error_details =
        if ltb (length s.error_details) max_error_samples
        then s.error_details ++ error_detail s.total_rows row reason ∷ []
        else s.error_details;
  }

  unfoldable pub strategy_text : DuplicateDetector F → Text
  unfolding get_strategy
  strategy_text detector = elim (get_strategy detector) [
    | hash ↦ codes "hash-set"
    | bloom ↦ codes "bloom-filter"
  ]

-- `resolve`, `reject` and the end of the process: only the first of them settles the promise.
-- The report holds the array of the samples itself; no row follows the `end` of a parser, so that
-- array stays as it is copied here.
unfoldable pub settle : Outcome → Outcome → Outcome
settle next pending = next
settle next done = done

abbrev pub has_died : Outcome → Bool
has_died process_died = true
has_died _ = false

module _ {F : Type 0} (h : Hashing F) where
  -- the branch for a valid row
  unfoldable pub count_valid : Row → CsvState F → CsvState F
  count_valid row s =
      if is_duplicate h row s.detector
      then record s { duplicate_rows = s.duplicate_rows + 1 }
      else record s { detector = add h row s.detector; valid_rows = s.valid_rows + 1 }

  -- `none` is the TypeError that `validateRow` throws
  unfoldable pub after_validation : ValidationResult → Row → CsvState F → Option (CsvState F)
  unfolding count_valid count_invalid
  after_validation valid row s = some (count_valid row s)
  after_validation (invalid reason) row s = some (count_invalid row reason s)
  after_validation type_error row s = none

module _ {F R : Type 0} (h : Hashing F) (engine : JsEngine R) where
  -- the `data` listener
  unfoldable pub on_data : Row → CsvState F → Option (CsvState F)
  unfolding after_validation
  on_data row s =
      if s.headers_initialized
      then after_validation h (validate_row engine s.validator row) row (next_row s)
      else some s

module _ {D : Type 0} (number : JsNumber D) where
  -- `Math.round((totalRows / processingTimeMs) * 1000)`
  unfoldable pub rows_per_second : ℕ → ℕ → ℕ
  rows_per_second total ms =
      if ltb 0 ms
      then number.round
          (number.mul (number.div (number.of_ℕ total) (number.of_ℕ ms)) (number.of_ℕ 1000))
      else 0

module _ {F D : Type 0} (number : JsNumber D) where
  -- the argument of `resolve` in the `end` listener
  unfoldable pub report : ℕ → ℕ → CsvState F → ProcessingReport
  unfolding rows_per_second strategy_text get_strategy
  report file_size ms s = record {
    total_rows = s.total_rows;
    valid_rows = s.valid_rows;
    invalid_rows = s.invalid_rows;
    duplicate_rows = s.duplicate_rows;
    duplicate_strategy = get_strategy s.detector;
    error_details = s.error_details;
    summary = record {
      processing_time_ms = ms;
      file_size_bytes = file_size;
      memory_strategy = strategy_text s.detector;
      rows_per_second = rows_per_second number s.total_rows ms;
    };
  }

module _ {F R D : Type 0} (h : Hashing F) (engine : JsEngine R) (number : JsNumber D) where
  module _ (file_size : ℕ) (rules : Option ValidationRules) where
    abbrev pub after_data : Option (CsvState F) → Run F → Run F
    after_data none r = record r { outcome = settle process_died r.outcome }
    after_data (some s) r = record r { state = s }

    unfoldable pub listen : CsvEvent → Run F → Run F
    unfolding on_data report settle
    listen (headers names) r = record r {
      state = record r.state {
        validator = initialize names rules r.state.validator;
        headers_initialized = true;
      };
    }
    listen (row_read row) r = after_data (on_data h engine row r.state) r
    listen (ended ms) r = record r {
      outcome = settle (resolved (report number file_size ms r.state)) r.outcome;
    }
    listen (csv_error message) r = record r { outcome = settle (rejected message) r.outcome }
    listen (stream_error message) r = record r { outcome = settle (rejected message) r.outcome }

    -- No listener runs in a process that has ended.
    unfoldable pub step : CsvEvent → Run F → Run F
    unfolding listen
    step event r = if has_died r.outcome then r else listen event r

    unfoldable pub run : List CsvEvent → Run F → Run F
    unfolding step
    run [] r = r
    run (event ∷ events) r = run events (step event r)

    unfoldable pub process_csv : DuplicateDetector F → List CsvEvent → Outcome
    unfolding run start
    process_csv detector events = (run events (start detector)).outcome

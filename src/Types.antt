-- ===== src/Types.antt =====
-- src/types/enums.ts, src/types/index.ts, src/interfaces and the row type of the CSV stream.
-- A `Record<string, V>` is the list of its own entries in the order of `Object.entries`. A `Date`
-- is its number of milliseconds; an ObjectId is its hexadecimal text, as `toString()` gives it.
use file_processing_system.Prelude.{ℕ, List, Option}
use file_processing_system.Prelude.Text.{Text}

pub data JobStatus : Type 0 where
  pending processing completed failed : JobStatus

pub data DuplicateStrategy : Type 0 where
  hash bloom : DuplicateStrategy

pub data FieldType : Type 0 where
  string number email date : FieldType

pub data ErrorCode : Type 0 where
  validation_error not_found rate_limited s3_error internal_error : ErrorCode

pub record PaginationQuery : Type 0 where
  pub page : ℕ
  pub limit : ℕ

pub record PaginatedResult (T : Type 0) : Type 0 where
  pub items : List T
  pub total : ℕ
  pub page : ℕ
  pub limit : ℕ
  pub total_pages : ℕ

pub record ErrorDetail : Type 0 where
  pub row : ℕ
  pub sample : Text
  pub reason : Text

pub record ProcessingSummary : Type 0 where
  pub processing_time_ms : ℕ
  pub file_size_bytes : ℕ
  pub memory_strategy : Text
  pub rows_per_second : ℕ

-- `Record<string, string>`, one row of the file
abbrev pub Row : Type 0
Row = List (Text × Text)

pub record ValidationRules : Type 0 where
  pub required_fields : List Text
  pub field_types : List (Text × FieldType)
  pub custom_patterns : List (Text × Text)

pub record ProcessingReport : Type 0 where
  pub total_rows : ℕ
  pub valid_rows : ℕ
  pub invalid_rows : ℕ
  pub duplicate_rows : ℕ
  pub duplicate_strategy : DuplicateStrategy
  pub error_details : List ErrorDetail
  pub summary : ProcessingSummary

pub record FileDocument : Type 0 where
  pub id : Text
  pub original_name : Text
  pub s3_key : Text
  pub s3_bucket : Text
  pub mime_type : Text
  pub size : ℕ
  pub created_at : ℕ
  pub updated_at : ℕ

pub record JobDocument : Type 0 where
  pub id : Text
  pub file_id : Text
  pub status : JobStatus
  pub priority : ℕ
  pub progress : ℕ
  pub attempts : ℕ
  pub max_attempts : ℕ
  pub validation_rules : Option ValidationRules
  pub batch_id : Option Text
  pub error : Option Text
  pub started_at : Option ℕ
  pub completed_at : Option ℕ
  pub created_at : ℕ
  pub updated_at : ℕ

pub record ResultDocument : Type 0 where
  pub id : Text
  pub job_id : Text
  pub file_id : Text
  pub total_rows : ℕ
  pub valid_rows : ℕ
  pub invalid_rows : ℕ
  pub duplicate_rows : ℕ
  pub duplicate_strategy : DuplicateStrategy
  pub error_details : List ErrorDetail
  pub summary : ProcessingSummary
  pub created_at : ℕ

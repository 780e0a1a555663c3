-- ===== src/Documents.antt =====
-- src/models: the documents that the schemas make of what is created, with their defaults and
-- their bounds. The id and the time are given by MongoDB and mongoose.
use file_processing_system.Prelude.{ℕ, Bool, true, false, ◌&&◌, leb, Option, none, some}
use file_processing_system.Prelude.Text.{Text}
use file_processing_system.Types.{FileDocument, JobDocument, ResultDocument, pending}
use file_processing_system.Jobs.{CreateFileData, CreateJobData, CreateResultData}

module _ (id : Text) (now : ℕ) where
  unfoldable pub file_document : CreateFileData → FileDocument
  file_document given = record {
    id = id;
    original_name = given.original_name;
    s3_key = given.s3_key;
    s3_bucket = given.s3_bucket;
    mime_type = given.mime_type;
    size = given.size;
    created_at = now;
    updated_at = now;
  }

  unfoldable pub job_document : CreateJobData → JobDocument
  job_document given = record {
    id = id;
    file_id = given.file_id;
    status = pending;
    priority = given.priority;
    progress = 0;
    attempts = 0;
    max_attempts = given.max_attempts;
    validation_rules = given.validation_rules;
    batch_id = given.batch_id;
    error = none;
    started_at = none;
    completed_at = none;
    created_at = now;
    updated_at = now;
  }

  unfoldable pub result_document : CreateResultData → ResultDocument
  result_document given = record {
    id = id;
    job_id = given.job_id;
    file_id = given.file_id;
    total_rows = given.total_rows;
    valid_rows = given.valid_rows;
    invalid_rows = given.invalid_rows;
    duplicate_rows = given.duplicate_rows;
    duplicate_strategy = given.duplicate_strategy;
    error_details = given.error_details;
    summary = given.summary;
    created_at = now;
  }

-- `resultSchema.index({ jobId: 1 }, { unique: true })`: a result is refused where the job has one.
unfoldable pub admit_result : Option ResultDocument → Bool
admit_result none = true
admit_result (some old) = false

-- `min` and `max` of the schema of a job
unfoldable pub valid_job : JobDocument → Bool
valid_job job = leb 1 job.priority && leb job.priority 10 && leb job.progress 100

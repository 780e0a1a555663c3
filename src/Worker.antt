-- ===== src/Worker.antt =====
-- src/worker.ts: the processor of a job and the listener of its failures.
pub mod Store
pub mod Database
pub mod Keeping
pub mod Laws
mod Success
mod Completion
mod Liveness
mod Retries
mod Tests
use file_processing_system.Prelude.{
  ℕ, Bool, true, false, leb, List, [], ◌∷◌, ◌++◌, Option, none, some, if◌then◌else◌,
}
use file_processing_system.Prelude.Text.{Text, codes}
use file_processing_system.Types.{
  JobStatus, ProcessingReport, FileDocument, JobDocument, ResultDocument,
}
use file_processing_system.Validator.Pattern.{JsEngine}
use file_processing_system.Duplicates.{Hashing, create_duplicate_detector}
use file_processing_system.Csv.{JsNumber, CsvEvent, Outcome, process_csv}
use file_processing_system.Effects.{
  ApiError, Failure, api_failure, other_failure, Result, ok, failed, hangs, crashes, Action, pure,
  throw, ◌>>=◌, ◌>>◌,
}
use file_processing_system.Jobs.{
  Mongo, CreateResultData, StatusCounts, get_count, total_count, update_status, set_started_at,
  increment_attempts, set_completed_at, count_by_batch_id,
}
use file_processing_system.Services.{
  Config, SocketServer, emit_job_completed, emit_job_failed, emit_batch_update,
}
use file_processing_system.Storage.{S3Client, get_object_stream}

-- `bullJob.data`, and the attempts that BullMQ counted when a job failed
pub record BullJob : Type 0 where
  pub job_id : Text
  pub file_id : Text
  pub attempts_made : ℕ

-- `error.message`
unfoldable pub message_of : Failure → Text
message_of (api_failure err) = err.message
message_of (other_failure message) = message

unfoldable pub file_missing : Text → Failure
file_missing file_id = other_failure (codes "File not found: " ++ file_id)

unfoldable pub job_missing : Text → Failure
job_missing job_id = other_failure (codes "Job not found: " ++ job_id)

-- `if (!value) throw new Error(...)`
unfoldable pub or_throw : {W A : Type 0} → Failure → Option A → Action W A
or_throw err none = throw err
or_throw err (some value) = pure value

-- `await processCsv(...)`
unfoldable pub await_report : {W : Type 0} → Outcome → Action W ProcessingReport
await_report Outcome.pending w = (hangs, w)
await_report (Outcome.resolved report) w = (ok report, w)
await_report (Outcome.rejected message) w = (failed (other_failure message), w)
await_report Outcome.process_died w = (crashes, w)

-- The argument of `resultRepo.create`.
unfoldable pub result_data : Text → Text → ProcessingReport → CreateResultData
result_data job_id file_id report = record {
  job_id = job_id;
  file_id = file_id;
  total_rows = report.total_rows;
  valid_rows = report.valid_rows;
  invalid_rows = report.invalid_rows;
  duplicate_rows = report.duplicate_rows;
  duplicate_strategy = report.duplicate_strategy;
  error_details = report.error_details;
  summary = report.summary;
}

-- What the worker is built from.
pub record WorkerParts (W F R D : Type 0) : Type 0 where
  pub config : Config
  pub hashing : Hashing F
  pub engine : JsEngine R
  pub js : JsNumber D
  pub mongo : Mongo W
  pub s3 : S3Client W
  pub io : Option (SocketServer W)

module _ {W F R D : Type 0} (parts : WorkerParts W F R D) where
  -- The outcome of `processCsv` on the events of the file's stream.
  unfoldable pub process_file : FileDocument → JobDocument → List CsvEvent → Outcome
  process_file file job events =
      process_csv parts.hashing parts.engine parts.js file.size job.validation_rules
        (create_duplicate_detector parts.hashing file.size
          parts.config.duplicate_hash_threshold_bytes)
        events

  -- `if (job.batchId) ...`
  unfoldable pub announce_batch : Option Text → Action W Unit
  announce_batch none = pure tt
  announce_batch (some []) = pure tt
  announce_batch (some (c ∷ s)) = do
    counts ← count_by_batch_id parts.mongo (c ∷ s)
    emit_batch_update parts.io (c ∷ s) (get_count JobStatus.completed counts) (total_count counts)

  -- from `createDuplicateDetector` to `resultRepo.create`
  unfoldable pub store_report :
      Text → Text → FileDocument → JobDocument → List CsvEvent → Action W ResultDocument
  store_report job_id file_id file job events = do
    report ← await_report (process_file file job events)
    parts.mongo.create_result (result_data job_id file_id report)

  -- what follows once the result is stored
  unfoldable pub complete_job : Text → JobDocument → ResultDocument → Action W Unit
  complete_job job_id job result = do
    update_status parts.mongo job_id JobStatus.completed none
    set_completed_at parts.mongo job_id
    emit_job_completed parts.io job_id result.id
    announce_batch job.batch_id

  -- the processor of the queue
  unfoldable pub process_job : BullJob → Action W Unit
  process_job bull_job = do
    update_status parts.mongo bull_job.job_id JobStatus.processing none
    set_started_at parts.mongo bull_job.job_id
    increment_attempts parts.mongo bull_job.job_id
    found_file ← parts.mongo.find_file bull_job.file_id
    file ← or_throw (file_missing bull_job.file_id) found_file
    found_job ← parts.mongo.find_job bull_job.job_id
    job ← or_throw (job_missing bull_job.job_id) found_job
    events ← get_object_stream parts.s3 file.s3_key
    result ← store_report bull_job.job_id bull_job.file_id file job events
    complete_job bull_job.job_id job result

  -- the listener of 'failed'
  unfoldable pub on_failed : Option BullJob → Failure → Action W Unit
  on_failed none error = pure tt
  on_failed (some bull_job) error =
      if leb parts.config.queue_max_retries bull_job.attempts_made
      then (do
        update_status parts.mongo bull_job.job_id JobStatus.failed (some (message_of error))
        emit_job_failed parts.io bull_job.job_id (message_of error) bull_job.attempts_made)
      else pure tt

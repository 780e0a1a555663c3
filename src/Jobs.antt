-- ===== src/Jobs.antt =====
-- src/repositories/mongo, src/models and src/interfaces' repositories, on the driver of MongoDB,
-- whose calls are a parameter.
pub mod Sorted
pub mod Paging
mod Tests
use file_processing_system.Prelude.{
  ℕ, ◌+◌, ◌-◌, ◌*◌, ◌/◌, Bool, true, false, List, [], ◌∷◌, Option, none, some,
}
use file_processing_system.Prelude.Text.{Text}
use file_processing_system.Types.{
  JobStatus, pending, processing, completed, DuplicateStrategy, ErrorDetail, ProcessingSummary,
  ValidationRules, PaginationQuery, PaginatedResult, FileDocument, JobDocument, ResultDocument,
}
use file_processing_system.Effects.{Action, pure, ◌>>=◌, ◌>>◌}

pub record CreateFileData : Type 0 where
  pub original_name : Text
  pub s3_key : Text
  pub s3_bucket : Text
  pub mime_type : Text
  pub size : ℕ

pub record CreateJobData : Type 0 where
  pub file_id : Text
  pub priority : ℕ
  pub validation_rules : Option ValidationRules
  pub batch_id : Option Text
  pub max_attempts : ℕ

pub record CreateResultData : Type 0 where
  pub job_id : Text
  pub file_id : Text
  pub total_rows : ℕ
  pub valid_rows : ℕ
  pub invalid_rows : ℕ
  pub duplicate_rows : ℕ
  pub duplicate_strategy : DuplicateStrategy
  pub error_details : List ErrorDetail
  pub summary : ProcessingSummary

pub record JobListFilters : Type 0 where
  pub status : Option JobStatus
  pub batch_id : Option Text
  pub priority : Option ℕ

-- The update documents of `findByIdAndUpdate`.
pub data JobUpdate : Type 0 where
  set_status : JobStatus → Option Text → JobUpdate
  set_progress : ℕ → JobUpdate
  inc_attempts : JobUpdate
  set_started : ℕ → JobUpdate
  set_completed : ℕ → JobUpdate

-- What the update makes of a document.
unfoldable pub apply_update : JobUpdate → JobDocument → JobDocument
apply_update (set_status status error) job = record job { status = status; error = error }
apply_update (set_progress progress) job = record job { progress = progress }
apply_update inc_attempts job = record job { attempts = job.attempts + 1 }
apply_update (set_started time) job = record job { started_at = some time }
apply_update (set_completed time) job = record job { completed_at = some time }

-- The calls of the three models, and the clock. A list of counts is the result of `$group`; the
-- filter of `find_jobs` is what `list` puts into its query.
pub record Mongo (W : Type 0) : Type 0 where
  pub create_file : CreateFileData → Action W FileDocument
  pub find_file : Text → Action W (Option FileDocument)
  pub find_file_by_key : Text → Action W (Option FileDocument)
  pub delete_file : Text → Action W (Option FileDocument)
  pub create_job : CreateJobData → Action W JobDocument
  pub insert_jobs : List CreateJobData → Action W (List JobDocument)
  pub find_job : Text → Action W (Option JobDocument)
  pub update_job : Text → JobUpdate → Action W (Option JobDocument)
  -- sorted by `createdAt`, the latest first
  pub find_jobs : JobListFilters → ℕ → ℕ → Action W (List JobDocument)
  pub count_documents : JobListFilters → Action W ℕ
  pub group_by_status : Option Text → Action W (List (JobStatus × ℕ))
  pub create_result : CreateResultData → Action W ResultDocument
  pub find_result : Text → Action W (Option ResultDocument)
  pub now : Action W ℕ

-- `Record<JobStatus, number>`
pub record StatusCounts : Type 0 where
  pub pending_jobs : ℕ
  pub processing_jobs : ℕ
  pub completed_jobs : ℕ
  pub failed_jobs : ℕ

abbrev pub no_jobs : StatusCounts
no_jobs = record { pending_jobs = 0; processing_jobs = 0; completed_jobs = 0; failed_jobs = 0 }

-- `counts[status] = count`
unfoldable pub set_count : JobStatus → ℕ → StatusCounts → StatusCounts
set_count JobStatus.pending n counts = record counts { pending_jobs = n }
set_count JobStatus.processing n counts = record counts { processing_jobs = n }
set_count JobStatus.completed n counts = record counts { completed_jobs = n }
set_count JobStatus.failed n counts = record counts { failed_jobs = n }

-- `counts[status]`
unfoldable pub get_count : JobStatus → StatusCounts → ℕ
get_count JobStatus.pending counts = counts.pending_jobs
get_count JobStatus.processing counts = counts.processing_jobs
get_count JobStatus.completed counts = counts.completed_jobs
get_count JobStatus.failed counts = counts.failed_jobs

-- The loop over what `$group` found.
unfoldable pub fill_counts : List (JobStatus × ℕ) → StatusCounts → StatusCounts
fill_counts [] counts = counts
fill_counts ((status, n) ∷ rest) counts = fill_counts rest (set_count status n counts)

-- `Object.values(counts).reduce((sum, c) => sum + c, 0)`
unfoldable pub total_count : StatusCounts → ℕ
total_count counts =
    counts.pending_jobs + counts.processing_jobs + counts.completed_jobs + counts.failed_jobs

-- A filter that is 0 or the empty text is falsy, and left out of the query.
unfoldable pub given_text : Option Text → Option Text
given_text none = none
given_text (some []) = none
given_text (some (c ∷ s)) = some (c ∷ s)

unfoldable pub given_number : Option ℕ → Option ℕ
given_number none = none
given_number (some ℕ.zero) = none
given_number (some (ℕ.suc n)) = some (ℕ.suc n)

unfoldable pub list_query : JobListFilters → JobListFilters
list_query filters = record {
  status = filters.status;
  batch_id = given_text filters.batch_id;
  priority = given_number filters.priority;
}

-- `(page - 1) * limit`: the validator admits pages from 1 on.
unfoldable pub skipped : PaginationQuery → ℕ
skipped pagination = (pagination.page - 1) * pagination.limit

-- `Math.ceil(total / limit)`, for limits from 1 on
unfoldable pub page_count : ℕ → ℕ → ℕ
page_count total limit = (total + (limit - 1)) / limit

module _ {W : Type 0} (mongo : Mongo W) where
  unfoldable pub update_status : Text → JobStatus → Option Text → Action W (Option JobDocument)
  update_status id status error = mongo.update_job id (set_status status error)

  unfoldable pub update_progress : Text → ℕ → Action W (Option JobDocument)
  update_progress id progress = mongo.update_job id (set_progress progress)

  unfoldable pub increment_attempts : Text → Action W (Option JobDocument)
  increment_attempts id = mongo.update_job id inc_attempts

  unfoldable pub set_started_at : Text → Action W (Option JobDocument)
  set_started_at id = do time ← mongo.now; mongo.update_job id (set_started time)

  unfoldable pub set_completed_at : Text → Action W (Option JobDocument)
  set_completed_at id = do time ← mongo.now; mongo.update_job id (set_completed time)

  unfoldable pub delete_file : Text → Action W Unit
  delete_file id = do mongo.delete_file id; pure tt

  -- The two queries run one after the other.
  unfoldable pub list_jobs_page :
      JobListFilters → PaginationQuery → Action W (PaginatedResult JobDocument)
  list_jobs_page filters pagination = do
    found ← mongo.find_jobs (list_query filters) (skipped pagination) pagination.limit
    count ← mongo.count_documents (list_query filters)
    pure (record {
      items = found;
      total = count;
      page = pagination.page;
      limit = pagination.limit;
      total_pages = page_count count pagination.limit;
    })

  unfoldable pub count_by_status : Action W StatusCounts
  count_by_status = do groups ← mongo.group_by_status none; pure (fill_counts groups no_jobs)

  unfoldable pub count_by_batch_id : Text → Action W StatusCounts
  count_by_batch_id batch_id = do
    groups ← mongo.group_by_status (some batch_id)
    pure (fill_counts groups no_jobs)

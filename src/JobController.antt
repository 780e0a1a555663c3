-- ===== src/JobController.antt =====
-- src/controllers/job.controller.ts, src/validators/job.validator.ts and
-- src/middleware/cache.middleware.ts. The coercions of zod are a parameter.
use file_processing_system.Prelude.{
  ℕ, Bool, true, ◌&&◌, ◌||◌, leb, ◌==◌, every, length, Option, none, some, if◌then◌else◌,
}
use file_processing_system.Prelude.Text.{Text}
use file_processing_system.Types.{JobStatus, PaginationQuery}
use file_processing_system.Csv.{JsNumber}
use file_processing_system.Effects.{Action, pure, ◌>>=◌}
use file_processing_system.Http.{Response}
use file_processing_system.Jobs.{Mongo, JobListFilters}
use file_processing_system.Services.{Redis, JsonCodec, cache_get}
use file_processing_system.JobService.{
  JobStatusDto, JobResultDto, JobListDto, Stats, get_job_status, get_job_result, list_jobs,
  get_stats,
}
use file_processing_system.Uploads.{parsed, ok_response}
use file_processing_system.Uploads.Schemas.{in_range, or_default, valid_priority, valid_batch}

unfoldable pub is_hex_digit : ℕ → Bool
is_hex_digit c = leb 48 c && leb c 57 || leb 65 c && leb c 70 || leb 97 c && leb c 102

-- `/^[0-9a-fA-F]{24}$/`
unfoldable pub is_job_id : Text → Bool
unfolding is_hex_digit
is_job_id id = length id == 24 && every is_hex_digit id

-- The members of the query after their coercion, where any may be missing.
pub record JobListInput : Type 0 where
  pub page : Option ℕ
  pub limit : Option ℕ
  pub status : Option JobStatus
  pub batch_id : Option Text
  pub priority : Option ℕ

pub record JobListQuery : Type 0 where
  pub pagination : PaginationQuery
  pub filters : JobListFilters

-- `.min(1).optional()`
unfoldable pub valid_page : Option ℕ → Bool
valid_page none = true
valid_page (some n) = leb 1 n

-- `.min(1).max(100).optional()`
unfoldable pub valid_limit : Option ℕ → Bool
valid_limit none = true
valid_limit (some n) = in_range 1 100 n

unfoldable pub check_list_query : (Text → Bool) → JobListInput → Option JobListQuery
check_list_query is_uuid input =
    if valid_page input.page
      && valid_limit input.limit
      && valid_batch is_uuid input.batch_id
      && valid_priority input.priority
    then some (record {
      pagination = record { page = or_default 1 input.page; limit = or_default 20 input.limit };
      filters = record {
        status = input.status;
        batch_id = input.batch_id;
        priority = input.priority;
      };
    })
    else none

-- `JobIdParamSchema` on the `id` of the path
unfoldable pub check_job_id : Text → Option Text
check_job_id id = if is_job_id id then some id else none

module _ {W : Type 0} (mongo : Mongo W) where
  unfoldable pub get_job : Text → Action W (Response JobStatusDto)
  get_job param = do
    id ← parsed (check_job_id param)
    job ← get_job_status mongo id
    pure (ok_response 200 job)

  unfoldable pub get_job_result_response : Text → Action W (Response JobResultDto)
  get_job_result_response param = do
    id ← parsed (check_job_id param)
    result ← get_job_result mongo id
    pure (ok_response 200 result)

  unfoldable pub list_jobs_response : (Text → Bool) → JobListInput → Action W (Response JobListDto)
  list_jobs_response is_uuid input = do
    query ← parsed (check_list_query is_uuid input)
    jobs ← list_jobs mongo query.filters query.pagination
    pure (ok_response 200 jobs)

unfoldable pub get_stats_response :
    {W D : Type 0}
    → JsNumber D
    → JsonCodec (Stats D)
    → Mongo W
    → Redis W
    → Action W (Response (Stats D))
get_stats_response js codec mongo redis = do
  stats ← get_stats js codec mongo redis
  pure (ok_response 200 stats)

-- The middleware: the cached answer, or that of the handlers that follow.
unfoldable pub answer_or_next :
    {W A : Type 0} → Action W (Response A) → Option A → Action W (Response A)
answer_or_next next none = next
answer_or_next next (some cached) = pure (ok_response 200 cached)

unfoldable pub cache_middleware :
    {W A : Type 0} → Redis W → JsonCodec A → Text → Action W (Response A) → Action W (Response A)
cache_middleware redis codec key next = do
  cached ← cache_get redis codec key
  answer_or_next next cached

-- ===== src/JobService.antt =====
-- src/services/job.service.ts, src/controllers/job.controller.ts and their DTOs.
use file_processing_system.Prelude.{
  ℕ, Bool, true, false, ltb, List, [], ◌∷◌, ◌++◌, map, Option, none, some, if◌then◌else◌,
}
use file_processing_system.Prelude.Text.{Text, codes, text_eq}
use file_processing_system.Types.{
  JobStatus, DuplicateStrategy, ErrorDetail, ProcessingSummary, ValidationRules, PaginationQuery,
  FileDocument, JobDocument, ResultDocument,
}
use file_processing_system.Csv.{JsNumber}
use file_processing_system.Effects.{
  api_failure, not_found_error, Action, pure, throw, ◌>>=◌, ◌>>◌, for_each,
}
use file_processing_system.Jobs.{
  Mongo, JobListFilters, StatusCounts, get_count, total_count, list_jobs_page, count_by_status,
}
use file_processing_system.Services.{Redis, JsonCodec, cache_get, cache_set, cache_delete}

pub record JobStatusDto : Type 0 where
  pub job_id : Text
  pub file_name : Text
  pub status : JobStatus
  pub progress : ℕ
  pub priority : ℕ
  pub attempts : ℕ
  pub error : Option Text
  pub validation_rules : Option ValidationRules
  pub created_at : ℕ
  pub started_at : Option ℕ
  pub completed_at : Option ℕ

pub record JobResultDto : Type 0 where
  pub job_id : Text
  pub file_id : Text
  pub total_rows : ℕ
  pub valid_rows : ℕ
  pub invalid_rows : ℕ
  pub duplicate_rows : ℕ
  pub duplicate_strategy : DuplicateStrategy
  pub error_details : List ErrorDetail
  pub summary : ProcessingSummary
  pub created_at : ℕ

pub record JobListDto : Type 0 where
  pub jobs : List JobStatusDto
  pub total : ℕ
  pub page : ℕ
  pub limit : ℕ
  pub total_pages : ℕ

-- `{ total, ...counts, successRate }`
pub record Stats (D : Type 0) : Type 0 where
  pub total : ℕ
  pub counts : StatusCounts
  pub success_rate : D

unfoldable pub to_job_status_dto : JobDocument → Text → JobStatusDto
to_job_status_dto job file_name = record {
  job_id = job.id;
  file_name = file_name;
  status = job.status;
  progress = job.progress;
  priority = job.priority;
  attempts = job.attempts;
  error = job.error;
  validation_rules = job.validation_rules;
  created_at = job.created_at;
  started_at = job.started_at;
  completed_at = job.completed_at;
}

unfoldable pub to_job_result_dto : ResultDocument → JobResultDto
to_job_result_dto result = record {
  job_id = result.job_id;
  file_id = result.file_id;
  total_rows = result.total_rows;
  valid_rows = result.valid_rows;
  invalid_rows = result.invalid_rows;
  duplicate_rows = result.duplicate_rows;
  duplicate_strategy = result.duplicate_strategy;
  error_details = result.error_details;
  summary = result.summary;
  created_at = result.created_at;
}

-- `file?.originalName ?? 'Unknown'`
unfoldable pub name_of : Option FileDocument → Text
name_of none = codes "Unknown"
name_of (some file) = file.original_name

-- `if (!value) throw ApiError.notFound(message)`
unfoldable pub require : {W A : Type 0} → Text → Option A → Action W A
require message none = throw (api_failure (not_found_error message))
require message (some value) = pure value

-- `set.has(id)` and `[...new Set(ids)]`, which keeps the first of equal ids
unfoldable pub has_id : Text → List Text → Bool
has_id id [] = false
has_id id (other ∷ rest) = let later = has_id id rest in if text_eq id other then true else later

unfoldable pub distinct_from : List Text → List Text → List Text
distinct_from seen [] = []
distinct_from seen (id ∷ rest) =
    let added = distinct_from (id ∷ seen) rest in
    let same = distinct_from seen rest in if has_id id seen then same else id ∷ added

-- `fileNameMap`: a later entry takes the place of an earlier one with its key, as the last of
-- the list is found first.
unfoldable pub name_entries : List (Option FileDocument) → List (Text × Text)
name_entries [] = []
name_entries (none ∷ files) = name_entries files
name_entries (some file ∷ files) = name_entries files ++ (file.id, file.original_name) ∷ []

-- `fileNameMap.get(id) ?? 'Unknown'`
unfoldable pub name_in : Text → List (Text × Text) → Text
name_in id [] = codes "Unknown"
name_in id ((key, name) ∷ rest) =
    let other = name_in id rest in if text_eq id key then name else other

module _ {D : Type 0} (js : JsNumber D) where
  -- `total > 0 ? (counts[COMPLETED] / total) * 100 : 0`
  unfoldable pub success_rate : StatusCounts → D
  success_rate counts =
      if ltb 0 (total_count counts)
      then js.mul
          (js.div (js.of_ℕ (get_count JobStatus.completed counts)) (js.of_ℕ (total_count counts)))
          (js.of_ℕ 100)
      else js.of_ℕ 0

  -- `Math.round(rate * 100) / 100`
  unfoldable pub rounded : D → D
  rounded rate = js.div (js.of_ℕ (js.round (js.mul rate (js.of_ℕ 100)))) (js.of_ℕ 100)

  unfoldable pub stats_of : StatusCounts → Stats D
  stats_of counts = record {
    total = total_count counts;
    counts = counts;
    success_rate = rounded (success_rate counts);
  }

module _ {W : Type 0} (mongo : Mongo W) where
  unfoldable pub get_job_status : Text → Action W JobStatusDto
  get_job_status id = do
    found ← mongo.find_job id
    job ← require (codes "Job not found") found
    file ← mongo.find_file job.file_id
    pure (to_job_status_dto job (name_of file))

  unfoldable pub get_job_result : Text → Action W JobResultDto
  get_job_result id = do
    found ← mongo.find_result id
    result ← require (codes "Result not found") found
    pure (to_job_result_dto result)

  -- The lookups of the files run one after the other.
  unfoldable pub list_jobs : JobListFilters → PaginationQuery → Action W JobListDto
  list_jobs filters pagination = do
    found ← list_jobs_page mongo filters pagination
    files ← for_each mongo.find_file (distinct_from [] (map (λ job. job.file_id) found.items))
    pure (record {
      jobs =
          map (λ job. to_job_status_dto job (name_in job.file_id (name_entries files))) found.items;
      total = found.total;
      page = found.page;
      limit = found.limit;
      total_pages = found.total_pages;
    })

module _ {W D : Type 0} (js : JsNumber D) (codec : JsonCodec (Stats D)) (mongo : Mongo W)
    (redis : Redis W) where
  unfoldable pub computed_stats : Option (Stats D) → Action W (Stats D)
  computed_stats (some cached) = pure cached
  computed_stats none = do
    counts ← count_by_status mongo
    cache_set redis codec (codes "stats:dashboard") (stats_of js counts) 10
    pure (stats_of js counts)

  unfoldable pub get_stats : Action W (Stats D)
  get_stats = do cached ← cache_get redis codec (codes "stats:dashboard"); computed_stats cached

unfoldable pub invalidate_job_cache : {W : Type 0} → Redis W → Action W Unit
invalidate_job_cache redis = cache_delete redis (codes "stats:dashboard")

-- ===== src/RateLimits.antt =====
-- src/middleware/rateLimiter.middleware.ts and the routes of src/routes: which limit stands
-- before which handler. The counting is that of the package express-rate-limit.
use file_processing_system.Prelude.{ℕ, ◌*◌}
use file_processing_system.Prelude.Text.{Text, codes}
use file_processing_system.Types.{ErrorCode, rate_limited}

pub record RateLimit : Type 0 where
  pub window_ms : ℕ
  pub max_requests : ℕ
  pub code : ErrorCode
  pub message : Text

abbrev pub upload_rate_limiter : RateLimit
upload_rate_limiter = record {
  window_ms = 60 * 1000;
  max_requests = 10;
  code = rate_limited;
  message = codes "Too many upload requests";
}

abbrev pub batch_rate_limiter : RateLimit
batch_rate_limiter = record {
  window_ms = 60 * 1000;
  max_requests = 5;
  code = rate_limited;
  message = codes "Too many batch requests";
}

abbrev pub job_read_rate_limiter : RateLimit
job_read_rate_limiter = record {
  window_ms = 60 * 1000;
  max_requests = 60;
  code = rate_limited;
  message = codes "Too many requests";
}

abbrev pub stats_rate_limiter : RateLimit
stats_rate_limiter = record {
  window_ms = 60 * 1000;
  max_requests = 30;
  code = rate_limited;
  message = codes "Too many requests";
}

-- The routes, in the order of the two routers.
pub data Route : Type 0 where
  post_presign post_confirm post_batch_presign post_batch_confirm : Route
  get_stats_route get_jobs_route get_job_route get_job_result_route : Route

unfoldable pub limit_of : Route → RateLimit
limit_of post_presign = upload_rate_limiter
limit_of post_confirm = upload_rate_limiter
limit_of post_batch_presign = batch_rate_limiter
limit_of post_batch_confirm = batch_rate_limiter
limit_of get_stats_route = stats_rate_limiter
limit_of get_jobs_route = job_read_rate_limiter
limit_of get_job_route = job_read_rate_limiter
limit_of get_job_result_route = job_read_rate_limiter

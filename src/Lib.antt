-- ===== src/Lib.antt =====
-- The file processing system: a service that takes CSV files by way of S3, checks their rows in
-- a worker, and reports on them. Its parts, and the files that model them:
--
-- - src/types, src/interfaces: Types. Records of strings are lists of their entries, in order.
-- - src/processors/validator.ts: Validator (Number, Email and Pattern for the three parsers),
--   with its theorems under Validator/Laws.
-- - src/processors/duplicateDetector.ts: Duplicates. Keys, Laws and Exact say what the detectors
--   tell apart and remember.
-- - src/processors/csv.processor.ts: Csv, and Csv/Json for the sample of a bad row. The listeners
--   of the two streams are `listen`, on one state; `process_csv` runs them on the events that the
--   streams emit, and gives the outcome of the promise. Csv/Recount and Csv/Exact count the events
--   of a file without its variables.
-- - src/utils/ApiError.ts: Effects, with the programs on the outside world in which the services
--   are written: a promise is a function from the state of the world to how it ends (a value, a
--   failure, never, or with the process) and the state that it leaves. Effects/Triples has the
--   rules for what holds before and after.
-- - src/utils/asyncHandler.ts, src/middleware/error.middleware.ts: Http.
-- - src/middleware/sanitize.middleware.ts: Sanitize.
-- - src/services/storage.service.ts: Storage.
-- - src/repositories: Jobs, and Jobs/Paging for the pages of a list. `sort({ createdAt: -1 })`
--   leaves the order of jobs of one time open (Jobs/Sorted).
-- - src/services/cache.service.ts, queue.service.ts and socket.service.ts: Services.
-- - src/services/job.service.ts: JobService.
-- - src/controllers/upload.controller.ts, src/validators/upload.validator.ts: Uploads. Queued says
--   what a confirmation relies on, and Steps and Sound what it keeps.
-- - src/controllers/job.controller.ts, src/validators/job.validator.ts and
--   src/middleware/cache.middleware.ts: JobController.
-- - src/models: Documents. src/middleware/rateLimiter.middleware.ts, src/routes: RateLimits.
-- - dashboard/src/services/api.ts: Dashboard/Api, with the JSON of the answers in its Wire.
--   dashboard/src/hooks/useSocket.ts: Dashboard/Rooms. dashboard/src/hooks/useUpload.ts:
--   Dashboard/Uploads, where each call of `upload` is a phase that hears events.
--   dashboard/src/hooks/useBatchUpload.ts: Dashboard/Batches, one run from its answers and events.
-- - dashboard/src/components/upload: Dashboard/Editors for RequiredFieldsEditor.tsx, and its Types
--   and Patterns for the other two; Dashboard/Zone for ValidationRulesForm.tsx and UploadZone.tsx.
-- - dashboard/src/pages/DashboardPage.tsx with Pagination.tsx, JobFilters.tsx and useJobs.ts:
--   Dashboard/Paging. StatusChart.tsx and ProgressBar.tsx: Dashboard/Charts.
-- - src/worker.ts: Worker. Store says what it relies on of the database, Keeping what each of its
--   steps keeps, Success and Completion what each does when its calls succeed, Retries what a
--   second run comes to, and Database is a database in memory for the tests.
--
-- The worker calls `process_csv` with a detector of Duplicates and the rules of the job; the
-- processor calls Validator for each row. The controller creates the documents that the worker
-- reads. Prelude has the shared names, texts, lists and tests, and Fixtures concrete parameters.
--
-- A text is the list of its UTF-16 code units, a date its number of milliseconds, and a count or
-- a size a natural number, which stays below the exact range of doubles. What the program takes
-- from others is a parameter: the RegExp engine and `Date.parse` (JsEngine), SHA-256 and the
-- Bloom filters (Hashing), the division of doubles (JsNumber), the clients of S3, MongoDB, Redis,
-- BullMQ and socket.io, the package uuid, the type checks of zod and what `JSON.stringify` makes
-- of the data of an answer; what is relied on of them is a named hypothesis of the theorem. The
-- calls of a `Promise.all` run one after the other. The calls of S3 are within the bucket of the
-- settings. The one fuel is that of `decimal`, `n + 1` rounds for the digits of `n`, which a
-- division by ten at each round does not use up.
--
-- Not modelled: the log, the wiring of the server, the connections, the settings of helmet and
-- CORS, the casts of mongoose and its indices but the unique one of the results, and of the
-- dashboard what it renders and the caches of react-query.
pub mod Prelude
pub mod Types
pub mod Validator
pub mod Duplicates
pub mod Csv
pub mod Effects
pub mod Sanitize
pub mod Http
pub mod Storage
pub mod Jobs
pub mod Services
pub mod JobService
pub mod Worker
pub mod Uploads
pub mod JobController
pub mod Documents
pub mod RateLimits
pub mod Dashboard
pub mod Fixtures

-- ===== src/Uploads.antt =====
-- src/controllers/upload.controller.ts, src/validators/upload.validator.ts and their DTOs. The
-- package zod, as far as it checks the types of a body's members, is a parameter; the bounds and
-- defaults that the schemas state are definitions.
pub mod Schemas
pub mod Batches
mod Queued
mod Steps
mod Sound
mod Tests
use file_processing_system.Prelude.{
  ℕ, Bool, true, false, List, [], ◌∷◌, map, Option, none, some, if◌then◌else◌,
}
use file_processing_system.Prelude.Text.{Text, codes}
use file_processing_system.Types.{JobStatus, FieldType, ValidationRules, FileDocument, JobDocument}
use file_processing_system.Effects.{
  Failure, other_failure, Action, pure, throw, ◌>>=◌, ◌>>◌, for_each,
}
use file_processing_system.Http.{Response, Body, success}
use file_processing_system.Storage.{
  S3Client, PresignedUrl, generate_presigned_url, verify_object, move_to_confirmed,
}
use file_processing_system.Jobs.{Mongo, CreateFileData, CreateJobData}
use file_processing_system.Services.{
  Config, Redis, BullQueue, JobRequest, add_job, add_batch_jobs, SocketServer, emit_stats_update,
}
use file_processing_system.JobService.{invalidate_job_cache}
use Schemas.{PresignRequest, PresignOptions, ConfirmUpload, BatchConfirm, RulesInput, parse_rules}

-- `{ presignedUrl, s3Key, expiresIn }`
pub record PresignResponse : Type 0 where
  pub presigned_url : Text
  pub s3_key : Text
  pub expires_in : ℕ

pub record UploadResponse : Type 0 where
  pub job_id : Text
  pub file_id : Text
  pub status : JobStatus
  pub message : Text

pub record BatchPresignResponse : Type 0 where
  pub batch_id : Text
  pub files : List PresignResponse

-- `{ jobId, fileId }`
pub record CreatedJob : Type 0 where
  pub job_id : Text
  pub file_id : Text

pub record BatchConfirmResponse : Type 0 where
  pub batch_id : Text
  pub jobs : List CreatedJob

-- The schemas, applied to a body; `none` is a ZodError.
pub record UploadSchemas (Json : Type 0) : Type 0 where
  pub presign : Json → Option PresignRequest
  pub presign_partial : Json → Option PresignOptions
  pub confirm : Json → Option ConfirmUpload
  pub batch_presign : Json → Option (List PresignRequest)
  pub batch_confirm : Json → Option BatchConfirm

-- What the controller is built from.
pub record UploadParts (W Json : Type 0) : Type 0 where
  pub config : Config
  pub schemas : UploadSchemas Json
  pub s3 : S3Client W
  pub mongo : Mongo W
  pub queue : BullQueue W
  pub redis : Redis W
  pub io : Option (SocketServer W)

-- `Schema.parse(body)`, whose ZodError is no ApiError
unfoldable pub parsed : {W A : Type 0} → Option A → Action W A
parsed none = throw (other_failure (codes "ZodError"))
parsed (some value) = pure value

unfoldable pub ok_response : {A : Type 0} → ℕ → A → Response A
ok_response status value = record { status = status; body = success value }

unfoldable pub presign_response : PresignedUrl → PresignResponse
presign_response url = record {
  presigned_url = url.presigned_url;
  s3_key = url.s3_key;
  expires_in = 900;
}

-- `presignData.priority ?? 5`
unfoldable pub priority_or_default : Option ℕ → ℕ
priority_or_default none = 5
priority_or_default (some priority) = priority

-- `validationRules ? { ... } : null`
unfoldable pub rules_of : Option RulesInput → Option ValidationRules
rules_of none = none
rules_of (some rules) = some (parse_rules rules)

unfoldable pub created_job : JobRequest → CreatedJob
created_job job = record { job_id = job.job_id; file_id = job.file_id }

module _ {W Json : Type 0} (parts : UploadParts W Json) where
  unfoldable pub presign_one : PresignRequest → Action W PresignResponse
  presign_one request = do
    url ← generate_presigned_url parts.s3 request.filename (some request.file_size)
    pure (presign_response url)

  unfoldable pub presign : Json → Action W (Response PresignResponse)
  presign body = do
    request ← parsed (parts.schemas.presign body)
    answer ← presign_one request
    pure (ok_response 200 answer)

  -- From the new key to the two documents: the same lines in both handlers.
  unfoldable pub create_upload :
      ConfirmUpload
      → ℕ
      → Option ValidationRules
      → Option Text
      → Action W (FileDocument × JobDocument)
  create_upload upload priority rules batch_id = do
    key_id ← parts.s3.uuid
    key ← move_to_confirmed parts.s3 upload.s3_key key_id upload.original_name
    file ← parts.mongo.create_file (record {
      original_name = upload.original_name;
      s3_key = key;
      s3_bucket = parts.config.s3_bucket;
      mime_type = codes "text/csv";
      size = upload.file_size;
    })
    job ← parts.mongo.create_job (record {
      file_id = file.id;
      priority = priority;
      validation_rules = rules;
      batch_id = batch_id;
      max_attempts = parts.config.queue_max_retries;
    })
    pure (file, job)

  unfoldable pub confirm_response : FileDocument × JobDocument → Response UploadResponse
  confirm_response created = ok_response 201 (record {
    job_id = created.1.id;
    file_id = created.0.id;
    status = created.1.status;
    message = codes "File upload confirmed, processing job created";
  })

  -- The handler after the two schemas.
  unfoldable pub confirm_upload :
      ConfirmUpload → PresignOptions → Action W (Response UploadResponse)
  confirm_upload upload options = do
    verify_object parts.s3 upload.s3_key upload.file_size
    created ←
        create_upload upload (priority_or_default options.priority)
          (rules_of options.validation_rules) options.batch_id
    add_job parts.config parts.queue created.1.id created.0.id created.1.priority
    invalidate_job_cache parts.redis
    emit_stats_update parts.io
    pure (confirm_response created)

  unfoldable pub confirm : Json → Action W (Response UploadResponse)
  confirm body = do
    upload ← parsed (parts.schemas.confirm body)
    options ← parsed (parts.schemas.presign_partial body)
    confirm_upload upload options

  -- The calls of `Promise.all` run one after the other.
  unfoldable pub batch_presign : Json → Action W (Response BatchPresignResponse)
  batch_presign body = do
    requests ← parsed (parts.schemas.batch_presign body)
    batch_id ← parts.s3.uuid
    files ← for_each presign_one requests
    pure (ok_response 200 (record { batch_id = batch_id; files = files }))

  -- One round of the loop, with the entry that it pushes to `jobsData`.
  unfoldable pub create_batch_job :
      ℕ → Option ValidationRules → Text → ConfirmUpload → Action W JobRequest
  create_batch_job priority rules batch_id upload = do
    created ← create_upload upload priority rules (some batch_id)
    pure (record { job_id = created.1.id; file_id = created.0.id; priority = created.1.priority })

  unfoldable pub confirm_batch : BatchConfirm → Action W (Response BatchConfirmResponse)
  confirm_batch batch = do
    for_each (λ file. verify_object parts.s3 file.s3_key file.file_size) batch.files
    jobs ←
        for_each (create_batch_job batch.priority (rules_of batch.validation_rules) batch.batch_id)
          batch.files
    add_batch_jobs parts.config parts.queue jobs
    invalidate_job_cache parts.redis
    emit_stats_update parts.io
    pure (ok_response 201 (record { batch_id = batch.batch_id; jobs = map created_job jobs }))

  unfoldable pub batch_confirm : Json → Action W (Response BatchConfirmResponse)
  batch_confirm body = do batch ← parsed (parts.schemas.batch_confirm body); confirm_batch batch

-- ===== src/Dashboard/Batches.antt =====
-- dashboard/src/hooks/useBatchUpload.ts: one run of `upload`, from the answers that it is given
-- and the events of the uploads to S3 in the order in which they come.
mod Names
mod Laws
mod Tests
use file_processing_system.Prelude.{
  ℕ, suc, ◌+◌, Bool, true, false, not, ltb, ◌==◌, ◌||◌, List, [], ◌∷◌, ◌++◌, map, Option, none,
  some, if◌then◌else◌, length,
}
use file_processing_system.Prelude.Text.{Text, codes, decimal}
use file_processing_system.Dashboard.Api.{Answer, answered, refused, ClientError, or_text}
use file_processing_system.Dashboard.Uploads.{client_message}

-- 'pending' | 'uploading' | 'uploaded' | 'done' | 'error'
pub data BatchFileStatus : Type 0 where
  pending uploading uploaded done error : BatchFileStatus

pub record BatchFile : Type 0 where
  pub name : Text
  pub size : ℕ
  pub status : BatchFileStatus
  pub progress : ℕ
  pub job_id : Option Text
  pub error_message : Option Text
  pub s3_key : Option Text

-- The status of the batch.
pub data BatchStatus : Type 0 where
  idle presigning uploading confirming done error : BatchStatus

pub record BatchUpload : Type 0 where
  pub status : BatchStatus
  pub files : List BatchFile
  pub batch_id : Option Text
  pub error_message : Option Text

abbrev pub idle_batch : BatchUpload
idle_batch = record { status = idle; files = []; batch_id = none; error_message = none }

-- The parts of the two responses that are read.
pub record BatchPresigned : Type 0 where
  pub batch_id : Text
  pub s3_keys : List Text

-- A file to upload: its name and its size.
abbrev pub LocalFile : Type 0
LocalFile = Text × ℕ

unfoldable pub initial_file : LocalFile → BatchFile
initial_file file = record {
  name = file.0;
  size = file.1;
  status = pending;
  progress = 0;
  job_id = none;
  error_message = none;
  s3_key = none;
}

unfoldable pub start_batch : List LocalFile → BatchUpload
unfolding initial_file
start_batch files = record {
  status = presigning;
  files = map initial_file files;
  batch_id = none;
  error_message = none;
}

-- `presign.files[i].s3Key` for each file: a response with too few entries is a TypeError.
unfoldable pub assign_keys : List Text → List BatchFile → Option (List BatchFile)
assign_keys keys [] = some []
assign_keys [] (file ∷ files) = none
assign_keys (key ∷ keys) (file ∷ files) = elim (assign_keys keys files) [
  | none ↦ none
  | some rest ↦ some (record file { s3_key = some key; status = uploading } ∷ rest)
]

-- `files.map((f, j) => j === i ? change(f) : f)`
unfoldable pub change_at : ℕ → ℕ → (BatchFile → BatchFile) → List BatchFile → List BatchFile
change_at i j change [] = []
change_at i j change (file ∷ files) =
    (if j == i then change file else file) ∷ change_at i (suc j) change files

-- What the uploads to S3 report, in any order.
pub data FileEvent : Type 0 where
  file_progress : ℕ → ℕ → FileEvent
  file_uploaded : ℕ → FileEvent

unfoldable pub on_file_event : FileEvent → List BatchFile → List BatchFile
unfolding change_at
on_file_event (file_progress i percent) files =
    change_at i 0 (λ file. record file { progress = percent }) files
on_file_event (file_uploaded i) files =
    change_at i 0 (λ file. record file { status = uploaded; progress = 100 }) files

unfoldable pub on_file_events : List FileEvent → List BatchFile → List BatchFile
on_file_events [] files = files
on_file_events (event ∷ events) files = on_file_events events (on_file_event event files)

-- How each upload ended: `some` is the message of its rejection. `failedUploads`, from index `i`.
unfoldable pub failed_from : ℕ → List (Option Text) → List ℕ
failed_from i [] = []
failed_from i (none ∷ ends) = failed_from (suc i) ends
failed_from i (some message ∷ ends) = i ∷ failed_from (suc i) ends

-- The files that failed, marked one after the other.
unfoldable pub mark_failed : ℕ → List (Option Text) → List BatchFile → List BatchFile
unfolding change_at or_text
mark_failed i [] files = files
mark_failed i (none ∷ ends) files = mark_failed (suc i) ends files
mark_failed i (some message ∷ ends) files = mark_failed (suc i) ends (
    change_at i 0
      (λ file. record file {
        status = error;
        error_message = some (or_text message (codes "Upload failed"));
      })
      files)

-- `failedUploads.includes(i)`
unfoldable pub includes : List ℕ → ℕ → Bool
includes [] i = false
includes (j ∷ js) i = let rest = includes js i in if i == j then true else rest

-- `xs.filter((_, i) => !skipped(i))`
unfoldable pub keep_from : {A : Type 0} → (ℕ → Bool) → ℕ → List A → List A
keep_from is_skipped i [] = []
keep_from is_skipped i (x ∷ xs) =
    let rest = keep_from is_skipped (suc i) xs in if is_skipped i then rest else x ∷ rest

-- `confirm.jobs[confirmIdx++]`, with `job?.jobId ?? null`
unfoldable pub next_job : List Text → Option Text
next_job [] = none
next_job (job ∷ jobs) = some job

unfoldable pub later_jobs : List Text → List Text
later_jobs [] = []
later_jobs (job ∷ jobs) = jobs

unfoldable pub assign_jobs : (ℕ → Bool) → ℕ → List Text → List BatchFile → List BatchFile
unfolding next_job later_jobs
assign_jobs is_skipped i jobs [] = []
assign_jobs is_skipped i jobs (file ∷ files) =
    let passed = file ∷ assign_jobs is_skipped (suc i) jobs files in
    let given =
      record file { status = done; job_id = next_job jobs }
      ∷ assign_jobs is_skipped (suc i) (later_jobs jobs) files in
    if is_skipped i then passed else given

-- `${failedUploads.length} of ${files.length} files failed to upload`
unfoldable pub failed_message : ℕ → ℕ → Text
failed_message failures total =
    decimal failures ++ (codes " of " ++ (decimal total ++ codes " files failed to upload"))

unfoldable pub final_status : List ℕ → BatchStatus
final_status [] = done
final_status (i ∷ failures) = error

unfoldable pub final_error : List ℕ → ℕ → Option Text
unfolding failed_message
final_error [] total = none
final_error (i ∷ failures) total = some (failed_message (suc (length failures)) total)

unfoldable pub error_batch : Text → BatchUpload → BatchUpload
error_batch message batch = record batch { status = error; error_message = some message }

-- The answer of the confirmation, by the ids of its jobs.
unfoldable pub confirm_answered : List ℕ → Answer (List Text) → BatchUpload → BatchUpload
unfolding error_batch final_status final_error includes assign_jobs
confirm_answered failures (refused err) batch = error_batch (client_message err) batch
confirm_answered failures (answered jobs) batch = record batch {
  status = final_status failures;
  error_message = final_error failures (length batch.files);
  files = assign_jobs (includes failures) 0 jobs batch.files;
}

-- From the end of the uploads on: only the files that were uploaded are confirmed.
unfoldable pub finish_batch : List (Option Text) → Answer (List Text) → BatchUpload → BatchUpload
unfolding error_batch confirm_answered mark_failed failed_from includes keep_from
finish_batch ends confirm batch =
    let failures = failed_from 0 ends in
    let marked = record batch { files = mark_failed 0 ends batch.files } in
    elim (keep_from (includes failures) 0 batch.files) [
      | [] ↦ error_batch (codes "All file uploads failed") marked
      | file ∷ files ↦ confirm_answered failures confirm (record marked { status = confirming })
    ]

-- `none` is the TypeError of a response with too few entries, which ends the page.
unfoldable pub presign_answered :
    Answer BatchPresigned
    → List FileEvent
    → List (Option Text)
    → Answer (List Text)
    → BatchUpload
    → Option BatchUpload
unfolding error_batch assign_keys on_file_events on_file_event finish_batch
presign_answered (refused err) events ends confirm batch =
    some (error_batch (client_message err) batch)
presign_answered (answered presigned) events ends confirm batch =
    elim (assign_keys presigned.s3_keys batch.files) [
      | none ↦ none
      | some files ↦ some (
          finish_batch ends confirm (record batch {
            status = uploading;
            batch_id = some presigned.batch_id;
            files = on_file_events events files;
          }))
    ]

unfoldable pub upload_batch :
    List LocalFile
    → Answer BatchPresigned
    → List FileEvent
    → List (Option Text)
    → Answer (List Text)
    → Option BatchUpload
unfolding start_batch presign_answered
upload_batch files presign events ends confirm =
    presign_answered presign events ends confirm (start_batch files)

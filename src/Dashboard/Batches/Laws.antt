-- ===== src/Dashboard/Batches/Laws.antt =====
-- dashboard/src/hooks/useBatchUpload.ts: how a batch ends, and which file has which job.
use file_processing_system.Prelude.{
  ℕ, ◌≤◌, ◌≡◌, refl, inl, inr, arith, List, [], ◌∷◌, map, Option, none, some, length,
}
use file_processing_system.Prelude.Text.{Text}
use file_processing_system.Dashboard.Api.{Answer, answered, refused}
use file_processing_system.Dashboard.Batches.{
  uploading, done, error, BatchFileStatus, BatchFile, BatchUpload, BatchPresigned, LocalFile,
  initial_file, start_batch, assign_keys, FileEvent, on_file_events, failed_from, includes,
  keep_from, final_status, final_error, error_batch, confirm_answered, finish_batch,
  presign_answered, upload_batch,
}
use file_processing_system.Dashboard.Batches.Names.{length-map, names, job_ids, list-cases}

-- The kept names and jobs of the files after the confirmation.
abbrev pub Confirmed : List (Option Text) → List Text → List Text → List BatchFile → Type 0
Confirmed ends jobs file_names files =
    (names (keep_from (includes (failed_from 0 ends)) 0 files)
      ≡ keep_from (includes (failed_from 0 ends)) 0 file_names)
    × (job_ids (keep_from (includes (failed_from 0 ends)) 0 files) ≡ map some jobs)

-- The batch while its files are uploaded.
abbrev in_flight : BatchPresigned → List FileEvent → List BatchFile → BatchUpload → BatchUpload
in_flight presigned events given batch = record batch {
  status = uploading;
  batch_id = some presigned.batch_id;
  files = on_file_events events given;
}

presign_answered_found :
    (presigned : BatchPresigned) (events : List FileEvent) (ends : List (Option Text))
    (confirm : Answer (List Text)) (batch : BatchUpload) (given : List BatchFile)
    → assign_keys presigned.s3_keys batch.files ≡ some given
    → presign_answered (answered presigned) events ends confirm batch
      ≡ some (finish_batch ends confirm (in_flight presigned events given batch))
unfolding presign_answered
presign_answered_found presigned events ends confirm batch given found =
    rw (found, presign_answered) refl

-- The keys of the answer reach for every file.
abbrev pub HasKeys : Answer BatchPresigned → List LocalFile → Type 0
HasKeys (refused err) files = Unit
HasKeys (answered presigned) files = length files ≤ length presigned.s3_keys

-- A batch is over: done, with every file uploaded and the confirmation answered, or in error, with
-- a message.
pub data Ended (ends : List (Option Text)) (confirm : Answer (List Text)) (batch : BatchUpload)
    : Type 0 where
  ended_done :
      {jobs : List Text}
      → batch.status ≡ done
      → batch.error_message ≡ none
      → failed_from 0 ends ≡ []
      → confirm ≡ answered jobs
      → Ended ends confirm batch
  ended_error :
      {message : Text}
      → batch.status ≡ error
      → batch.error_message ≡ some message
      → Ended ends confirm batch

assign_keys_total :
    (keys : List Text) (files : List BatchFile)
    → length files ≤ length keys
    → (given : List BatchFile) × (assign_keys keys files ≡ some given)
unfolding assign_keys
assign_keys_total keys [] h = ([], ground arith)
assign_keys_total [] (file ∷ files) h = absurd (omega arith)
assign_keys_total (key ∷ keys) (file ∷ files) h =
    let (rest, found) = assign_keys_total keys files (omega arith) in
    (
      record file { s3_key = some key; status = BatchFileStatus.uploading } ∷ rest,
      rw (found, assign_keys) refl,
    )

confirm_answered-Ended :
    (ends : List (Option Text)) (failures : List ℕ) (confirm : Answer (List Text))
    (batch : BatchUpload)
    → failed_from 0 ends ≡ failures
    → Ended ends confirm (confirm_answered failures confirm batch)
unfolding confirm_answered error_batch final_status final_error
confirm_answered-Ended ends failures (refused err) batch e = ended_error refl refl
confirm_answered-Ended ends [] (answered jobs) batch e = ended_done refl refl e refl
confirm_answered-Ended ends (i ∷ failures) (answered jobs) batch e = ended_error refl refl

finish_batch-Ended :
    (ends : List (Option Text)) (confirm : Answer (List Text)) (batch : BatchUpload)
    → Ended ends confirm (finish_batch ends confirm batch)
unfolding finish_batch error_batch
finish_batch-Ended ends confirm batch =
    elim (list-cases (keep_from (includes (failed_from 0 ends)) 0 batch.files)) [
      | inl nothing ↦ rw (nothing, finish_batch) (ended_error refl refl)
      | inr (file, rest, kept) ↦
          rw (kept, finish_batch) (confirm_answered-Ended ends (failed_from 0 ends) confirm _ refl)
    ]

-- Once the two requests are answered and every upload to S3 has ended, the batch is over, provided
-- that the presigned keys reach for every file: it is done with no message only if no upload
-- failed and the confirmation was answered, and otherwise in error with a message.
pub upload_batch_ends :
    (files : List LocalFile) (presign : Answer BatchPresigned) (events : List FileEvent)
    (ends : List (Option Text)) (confirm : Answer (List Text))
    → HasKeys presign files
    → (batch : BatchUpload) × (upload_batch files presign events ends confirm ≡ some batch)
      × Ended ends confirm batch
unfolding upload_batch presign_answered start_batch error_batch
upload_batch_ends files (refused err) events ends confirm h = (_, refl, ended_error refl refl)
upload_batch_ends files (answered presigned) events ends confirm h =
    let (given, found) =
      assign_keys_total presigned.s3_keys (map initial_file files)
        (omega (arith, length-map initial_file files)) in
    (
      finish_batch ends confirm (in_flight presigned events given (start_batch files)),
      presign_answered_found presigned events ends confirm (start_batch files) given found,
      finish_batch-Ended ends confirm (in_flight presigned events given (start_batch files)),
    )

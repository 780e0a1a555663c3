-- ===== src/Dashboard/Batches/Tests.antt =====
-- dashboard/src/hooks/useBatchUpload.ts at a batch of three files, of which the second fails.
use file_processing_system.Prelude.{◌≡◌, List, [], ◌∷◌, Option, none, some, arith}
use file_processing_system.Prelude.Text.{Text, codes}
use file_processing_system.Dashboard.Api.{answered}
use file_processing_system.Dashboard.Batches.{
  BatchUpload, BatchPresigned, LocalFile, FileEvent, file_progress, file_uploaded, upload_batch,
}
use file_processing_system.Dashboard.Batches.Laws.{Ended, upload_batch_ends}

abbrev three_files : List LocalFile
three_files = (codes "a", 1) ∷ (codes "b", 2) ∷ (codes "c", 3) ∷ []

abbrev three_keys : BatchPresigned
three_keys = record { batch_id = codes "x"; s3_keys = codes "1" ∷ codes "2" ∷ codes "3" ∷ [] }

abbrev three_events : List FileEvent
three_events = file_progress 1 40 ∷ file_uploaded 2 ∷ file_uploaded 0 ∷ []

abbrev three_ends : List (Option Text)
three_ends = none ∷ some (codes "lost") ∷ none ∷ []

abbrev two_jobs : List Text
two_jobs = codes "j0" ∷ codes "j2" ∷ []

upload_batch_ends_example :
    (batch : BatchUpload) × (upload_batch three_files
        (answered three_keys)
        three_events
        three_ends
        (answered two_jobs)
      ≡ some batch)
    × Ended three_ends (answered two_jobs) batch
upload_batch_ends_example =
    upload_batch_ends three_files (answered three_keys) three_events three_ends (answered two_jobs)
      (omega arith)

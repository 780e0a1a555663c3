-- ===== src/Worker/Tests.antt =====
-- src/worker.ts on a database in memory and a file of one row.
use file_processing_system.Prelude.{
  ℕ, ◌≡◌, refl, false, Bool-cases, inl, inr, List, [], ◌∷◌, none, some, arith,
}
use file_processing_system.Prelude.Text.{Text, codes, text_eq}
use file_processing_system.Types.{completed, pending, FileDocument, JobDocument, ProcessingReport}
use file_processing_system.Csv.{CsvEvent, Outcome, headers, row_read, ended}
use file_processing_system.Fixtures.{literal_engine, fractions, plain_hashing, columns, alice}
use file_processing_system.Effects.{ok}
use file_processing_system.Services.{Config}
use file_processing_system.Storage.{S3Client}
use file_processing_system.Jobs.{
  apply_update, update_status, set_started_at, increment_attempts, set_completed_at,
}
use file_processing_system.Duplicates.{create_duplicate_detector}
use file_processing_system.Csv.{process_csv, run, step, listen, settle}
use file_processing_system.Validator.{initialize, validate_row}
use file_processing_system.Storage.{get_object_stream, stream_of}
use file_processing_system.Services.{emit_job_completed}
use file_processing_system.Documents.{admit_result, file_document}
use file_processing_system.Worker.{
  or_throw, store_report, process_file, await_report, complete_job, announce_batch,
}
use file_processing_system.Worker.Store.{updated}
use file_processing_system.Worker.Success.{Views}
use file_processing_system.Worker.Retries.{RefusesSecond, process_job_second}
use file_processing_system.Worker.{result_data}
use file_processing_system.Prelude.{◌≢◌}
use file_processing_system.Worker.{WorkerParts, BullJob, process_job}
use file_processing_system.Worker.Store.{IsSound, HasResult}
use file_processing_system.Worker.Keeping.{HasDatabase}
use file_processing_system.Documents.{job_document}
use file_processing_system.Worker.Laws.{idle, processed, Works-IsSound}
use file_processing_system.Worker.Database.{
  insert_result_refused, put_same, new_result, Database, memory, memory-IsJobStore, jobs_in,
  results_in, unchanged-IsQuiet, put, new_file, new_job,
}

abbrev one_row : List CsvEvent
one_row = headers columns ∷ row_read alice ∷ ended 5 ∷ []

abbrev bucket : S3Client Database
bucket = record {
  signed_put_url = λ key length seconds db. (ok [], db);
  head_object = λ key db. (ok none, db);
  copy_object = λ source target db. (ok tt, db);
  delete_object = λ key db. (ok tt, db);
  get_object = λ key db. (ok (some one_row), db);
  uuid = λ db. (ok [], db);
}

abbrev settings : Config
settings = record {
  s3_bucket = codes "b";
  queue_max_retries = 3;
  duplicate_hash_threshold_bytes = 100;
  is_development = false;
}

abbrev worker : WorkerParts Database (List Text) Text (ℕ × ℕ)
worker = record {
  config = settings;
  hashing = plain_hashing;
  engine = literal_engine;
  js = fractions;
  mongo = memory;
  s3 = bucket;
  io = none;
}

worker-HasDatabase : HasDatabase jobs_in results_in worker
worker-HasDatabase = record {
  store = memory-IsJobStore;
  get_object_IsQuiet = λ key. unchanged-IsQuiet (λ db. some one_row);
  emit_IsQuiet = λ io room message e. cc;
}

-- One file and its job, which waits.
abbrev uploaded : Database
uploaded = record {
  files =
      put (codes "f1")
        (some (
          new_file (record {
            original_name = codes "a.csv";
            s3_key = codes "k";
            s3_bucket = codes "b";
            mime_type = codes "text/csv";
            size = 20;
          })))
        (λ id. none);
  jobs =
      put (codes "j1")
        (some (
          new_job (record {
            file_id = codes "f1";
            priority = 5;
            validation_rules = none;
            batch_id = none;
            max_attempts = 3;
          })))
        (λ id. none);
  results = λ id. none;
}

abbrev first_job : BullJob
first_job = record { job_id = codes "j1"; file_id = codes "f1"; attempts_made = 0 }

waiting : (id : Text) (job : JobDocument) → uploaded.jobs id ≡ some job → job.status ≡ pending
unfolding new_job job_document
waiting id job at = elim (Bool-cases (text_eq id (codes "j1"))) [
  | inl e ↦ ground arith
  | inr e ↦ ground arith
]

nothing_completed :
    (id : Text) (job : JobDocument)
    → uploaded.jobs id ≡ some job
    → job.status ≡ completed
    → HasResult jobs_in results_in uploaded id
nothing_completed id job at done = let waits = waiting id job at in cc

Works-IsSound_example : IsSound jobs_in results_in (process_job worker first_job uploaded).1
Works-IsSound_example =
    Works-IsSound jobs_in results_in worker-HasDatabase (processed first_job idle)
      (record { sound = nothing_completed; stored = tt })

-- The processor returns on these.
processed_job : (process_job worker first_job uploaded).0 ≡ ok tt
unfolding process_job update_status set_started_at increment_attempts or_throw get_object_stream
    stream_of store_report process_file create_duplicate_detector process_csv run step listen settle
    await_report complete_job set_completed_at emit_job_completed announce_batch updated
    admit_result apply_update new_job new_file job_document file_document text_eq initialize
    validate_row
processed_job = refl

abbrev memory_views : Views Database
memory_views = record {
  job_at = λ db. db.jobs;
  file_at = λ db. db.files;
  result_at = λ db. db.results;
  object_at = λ db key. some one_row;
}

abbrev first_file : FileDocument
first_file = new_file (record {
  original_name = codes "a.csv";
  s3_key = codes "k";
  s3_bucket = codes "b";
  mime_type = codes "text/csv";
  size = 20;
})

abbrev waiting_job : JobDocument
waiting_job = new_job (record {
  file_id = codes "f1";
  priority = 5;
  validation_rules = none;
  batch_id = none;
  max_attempts = 3;
})

reported :
    (report : ProcessingReport) × (process_file worker first_file waiting_job one_row
      ≡ Outcome.resolved report)
unfolding process_file create_duplicate_detector process_csv run step listen settle new_job new_file
    job_document file_document text_eq initialize validate_row
reported = (_, refl)

-- The same job once more, with its result stored.
abbrev stored_once : Database
stored_once = record uploaded {
  results =
      put (codes "j1") (some (new_result (result_data (codes "j1") (codes "f1") reported.0)))
        (λ id. none);
}

stored_once_kept :
    (id : Text) (job : JobDocument)
    → stored_once.jobs id ≡ some job
    → job.status ≡ completed
    → HasResult jobs_in results_in stored_once id
stored_once_kept id job at done = let waits = waiting id job at in cc

memory-RefusesSecond : RefusesSecond jobs_in results_in memory
memory-RefusesSecond = record {
  create_result_refused =
      λ given w. insert_result_refused given (admit_result (w.results given.job_id)) w;
}

process_job_second_example : (process_job worker first_job stored_once).0 ≢ ok tt
process_job_second_example =
    process_job_second jobs_in results_in worker-HasDatabase memory-RefusesSecond first_job
      stored_once (record { sound = stored_once_kept; stored = tt })
      (
        _,
        put_same (codes "j1") (some (new_result (result_data (codes "j1") (codes "f1") reported.0)))
            (λ id. none),
      )

-- ===== src/Worker/Retries.antt =====
-- src/worker.ts with the unique index of src/models/Result.ts: a second run of a job whose result
-- is stored.
use file_processing_system.Prelude.{◌≡◌, ◌≢◌, refl, ap, false, List, [], ◌∷◌, Option, none}
use file_processing_system.Prelude.Text.{Text}
use file_processing_system.Types.{processing, FileDocument, JobDocument, ResultDocument}
use file_processing_system.Csv.{CsvEvent}
use file_processing_system.Effects.{Result, ok, failed, hangs, crashes}
use file_processing_system.Effects.Triples.{Triple, Post, and_then}
use file_processing_system.Documents.{admit_result}
use file_processing_system.Jobs.{
  Mongo, CreateResultData, set_status, inc_attempts, apply_update, update_status,
  increment_attempts,
}
use file_processing_system.Worker.{
  WorkerParts, BullJob, process_job, store_report, process_file, result_data,
}
use file_processing_system.Worker.Store.{
  Stage, IsSound, HasResult, IsQuiet-Stage, create_result-Stage, Stage-IsSound,
}
use file_processing_system.Worker.Keeping.{
  HasDatabase, Keeps-or_throw, Keeps-await_report, Keeps-update_job, Keeps-set_started_at,
  Keeps-get_object_stream,
}

Post-without :
    {W A : Type 0} (Q : A → W → Type 0) (R : W → Type 0) (x : Result A × W)
    → ((a : A) → x.0 ≢ ok a)
    → Post Q R x
    → Post (λ _. λ _. ⊥) R x
Post-without Q R (ok a, w) never h = absurd (never a refl)
Post-without Q R (failed e, w) never h = h
Post-without Q R (hangs, w) never h = h
Post-without Q R (crashes, w) never h = h

Post-never :
    {W A : Type 0} (R : W → Type 0) (x : Result A × W) (a : A) → Post (λ _. λ _. ⊥) R x → x.0 ≢ ok a
Post-never R (ok b, w) a h = absurd h
Post-never R (failed e, w) a h = cc
Post-never R (hangs, w) a h = cc
Post-never R (crashes, w) a h = cc

module _ {W : Type 0} (job_at : W → Text → Option JobDocument)
    (result_at : W → Text → Option ResultDocument) where
  -- The unique index on the job of a result.
  pub record RefusesSecond (mongo : Mongo W) : Type 0 where
    pub create_result_refused :
        (given : CreateResultData) (w : W) (result : ResultDocument)
        → admit_result (result_at w given.job_id) ≡ false
        → (mongo.create_result given w).0 ≢ ok result

  module _ {F R D : Type 0} {parts : WorkerParts W F R D}
      (laws : HasDatabase job_at result_at parts) (unique : RefusesSecond parts.mongo) where
    abbrev Never : {A : Type 0} → Text → (W → Result A × W) → Type 0
    Never job_id m =
        Triple (Stage job_at result_at (job_id ∷ [])) m (λ _. λ _. ⊥) (IsSound job_at result_at)

    create_result-Never :
        (given : CreateResultData) → Never given.job_id (parts.mongo.create_result given)
    unfolding admit_result
    create_result-Never given = record {
      run = λ w stage.
          let (old, at) = stage.stored.0 in
          Post-without _ (IsSound job_at result_at) (parts.mongo.create_result given w)
            (λ result. unique.create_result_refused given w result (ap admit_result at))
            ((create_result-Stage job_at result_at laws.store given).run w
              (Stage-IsSound job_at result_at (given.job_id ∷ []) w stage));
    }

    store_report-Never :
        (job_id file_id : Text) (file : FileDocument) (job : JobDocument) (events : List CsvEvent)
        → Never job_id (store_report parts job_id file_id file job events)
    unfolding store_report result_data
    store_report-Never job_id file_id file job events =
        and_then
          (Keeps-await_report job_at result_at (job_id ∷ []) (process_file parts file job events))
          (λ report. create_result-Never (result_data job_id file_id report))

    process_job-Never : (bull_job : BullJob) → Never bull_job.job_id (process_job parts bull_job)
    unfolding process_job update_status increment_attempts apply_update
    process_job-Never bull_job =
        let ids = bull_job.job_id ∷ [] in
        and_then
          (Keeps-update_job job_at result_at laws ids bull_job.job_id (set_status processing none)
            (λ old e. cc))
          (λ _. and_then (Keeps-set_started_at job_at result_at laws ids bull_job.job_id) (λ _.
            and_then
              (Keeps-update_job job_at result_at laws ids bull_job.job_id inc_attempts (λ old e. e))
              (λ _.
                and_then
                  (IsQuiet-Stage job_at result_at ids
                    (laws.store.find_file_IsQuiet bull_job.file_id))
                  (λ found_file.
                    and_then (Keeps-or_throw job_at result_at ids _ found_file) (λ file.
                      and_then
                        (IsQuiet-Stage job_at result_at ids
                          (laws.store.find_job_IsQuiet bull_job.job_id))
                        (λ found_job.
                          and_then (Keeps-or_throw job_at result_at ids _ found_job) (λ job.
                            and_then (Keeps-get_object_stream job_at result_at laws ids file.s3_key)
                              (λ events.
                                and_then (store_report-Never _ _ file job events)
                                  (λ result. record { run = λ w h. absurd h })))))))))

    -- When the database refuses a second result of a job, and every completed job has a result: a
    -- run of a job whose result is stored never succeeds, whichever of its other calls fail.
    pub process_job_second :
        (bull_job : BullJob) (w : W)
        → IsSound job_at result_at w
        → HasResult job_at result_at w bull_job.job_id
        → (process_job parts bull_job w).0 ≢ ok tt
    process_job_second bull_job w sound result =
        Post-never (IsSound job_at result_at) (process_job parts bull_job w) tt (
          (process_job-Never bull_job).run w
            (record { sound = sound.sound; stored = (result, tt) }))

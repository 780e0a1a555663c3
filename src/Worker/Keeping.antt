-- ===== src/Worker/Keeping.antt =====
-- src/worker.ts: each of its steps keeps every completed job with its result.
use file_processing_system.Prelude.{◌≡◌, refl, leb, List, [], ◌∷◌, Option, none, some, if-elim}
use file_processing_system.Prelude.Text.{Text}
use file_processing_system.Types.{
  JobStatus, completed, processing, FileDocument, JobDocument, ResultDocument,
}
use file_processing_system.Csv.{CsvEvent, Outcome}
use file_processing_system.Effects.{Failure, Action}
use file_processing_system.Effects.Triples.{Triple, and_then, returns, fails}
use file_processing_system.Jobs.{
  JobUpdate, set_status, inc_attempts, set_started, set_completed, apply_update, update_status,
  set_started_at, increment_attempts, set_completed_at, count_by_batch_id,
}
use file_processing_system.Storage.{get_object_stream, stream_of}
use file_processing_system.Services.{
  SocketServer, SocketMessage, emit_job_completed, emit_job_failed, emit_batch_update,
}
use file_processing_system.Worker.{
  WorkerParts, BullJob, process_job, on_failed, store_report, complete_job, process_file,
  await_report, or_throw, announce_batch, result_data, message_of,
}
use file_processing_system.Worker.Store.{
  IsQuiet, IsJobStore, Stage, IsSound, Stage-IsSound, IsQuiet-Stage, update_job-Stage,
  create_result-Stage,
}

module _ {W : Type 0} (job_at : W → Text → Option JobDocument)
    (result_at : W → Text → Option ResultDocument) where
  -- The database is one, and neither the bucket nor the sockets touch its documents.
  pub record HasDatabase {F R D : Type 0} (parts : WorkerParts W F R D) : Type 0 where
    pub store : IsJobStore job_at result_at parts.mongo
    pub get_object_IsQuiet : (key : Text) → IsQuiet job_at result_at (parts.s3.get_object key)
    pub emit_IsQuiet :
        (io : SocketServer W) (room : Text) (message : SocketMessage)
        → parts.io ≡ some io
        → IsQuiet job_at result_at (io.emit room message)

  abbrev Keeps : {A : Type 0} → List Text → Action W A → Type 0
  Keeps ids m =
      Triple (Stage job_at result_at ids) m (λ _. Stage job_at result_at ids)
        (IsSound job_at result_at)

  pub Keeps-or_throw :
      {A : Type 0} (ids : List Text) (err : Failure) (found : Option A)
      → Keeps ids (or_throw err found)
  unfolding or_throw
  Keeps-or_throw ids err none = fails (Stage-IsSound job_at result_at ids)
  Keeps-or_throw ids err (some a) = returns (λ w h. h)

  Keeps-stream_of : (ids : List Text) (body : Option (List CsvEvent)) → Keeps ids (stream_of body)
  unfolding stream_of
  Keeps-stream_of ids none = fails (Stage-IsSound job_at result_at ids)
  Keeps-stream_of ids (some events) = returns (λ w h. h)

  pub Keeps-await_report : (ids : List Text) (outcome : Outcome) → Keeps ids (await_report outcome)
  unfolding await_report
  Keeps-await_report ids Outcome.pending = record { run = Stage-IsSound job_at result_at ids }
  Keeps-await_report ids (Outcome.resolved report) = record { run = λ w h. h }
  Keeps-await_report ids (Outcome.rejected message) = record {
    run = Stage-IsSound job_at result_at ids;
  }
  Keeps-await_report ids Outcome.process_died = record { run = Stage-IsSound job_at result_at ids }

  module _ {F R D : Type 0} {parts : WorkerParts W F R D} (laws : HasDatabase parts) where
    Keeps-emit_job_completed :
        (ids : List Text) (io : Option (SocketServer W)) (job_id result_id : Text)
        → parts.io ≡ io
        → Keeps ids (emit_job_completed io job_id result_id)
    unfolding emit_job_completed
    Keeps-emit_job_completed ids none job_id result_id e = returns (λ w h. h)
    Keeps-emit_job_completed ids (some io) job_id result_id e =
        and_then (IsQuiet-Stage job_at result_at ids (laws.emit_IsQuiet io _ _ e))
          (λ _. IsQuiet-Stage job_at result_at ids (laws.emit_IsQuiet io _ _ e))

    Keeps-emit_job_failed :
        (ids : List Text) (io : Option (SocketServer W)) (job_id : Text) (error : Text) (n : _)
        → parts.io ≡ io
        → Keeps ids (emit_job_failed io job_id error n)
    unfolding emit_job_failed
    Keeps-emit_job_failed ids none job_id error n e = returns (λ w h. h)
    Keeps-emit_job_failed ids (some io) job_id error n e =
        and_then (IsQuiet-Stage job_at result_at ids (laws.emit_IsQuiet io _ _ e))
          (λ _. IsQuiet-Stage job_at result_at ids (laws.emit_IsQuiet io _ _ e))

    Keeps-emit_batch_update :
        (ids : List Text) (io : Option (SocketServer W)) (batch_id : Text) (n m : _)
        → parts.io ≡ io
        → Keeps ids (emit_batch_update io batch_id n m)
    unfolding emit_batch_update
    Keeps-emit_batch_update ids none batch_id n m e = returns (λ w h. h)
    Keeps-emit_batch_update ids (some io) batch_id n m e =
        IsQuiet-Stage job_at result_at ids (laws.emit_IsQuiet io _ _ e)

    Keeps-announce_batch :
        (ids : List Text) (batch : Option Text) → Keeps ids (announce_batch parts batch)
    unfolding announce_batch count_by_batch_id
    Keeps-announce_batch ids none = returns (λ w h. h)
    Keeps-announce_batch ids (some []) = returns (λ w h. h)
    Keeps-announce_batch ids (some (c ∷ s)) =
        and_then
          (and_then
            (IsQuiet-Stage job_at result_at ids (laws.store.group_by_status_IsQuiet (some (c ∷ s))))
            (λ groups. returns (λ w h. h)))
          (λ counts. Keeps-emit_batch_update ids parts.io (c ∷ s) _ _ refl)

    -- An update that is none to COMPLETED.
    pub Keeps-update_job :
        (ids : List Text) (id : Text) (update : JobUpdate)
        → ((old : JobDocument)
            → (apply_update update old).status ≡ completed
            → old.status ≡ completed)
        → Keeps ids (parts.mongo.update_job id update)
    Keeps-update_job ids id update h =
        update_job-Stage job_at result_at laws.store ids id update
          (λ w old stage at done. stage.sound id old at (h old done))

    pub Keeps-set_started_at :
        (ids : List Text) (id : Text) → Keeps ids (set_started_at parts.mongo id)
    unfolding set_started_at apply_update
    Keeps-set_started_at ids id =
        and_then (IsQuiet-Stage job_at result_at ids laws.store.now_IsQuiet)
          (λ time. Keeps-update_job ids id (set_started time) (λ old e. e))

    Keeps-set_completed_at :
        (ids : List Text) (id : Text) → Keeps ids (set_completed_at parts.mongo id)
    unfolding set_completed_at apply_update
    Keeps-set_completed_at ids id =
        and_then (IsQuiet-Stage job_at result_at ids laws.store.now_IsQuiet)
          (λ time. Keeps-update_job ids id (set_completed time) (λ old e. e))

    pub Keeps-get_object_stream :
        (ids : List Text) (key : Text) → Keeps ids (get_object_stream parts.s3 key)
    unfolding get_object_stream
    Keeps-get_object_stream ids key =
        and_then (IsQuiet-Stage job_at result_at ids (laws.get_object_IsQuiet key))
          (λ body. Keeps-stream_of ids body)

    -- Storing the report under the job gives the job its result.
    Keeps-store_report :
        (job_id file_id : Text) (file : FileDocument) (job : JobDocument) (events : List CsvEvent)
        → Triple
            (IsSound job_at result_at)
            (store_report parts job_id file_id file job events)
            (λ _. Stage job_at result_at (job_id ∷ []))
            (IsSound job_at result_at)
    unfolding store_report result_data
    Keeps-store_report job_id file_id file job events =
        and_then (Keeps-await_report [] (process_file parts file job events)) (λ report.
          create_result-Stage job_at result_at laws.store (result_data job_id file_id report))

    Keeps-complete_job :
        (job_id : Text) (job : JobDocument) (result : ResultDocument)
        → Keeps (job_id ∷ []) (complete_job parts job_id job result)
    unfolding complete_job update_status
    Keeps-complete_job job_id job result =
        and_then
          (update_job-Stage job_at result_at laws.store (job_id ∷ []) job_id
            (set_status completed none) (λ w old stage at done. stage.stored.0))
          (λ _. and_then (Keeps-set_completed_at (job_id ∷ []) job_id) (λ _.
            and_then (Keeps-emit_job_completed (job_id ∷ []) parts.io job_id result.id refl)
              (λ _. Keeps-announce_batch (job_id ∷ []) job.batch_id)))

    pub Keeps-process_job :
        (bull_job : BullJob)
        → Triple
            (IsSound job_at result_at)
            (process_job parts bull_job)
            (λ _. Stage job_at result_at (bull_job.job_id ∷ []))
            (IsSound job_at result_at)
    unfolding process_job update_status increment_attempts apply_update
    Keeps-process_job bull_job =
        and_then (Keeps-update_job [] bull_job.job_id (set_status processing none) (λ old e. cc))
          (λ _. and_then (Keeps-set_started_at [] bull_job.job_id) (λ _.
            and_then (Keeps-update_job [] bull_job.job_id inc_attempts (λ old e. e)) (λ _.
              and_then
                (IsQuiet-Stage job_at result_at [] (laws.store.find_file_IsQuiet bull_job.file_id))
                (λ found_file. and_then (Keeps-or_throw [] _ found_file) (λ file.
                  and_then
                    (IsQuiet-Stage job_at result_at []
                      (laws.store.find_job_IsQuiet bull_job.job_id))
                    (λ found_job. and_then (Keeps-or_throw [] _ found_job) (λ job.
                      and_then (Keeps-get_object_stream [] file.s3_key) (λ events.
                        and_then (Keeps-store_report _ _ file job events)
                          (λ result. Keeps-complete_job _ job result)))))))))

    pub Keeps-on_failed :
        (bull_job : Option BullJob) (error : Failure) → Keeps [] (on_failed parts bull_job error)
    unfolding on_failed update_status apply_update
    Keeps-on_failed none error = returns (λ w h. h)
    Keeps-on_failed (some bull_job) error =
        if-elim {A = Action W Unit} (λ m. Keeps [] m)
          (leb parts.config.queue_max_retries bull_job.attempts_made)
          (and_then
            (Keeps-update_job [] bull_job.job_id
              (set_status JobStatus.failed (some (message_of error))) (λ old e. cc))
            (λ _. Keeps-emit_job_failed [] parts.io bull_job.job_id _ _ refl))
          (returns (λ w h. h))

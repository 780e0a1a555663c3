-- ===== src/Worker/Liveness.antt =====
-- src/worker.ts: the processor completes a job whose calls succeed.
use file_processing_system.Prelude.{ℕ, ◌+◌, ◌≡◌, none, some, List}
use file_processing_system.Prelude.Text.{Text}
use file_processing_system.Types.{
  completed, processing, FileDocument, JobDocument, ProcessingReport,
}
use file_processing_system.Csv.{CsvEvent}
use file_processing_system.Documents.{result_document}
use file_processing_system.Jobs.{apply_update, set_status, inc_attempts, set_started}
use file_processing_system.Worker.{WorkerParts, BullJob, result_data}
use file_processing_system.Worker.Success.{Views, IsAvailable}
use file_processing_system.Worker.Completion.{Ready}

-- The job has the status COMPLETED and one attempt more than before, and its result is that of the
-- report.
pub record IsCompleted {W : Type 0} (views : Views W) (job_id file_id : Text) (before : JobDocument)
    (report : ProcessingReport) (w : W) : Type 0 where
  pub job : JobDocument
  pub is_found : views.job_at w job_id ≡ some job
  pub has_status : job.status ≡ completed
  pub has_attempt : job.attempts ≡ before.attempts + 1
  pub has_result :
      (id : Text) × (time : ℕ) × (views.result_at w job_id
        ≡ some (result_document id time (result_data job_id file_id report)))

module _ {W F R D : Type 0} (views : Views W) (parts : WorkerParts W F R D)
    (available : IsAvailable views parts) (file : FileDocument) (events : List CsvEvent)
    (bull_job : BullJob) where
  -- The job as the processor finds it: taken, started at a time, with one attempt more.
  abbrev taken : ℕ → JobDocument → JobDocument
  taken time job =
      apply_update inc_attempts
        (apply_update (set_started time) (apply_update (set_status processing none) job))

  abbrev Known : JobDocument → W → Type 0
  Known = Ready views parts available bull_job.job_id bull_job.file_id file events

-- ===== src/Worker/Laws.antt =====
-- src/worker.ts: a completed job always has its result.
use file_processing_system.Prelude.{List, [], ◌∷◌, Option}
use file_processing_system.Prelude.Text.{Text}
use file_processing_system.Types.{JobDocument, ResultDocument}
use file_processing_system.Effects.{Failure, Result, ok, failed, hangs, crashes}
use file_processing_system.Effects.Triples.{Post}
use file_processing_system.Worker.{WorkerParts, BullJob, process_job, on_failed}
use file_processing_system.Worker.Keeping.{HasDatabase, Keeps-process_job, Keeps-on_failed}
use file_processing_system.Worker.Store.{Stage, IsSound, Stage-IsSound}

module _ {W : Type 0} (job_at : W → Text → Option JobDocument)
    (result_at : W → Text → Option ResultDocument) where
  -- What the worker does over time: it runs its processor on the jobs that the queue hands it, in
  -- any order and any number of times, and hears of their failures.
  pub data Works {F R D : Type 0} (parts : WorkerParts W F R D) : W → W → Type 0 where
    idle : {w : W} → Works parts w w
    processed :
        {v w : W} (bull_job : BullJob)
        → Works parts v w
        → Works parts v (process_job parts bull_job w).1
    heard :
        {v w : W} (bull_job : Option BullJob) (error : Failure)
        → Works parts v w
        → Works parts v (on_failed parts bull_job error w).1

  Post-IsSound :
      {A : Type 0} (ids : List Text) (x : Result A × W)
      → Post (λ _. Stage job_at result_at ids) (IsSound job_at result_at) x
      → IsSound job_at result_at x.1
  Post-IsSound ids (ok a, w) h = Stage-IsSound job_at result_at ids w h
  Post-IsSound ids (failed e, w) h = h
  Post-IsSound ids (hangs, w) h = h
  Post-IsSound ids (crashes, w) h = h

  -- Whatever the worker does, and whichever of its calls fail, hang or end the process: if at
  -- first every job with status COMPLETED has a result, this still holds afterwards.
  pub Works-IsSound :
      {F R D : Type 0} {parts : WorkerParts W F R D} {v w : W}
      → HasDatabase job_at result_at parts
      → Works parts v w
      → IsSound job_at result_at v
      → IsSound job_at result_at w
  Works-IsSound laws idle h = h
  Works-IsSound laws (processed bull_job before) h =
      Post-IsSound (bull_job.job_id ∷ []) _
        ((Keeps-process_job job_at result_at laws bull_job).run _ (Works-IsSound laws before h))
  Works-IsSound laws (heard bull_job error before) h =
      Post-IsSound [] _
        ((Keeps-on_failed job_at result_at laws bull_job error).run _ (Works-IsSound laws before h))

-- ===== src/Uploads/Sound.antt =====
-- src/controllers/upload.controller.ts: every job that a confirmation queues has its documents.
mod Tests
use mathlib.Core.Path.{subst}
use file_processing_system.Prelude.{
  ℕ, ◌≡◌, sym, ◌⊎◌, inl, inr, All, All-append, List, [], ◌∷◌, ◌++◌, Option, none, some, if-elim,
  ltb, not, ◌==◌,
}
use file_processing_system.Prelude.Text.{Text, codes}
use file_processing_system.Types.{FileDocument, JobDocument, ValidationRules}
use file_processing_system.Effects.{
  Failure, api_failure, other_failure, Result, ok, failed, hangs, crashes, Action, ◌>>=◌, catch,
  recover, throw, pure,
}
use file_processing_system.Effects.Triples.{fails, consequence}
use file_processing_system.Jobs.{CreateFileData, CreateJobData}
use file_processing_system.JobService.{invalidate_job_cache}
use file_processing_system.Http.{Response}
use file_processing_system.Services.{
  QueueEntry, SocketServer, cache_delete, emit_stats_update, dashboard_room, stats_update,
}
use file_processing_system.Storage.{
  verify_object, move_to_confirmed, check_size, rethrow_api, or_zero, max_file_size, confirmed_key,
}
use file_processing_system.Uploads.{
  UploadParts, UploadResponse, create_upload, confirm_response, parsed,
}
use file_processing_system.Uploads.Queued.{
  UploadViews, HasFile, HasDocuments, IsLater, HasServices, IsStable, Keeps, quiet-Keeps, All-later,
  Post-everywhere, HasDocuments-IsLater, IsQueueSound-IsLater,
}
use file_processing_system.Worker.Store.{Post-by}

module _ {W Json : Type 0} (views : UploadViews W) (parts : UploadParts W Json)
    (services : HasServices views parts) where
  -- The answer names a job and a file that can be found.
  abbrev pub IsTold : Response UploadResponse → W → Type 0
  IsTold response w =
      (created : FileDocument × JobDocument) × (response ≡ confirm_response parts created)
      × HasDocuments views created.1.id created.0.id w

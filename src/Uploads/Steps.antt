-- ===== src/Uploads/Steps.antt =====
-- src/controllers/upload.controller.ts: each step of a confirmation keeps the queue sound.
use mathlib.Core.Path.{subst}
use file_processing_system.Prelude.{
  ℕ, ◌≡◌, sym, inl, inr, All, All-append, [], ◌∷◌, Option, none, some, if-elim, ltb, not, ◌==◌,
}
use file_processing_system.Prelude.Text.{Text, codes}
use file_processing_system.Types.{FileDocument, JobDocument, ValidationRules}
use file_processing_system.Effects.{
  Failure, api_failure, other_failure, Result, ok, failed, hangs, crashes, Action, catch, recover,
}
use file_processing_system.Effects.Triples.{Post, Triple, and_then, returns, fails}
use file_processing_system.Jobs.{CreateFileData, CreateJobData}
use file_processing_system.JobService.{invalidate_job_cache}
use file_processing_system.Services.{
  QueueEntry, SocketServer, cache_delete, emit_stats_update, dashboard_room, stats_update,
}
use file_processing_system.Storage.{
  verify_object, move_to_confirmed, check_size, rethrow_api, or_zero, max_file_size, confirmed_key,
}
use file_processing_system.Uploads.{UploadParts, create_upload, parsed}
use file_processing_system.Uploads.Schemas.{ConfirmUpload}
use file_processing_system.Uploads.Queued.{
  UploadViews, HasFile, HasDocuments, IsQueueSound, IsLater, HasServices, Sound, IsStable, Keeps,
  quiet-Keeps, All-later, Post-everywhere, HasDocuments-IsLater, IsQueueSound-IsLater,
}
use file_processing_system.Worker.Store.{Post-by}

-- After a failure, what the handler does.
Post-recover :
    {W A : Type 0} (Q : A → W → Type 0) (R S : W → Type 0) (handler : Failure → Action W A)
    (x : Result A × W)
    → ((e : Failure) → Triple S (handler e) Q R)
    → ((w : W) → S w → R w)
    → Post Q S x
    → Post Q R (recover handler x)
Post-recover Q R S handler (ok a, w) handled weaker h = h
Post-recover Q R S handler (failed e, w) handled weaker h = (handled e).run w h
Post-recover Q R S handler (hangs, w) handled weaker h = weaker w h
Post-recover Q R S handler (crashes, w) handled weaker h = weaker w h

catches :
    {W A : Type 0} {P : W → Type 0} {Q : A → W → Type 0} {R : W → Type 0} (S : W → Type 0)
    {m : Action W A} {handler : Failure → Action W A}
    → Triple P m Q S
    → ((e : Failure) → Triple S (handler e) Q R)
    → ((w : W) → S w → R w)
    → Triple P (catch m handler) Q R
catches {Q} {R} S {m} {handler} tried handled weaker = record {
  run = λ w h. Post-recover Q R S handler (m w) handled weaker (tried.run w h);
}

module _ {W Json : Type 0} (views : UploadViews W) (parts : UploadParts W Json)
    (services : HasServices views parts) where
  abbrev pub Anything : W → Type 0
  Anything w = Unit

  quietly :
      {A : Type 0} (m : Action W A) → ((w : W) → IsLater views w (m w).1) → Keeps views Anything m
  quietly m quiet = quiet-Keeps views m Anything (λ v w later h. tt) quiet

  Keeps-rethrow :
      {A : Type 0} (P : A → W → Type 0) (e : Failure)
      → Triple (IsQueueSound views) (rethrow_api e) (λ a. Sound views (P a)) (IsQueueSound views)
  unfolding rethrow_api
  Keeps-rethrow P (api_failure err) = fails (λ w sound. sound)
  Keeps-rethrow P (other_failure message) = fails (λ w sound. sound)

  Keeps-check_size : (expected actual : ℕ) → Keeps views Anything (check_size expected actual)
  unfolding check_size
  Keeps-check_size expected actual =
      if-elim {A = Action W Unit} (λ m. Keeps views Anything m) (ltb max_file_size actual)
        (fails (λ w s. s.1))
        (if-elim {A = Action W Unit} (λ m. Keeps views Anything m) (not (actual == expected))
          (fails (λ w s. s.1)) (returns (λ w s. s)))

  pub Keeps-verify_object :
      (key : Text) (expected : ℕ) → Keeps views Anything (verify_object parts.s3 key expected)
  unfolding verify_object
  Keeps-verify_object key expected =
      catches (IsQueueSound views)
        (and_then (quietly (parts.s3.head_object key) (services.head_quiet key))
          (λ length. Keeps-check_size expected (or_zero length)))
        (Keeps-rethrow (λ a. Anything)) (λ w sound. sound)

  Keeps-move_to_confirmed :
      (key id name : Text) → Keeps views Anything (move_to_confirmed parts.s3 key id name)
  unfolding move_to_confirmed
  Keeps-move_to_confirmed key id name =
      and_then
        (quietly (parts.s3.copy_object key (confirmed_key id name))
          (services.copy_quiet key (confirmed_key id name)))
        (λ a.
          and_then (quietly (parts.s3.delete_object key) (services.delete_quiet key))
            (λ b. returns (λ w s. s)))

  create_file-HasFile :
      (given : CreateFileData)
      → Triple
          (Sound views Anything)
          (parts.mongo.create_file given)
          (λ file. Sound views (HasFile views file.id))
          (IsQueueSound views)
  create_file-HasFile given = record {
    run = λ w (_, sound).
        let later =
          IsQueueSound-IsLater views w (parts.mongo.create_file given w).1
            (services.create_file_quiet given w) sound in
        Post-by (λ file. Sound views (HasFile views file.id)) (IsQueueSound views)
          (parts.mongo.create_file given w)
          (λ file e. ((file, services.create_file_stores given w file e), later)) later;
  }

  create_job-HasDocuments :
      (file_id : Text) (given : CreateJobData)
      → Triple
          (Sound views (HasFile views file_id))
          (parts.mongo.create_job given)
          (λ job. Sound views (HasDocuments views job.id file_id))
          (IsQueueSound views)
  create_job-HasDocuments file_id given = record {
    run = λ w (filed, sound).
        let quiet = services.create_job_quiet given w in
        let later = IsQueueSound-IsLater views w (parts.mongo.create_job given w).1 quiet sound in
        Post-by (λ job. Sound views (HasDocuments views job.id file_id)) (IsQueueSound views)
          (parts.mongo.create_job given w)
          (λ job e. (
            ((job, services.create_job_stores given w job e), quiet.files_kept file_id filed),
            later,
          ))
          later;
  }

  -- What is created can be found.
  abbrev pub IsCreated : FileDocument × JobDocument → W → Type 0
  IsCreated created = HasDocuments views created.1.id created.0.id

  pub create_upload-IsCreated :
      (upload : ConfirmUpload) (priority : ℕ) (rules : Option ValidationRules) (batch : Option Text)
      → Triple
          (Sound views Anything)
          (create_upload parts upload priority rules batch)
          (λ created. Sound views (IsCreated created))
          (IsQueueSound views)
  unfolding create_upload
  create_upload-IsCreated upload priority rules batch =
      and_then (quietly parts.s3.uuid services.uuid_quiet) (λ id.
        and_then (Keeps-move_to_confirmed upload.s3_key id upload.original_name) (λ key.
          and_then (create_file-HasFile _)
            (λ file. and_then (create_job-HasDocuments file.id _) (λ job. returns (λ w s. s)))))

  pub add-Sound :
      (entry : QueueEntry)
      → Triple
          (Sound views (HasDocuments views entry.job_id entry.file_id))
          (parts.queue.add entry)
          (λ a. Sound views (HasDocuments views entry.job_id entry.file_id))
          (IsQueueSound views)
  add-Sound entry = record {
    run = λ w (found, sound).
        let next = (parts.queue.add entry w).1 in
        let still : HasDocuments views entry.job_id entry.file_id next =
          services.add_jobs entry w entry.job_id entry.file_id found in
        let kept : All (λ e. HasDocuments views e.job_id e.file_id next) (views.queued w) =
          All-later views w next (views.queued w) (services.add_jobs entry w) sound in
        Post-everywhere views (Sound views (HasDocuments views entry.job_id entry.file_id))
          (IsQueueSound views) (parts.queue.add entry w) (λ v s. s.1)
          (
            still,
            elim (services.add_queues entry w) [
              | inl same ↦
                  subst (All (λ e. HasDocuments views e.job_id e.file_id next)) (sym same) kept
              | inr added ↦
                  subst (All (λ e. HasDocuments views e.job_id e.file_id next)) (sym added) (
                    All-append (λ e. HasDocuments views e.job_id e.file_id next) (views.queued w)
                      (entry ∷ []) kept (still, tt))
            ],
          );
  }

  pub Created-IsStable : (created : FileDocument × JobDocument) → IsStable views (IsCreated created)
  Created-IsStable created v w later found =
      HasDocuments-IsLater views v w created.1.id created.0.id later found

  pub Keeps-invalidate :
      (created : FileDocument × JobDocument)
      → Keeps views (IsCreated created) (invalidate_job_cache parts.redis)
  unfolding invalidate_job_cache cache_delete
  Keeps-invalidate created =
      catches (Sound views (IsCreated created))
        (record {
          run = λ w (found, sound).
              let later = services.del_quiet (codes "stats:dashboard" ∷ []) w in
              let next = (parts.redis.del (codes "stats:dashboard" ∷ []) w).1 in
              Post-everywhere views (Sound views (IsCreated created))
                (Sound views (IsCreated created)) (parts.redis.del (codes "stats:dashboard" ∷ []) w)
                (λ v s. s)
                (
                  Created-IsStable created w next later found,
                  IsQueueSound-IsLater views w next later sound,
                );
        })
        (λ e. returns (λ w s. s)) (λ w s. s.1)

  pub Keeps-emit :
      (P : W → Type 0) (io : Option (SocketServer W))
      → IsStable views P
      → parts.io ≡ io
      → Keeps views P (emit_stats_update io)
  unfolding emit_stats_update
  Keeps-emit P none stable e = returns (λ w s. s)
  Keeps-emit P (some io) stable e =
      quiet-Keeps views (io.emit dashboard_room stats_update) P stable
        (services.emit_quiet io dashboard_room stats_update e)

  pub Keeps-parsed : {A : Type 0} (value : Option A) → Keeps views Anything (parsed value)
  unfolding parsed
  Keeps-parsed none = fails (λ w s. s.1)
  Keeps-parsed (some value) = returns (λ w s. s)

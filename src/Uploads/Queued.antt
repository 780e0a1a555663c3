-- ===== src/Uploads/Queued.antt =====
-- src/controllers/upload.controller.ts: what a confirmation relies on so that every job that is
-- queued has its documents.
use mathlib.Core.Path.{subst}
use file_processing_system.Prelude.{◌≡◌, sym, ◌⊎◌, All, List, [], ◌∷◌, ◌++◌, Option, some}
use file_processing_system.Prelude.Text.{Text}
use file_processing_system.Types.{FileDocument, JobDocument}
use file_processing_system.Effects.{Result, ok, failed, hangs, crashes, Action}
use file_processing_system.Effects.Triples.{Post, Triple}
use file_processing_system.Jobs.{CreateFileData, CreateJobData}
use file_processing_system.Services.{QueueEntry, SocketServer, SocketMessage}
use file_processing_system.Uploads.{UploadParts}

-- What can be found in a state.
pub record UploadViews (W : Type 0) : Type 0 where
  pub job_at : W → Text → Option JobDocument
  pub file_at : W → Text → Option FileDocument
  pub queued : W → List QueueEntry

module _ {W : Type 0} (views : UploadViews W) where
  abbrev pub HasFile : Text → W → Type 0
  HasFile id w = (file : FileDocument) × (views.file_at w id ≡ some file)

  -- A job and its file, by their ids.
  abbrev pub HasDocuments : Text → Text → W → Type 0
  HasDocuments job_id file_id w =
      ((job : JobDocument) × (views.job_at w job_id ≡ some job)) × HasFile file_id w

  -- Every job that waits in the queue has its documents.
  abbrev pub IsQueueSound : W → Type 0
  IsQueueSound w = All (λ entry. HasDocuments entry.job_id entry.file_id w) (views.queued w)

  -- From the first state to the second, no document is lost and nothing is queued.
  pub record IsLater (v w : W) : Type 0 where
    pub jobs_kept :
        (id : Text)
        → (job : JobDocument) × (views.job_at v id ≡ some job)
        → (job : JobDocument) × (views.job_at w id ≡ some job)
    pub files_kept : (id : Text) → HasFile id v → HasFile id w
    pub queue_kept : views.queued w ≡ views.queued v

  abbrev IsQuiet : {A : Type 0} → Action W A → Type 0
  IsQuiet m = (w : W) → IsLater w (m w).1

  -- What the packages document: the calls of S3, Redis and socket.io lose no document and queue
  -- nothing; a document that is created can be found; and only `add` queues, the one entry at most.
  pub record HasServices {Json : Type 0} (parts : UploadParts W Json) : Type 0 where
    pub uuid_quiet : IsQuiet parts.s3.uuid
    pub head_quiet : (key : Text) → IsQuiet (parts.s3.head_object key)
    pub copy_quiet : (source target : Text) → IsQuiet (parts.s3.copy_object source target)
    pub delete_quiet : (key : Text) → IsQuiet (parts.s3.delete_object key)
    pub del_quiet : (keys : List Text) → IsQuiet (parts.redis.del keys)
    pub emit_quiet :
        (io : SocketServer W) (room : Text) (message : SocketMessage)
        → parts.io ≡ some io
        → IsQuiet (io.emit room message)
    pub create_file_quiet : (given : CreateFileData) → IsQuiet (parts.mongo.create_file given)
    pub create_file_stores :
        (given : CreateFileData) (w : W) (file : FileDocument)
        → (parts.mongo.create_file given w).0 ≡ ok file
        → views.file_at (parts.mongo.create_file given w).1 file.id ≡ some file
    pub create_job_quiet : (given : CreateJobData) → IsQuiet (parts.mongo.create_job given)
    pub create_job_stores :
        (given : CreateJobData) (w : W) (job : JobDocument)
        → (parts.mongo.create_job given w).0 ≡ ok job
        → views.job_at (parts.mongo.create_job given w).1 job.id ≡ some job
    pub add_jobs :
        (entry : QueueEntry) (w : W) (job_id file_id : Text)
        → HasDocuments job_id file_id w
        → HasDocuments job_id file_id (parts.queue.add entry w).1
    pub add_queues :
        (entry : QueueEntry) (w : W)
        → (views.queued (parts.queue.add entry w).1 ≡ views.queued w)
          ⊎ (views.queued (parts.queue.add entry w).1 ≡ views.queued w ++ entry ∷ [])

  pub HasDocuments-IsLater :
      (v w : W) (job_id file_id : Text)
      → IsLater v w
      → HasDocuments job_id file_id v
      → HasDocuments job_id file_id w
  HasDocuments-IsLater v w job_id file_id later (job, file) =
      (later.jobs_kept job_id job, later.files_kept file_id file)

  pub All-later :
      (v w : W) (entries : List QueueEntry)
      → ((job_id file_id : Text) → HasDocuments job_id file_id v → HasDocuments job_id file_id w)
      → All (λ entry. HasDocuments entry.job_id entry.file_id v) entries
      → All (λ entry. HasDocuments entry.job_id entry.file_id w) entries
  All-later v w [] keep all = tt
  All-later v w (entry ∷ entries) keep (h, all) =
      (keep entry.job_id entry.file_id h, All-later v w entries keep all)

  pub IsQueueSound-IsLater : (v w : W) → IsLater v w → IsQueueSound v → IsQueueSound w
  IsQueueSound-IsLater v w later sound =
      subst (All (λ entry. HasDocuments entry.job_id entry.file_id w)) (sym later.queue_kept)
        (All-later v w (views.queued v) (λ j f. HasDocuments-IsLater v w j f later) sound)

  -- A sound queue, and what else holds.
  abbrev pub Sound : (W → Type 0) → W → Type 0
  Sound P w = P w × IsQueueSound w

  -- What no later state loses.
  abbrev pub IsStable : (W → Type 0) → Type 0
  IsStable P = (v w : W) → IsLater v w → P v → P w

  pub Post-everywhere :
      {A : Type 0} (P R : W → Type 0) (x : Result A × W)
      → ((w : W) → P w → R w)
      → P x.1
      → Post (λ a. P) R x
  Post-everywhere P R (ok a, w) weaker h = h
  Post-everywhere P R (failed e, w) weaker h = weaker w h
  Post-everywhere P R (hangs, w) weaker h = weaker w h
  Post-everywhere P R (crashes, w) weaker h = weaker w h

  -- A program that loses nothing and queues nothing keeps what is stable.
  abbrev pub Keeps : {A : Type 0} → (W → Type 0) → Action W A → Type 0
  Keeps P m = Triple (Sound P) m (λ a. Sound P) IsQueueSound

  pub quiet-Keeps :
      {A : Type 0} (m : Action W A) (P : W → Type 0) → IsStable P → IsQuiet m → Keeps P m
  quiet-Keeps m P stable quiet = record {
    run = λ w (h, sound).
        Post-everywhere (Sound P) IsQueueSound (m w) (λ v s. s.1)
          (stable w (m w).1 (quiet w) h, IsQueueSound-IsLater w (m w).1 (quiet w) sound);
  }

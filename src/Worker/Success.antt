-- ===== src/Worker/Success.antt =====
-- src/worker.ts: a database, a bucket and sockets whose calls all succeed, and what each step of
-- the worker does on them.
use mathlib.Core.Path.{subst}
use file_processing_system.Prelude.{true, ℕ, ◌≡◌, sym, Option, none, some, List}
use file_processing_system.Prelude.Text.{Text}
use file_processing_system.Types.{FileDocument, JobDocument, ResultDocument}
use file_processing_system.Csv.{CsvEvent}
use file_processing_system.Effects.{Result, ok, failed, hangs, crashes, Action}
use file_processing_system.Effects.Triples.{Post, Triple}
use file_processing_system.Documents.{admit_result, result_document}
use file_processing_system.Jobs.{JobUpdate, CreateResultData}
use file_processing_system.Services.{SocketServer, SocketMessage}
use file_processing_system.Worker.{WorkerParts}
use file_processing_system.Worker.Store.{updated}

-- What can be found in a state: the documents by their ids, and the objects by their keys.
pub record Views (W : Type 0) : Type 0 where
  pub job_at : W → Text → Option JobDocument
  pub file_at : W → Text → Option FileDocument
  pub result_at : W → Text → Option ResultDocument
  pub object_at : W → Text → Option (List CsvEvent)

module _ {W : Type 0} (views : Views W) where
  -- A call that returns what it should and changes nothing that can be found.
  pub record IsStill {A : Type 0} (Returned : W → A → Type 0) (m : Action W A) : Type 0 where
    pub returned : (w : W) → (a : A) × ((m w).0 ≡ ok a) × Returned w a
    pub jobs_kept : (w : W) (id : Text) → views.job_at (m w).1 id ≡ views.job_at w id
    pub files_kept : (w : W) (id : Text) → views.file_at (m w).1 id ≡ views.file_at w id
    pub results_kept : (w : W) (id : Text) → views.result_at (m w).1 id ≡ views.result_at w id
    pub objects_kept : (w : W) (key : Text) → views.object_at (m w).1 key ≡ views.object_at w key

  -- The documented behaviour of calls that succeed: a query returns what can be found, an update
  -- changes the one document, and a result that is created for a job without one is found under it.
  pub record IsAvailable {F R D : Type 0} (parts : WorkerParts W F R D) : Type 0 where
    pub find_job_IsStill :
        (id : Text) → IsStill (λ w found. found ≡ views.job_at w id) (parts.mongo.find_job id)
    pub find_file_IsStill :
        (id : Text) → IsStill (λ w found. found ≡ views.file_at w id) (parts.mongo.find_file id)
    pub get_object_IsStill :
        (key : Text) → IsStill (λ w body. body ≡ views.object_at w key) (parts.s3.get_object key)
    pub now_IsStill : IsStill (λ w time. Unit) parts.mongo.now
    pub group_by_status_IsStill :
        (batch : Option Text) → IsStill (λ w groups. Unit) (parts.mongo.group_by_status batch)
    pub emit_IsStill :
        (io : SocketServer W) (room : Text) (message : SocketMessage)
        → parts.io ≡ some io
        → IsStill (λ w sent. Unit) (io.emit room message)
    pub update_returns :
        (id : Text) (update : JobUpdate) (w : W)
        → (found : Option JobDocument) × ((parts.mongo.update_job id update w).0 ≡ ok found)
    pub update_jobs :
        (id : Text) (update : JobUpdate) (w : W)
        → views.job_at (parts.mongo.update_job id update w).1 id
          ≡ updated update (views.job_at w id)
    pub update_files :
        (id : Text) (update : JobUpdate) (w : W) (other : Text)
        → views.file_at (parts.mongo.update_job id update w).1 other ≡ views.file_at w other
    pub update_results :
        (id : Text) (update : JobUpdate) (w : W) (other : Text)
        → views.result_at (parts.mongo.update_job id update w).1 other ≡ views.result_at w other
    pub update_objects :
        (id : Text) (update : JobUpdate) (w : W) (key : Text)
        → views.object_at (parts.mongo.update_job id update w).1 key ≡ views.object_at w key
    pub create_result_stores :
        (given : CreateResultData) (w : W)
        → admit_result (views.result_at w given.job_id) ≡ true
        → (id : Text) × (time : ℕ) × ((parts.mongo.create_result given w).0
            ≡ ok (result_document id time given))
          × (views.result_at (parts.mongo.create_result given w).1 given.job_id
              ≡ some (result_document id time given))
    pub create_result_jobs :
        (given : CreateResultData) (w : W) (id : Text)
        → views.job_at (parts.mongo.create_result given w).1 id ≡ views.job_at w id

-- A program that returns, from each state in which `P` holds.
abbrev pub Succeeds : {W A : Type 0} → (W → Type 0) → Action W A → (A → W → Type 0) → Type 0
Succeeds P m Q = Triple P m Q (λ w. ⊥)

ok-eq : {A : Type 0} {a b : A} → ok a ≡ ok b → a ≡ b
ok-eq e = cc

pub Post-returned :
    {W A : Type 0} (Q : A → W → Type 0) (x : Result A × W) (a : A)
    → x.0 ≡ ok a
    → Q a x.1
    → Post Q (λ w. ⊥) x
Post-returned Q (ok b, w) a e h = subst (λ c. Q c w) (ok-eq (sym e)) h
Post-returned Q (failed err, w) a e h = cc
Post-returned Q (hangs, w) a e h = cc
Post-returned Q (crashes, w) a e h = cc

-- The file, its events and its job can be found, and the job has no result yet.
module _ {W : Type 0} (views : Views W) (job_id file_id : Text) (file : FileDocument)
    (events : List CsvEvent) where
  abbrev pub HasJob : JobDocument → W → Type 0
  HasJob job w =
      (views.job_at w job_id ≡ some job)
      × (views.file_at w file_id ≡ some file)
      × (views.object_at w file.s3_key ≡ some events)
      × (views.result_at w job_id ≡ none)

  -- The job and its result can be found.
  abbrev pub HasBoth : JobDocument → ResultDocument → W → Type 0
  HasBoth job result w =
      (views.job_at w job_id ≡ some job) × (views.result_at w job_id ≡ some result)

-- ===== src/Worker/Completion.antt =====
-- src/worker.ts: a job whose calls succeed is completed.
use mathlib.Core.Path.{subst}
use file_processing_system.Prelude.{
  ap, ℕ, ◌≡◌, refl, sym, ◌∙◌, ap, Option, none, some, List, [], ◌∷◌,
}
use file_processing_system.Prelude.Text.{Text}
use file_processing_system.Types.{
  completed, FileDocument, JobDocument, ResultDocument, ProcessingReport,
}
use file_processing_system.Csv.{CsvEvent, Outcome}
use file_processing_system.Effects.{Action, ◌>>=◌}
use file_processing_system.Effects.Triples.{Post, Triple, and_then, returns, consequence}
use file_processing_system.Documents.{admit_result, result_document}
use file_processing_system.Jobs.{
  JobUpdate, apply_update, set_status, set_started, set_completed, update_status, set_started_at,
  set_completed_at, count_by_batch_id,
}
use file_processing_system.Services.{SocketServer, emit_job_completed, emit_batch_update}
use file_processing_system.Worker.{
  WorkerParts, store_report, complete_job, process_file, await_report, announce_batch, result_data,
}
use file_processing_system.Worker.Store.{updated}
use file_processing_system.Worker.Success.{
  Views, IsStill, IsAvailable, Succeeds, Post-returned, HasJob, HasBoth,
}

-- What follows a call, when it is known what the call returned.
pub at_value :
    {W A B : Type 0} {P : W → Type 0} {Q : B → W → Type 0} {R : W → Type 0} (next : A → Action W B)
    (value : A)
    → Triple P (next value) Q R
    → (a : A) → Triple (λ w. (a ≡ value) × P w) (next a) Q R
at_value {Q} {R} next value triple a = record {
  run = λ w (e, h). subst (λ b. Post Q R (next b w)) (sym e) (triple.run w h);
}

pub from_some :
    {W A T : Type 0} {P : T → W → Type 0} {m : Action W A} {Q : A → W → Type 0} {R : W → Type 0}
    → ((t : T) → Triple (P t) m Q R)
    → Triple (λ w. (t : T) × P t w) m Q R
from_some triple = record { run = λ w (t, h). (triple t).run w h }

module _ {W F R D : Type 0} (views : Views W) (parts : WorkerParts W F R D)
    (available : IsAvailable views parts) (job_id file_id : Text) (file : FileDocument)
    (events : List CsvEvent) where
  abbrev pub Ready : JobDocument → W → Type 0
  Ready = HasJob views job_id file_id file events

  abbrev pub Stored : JobDocument → ResultDocument → W → Type 0
  Stored = HasBoth views job_id file_id file events

  -- A call that changes nothing, by what it returns.
  pub still-Ready :
      {A : Type 0} {Returned : W → A → Type 0} {m : Action W A} (job : JobDocument) (Q : A → Type 0)
      → IsStill views Returned m
      → ((w : W) (a : A) → Ready job w → Returned w a → Q a)
      → Succeeds (Ready job) m (λ a w. Q a × Ready job w)
  still-Ready {m} job Q still known = record {
    run = λ w (at, filed, stored, fresh).
        let (a, e, returned) = still.returned w in
        Post-returned (λ a w. Q a × Ready job w) (m w) a e
          (
            known w a (at, filed, stored, fresh) returned,
            (
              still.jobs_kept w job_id ∙ at,
              still.files_kept w file_id ∙ filed,
              still.objects_kept w file.s3_key ∙ stored,
              still.results_kept w job_id ∙ fresh,
            ),
          );
  }

  still-Stored :
      {A : Type 0} {Returned : W → A → Type 0} {m : Action W A} (job : JobDocument)
      (result : ResultDocument)
      → IsStill views Returned m
      → Succeeds (Stored job result) m (λ a. Stored job result)
  still-Stored {m} job result still = record {
    run = λ w (at, found).
        let (a, e, _) = still.returned w in
        Post-returned (λ a. Stored job result) (m w) a e
          (still.jobs_kept w job_id ∙ at, still.results_kept w job_id ∙ found);
  }

  pub update_job-Ready :
      (job : JobDocument) (update : JobUpdate)
      → Succeeds
          (Ready job)
          (parts.mongo.update_job job_id update)
          (λ a. Ready (apply_update update job))
  unfolding updated
  update_job-Ready job update = record {
    run = λ w (at, filed, stored, fresh).
        let (a, e) = available.update_returns job_id update w in
        Post-returned (λ a. Ready (apply_update update job))
          (parts.mongo.update_job job_id update w) a e
          (
            available.update_jobs job_id update w ∙ ap (updated update) at,
            available.update_files job_id update w file_id ∙ filed,
            available.update_objects job_id update w file.s3_key ∙ stored,
            available.update_results job_id update w job_id ∙ fresh,
          );
  }

  update_job-Stored :
      (job : JobDocument) (result : ResultDocument) (update : JobUpdate)
      → Succeeds
          (Stored job result)
          (parts.mongo.update_job job_id update)
          (λ a. Stored (apply_update update job) result)
  unfolding updated
  update_job-Stored job result update = record {
    run = λ w (at, found).
        let (a, e) = available.update_returns job_id update w in
        Post-returned (λ a. Stored (apply_update update job) result)
          (parts.mongo.update_job job_id update w) a e
          (
            available.update_jobs job_id update w ∙ ap (updated update) at,
            available.update_results job_id update w job_id ∙ found,
          );
  }

  create_result-Stored :
      (job : JobDocument) (report : ProcessingReport)
      → Succeeds
          (Ready job)
          (parts.mongo.create_result (result_data job_id file_id report))
          (λ result w.
            ((id : Text) × (time : ℕ) × (result
                ≡ result_document id time (result_data job_id file_id report)))
            × Stored job result w)
  unfolding result_data admit_result
  create_result-Stored job report = record {
    run = λ w (at, _, _, fresh).
        let given = result_data job_id file_id report in
        let (id, time, e, found) = available.create_result_stores given w (ap admit_result fresh) in
        Post-returned _ (parts.mongo.create_result given w) (result_document id time given) e
          ((id, time, refl), (available.create_result_jobs given w job_id ∙ at, found));
  }

  pub set_started_at-Ready :
      (job : JobDocument)
      → Succeeds
          (Ready job)
          (set_started_at parts.mongo job_id)
          (λ a w. (time : ℕ) × Ready (apply_update (set_started time) job) w)
  unfolding set_started_at
  set_started_at-Ready job =
      and_then (still-Ready job (λ time. Unit) available.now_IsStill (λ w a ready _. tt)) (λ time.
        consequence (λ w (_, ready). ready) (λ a w ready. (time, ready)) (λ w no. no)
          (update_job-Ready job (set_started time)))

  set_completed_at-Stored :
      (job : JobDocument) (result : ResultDocument)
      → Succeeds
          (Stored job result)
          (set_completed_at parts.mongo job_id)
          (λ a w. (time : ℕ) × Stored (apply_update (set_completed time) job) result w)
  unfolding set_completed_at
  set_completed_at-Stored job result =
      and_then (still-Stored job result available.now_IsStill) (λ time.
        consequence (λ w stored. stored) (λ a w stored. (time, stored)) (λ w no. no)
          (update_job-Stored job result (set_completed time)))

  emit_job_completed-Stored :
      (job : JobDocument) (result : ResultDocument) (io : Option (SocketServer W))
      (result_id : Text)
      → parts.io ≡ io
      → Succeeds
          (Stored job result)
          (emit_job_completed io job_id result_id)
          (λ a. Stored job result)
  unfolding emit_job_completed
  emit_job_completed-Stored job result none result_id e = returns (λ w stored. stored)
  emit_job_completed-Stored job result (some io) result_id e =
      and_then (still-Stored job result (available.emit_IsStill io _ _ e))
        (λ a. still-Stored job result (available.emit_IsStill io _ _ e))

  emit_batch_update-Stored :
      (job : JobDocument) (result : ResultDocument) (io : Option (SocketServer W)) (batch_id : Text)
      (n m : ℕ)
      → parts.io ≡ io
      → Succeeds (Stored job result) (emit_batch_update io batch_id n m) (λ a. Stored job result)
  unfolding emit_batch_update
  emit_batch_update-Stored job result none batch_id n m e = returns (λ w stored. stored)
  emit_batch_update-Stored job result (some io) batch_id n m e =
      still-Stored job result (available.emit_IsStill io _ _ e)

  announce_batch-Stored :
      (job : JobDocument) (result : ResultDocument) (batch : Option Text)
      → Succeeds (Stored job result) (announce_batch parts batch) (λ a. Stored job result)
  unfolding announce_batch count_by_batch_id
  announce_batch-Stored job result none = returns (λ w stored. stored)
  announce_batch-Stored job result (some []) = returns (λ w stored. stored)
  announce_batch-Stored job result (some (c ∷ s)) =
      and_then
        (and_then (still-Stored job result (available.group_by_status_IsStill (some (c ∷ s))))
          (λ groups. returns (λ w stored. stored)))
        (λ counts. emit_batch_update-Stored job result parts.io (c ∷ s) _ _ refl)

  pub complete_job-Stored :
      (job found : JobDocument) (result : ResultDocument)
      → Succeeds (Stored job result) (complete_job parts job_id found result) (λ a w.
        (time : ℕ) × Stored
          (apply_update (set_completed time) (apply_update (set_status completed none) job))
          result
          w)
  unfolding complete_job update_status
  complete_job-Stored job found result =
      and_then (update_job-Stored job result (set_status completed none)) (λ a.
        and_then (set_completed_at-Stored (apply_update (set_status completed none) job) result)
          (λ b. from_some (λ time.
            and_then
              (emit_job_completed-Stored
                (apply_update (set_completed time) (apply_update (set_status completed none) job))
                result parts.io result.id refl)
              (λ c.
                consequence (λ w stored. stored) (λ d w stored. (time, stored)) (λ w no. no)
                  (announce_batch-Stored
                    (apply_update (set_completed time)
                      (apply_update (set_status completed none) job))
                    result found.batch_id)))))

  pub store_report-Stored :
      (job found : JobDocument) (report : ProcessingReport)
      → process_file parts file found events ≡ Outcome.resolved report
      → Succeeds (Ready job) (store_report parts job_id file_id file found events) (λ result w.
        ((id : Text) × (time : ℕ) × (result
            ≡ result_document id time (result_data job_id file_id report)))
        × Stored job result w)
  unfolding store_report await_report
  store_report-Stored job found report e = record {
    run = λ w ready.
        subst
          (λ outcome.
            Post
              (λ result w.
                ((id : Text) × (time : ℕ) × (result
                    ≡ result_document id time (result_data job_id file_id report)))
                × Stored job result w)
              (λ w. ⊥)
              ((await_report outcome >>= λ r.
                  parts.mongo.create_result (result_data job_id file_id r))
                w))
          (sym e) ((create_result-Stored job report).run w ready);
  }

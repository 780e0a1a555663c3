-- ===== src/Worker/Store.antt =====
-- src/worker.ts and src/repositories/mongo: what the worker relies on of the database, and which
-- calls keep every completed job with its result.
use mathlib.Core.Path.{subst}
use file_processing_system.Prelude.{
  ◌≡◌, refl, ◌∙◌, sym, ap, ◌⊎◌, inl, inr, All, List, [], ◌∷◌, Option, none, some,
}
use file_processing_system.Prelude.Text.{Text}
use file_processing_system.Types.{completed, JobDocument, ResultDocument}
use file_processing_system.Effects.{Result, ok, failed, hangs, crashes, Action}
use file_processing_system.Effects.Triples.{Post, Triple}
use file_processing_system.Jobs.{Mongo, JobUpdate, apply_update, CreateResultData}

unfoldable pub updated : JobUpdate → Option JobDocument → Option JobDocument
updated update none = none
updated update (some job) = some (apply_update update job)

-- The documents of a state, by the id of the job.
module _ {W : Type 0} (job_at : W → Text → Option JobDocument)
    (result_at : W → Text → Option ResultDocument) where
  abbrev pub HasResult : W → Text → Type 0
  HasResult w id = (result : ResultDocument) × (result_at w id ≡ some result)

  -- A call that changes neither documents, whether it succeeds or not.
  pub record IsQuiet {A : Type 0} (m : Action W A) : Type 0 where
    pub jobs_kept : (w : W) (id : Text) → job_at (m w).1 id ≡ job_at w id
    pub results_kept : (w : W) (id : Text) → result_at (m w).1 id ≡ result_at w id

  -- What MongoDB documents: an update changes the document with the id alone, and may be lost; a
  -- created result is found under its job, and creating one loses no other; a query changes
  -- nothing.
  pub record IsJobStore (mongo : Mongo W) : Type 0 where
    pub update_results :
        (id : Text) (update : JobUpdate) (w : W) (other : Text)
        → result_at (mongo.update_job id update w).1 other ≡ result_at w other
    pub update_jobs :
        (id : Text) (update : JobUpdate) (w : W) (other : Text)
        → (job_at (mongo.update_job id update w).1 other ≡ job_at w other)
          ⊎ ((other ≡ id)
              × (job_at (mongo.update_job id update w).1 other ≡ updated update (job_at w other)))
    pub create_result_jobs :
        (data_given : CreateResultData) (w : W) (id : Text)
        → job_at (mongo.create_result data_given w).1 id ≡ job_at w id
    pub create_result_results :
        (data_given : CreateResultData) (w : W) (id : Text)
        → HasResult w id
        → HasResult (mongo.create_result data_given w).1 id
    pub create_result_stores :
        (data_given : CreateResultData) (w : W) (result : ResultDocument)
        → (mongo.create_result data_given w).0 ≡ ok result
        → result_at (mongo.create_result data_given w).1 data_given.job_id ≡ some result
    pub find_file_IsQuiet : (id : Text) → IsQuiet (mongo.find_file id)
    pub find_job_IsQuiet : (id : Text) → IsQuiet (mongo.find_job id)
    pub group_by_status_IsQuiet : (batch : Option Text) → IsQuiet (mongo.group_by_status batch)
    pub now_IsQuiet : IsQuiet mongo.now

  -- Every completed job has a result, and so have the jobs of the list.
  pub record Stage (ids : List Text) (w : W) : Type 0 where
    pub sound :
        (id : Text) (job : JobDocument)
        → job_at w id ≡ some job
        → job.status ≡ completed
        → HasResult w id
    pub stored : All (HasResult w) ids

  abbrev pub IsSound : W → Type 0
  IsSound = Stage []

Post-everywhere :
    {W A : Type 0} (P R : W → Type 0) (x : Result A × W)
    → ((w : W) → P w → R w)
    → P x.1
    → Post (λ _. P) R x
Post-everywhere P R (ok a, w) weaker h = h
Post-everywhere P R (failed e, w) weaker h = weaker w h
Post-everywhere P R (hangs, w) weaker h = weaker w h
Post-everywhere P R (crashes, w) weaker h = weaker w h

pub Post-by :
    {W A : Type 0} (Q : A → W → Type 0) (R : W → Type 0) (x : Result A × W)
    → ((a : A) → x.0 ≡ ok a → Q a x.1)
    → R x.1
    → Post Q R x
Post-by Q R (ok a, w) h k = h a refl
Post-by Q R (failed e, w) h k = k
Post-by Q R (hangs, w) h k = k
Post-by Q R (crashes, w) h k = k

-- The document before an update that found one.
updated-some :
    (update : JobUpdate) (found : Option JobDocument) (job : JobDocument)
    → updated update found ≡ some job
    → (old : JobDocument) × (found ≡ some old) × (apply_update update old ≡ job)
unfolding updated
updated-some update none job e = cc
updated-some update (some old) job e = (old, refl, cc)

module _ {W : Type 0} (job_at : W → Text → Option JobDocument)
    (result_at : W → Text → Option ResultDocument) where
  pub Stage-IsSound :
      (ids : List Text) (w : W) → Stage job_at result_at ids w → IsSound job_at result_at w
  Stage-IsSound ids w stage = record { sound = stage.sound; stored = tt }

  pub All-HasResult :
      (v w : W) (ids : List Text)
      → ((id : Text) → HasResult job_at result_at v id → HasResult job_at result_at w id)
      → All (HasResult job_at result_at v) ids
      → All (HasResult job_at result_at w) ids
  All-HasResult v w [] keep h = tt
  All-HasResult v w (id ∷ ids) keep (h, rest) = (keep id h, All-HasResult v w ids keep rest)

  -- A call that loses no result, and completes no job that has none.
  pub Stage-kept :
      {A : Type 0} (m : Action W A) (ids : List Text)
      → ((w : W) (id : Text)
          → HasResult job_at result_at w id
          → HasResult job_at result_at (m w).1 id)
      → ((w : W) (id : Text) (job : JobDocument)
          → Stage job_at result_at ids w
          → job_at (m w).1 id ≡ some job
          → job.status ≡ completed
          → HasResult job_at result_at w id)
      → Triple
          (Stage job_at result_at ids)
          m
          (λ _. Stage job_at result_at ids)
          (IsSound job_at result_at)
  Stage-kept m ids keep found = record {
    run = λ w stage.
        Post-everywhere (Stage job_at result_at ids) (IsSound job_at result_at) (m w)
          (Stage-IsSound ids)
          (record {
            sound = λ id job at done. keep w id (found w id job stage at done);
            stored = All-HasResult w (m w).1 ids (keep w) stage.stored;
          });
  }

  pub IsQuiet-Stage :
      {A : Type 0} {m : Action W A} (ids : List Text)
      → IsQuiet job_at result_at m
      → Triple
          (Stage job_at result_at ids)
          m
          (λ _. Stage job_at result_at ids)
          (IsSound job_at result_at)
  IsQuiet-Stage {m} ids quiet =
      Stage-kept m ids (λ w id (result, e). (result, quiet.results_kept w id ∙ e))
        (λ w id job stage at done. stage.sound id job (sym (quiet.jobs_kept w id) ∙ at) done)

  module _ {mongo : Mongo W} (store : IsJobStore job_at result_at mongo) where
    update-HasResult :
        (id : Text) (update : JobUpdate) (w : W) (other : Text)
        → HasResult job_at result_at w other
        → HasResult job_at result_at (mongo.update_job id update w).1 other
    update-HasResult id update w other (result, e) =
        (result, store.update_results id update w other ∙ e)

    -- An update that completes its job only where the job has a result.
    pub update_job-Stage :
        (ids : List Text) (id : Text) (update : JobUpdate)
        → ((w : W) (old : JobDocument)
            → Stage job_at result_at ids w
            → job_at w id ≡ some old
            → (apply_update update old).status ≡ completed
            → HasResult job_at result_at w id)
        → Triple
            (Stage job_at result_at ids)
            (mongo.update_job id update)
            (λ _. Stage job_at result_at ids)
            (IsSound job_at result_at)
    update_job-Stage ids id update allowed =
        Stage-kept (mongo.update_job id update) ids (update-HasResult id update)
          (λ w other job stage at done. elim (store.update_jobs id update w other) [
            | inl same ↦ stage.sound other job (sym same ∙ at) done
            | inr (e, changed) ↦
                let (old, before, after) =
                  updated-some update (job_at w other) job (sym changed ∙ at) in
                subst (HasResult job_at result_at w) (sym e) (
                  allowed w old stage (subst (λ k. job_at w k ≡ some old) e before)
                    (ap (λ d. d.status) after ∙ done))
          ])

    create_result-IsSound :
        (data_given : CreateResultData) (w : W)
        → IsSound job_at result_at w
        → IsSound job_at result_at (mongo.create_result data_given w).1
    create_result-IsSound data_given w stage = record {
      sound = λ id job at done.
          store.create_result_results data_given w id
            (stage.sound id job (sym (store.create_result_jobs data_given w id) ∙ at) done);
      stored = tt;
    }

    -- Creating a result, which its job has from then on.
    pub create_result-Stage :
        (data_given : CreateResultData)
        → Triple
            (IsSound job_at result_at)
            (mongo.create_result data_given)
            (λ _. Stage job_at result_at (data_given.job_id ∷ []))
            (IsSound job_at result_at)
    create_result-Stage data_given = record {
      run = λ w stage.
          Post-by (λ _. Stage job_at result_at (data_given.job_id ∷ [])) (IsSound job_at result_at)
            (mongo.create_result data_given w)
            (λ result e. record {
              sound = (create_result-IsSound data_given w stage).sound;
              stored = ((result, store.create_result_stores data_given w result e), tt);
            })
            (create_result-IsSound data_given w stage);
    }

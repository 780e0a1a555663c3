-- ===== src/Worker/Database.antt =====
-- A database in memory, for the tests of the programs that use src/repositories.
use file_processing_system.Prelude.{
  ◌≡◌, ◌≢◌, refl, ◌⊎◌, inl, inr, arith, ◌∙◌, Bool, true, false, Bool-cases, [], ◌∷◌, Option, none,
  some, if◌then◌else◌,
}
use file_processing_system.Prelude.Text.{Text, codes, text_eq, text_eq_sound, text_eq_refl}
use file_processing_system.Types.{FileDocument, JobDocument, ResultDocument, pending}
use file_processing_system.Effects.{Result, ok, failed, other_failure}
use file_processing_system.Documents.{admit_result, file_document, job_document, result_document}
use file_processing_system.Jobs.{Mongo, JobUpdate, CreateFileData, CreateJobData, CreateResultData}
use file_processing_system.Worker.Store.{updated, IsQuiet, IsJobStore}

pub record Database : Type 0 where
  pub files : Text → Option FileDocument
  pub jobs : Text → Option JobDocument
  pub results : Text → Option ResultDocument

abbrev pub put : {A : Type 0} → Text → Option A → (Text → Option A) → Text → Option A
put key value at k = if text_eq k key then value else at k

unfoldable pub new_file : CreateFileData → FileDocument
unfolding file_document
new_file given = file_document (codes "f1") 0 given

unfoldable pub new_job : CreateJobData → JobDocument
unfolding job_document
new_job given = job_document (codes "j1") 0 given

unfoldable pub new_result : CreateResultData → ResultDocument
unfolding result_document
new_result given = result_document (codes "r1") 0 given

-- The insertion of a result, after what the unique index says.
abbrev pub insert_result : CreateResultData → Bool → Database → Result ResultDocument × Database
insert_result given true db = (
  ok (new_result given),
  record db { results = put given.job_id (some (new_result given)) db.results },
)
insert_result given false db = (failed (other_failure (codes "E11000 duplicate key error")), db)

abbrev pub memory : Mongo Database
memory = record {
  create_file = λ given db. (
    ok (new_file given),
    record db { files = put (codes "f1") (some (new_file given)) db.files },
  );
  find_file = λ id db. (ok (db.files id), db);
  find_file_by_key = λ key db. (ok none, db);
  delete_file = λ id db. (ok (db.files id), record db { files = put id none db.files });
  create_job = λ given db.
      (ok (new_job given), record db { jobs = put (codes "j1") (some (new_job given)) db.jobs });
  insert_jobs = λ given db. (ok [], db);
  find_job = λ id db. (ok (db.jobs id), db);
  update_job = λ id update db. (
    ok (updated update (db.jobs id)),
    record db { jobs = put id (updated update (db.jobs id)) db.jobs },
  );
  find_jobs = λ filters skip limit db. (ok [], db);
  count_documents = λ filters db. (ok 0, db);
  group_by_status = λ batch db. (ok ((pending, 1) ∷ []), db);
  create_result = λ given db. insert_result given (admit_result (db.results given.job_id)) db;
  find_result = λ id db. (ok (db.results id), db);
  now = λ db. (ok 7, db);
}

abbrev pub jobs_in : Database → Text → Option JobDocument
jobs_in db = db.jobs

abbrev pub results_in : Database → Text → Option ResultDocument
results_in db = db.results

-- A program that returns and leaves the database alone.
pub unchanged-IsQuiet :
    {A : Type 0} (a : Database → A) → IsQuiet jobs_in results_in (λ db. (ok (a db), db))
unchanged-IsQuiet a = record { jobs_kept = λ w id. refl; results_kept = λ w id. refl }

put-cases :
    (id : Text) (update : JobUpdate) (at : Text → Option JobDocument) (other : Text)
    → (put id (updated update (at id)) at other ≡ at other)
      ⊎ ((other ≡ id) × (put id (updated update (at id)) at other ≡ updated update (at other)))
put-cases id update at other = elim (Bool-cases (text_eq other id)) [
  | inl e ↦ inr (text_eq_sound other id e, ground (arith, text_eq_sound other id))
  | inr e ↦ inl (ground arith)
]

put-kept :
    (key : Text) (value : ResultDocument) (at : Text → Option ResultDocument) (id : Text)
    → (result : ResultDocument) × (at id ≡ some result)
    → (result : ResultDocument) × (put key (some value) at id ≡ some result)
put-kept key value at id (result, e) = elim (Bool-cases (text_eq id key)) [
  | inl same ↦ (value, ground arith)
  | inr different ↦ (result, ground arith)
]

pub put_same :
    {A : Type 0} (key : Text) (value : Option A) (at : Text → Option A)
    → put key value at key ≡ value
put_same key value at = ground (arith, text_eq_refl key)

pub insert_result-jobs :
    (given : CreateResultData) (free : Bool) (w : Database) (id : Text)
    → (insert_result given free w).1.jobs id ≡ w.jobs id
insert_result-jobs given true w id = refl
insert_result-jobs given false w id = refl

insert_result-results :
    (given : CreateResultData) (free : Bool) (w : Database) (id : Text)
    → (result : ResultDocument) × (w.results id ≡ some result)
    → (result : ResultDocument) × ((insert_result given free w).1.results id ≡ some result)
insert_result-results given true w id h = put-kept given.job_id (new_result given) w.results id h
insert_result-results given false w id h = h

insert_result-stores :
    (given : CreateResultData) (free : Bool) (w : Database) (result : ResultDocument)
    → (insert_result given free w).0 ≡ ok result
    → (insert_result given free w).1.results given.job_id ≡ some result
insert_result-stores given true w result e =
    put_same given.job_id (some (new_result given)) w.results ∙ cc
insert_result-stores given false w result e = cc

pub insert_result_refused :
    (given : CreateResultData) (free : Bool) (w : Database) (result : ResultDocument)
    → free ≡ false
    → (insert_result given free w).0 ≢ ok result
insert_result_refused given true w result e = cc
insert_result_refused given false w result e = cc

pub memory-IsJobStore : IsJobStore jobs_in results_in memory
memory-IsJobStore = record {
  update_results = λ id update w other. refl;
  update_jobs = λ id update w other. put-cases id update w.jobs other;
  create_result_jobs =
      λ given w. insert_result-jobs given (admit_result (w.results given.job_id)) w;
  create_result_results =
      λ given w. insert_result-results given (admit_result (w.results given.job_id)) w;
  create_result_stores =
      λ given w. insert_result-stores given (admit_result (w.results given.job_id)) w;
  find_file_IsQuiet = λ id. unchanged-IsQuiet (λ db. db.files id);
  find_job_IsQuiet = λ id. unchanged-IsQuiet (λ db. db.jobs id);
  group_by_status_IsQuiet = λ batch. unchanged-IsQuiet (λ db. (pending, 1) ∷ []);
  now_IsQuiet = unchanged-IsQuiet (λ db. 7);
}

-- ===== src/Jobs/Tests.antt =====
-- src/repositories/mongo/job.repository.ts on a collection that is a list of its jobs.
use mathlib.Core.Logic.Or
use mathlib.Core.List.{Perm}
use mathlib.Core.List.Perm
use file_processing_system.Prelude.{ℕ, ◌≡◌, refl, List, [], ◌∷◌, none, take, drop}
use file_processing_system.Prelude.Text.{Text, codes}
use file_processing_system.Types.{JobDocument, pending, processing, completed}
use file_processing_system.Effects.{ok}
use file_processing_system.Jobs.{
  Mongo, JobListFilters, fill_counts, no_jobs, set_count, total_count,
}
use file_processing_system.Worker.Database.{new_file, new_job, new_result}

abbrev waiting_job : Text → JobDocument
waiting_job file_id = new_job (record {
  file_id = file_id;
  priority = 5;
  validation_rules = none;
  batch_id = none;
  max_attempts = 3;
})

abbrev created : ℕ → JobDocument
created time = record (waiting_job (codes "f1")) { created_at = time }

-- The newest job first.
abbrev three_jobs : List JobDocument
three_jobs = created 9 ∷ created 4 ∷ created 2 ∷ []

-- A collection that holds these jobs, whatever the filters, and that nothing changes.
abbrev collection : Mongo Unit
collection = record {
  create_file = λ given w. (ok (new_file given), w);
  find_file = λ id w. (ok none, w);
  find_file_by_key = λ key w. (ok none, w);
  delete_file = λ id w. (ok none, w);
  create_job = λ given w. (ok (new_job given), w);
  insert_jobs = λ given w. (ok [], w);
  find_job = λ id w. (ok none, w);
  update_job = λ id update w. (ok none, w);
  find_jobs = λ filters skip limit w. (ok (take limit (drop skip three_jobs)), w);
  count_documents = λ filters w. (ok 3, w);
  group_by_status = λ batch w. (ok ((pending, 3) ∷ []), w);
  create_result = λ given w. (ok (new_result given), w);
  find_result = λ id w. (ok none, w);
  now = λ w. (ok 7, w);
}

abbrev no_filters : JobListFilters
no_filters = record { status = none; batch_id = none; priority = none }

counts_sum : total_count (fill_counts ((completed, 2) ∷ (processing, 1) ∷ []) no_jobs) ≡ 3
unfolding fill_counts set_count total_count
counts_sum = refl

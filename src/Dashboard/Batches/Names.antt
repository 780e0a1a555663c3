-- ===== src/Dashboard/Batches/Names.antt =====
-- dashboard/src/hooks/useBatchUpload.ts: the names and the jobs of the files through the steps of a batch.
use file_processing_system.Prelude.{
  ℕ, suc, ◌≡◌, refl, ◌∙◌, sym, ap, ◌⊎◌, inl, inr, arith, Bool, Option-cases, List, [], ◌∷◌, map,
  Option, none, some, length,
}
use file_processing_system.Prelude.Text.{Text}
use file_processing_system.Dashboard.Batches.{
  BatchFile, LocalFile, initial_file, assign_keys, change_at, FileEvent, file_progress,
  file_uploaded, on_file_event, on_file_events, mark_failed, keep_from, next_job, later_jobs,
  assign_jobs,
}

pub keep_from-map :
    {A B : Type 0} (f : A → B) (p : ℕ → Bool) (i : ℕ) (xs : List A)
    → map f (keep_from p i xs) ≡ keep_from p i (map f xs)
unfolding keep_from
keep_from-map f p i [] = refl
keep_from-map f p i (x ∷ xs) = ground (arith, keep_from-map f p (suc i) xs)

pub length-map : {A B : Type 0} (f : A → B) (xs : List A) → length (map f xs) ≡ length xs
length-map f [] = refl
length-map f (x ∷ xs) = ap suc (length-map f xs)

abbrev pub names : List BatchFile → List Text
names = map (λ file. file.name)

abbrev pub job_ids : List BatchFile → List (Option Text)
job_ids = map (λ file. file.job_id)

-- Nothing that happens renames a file or drops one.
module _ (change : BatchFile → BatchFile)
    (keeps : (file : BatchFile) → (change file).name ≡ file.name) where
  names-change_at :
      (i j : ℕ) (files : List BatchFile) → names (change_at i j change files) ≡ names files
  unfolding change_at
  names-change_at i j [] = refl
  names-change_at i j (file ∷ files) = ground (arith, keeps file, names-change_at i (suc j) files)

names-on_file_event :
    (event : FileEvent) (files : List BatchFile) → names (on_file_event event files) ≡ names files
unfolding on_file_event
names-on_file_event (file_progress i percent) files =
    names-change_at (λ file. record file { progress = percent }) (λ file. refl) i 0 files
names-on_file_event (file_uploaded i) files = names-change_at _ (λ file. refl) i 0 files

pub names-on_file_events :
    (events : List FileEvent) (files : List BatchFile)
    → names (on_file_events events files) ≡ names files
unfolding on_file_events
names-on_file_events [] files = refl
names-on_file_events (event ∷ events) files =
    names-on_file_events events (on_file_event event files) ∙ names-on_file_event event files

pub names-mark_failed :
    (i : ℕ) (ends : List (Option Text)) (files : List BatchFile)
    → names (mark_failed i ends files) ≡ names files
unfolding mark_failed
names-mark_failed i [] files = refl
names-mark_failed i (none ∷ ends) files = names-mark_failed (suc i) ends files
names-mark_failed i (some message ∷ ends) files =
    names-mark_failed (suc i) ends _ ∙ names-change_at _ (λ file. refl) i 0 files

pub names-assign_jobs :
    (p : ℕ → Bool) (i : ℕ) (jobs : List Text) (files : List BatchFile)
    → names (assign_jobs p i jobs files) ≡ names files
unfolding assign_jobs
names-assign_jobs p i jobs [] = refl
names-assign_jobs p i jobs (file ∷ files) = ground (
  arith,
  names-assign_jobs p (suc i) jobs files,
  names-assign_jobs p (suc i) (later_jobs jobs) files,
)

pub names-assign_keys :
    (keys : List Text) (files given : List BatchFile)
    → assign_keys keys files ≡ some given
    → names given ≡ names files
unfolding assign_keys
names-assign_keys keys [] given e = ground arith
names-assign_keys [] (file ∷ files) given e = cc
names-assign_keys (key ∷ keys) (file ∷ files) given e =
    elim (Option-cases (assign_keys keys files)) [
      | inl missing ↦ ground arith
      | inr (rest, found) ↦ ground (arith, names-assign_keys keys files rest found)
    ]

-- Each file that was uploaded gets the next job.
pub job_ids-assign_jobs :
    (p : ℕ → Bool) (i : ℕ) (jobs : List Text) (files : List BatchFile)
    → length (keep_from p i files) ≡ length jobs
    → job_ids (keep_from p i (assign_jobs p i jobs files)) ≡ map some jobs
unfolding assign_jobs keep_from next_job later_jobs
job_ids-assign_jobs p i [] [] e = refl
job_ids-assign_jobs p i (job ∷ jobs) [] e = absurd (omega arith)
job_ids-assign_jobs p i [] (file ∷ files) e = ground (arith, job_ids-assign_jobs p (suc i) [] files)
job_ids-assign_jobs p i (job ∷ jobs) (file ∷ files) e = ground (
  arith,
  job_ids-assign_jobs p (suc i) (job ∷ jobs) files,
  job_ids-assign_jobs p (suc i) jobs files,
)

pub none-ne-some : {A : Type 0} {a : A} → ◌≡◌ {A = Option A} none (some a) → ⊥
none-ne-some e = cc

pub list-cases : {A : Type 0} (xs : List A) → (xs ≡ []) ⊎ ((x : A) × (ys : List A) × (xs ≡ x ∷ ys))
list-cases [] = inl refl
list-cases (x ∷ xs) = inr (x, xs, refl)

pub length-keep_from-map :
    {A B : Type 0} (f : A → Text) (g : B → Text) (p : ℕ → Bool) (xs : List A) (ys : List B)
    → map f xs ≡ map g ys
    → length (keep_from p 0 xs) ≡ length (keep_from p 0 ys)
length-keep_from-map f g p xs ys e =
    sym (length-map f (keep_from p 0 xs))
    ∙ ap length (keep_from-map f p 0 xs)
    ∙ ap (λ texts. length (keep_from p 0 texts)) e
    ∙ sym (ap length (keep_from-map g p 0 ys))
    ∙ length-map g (keep_from p 0 ys)

pub names-initial_file :
    (files : List LocalFile) → names (map initial_file files) ≡ map (λ file. file.0) files
unfolding initial_file
names-initial_file [] = refl
names-initial_file (file ∷ files) = ap (◌∷◌ file.0) (names-initial_file files)

-- ===== src/Jobs/Paging.antt =====
-- src/repositories/mongo/job.repository.ts: the pages of a list, and the counts by status.
use file_processing_system.Prelude.{ℕ, zero, suc, ◌≡◌, List, [], ◌++◌, length, take, drop}
use mathlib.Core.List.{Perm}
use mathlib.Core.List.Perm
use file_processing_system.Jobs.Sorted.{IsDescending}
use file_processing_system.Types.{JobDocument, PaginatedResult}
use file_processing_system.Effects.{Result, ok, failed, hangs, crashes}
use file_processing_system.Jobs.{Mongo, JobListFilters, list_query, list_jobs_page}

module _ {W : Type 0} (mongo : Mongo W) (matching : W → JobListFilters → List JobDocument) where
  -- What MongoDB documents of a query with `sort({ createdAt: -1 })`, `skip` and `limit`, and of a
  -- count: each query takes its part of some descending order of all that it matches. The order of
  -- jobs of one time may differ from query to query.
  pub record AnswersQueries : Type 0 where
    pub find_jobs_lem :
        (query : JobListFilters) (skip limit : ℕ) (w : W)
        → (order : List JobDocument) × Perm order (matching w query)
          × IsDescending order
          × (mongo.find_jobs query skip limit w ≡ (ok (take limit (drop skip order)), w))
    pub count_documents_lem :
        (query : JobListFilters) (w : W)
        → mongo.count_documents query w ≡ (ok (length (matching w query)), w)

  pub found_items : Result (PaginatedResult JobDocument) × W → List JobDocument
  found_items (ok result, w) = result.items
  found_items (failed e, w) = []
  found_items (hangs, w) = []
  found_items (crashes, w) = []

  -- The jobs of the pages 1 to `n`, one page after the other.
  unfoldable pub first_pages : JobListFilters → ℕ → W → ℕ → List JobDocument
  first_pages filters limit w zero = []
  first_pages filters limit w (suc n) =
      first_pages filters limit w n
      ++ found_items (list_jobs_page mongo filters (record { page = suc n; limit = limit }) w)

  module _ (answers : AnswersQueries) (filters : JobListFilters) (limit : ℕ) (w : W) where
    abbrev found : List JobDocument
    found = matching w (list_query filters)

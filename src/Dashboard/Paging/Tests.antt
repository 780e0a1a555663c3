-- ===== src/Dashboard/Paging/Tests.antt =====
-- dashboard/src/pages/DashboardPage.tsx: the list after some clicks.
use file_processing_system.Prelude.{◌≡◌, ◌≤◌, true, List, [], ◌∷◌, none, some}
use file_processing_system.Types.{JobStatus}
use file_processing_system.JobController.{check_list_query}
use file_processing_system.Dashboard.Paging.{
  first_filters, previous, next, ListAction, clicks, selects_status, use_list, list_params,
}
use file_processing_system.Dashboard.Paging.Laws.{use_list-Queried}

abbrev browsing : List ListAction
browsing =
    selects_status (some JobStatus.failed)
    ∷ clicks next (record { page = 1; total_pages = 3 })
    ∷ clicks next (record { page = 2; total_pages = 3 })
    ∷ clicks previous (record { page = 3; total_pages = 3 })
    ∷ []

use_list-Queried_example :
    (1 ≤ 2)
    × (check_list_query (λ id. true) (list_params (use_list browsing first_filters))
        ≡ some (record {
          pagination = record { page = 2; limit = 20 };
          filters = record { status = some JobStatus.failed; batch_id = none; priority = none };
        }))
use_list-Queried_example = use_list-Queried browsing (λ id. true)

-- ===== src/Dashboard/Paging.antt =====
-- dashboard/src/pages/DashboardPage.tsx: the filters of the job list, the buttons of
-- components/common/Pagination.tsx and the select of components/jobs/JobFilters.tsx that change
-- them, and the query that hooks/useJobs.ts makes of them.
mod Laws
mod Tests
use file_processing_system.Prelude.{
  ℕ, zero, suc, ◌+◌, ◌-◌, leb, List, [], ◌∷◌, Option, none, some, if◌then◌else◌,
}
use file_processing_system.Prelude.Text.{Text}
use file_processing_system.Types.{JobStatus}
use file_processing_system.JobController.{JobListInput}

-- `JobListFilters` of the dashboard, where any member may be missing.
pub record ListFilters : Type 0 where
  pub status : Option JobStatus
  pub batch_id : Option Text
  pub priority : Option ℕ
  pub page : Option ℕ
  pub limit : Option ℕ

-- `useState({ page: 1, limit: 20 })`
abbrev pub first_filters : ListFilters
first_filters = record {
  status = none;
  batch_id = none;
  priority = none;
  page = some 1;
  limit = some 20;
}

-- The two members of the list that `Pagination` is given.
pub record PageShown : Type 0 where
  pub page : ℕ
  pub total_pages : ℕ

pub data PageButton : Type 0 where
  previous next : PageButton

-- The page that a click asks for, where a disabled button asks for none.
unfoldable pub clicked_page : PageButton → PageShown → Option ℕ
clicked_page previous shown = if leb shown.page 1 then none else some (shown.page - 1)
clicked_page next shown = if leb shown.total_pages shown.page then none else some (suc shown.page)

unfoldable pub change_page : Option ℕ → ListFilters → ListFilters
change_page none filters = filters
change_page (some page) filters = record filters { page = some page }

-- What the user does: a click while a page is shown, or another status, where `none` is 'All'.
pub data ListAction : Type 0 where
  clicks : PageButton → PageShown → ListAction
  selects_status : Option JobStatus → ListAction

unfoldable pub act_on_list : ListAction → ListFilters → ListFilters
unfolding clicked_page change_page
act_on_list (clicks button shown) filters = change_page (clicked_page button shown) filters
act_on_list (selects_status status) filters = record filters { status = status; page = some 1 }

unfoldable pub use_list : List ListAction → ListFilters → ListFilters
use_list [] filters = filters
use_list (action ∷ actions) filters = use_list actions (act_on_list action filters)

-- `if (value) params.set(...)`: 0 and '' are left out.
unfoldable pub number_param : Option ℕ → Option ℕ
number_param none = none
number_param (some zero) = none
number_param (some (suc n)) = some (suc n)

unfoldable pub text_param : Option Text → Option Text
text_param none = none
text_param (some []) = none
text_param (some (c ∷ s)) = some (c ∷ s)

-- The parameters of the query. The coercion of the server's schema takes `String(n)` to n.
unfoldable pub list_params : ListFilters → JobListInput
unfolding number_param text_param
list_params filters = record {
  page = number_param filters.page;
  limit = number_param filters.limit;
  status = filters.status;
  batch_id = text_param filters.batch_id;
  priority = number_param filters.priority;
}

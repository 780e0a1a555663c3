-- ===== src/Dashboard/Paging/Laws.antt =====
-- dashboard/src/pages/DashboardPage.tsx: the queries of the job list against the schema of
-- src/validators/job.validator.ts.
use file_processing_system.Prelude.{
  ℕ, zero, suc, ◌+◌, ◌-◌, ◌≤◌, ◌≡◌, refl, ◌∙◌, ap, inl, inr, arith, Bool, true, false, Bool-cases,
  ltb, leb, if-elim, List, [], ◌∷◌, Option, none, some, if◌then◌else◌,
}
use file_processing_system.Prelude.Text.{Text}
use file_processing_system.Types.{JobStatus}
use file_processing_system.JobController.{check_list_query, valid_page, valid_limit}
use file_processing_system.Uploads.Schemas.{valid_batch, valid_priority, in_range, or_default}
use file_processing_system.Dashboard.Paging.{
  ListFilters, first_filters, PageShown, previous, next, clicked_page, change_page, ListAction,
  clicks, selects_status, act_on_list, use_list, number_param, text_param, list_params,
}

-- The status that was selected last, and the page that was asked for last, from 1 on.
abbrev pub last_status : Option JobStatus → List ListAction → Option JobStatus
last_status status [] = status
last_status status (clicks button shown ∷ actions) = last_status status actions
last_status status (selects_status selected ∷ actions) = last_status selected actions

abbrev pub last_page : ℕ → List ListAction → ℕ
last_page page [] = page
last_page page (clicks previous shown ∷ actions) =
    last_page (if ltb 1 shown.page then shown.page - 1 else page) actions
last_page page (clicks next shown ∷ actions) =
    last_page (if ltb shown.page shown.total_pages then shown.page + 1 else page) actions
last_page page (selects_status selected ∷ actions) = last_page 1 actions

-- Filters with a status and a page, of 20 jobs, and neither a batch nor a priority.
abbrev usual : Option JobStatus → ℕ → ListFilters
usual status page = record {
  status = status;
  batch_id = none;
  priority = none;
  page = some page;
  limit = some 20;
}

previous-usual :
    (status : Option JobStatus) (page : ℕ) (shown : PageShown)
    → act_on_list (clicks previous shown) (usual status page)
      ≡ usual status (if ltb 1 shown.page then shown.page - 1 else page)
unfolding act_on_list clicked_page change_page
previous-usual status page shown = elim (Bool-cases (leb shown.page 1)) [
  | inl first ↦
      let none_before : ltb 1 shown.page ≡ false = ground (arith, first) in
      rw (first, none_before) refl
  | inr later ↦
      let some_before : ltb 1 shown.page ≡ true = ground (arith, later) in
      rw (later, some_before) refl
]

next-usual :
    (status : Option JobStatus) (page : ℕ) (shown : PageShown)
    → act_on_list (clicks next shown) (usual status page)
      ≡ usual status (if ltb shown.page shown.total_pages then shown.page + 1 else page)
unfolding act_on_list clicked_page change_page
next-usual status page shown = elim (Bool-cases (leb shown.total_pages shown.page)) [
  | inl last ↦
      let none_after : ltb shown.page shown.total_pages ≡ false = ground (arith, last) in
      rw (last, none_after) refl
  | inr earlier ↦
      let some_after : ltb shown.page shown.total_pages ≡ true = ground (arith, earlier) in
      let one_more : suc shown.page ≡ shown.page + 1 = omega arith in
      rw (earlier, some_after, one_more) refl
]

selects-usual :
    (selected status : Option JobStatus) (page : ℕ)
    → act_on_list (selects_status selected) (usual status page) ≡ usual selected 1
unfolding act_on_list
selects-usual selected status page = refl

use_list-usual :
    (actions : List ListAction) (status : Option JobStatus) (page : ℕ)
    → use_list actions (usual status page)
      ≡ usual (last_status status actions) (last_page page actions)
unfolding use_list
use_list-usual [] status page = refl
use_list-usual (clicks previous shown ∷ actions) status page =
    ap (use_list actions) (previous-usual status page shown) ∙ use_list-usual actions status _
use_list-usual (clicks next shown ∷ actions) status page =
    ap (use_list actions) (next-usual status page shown) ∙ use_list-usual actions status _
use_list-usual (selects_status selected ∷ actions) status page =
    ap (use_list actions) (selects-usual selected status page) ∙ use_list-usual actions selected 1

last_page-positive : (page : ℕ) (actions : List ListAction) → 1 ≤ page → 1 ≤ last_page page actions
last_page-positive page [] h = h
last_page-positive page (clicks previous shown ∷ actions) h =
    last_page-positive (if ltb 1 shown.page then shown.page - 1 else page) actions
      (elim (Bool-cases (ltb 1 shown.page)) [
        | inl later ↦ rw later (ground (arith, later))
        | inr first ↦ rw first h
      ])
last_page-positive page (clicks next shown ∷ actions) h =
    last_page-positive (if ltb shown.page shown.total_pages then shown.page + 1 else page) actions
      (if-elim (λ n. 1 ≤ n) (ltb shown.page shown.total_pages) (omega arith) h)
last_page-positive page (selects_status selected ∷ actions) h =
    last_page-positive 1 actions (omega arith)

check_list_query-usual :
    (is_uuid : Text → Bool) (status : Option JobStatus) (page : ℕ)
    → 1 ≤ page
    → check_list_query is_uuid (list_params (usual status page))
      ≡ some (record {
        pagination = record { page = page; limit = 20 };
        filters = record { status = status; batch_id = none; priority = none };
      })
unfolding check_list_query list_params number_param text_param valid_page valid_limit valid_batch
    valid_priority in_range or_default
check_list_query-usual is_uuid status zero h = absurd (omega (arith, h))
check_list_query-usual is_uuid status (suc n) h = ground arith

-- However the user turns the pages and changes the status, whatever pages the server showed: the
-- server's schema takes the query of the list. It asks for 20 jobs with the status that was
-- selected last, and for the page that was asked for last: the one before or after the page that
-- was shown, if there is one, or the first page since a status was selected.
pub use_list-Queried :
    (actions : List ListAction) (is_uuid : Text → Bool)
    → (1 ≤ last_page 1 actions)
      × (check_list_query is_uuid (list_params (use_list actions first_filters))
          ≡ some (record {
            pagination = record { page = last_page 1 actions; limit = 20 };
            filters = record {
              status = last_status none actions;
              batch_id = none;
              priority = none;
            };
          }))
use_list-Queried actions is_uuid =
    let positive = last_page-positive 1 actions (omega arith) in
    (
      positive,
      ap (λ filters. check_list_query is_uuid (list_params filters)) (use_list-usual actions none 1)
          ∙ check_list_query-usual is_uuid (last_status none actions) (last_page 1 actions)
              positive,
    )

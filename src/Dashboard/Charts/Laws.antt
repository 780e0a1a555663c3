-- ===== src/Dashboard/Charts/Laws.antt =====
-- dashboard/src/components/stats/StatusChart.tsx: the chart against the groups of jobs that
-- src/repositories/job.repository.ts counts.
use file_processing_system.Prelude.{
  ℕ, ◌+◌, ◌<◌, ◌≡◌, ◌≢◌, refl, ◌∙◌, arith, ltb, List, [], ◌∷◌, All, Bool-cases, inl, inr,
}
use file_processing_system.Types.{JobStatus, pending, processing, completed, failed}
use file_processing_system.Jobs.{
  StatusCounts, no_jobs, set_count, get_count, fill_counts, total_count,
}
use file_processing_system.Dashboard.Charts.{
  StatusStyle, status_styles, ChartEntry, entries_of, chart_data,
}

-- No later group has the status of an earlier one, as the groups of an aggregation are distinct.
abbrev pub AreGroups : List (JobStatus × ℕ) → Type 0
AreGroups [] = Unit
AreGroups (group ∷ groups) = All (λ g. g.0 ≢ group.0) groups × AreGroups groups

abbrev pub group_total : List (JobStatus × ℕ) → ℕ
group_total [] = 0
group_total ((status, n) ∷ groups) = n + group_total groups

get_count-set_count_other :
    (s t : JobStatus) (n : ℕ) (counts : StatusCounts)
    → t ≢ s
    → get_count t (set_count s n counts) ≡ get_count t counts
unfolding get_count set_count
get_count-set_count_other pending pending n counts other = absurd (other refl)
get_count-set_count_other processing processing n counts other = absurd (other refl)
get_count-set_count_other completed completed n counts other = absurd (other refl)
get_count-set_count_other failed failed n counts other = absurd (other refl)
get_count-set_count_other s t n counts other = refl

total_count-set_count :
    (s : JobStatus) (n : ℕ) (counts : StatusCounts)
    → get_count s counts ≡ 0
    → total_count (set_count s n counts) ≡ total_count counts + n
unfolding get_count set_count total_count
total_count-set_count pending n counts e = omega (arith, e)
total_count-set_count processing n counts e = omega (arith, e)
total_count-set_count completed n counts e = omega (arith, e)
total_count-set_count failed n counts e = omega (arith, e)

abbrev AreUncounted : StatusCounts → List (JobStatus × ℕ) → Type 0
AreUncounted counts = All (λ g. get_count g.0 counts ≡ 0)

AreUncounted-set_count :
    (s : JobStatus) (n : ℕ) (counts : StatusCounts) (groups : List (JobStatus × ℕ))
    → All (λ g. g.0 ≢ s) groups
    → AreUncounted counts groups
    → AreUncounted (set_count s n counts) groups
AreUncounted-set_count s n counts [] others zeros = tt
AreUncounted-set_count s n counts (g ∷ groups) (other, others) (z, zeros) = (
  get_count-set_count_other s g.0 n counts other ∙ z,
  AreUncounted-set_count s n counts groups others zeros,
)

total_count-fill_counts :
    (groups : List (JobStatus × ℕ)) (counts : StatusCounts)
    → AreGroups groups
    → AreUncounted counts groups
    → total_count (fill_counts groups counts) ≡ total_count counts + group_total groups
unfolding fill_counts
total_count-fill_counts [] counts apart zeros = omega arith
total_count-fill_counts ((s, n) ∷ groups) counts (others, apart) (z, zeros) =
    let rest =
      total_count-fill_counts groups (set_count s n counts) apart
        (AreUncounted-set_count s n counts groups others zeros) in
    omega (arith, rest, total_count-set_count s n counts z)

get_count-no_jobs : (s : JobStatus) → get_count s no_jobs ≡ 0
unfolding get_count
get_count-no_jobs pending = refl
get_count-no_jobs processing = refl
get_count-no_jobs completed = refl
get_count-no_jobs failed = refl

no_jobs-AreUncounted : (groups : List (JobStatus × ℕ)) → AreUncounted no_jobs groups
no_jobs-AreUncounted [] = tt
no_jobs-AreUncounted ((s, n) ∷ groups) = (get_count-no_jobs s, no_jobs-AreUncounted groups)

abbrev pub chart_total : List ChartEntry → ℕ
chart_total [] = 0
chart_total (entry ∷ entries) = entry.value + chart_total entries

abbrev styles_total : StatusCounts → List StatusStyle → ℕ
styles_total counts [] = 0
styles_total counts (style ∷ styles) = get_count style.key counts + styles_total counts styles

entries_of_lem :
    (counts : StatusCounts) (styles : List StatusStyle)
    → (chart_total (entries_of counts styles) ≡ styles_total counts styles)
      × All (λ entry. 0 < entry.value) (entries_of counts styles)
unfolding entries_of
entries_of_lem counts [] = (refl, tt)
entries_of_lem counts (style ∷ styles) =
    let (total, positive) = entries_of_lem counts styles in
    elim (Bool-cases (ltb 0 (get_count style.key counts))) [
      | inl some_jobs ↦ rw some_jobs (omega (arith, total), (ground (arith, some_jobs), positive))
      | inr empty ↦ rw empty (ground (arith, total, empty), positive)
    ]

chart_data-total_count :
    (counts : StatusCounts) → chart_total (chart_data counts) ≡ total_count counts
unfolding chart_data total_count get_count
chart_data-total_count counts = omega (arith, (entries_of_lem counts status_styles).0)

-- When the database groups the jobs by their statuses, each status once: the values of the chart
-- add up to the number of jobs in the groups, which is the `total` of the statistics, and no slice
-- of the chart is empty.
pub chart_data-total :
    (groups : List (JobStatus × ℕ))
    → AreGroups groups
    → (chart_total (chart_data (fill_counts groups no_jobs)) ≡ group_total groups)
      × (total_count (fill_counts groups no_jobs) ≡ group_total groups)
      × All (λ entry. 0 < entry.value) (chart_data (fill_counts groups no_jobs))
unfolding chart_data total_count
chart_data-total groups apart =
    let counted : total_count (fill_counts groups no_jobs) ≡ group_total groups =
      omega (arith, total_count-fill_counts groups no_jobs apart (no_jobs-AreUncounted groups)) in
    (
      chart_data-total_count (fill_counts groups no_jobs) ∙ counted,
      counted,
      (entries_of_lem (fill_counts groups no_jobs) status_styles).1,
    )

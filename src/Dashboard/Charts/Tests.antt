-- ===== src/Dashboard/Charts/Tests.antt =====
-- dashboard/src/components/stats/StatusChart.tsx: the chart of three jobs.
use file_processing_system.Prelude.{ℕ, ◌<◌, ◌≡◌, List, [], ◌∷◌, All}
use file_processing_system.Types.{JobStatus}
use file_processing_system.Jobs.{no_jobs, fill_counts, total_count}
use file_processing_system.Dashboard.Charts.{chart_data}
use file_processing_system.Dashboard.Charts.Laws.{chart_total, group_total, chart_data-total}

abbrev three_jobs : List (JobStatus × ℕ)
three_jobs = (JobStatus.failed, 1) ∷ (JobStatus.completed, 2) ∷ []

chart_data-total_example :
    (chart_total (chart_data (fill_counts three_jobs no_jobs)) ≡ group_total three_jobs)
    × (total_count (fill_counts three_jobs no_jobs) ≡ group_total three_jobs)
    × All (λ entry. 0 < entry.value) (chart_data (fill_counts three_jobs no_jobs))
chart_data-total_example = chart_data-total three_jobs (((λ e. cc), tt), (tt, tt))

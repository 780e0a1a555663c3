-- ===== src/Dashboard/Charts.antt =====
-- dashboard/src/components: the data that stats/StatusChart.tsx draws of the counts that the server
-- sends, its summary for screen readers, and the width of jobs/ProgressBar.tsx.
mod Laws
mod Tests
use file_processing_system.Prelude.{
  ℕ, ◌+◌, Bool, ltb, min, List, [], ◌∷◌, ◌++◌, Option, none, some, if◌then◌else◌,
}
use file_processing_system.Prelude.Text.{Text, codes, decimal}
use file_processing_system.Types.{JobStatus}
use file_processing_system.Jobs.{StatusCounts, get_count}

-- `STATUS_CONFIG`, but for the patterns, which nothing reads.
pub record StatusStyle : Type 0 where
  pub name : Text
  pub key : JobStatus
  pub color : Text

abbrev pub status_styles : List StatusStyle
status_styles =
    record { name = codes "Pending"; key = JobStatus.pending; color = codes "#ca8a04" }
    ∷ record { name = codes "Processing"; key = JobStatus.processing; color = codes "#2563eb" }
    ∷ record { name = codes "Completed"; key = JobStatus.completed; color = codes "#16a34a" }
    ∷ record { name = codes "Failed"; key = JobStatus.failed; color = codes "#dc2626" }
    ∷ []

pub record ChartEntry : Type 0 where
  pub name : Text
  pub value : ℕ
  pub color : Text

-- `.map(...).filter((d) => d.value > 0)`
unfoldable pub entries_of : StatusCounts → List StatusStyle → List ChartEntry
entries_of counts [] = []
entries_of counts (style ∷ styles) =
    let rest = entries_of counts styles in
    let count = get_count style.key counts in
    if ltb 0 count
    then record { name = style.name; value = count; color = style.color } ∷ rest
    else rest

unfoldable pub chart_data : StatusCounts → List ChartEntry
unfolding entries_of
chart_data counts = entries_of counts status_styles

-- `data.map((d) => `${d.name}: ${d.value}`).join(', ')`
unfoldable pub chart_summary : List ChartEntry → Text
chart_summary [] = []
chart_summary (entry ∷ []) = entry.name ++ (codes ": " ++ decimal entry.value)
chart_summary (entry ∷ other ∷ entries) =
    entry.name
    ++ (codes ": " ++ (decimal entry.value ++ (codes ", " ++ chart_summary (other ∷ entries))))

-- `Math.min(Math.max(progress, 0), 100)` of a natural number
unfoldable pub clamped : ℕ → ℕ
clamped progress = min progress 100

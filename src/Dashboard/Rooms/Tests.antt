-- ===== src/Dashboard/Rooms/Tests.antt =====
-- dashboard/src/hooks/useSocket.ts at concrete rooms.
use file_processing_system.Prelude.{◌≡◌, refl, arith, [], ◌∷◌, none, some}
use file_processing_system.Prelude.Text.{codes, text_eq}
use file_processing_system.Services.{job_room, dashboard_room}
use file_processing_system.Dashboard.Rooms.{
  render, render_all, mounted, cleanup, effect, enter, is_joined, leave_from, emission, room_id,
  before_colon, after_colon, leave_previous,
}
use file_processing_system.Dashboard.Rooms.Laws.{
  IsRoom, job_IsRoom, dashboard_IsRoom, rooms_after, render-rooms_after,
}

-- From the dashboard to a job.
visited :
    (render_all (dashboard_room ∷ job_room (codes "6f") ∷ []) mounted).emitted
    ≡ record { event = codes "join:dashboard"; argument = none }
      ∷ record { event = codes "leave:dashboard"; argument = none }
      ∷ record { event = codes "join:job"; argument = some (codes "6f") }
      ∷ []
unfolding render_all render effect enter is_joined cleanup leave_from emission room_id before_colon
    after_colon leave_previous text_eq job_room
visited = refl

job_named : IsRoom (job_room (codes "6f"))
job_named = job_IsRoom (λ e. cc, omega arith)

render-rooms_after_example :
    (rooms_after
        (render dashboard_room (render_all (job_room (codes "6f") ∷ []) mounted)).emitted
        []
      ≡ dashboard_room ∷ [])
    × (rooms_after
          (cleanup
            (render dashboard_room (render_all (job_room (codes "6f") ∷ []) mounted))).emitted
          []
        ≡ [])
render-rooms_after_example =
    render-rooms_after (job_room (codes "6f") ∷ []) dashboard_room (job_named, tt) dashboard_IsRoom

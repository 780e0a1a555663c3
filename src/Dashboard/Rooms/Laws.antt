-- ===== src/Dashboard/Rooms/Laws.antt =====
-- dashboard/src/hooks/useSocket.ts with src/services/socket.service.ts: the server has a client in
-- the room of its last render and in no other.
use mathlib.Core.Path.{subst}
use file_processing_system.Prelude.{
  sym, if-elim, ℕ, ◌≡◌, ◌≢◌, refl, ◌∙◌, ap, inl, inr, arith, All, Bool-cases, List, [], ◌∷◌, ◌++◌,
  Option, none, some, if◌then◌else◌,
}
use file_processing_system.Prelude.Text.{Text, codes, text_eq, text_eq_sound, text_eq_refl}
use file_processing_system.Services.{
  ClientMessage, RoomChange, join_room, leave_room, no_change, on_client_message, job_room,
  batch_room, dashboard_room,
}
use file_processing_system.Dashboard.Rooms.{
  Emission, RoomHook, colon, before_colon, after_colon, room_id, emission, with_id, heard_message,
  cleanup, leave_from, enter, effect, leave_previous, is_joined, render, render_all, mounted,
}

-- The rooms of one client, as socket.io keeps them: a set.
unfoldable pub without : Text → List Text → List Text
without room [] = []
without room (other ∷ rooms) =
    let rest = without room rooms in if text_eq room other then rest else other ∷ rest

unfoldable pub changed : RoomChange → List Text → List Text
unfolding without
changed (join_room room) rooms = room ∷ without room rooms
changed (leave_room room) rooms = without room rooms
changed no_change rooms = rooms

unfoldable pub received : Option ClientMessage → List Text → List Text
unfolding changed on_client_message
received none rooms = rooms
received (some message) rooms = changed (on_client_message message) rooms

-- The rooms of the client once the server has heard what it emitted.
unfoldable pub rooms_after : List Emission → List Text → List Text
unfolding received heard_message
rooms_after [] rooms = rooms
rooms_after (e ∷ emissions) rooms = rooms_after emissions (received (heard_message e) rooms)

-- No colon in an identifier, which is hexadecimal or a UUID, and not empty.
abbrev pub IsIdentifier : Text → Type 0
IsIdentifier id = (id ≢ []) × All (λ c. c ≢ colon) id

-- The rooms that the hooks name.
pub data IsRoom : Text → Type 0 where
  job_IsRoom : {id : Text} → IsIdentifier id → IsRoom (job_room id)
  batch_IsRoom : {id : Text} → IsIdentifier id → IsRoom (batch_room id)
  dashboard_IsRoom : IsRoom dashboard_room

before_colon_identifier : (id : Text) → All (λ c. c ≢ colon) id → before_colon id ≡ id
unfolding before_colon
before_colon_identifier [] h = refl
before_colon_identifier (c ∷ id) h = ground (arith, before_colon_identifier id)

-- What the server does of a join and a leave for a room.
Joins : Text → Type 0
Joins room =
    ((rooms : List Text)
      → received (heard_message (emission (codes "join") room (room_id room))) rooms
        ≡ changed (join_room room) rooms)
    × ((rooms : List Text)
        → received (heard_message (emission (codes "leave") room (room_id room))) rooms
          ≡ changed (leave_room room) rooms)

job_room_id : (id : Text) → IsIdentifier id → room_id (job_room id) ≡ some id
unfolding room_id after_colon job_room
job_room_id id (h, k) = ap some (before_colon_identifier id k)

batch_room_id : (id : Text) → IsIdentifier id → room_id (batch_room id) ≡ some id
unfolding room_id after_colon batch_room
batch_room_id id (h, k) = ap some (before_colon_identifier id k)

job_room-Joins : (id : Text) → IsIdentifier id → Joins (job_room id)
unfolding Joins job_room before_colon emission heard_message with_id text_eq received
    on_client_message
job_room-Joins [] (h, k) = absurd (h refl)
job_room-Joins (c ∷ id) h =
    (λ rooms. rw (job_room_id (c ∷ id) h) refl, λ rooms. rw (job_room_id (c ∷ id) h) refl)

batch_room-Joins : (id : Text) → IsIdentifier id → Joins (batch_room id)
unfolding Joins batch_room before_colon emission heard_message with_id text_eq received
    on_client_message
batch_room-Joins [] (h, k) = absurd (h refl)
batch_room-Joins (c ∷ id) h =
    (λ rooms. rw (batch_room_id (c ∷ id) h) refl, λ rooms. rw (batch_room_id (c ∷ id) h) refl)

IsRoom-Joins : {room : Text} → IsRoom room → Joins room
unfolding Joins room_id after_colon emission heard_message text_eq received on_client_message
IsRoom-Joins (job_IsRoom {id} h) = job_room-Joins id h
IsRoom-Joins (batch_IsRoom {id} h) = batch_room-Joins id h
IsRoom-Joins dashboard_IsRoom = (λ rooms. refl, λ rooms. refl)

rooms_after-append :
    (es fs : List Emission) (rooms : List Text)
    → rooms_after (es ++ fs) rooms ≡ rooms_after fs (rooms_after es rooms)
unfolding rooms_after
rooms_after-append [] fs rooms = refl
rooms_after-append (e ∷ es) fs rooms = rooms_after-append es fs (received (heard_message e) rooms)

-- The server has the client in the room of the ref and in no other.
pub data InStep (hook : RoomHook) : Type 0 where
  outside : hook.joined ≡ none → rooms_after hook.emitted [] ≡ [] → InStep hook
  inside :
      {room : Text}
      → hook.joined ≡ some room
      → IsRoom room
      → rooms_after hook.emitted [] ≡ room ∷ []
      → InStep hook

without_self : (room : Text) → without room (room ∷ []) ≡ []
unfolding without
without_self room = ground (arith, text_eq_refl room)

leave_from_room :
    (room : Text) (hook : RoomHook)
    → IsRoom room
    → rooms_after hook.emitted [] ≡ room ∷ []
    → rooms_after (leave_from (some room) hook).emitted [] ≡ []
unfolding leave_from rooms_after Joins changed
leave_from_room room hook known e =
    rooms_after-append hook.emitted _ []
    ∙ ap (rooms_after (emission (codes "leave") room (room_id room) ∷ [])) e
    ∙ (IsRoom-Joins known).1 (room ∷ [])
    ∙ without_self room

leave_from_left :
    (joined : Option Text) (emitted : List Emission)
    → (leave_from joined (record { joined = joined; emitted = emitted })).joined ≡ none
unfolding leave_from
leave_from_left none emitted = refl
leave_from_left (some room) emitted = refl

-- The cleanup leaves the room, whatever it was.
pub cleanup_left :
    {hook : RoomHook}
    → InStep hook
    → ((cleanup hook).joined ≡ none) × (rooms_after (cleanup hook).emitted [] ≡ [])
unfolding cleanup leave_from
cleanup_left {hook} (outside e h) = (leave_from_left hook.joined hook.emitted, rw e h)
cleanup_left {hook} (inside {room} e known h) =
    (leave_from_left hook.joined hook.emitted, rw e (leave_from_room room hook known h))

enter-InStep :
    (room : Text) (emitted : List Emission)
    → IsRoom room
    → rooms_after emitted [] ≡ []
    → InStep (enter room (record { joined = none; emitted = emitted }))
unfolding enter leave_previous rooms_after Joins changed without
enter-InStep room emitted known h = inside refl known (
    rooms_after-append emitted _ []
    ∙ ap (rooms_after (emission (codes "join") room (room_id room) ∷ [])) h
    ∙ (IsRoom-Joins known).0 [])

IsRoom-given : {room : Text} → IsRoom room → room ≢ []
unfolding job_room batch_room
IsRoom-given (job_IsRoom h) = cc
IsRoom-given (batch_IsRoom h) = cc
IsRoom-given dashboard_IsRoom = cc

effect-InStep :
    (room : Text) (emitted : List Emission)
    → IsRoom room
    → rooms_after emitted [] ≡ []
    → InStep (effect room (record { joined = none; emitted = emitted }))
unfolding effect is_joined
effect-InStep [] emitted known h = absurd (IsRoom-given known refl)
effect-InStep (c ∷ room) emitted known h = enter-InStep (c ∷ room) emitted known h

pub render-InStep :
    (room : Text) (hook : RoomHook) → IsRoom room → InStep hook → InStep (render room hook)
unfolding render
render-InStep room hook known step = if-elim InStep (is_joined room hook.joined) step (
    subst (λ j. InStep (effect room (record { joined = j; emitted = (cleanup hook).emitted })))
      (sym (cleanup_left step).0)
      (effect-InStep room (cleanup hook).emitted known (cleanup_left step).1))

pub render_all-InStep :
    (rooms : List Text) (hook : RoomHook)
    → All IsRoom rooms
    → InStep hook
    → InStep (render_all rooms hook)
unfolding render_all
render_all-InStep [] hook known step = step
render_all-InStep (room ∷ rooms) hook (known, rest) step =
    render_all-InStep rooms (render room hook) rest (render-InStep room hook known step)

effect_joined :
    (c : ℕ) (room : Text) (emitted : List Emission)
    → (effect (c ∷ room) (record { joined = none; emitted = emitted })).joined ≡ some (c ∷ room)
unfolding effect is_joined enter
effect_joined c room emitted = refl

render_joined :
    (room : Text) (joined : Option Text) (emitted : List Emission)
    → room ≢ []
    → (render room (record { joined = joined; emitted = emitted })).joined ≡ some room
unfolding render is_joined cleanup leave_from
render_joined [] joined emitted h = absurd (h refl)
render_joined (c ∷ room) none emitted h = effect_joined c room emitted
render_joined (c ∷ room) (some other) emitted h = elim (Bool-cases (text_eq (c ∷ room) other)) [
  | inl same ↦ rw same (ap some (sym (text_eq_sound (c ∷ room) other same)))
  | inr different ↦
      rw different
        (effect_joined c room (emitted ++ emission (codes "leave") other (room_id other) ∷ []))
]

InStep-rooms :
    {hook : RoomHook} {room : Text}
    → InStep hook
    → hook.joined ≡ some room
    → rooms_after hook.emitted [] ≡ room ∷ []
InStep-rooms (outside e h) joined = cc
InStep-rooms (inside e known h) joined = cc

-- After any renders with rooms that the pages name, the server has the client in the room of the
-- last render and in no other; once the component is gone, it has it in none.
pub render-rooms_after :
    (rooms : List Text) (room : Text)
    → All IsRoom rooms
    → IsRoom room
    → (rooms_after (render room (render_all rooms mounted)).emitted [] ≡ room ∷ [])
      × (rooms_after (cleanup (render room (render_all rooms mounted))).emitted [] ≡ [])
unfolding rooms_after
render-rooms_after rooms room known last =
    let before : InStep (render_all rooms mounted) =
      render_all-InStep rooms mounted known (outside refl refl) in
    let after : InStep (render room (render_all rooms mounted)) =
      render-InStep room (render_all rooms mounted) last before in
    (InStep-rooms after (render_joined room _ _ (IsRoom-given last)), (cleanup_left after).1)

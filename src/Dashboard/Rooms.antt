-- ===== src/Dashboard/Rooms.antt =====
-- dashboard/src/hooks/useSocket.ts, and which listener of src/services/socket.service.ts hears
-- what it emits.
mod Laws
mod Tests
use file_processing_system.Prelude.{
  ℕ, Bool, true, false, not, ◌&&◌, ◌||◌, ◌==◌, List, [], ◌∷◌, ◌++◌, Option, none, some,
  if◌then◌else◌,
}
use file_processing_system.Prelude.Text.{Text, codes, text_eq}
use file_processing_system.Services.{
  ClientMessage, join_job, leave_job, join_batch, leave_batch, join_dashboard, leave_dashboard,
  RoomChange, join_room, leave_room, no_change, on_client_message,
}

abbrev colon : ℕ
colon = 58

-- `room.split(':')`: the part before the first colon, and the one up to the second, if any
unfoldable pub before_colon : Text → Text
before_colon [] = []
before_colon (c ∷ s) = let rest = before_colon s in if c == colon then [] else c ∷ rest

unfoldable pub after_colon : Text → Option Text
after_colon [] = none
after_colon (c ∷ s) = let rest = after_colon s in if c == colon then some s else rest

unfoldable pub room_id : Text → Option Text
unfolding after_colon before_colon
room_id room = elim (after_colon room) [ none ↦ none | some rest ↦ some (before_colon rest) ]

-- `socket.emit(name)` and `socket.emit(name, id)`
pub record Emission : Type 0 where
  pub event : Text
  pub argument : Option Text

-- `if (roomId) emit(`${verb}:${roomType}`, roomId) else emit(`${verb}:${room}`)`
unfoldable pub emission : Text → Text → Option Text → Emission
emission verb room none = record { event = verb ++ colon ∷ room; argument = none }
emission verb room (some []) = record { event = verb ++ colon ∷ room; argument = none }
emission verb room (some (c ∷ id)) = record {
  event = verb ++ colon ∷ before_colon room;
  argument = some (c ∷ id);
}

-- The hook: its ref, and what it has emitted.
pub record RoomHook : Type 0 where
  pub joined : Option Text
  pub emitted : List Emission

-- The cleanup of the effect.
unfoldable pub leave_from : Option Text → RoomHook → RoomHook
unfolding emission room_id
leave_from none hook = hook
leave_from (some room) hook = record {
  joined = none;
  emitted = hook.emitted ++ emission (codes "leave") room (room_id room) ∷ [];
}

unfoldable pub cleanup : RoomHook → RoomHook
cleanup hook = leave_from hook.joined hook

-- `if (joinedRoom.current) emit(`leave:${...split(':')[0]}`, ...split(':')[1])`
unfoldable pub leave_previous : Option Text → List Emission
unfolding room_id
leave_previous none = []
leave_previous (some room) =
    record { event = codes "leave" ++ colon ∷ before_colon room; argument = room_id room } ∷ []

-- `joinedRoom.current === room`
unfoldable pub is_joined : Text → Option Text → Bool
is_joined room none = false
is_joined room (some other) = text_eq room other

-- The effect: `if (room && joinedRoom.current !== room) ...`
unfoldable pub enter : Text → RoomHook → RoomHook
unfolding emission room_id leave_previous
enter room hook = record {
  joined = some room;
  emitted =
      hook.emitted
      ++ (leave_previous hook.joined ++ emission (codes "join") room (room_id room) ∷ []);
}

unfoldable pub effect : Text → RoomHook → RoomHook
unfolding enter is_joined
effect [] hook = hook
effect (c ∷ room) hook = if is_joined (c ∷ room) hook.joined then hook else enter (c ∷ room) hook

-- A render after one with the joined room, if any: React runs the cleanup and the effect only if
-- the room is another.
unfoldable pub render : Text → RoomHook → RoomHook
unfolding cleanup effect is_joined
render room hook = if is_joined room hook.joined then hook else effect room (cleanup hook)

unfoldable pub render_all : List Text → RoomHook → RoomHook
render_all [] hook = hook
render_all (room ∷ rooms) hook = render_all rooms (render room hook)

abbrev pub mounted : RoomHook
mounted = record { joined = none; emitted = [] }

-- The listeners of the server by name; one that takes an id puts `undefined` into the name of the
-- room for an event without.
unfoldable pub with_id : (Text → ClientMessage) → Option Text → Option ClientMessage
with_id message none = some (message (codes "undefined"))
with_id message (some id) = some (message id)

unfoldable pub heard_message : Emission → Option ClientMessage
unfolding with_id
heard_message e =
    if text_eq e.event (codes "join:job")
    then with_id join_job e.argument
    else if text_eq e.event (codes "leave:job")
    then with_id leave_job e.argument
    else if text_eq e.event (codes "join:batch")
    then with_id join_batch e.argument
    else if text_eq e.event (codes "leave:batch")
    then with_id leave_batch e.argument
    else if text_eq e.event (codes "join:dashboard")
    then some join_dashboard
    else if text_eq e.event (codes "leave:dashboard")
    then some leave_dashboard
    else none

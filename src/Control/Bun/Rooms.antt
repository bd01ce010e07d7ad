-- ===== src/Control/Bun/Rooms.antt =====
-- control/src/index.ts: rooms. `joinRoom`, `leaveRoom`, `signalRoom`, `fetchPeers` and the
-- broadcasts.
use mesh_talk.Common.{
  ℕ, ◌+◌, ◌-◌, not, ◌||◌, Option, none, some, List, [], ◌∷◌, Text, ltb, leb, nat_eq, text_eq,
  length, contains, add, remove, if◌then◌else◌,
}
use mesh_talk.Common.Dict.{get, put, delete, or_else}
use mesh_talk.Common.Exec.{pure, gets, throw_if, for_each, with_some, ◌>>=◌, ◌>>◌}
use mesh_talk.Control.Config.{
  room_id_test, room_auth_test, max_rooms_per_client, max_rooms, max_room_members,
  max_signal_length, max_retained_bytes,
}
use mesh_talk.Control.Wire.{from_hex, timing_safe_equal}
use mesh_talk.Control.State.{
  Socket, RoomState, Platform, Frame, refresh, joined, signal, peers, invalid_room_authorization,
  too_many_joined_rooms, room_limit_reached, room_authorization_failed, room_full, join_first,
  invalid_signal, storage_limit_reached,
}
use mesh_talk.Control.Rooms.{is_empty, room_members, is_socket, shown, push_some}
use mesh_talk.Control.Bun.State.{
  SocketData, Server, B, write_rooms, write_client, write_retained, send,
}

-- `rooms.get(roomId)?.members ?? []`
unfoldable pub members_of : Server → Text → List Socket
members_of r room_id = room_members (get room_id r.rooms)

-- `socket.data.signals.get(roomId)?.length ?? 0`
unfoldable pub signal_length : Text → SocketData → ℕ
signal_length room_id d = length (or_else (get room_id d.signals) [])

-- `member.data.signals.get(roomId)`, an empty payload being skipped by its readers
unfoldable pub signal_of : Server → Text → Socket → Option Text
signal_of r room_id s = shown (get room_id (r.objects s).signals)

unfoldable pub broadcast_room : Platform → Text → Frame → Option Socket → B (Unit {0})
broadcast_room p room_id frame except = do
  members ← gets (λ (r : Server). members_of r room_id)
  for_each members (λ member. if is_socket except member then pure tt else send p member frame)

unfoldable pub refresh_room : Platform → Text → B (Unit {0})
refresh_room p room_id = do
  found ← gets (λ (r : Server). get room_id r.rooms)
  with_some found (λ room. broadcast_room p room_id (refresh room_id (length room.members)) none)
      (pure tt)

unfoldable pub leave_room : Platform → Socket → Text → B (Unit {0})
leave_room p socket room_id = do
  found ← gets (λ (r : Server). get room_id r.rooms)
  with_some found
      (λ room. do
        let members = remove socket room.members
        write_rooms (put room_id (record room { members = members }))
        write_client socket (λ d. record d { rooms = remove room_id d.rooms })
        data' ← gets (λ (r : Server). r.objects socket)
        write_retained (λ n. n - signal_length room_id data')
        write_client socket (λ d. record d { signals = delete room_id d.signals })
        if is_empty members then write_rooms (delete room_id) else refresh_room p room_id)
      (pure tt)

-- the room of a join, made with the joiner's secret where there is none
unfoldable pub find_room : Text → Text → B RoomState
find_room room_id room_auth = do
  rooms ← gets (λ (r : Server). r.rooms)
  with_some (get room_id rooms) (λ room. pure room)
      (do
        throw_if (leb max_rooms (length rooms)) room_limit_reached
        let room : RoomState = record { auth = room_auth; members = [] }
        write_rooms (put room_id room)
        pure room)

unfoldable pub join_room : Platform → Socket → Text → Text → B (Unit {0})
join_room p socket room_id room_auth = do
  throw_if (not (room_id_test room_id) || not (room_auth_test room_auth)) invalid_room_authorization
  d ← gets (λ (r : Server). r.objects socket)
  if contains room_id d.rooms then pure tt else do
    throw_if (leb max_rooms_per_client (length d.rooms)) too_many_joined_rooms
    room ← find_room room_id room_auth
    throw_if (not (timing_safe_equal (from_hex room.auth) (from_hex room_auth)))
        room_authorization_failed
    throw_if (leb max_room_members (length room.members)) room_full
    for_each room.members (λ member. do
      payload ← gets (λ (r : Server). signal_of r room_id member)
      with_some payload (λ t. send p socket (signal room_id t)) (pure tt))
    let members = add socket room.members
    write_rooms (put room_id (record room { members = members }))
    write_client socket (λ d'. record d' { rooms = add room_id d'.rooms })
    send p socket (joined room_id (length members))
    refresh_room p room_id

unfoldable pub signal_room : Platform → Socket → Text → Text → B (Unit {0})
signal_room p socket room_id payload = do
  r ← gets (λ (r : Server). r)
  let d = r.objects socket
  throw_if (not (contains room_id d.rooms)) join_first
  throw_if (is_empty payload || ltb max_signal_length (length payload)) invalid_signal
  let previous = signal_length room_id d
  throw_if (ltb max_retained_bytes (r.retained_bytes - previous + length payload))
      storage_limit_reached
  write_retained (λ n. n - previous + length payload)
  write_client socket (λ d'. record d' { signals = put room_id payload d'.signals })
  broadcast_room p room_id (signal room_id payload) (some socket)

-- the payloads that the members have signalled, in the order of the members
unfoldable pub payloads_of : Server → Text → List Socket → List Text
unfolding signal_of
payloads_of r room_id [] = []
payloads_of r room_id (m ∷ ms) = push_some (signal_of r room_id m) (payloads_of r room_id ms)

unfoldable pub fetch_peers : Platform → Socket → Text → B (Unit {0})
fetch_peers p socket room_id = do
  r ← gets (λ (r : Server). r)
  throw_if (not (contains room_id (r.objects socket).rooms)) join_first
  with_some (get room_id r.rooms)
      (λ room. send p socket (peers room_id (payloads_of r room_id room.members))) (pure tt)

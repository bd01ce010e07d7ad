-- ===== src/Control/Bun/Messages.antt =====
-- control/src/index.ts: `startControlServer`, its upgrade of a request and the events of its sockets.
use mesh_talk.Common.{
  ℕ, ◌+◌, ◌/◌, Bool, false, Option, none, List, [], Text, leb, codes, nat_eq, text_eq,
  if◌then◌else◌,
}
use mesh_talk.Common.Dict.{get, put, or_else}
use mesh_talk.Common.Exec.{
  Result, ok, err, pure, throw, gets, modify, try_catch, with_some, ◌>>=◌, ◌>>◌,
}
use mesh_talk.Control.Config.{max_connections, max_connections_per_ip}
use mesh_talk.Control.State.{
  Socket, Field, string, ControlMessage, ControlError, Platform, device_challenge, error, closed,
  invalid_control_message, registration_required, type_error,
}
use mesh_talk.Control.Pending.{is_relay}
use mesh_talk.Control.Messages.{Upgrade, refused, switched, is_type}
use mesh_talk.Control.Bun.State.{SocketData, Server, B, write_client, write_output, send}
use mesh_talk.Control.Bun.Limits.{check_rate_limit, check_relay_rate_limit}
use mesh_talk.Control.Bun.Rooms.{join_room, leave_room, signal_room, fetch_peers}
use mesh_talk.Control.Bun.Relay.{relay_datagram}
use mesh_talk.Control.Bun.Close.{close_client}
use mesh_talk.Control.Bun.Register.{register_device}

-- `data` of the upgrade
unfoldable pub new_data : ℕ → Text → Text → Text → SocketData
new_data now ip challenge_id challenge = record {
  ip = ip;
  rooms = [];
  signals = [];
  window_started_at = now;
  control_messages_in_window = 0;
  signals_in_window = 0;
  peer_fetches_in_window = 0;
  relay_window_started_at = now;
  relay_frames_in_window = 0;
  challenge_id = challenge_id;
  challenge = challenge;
  challenge_expires_at = now / 1000 + 60;
  peer_id = none;
  closed = false;
}

-- `fetch` at the path of the rendezvous. The address and whether the request upgrades come from
-- the runtime.
unfoldable pub fetch : Platform → Socket → Text → Text → Text → Bool → B Upgrade
fetch p socket ip challenge_id challenge upgraded = do
  r ← gets (λ (r : Server). r)
  if leb max_connections r.connections
      then pure (refused 503)
      else if leb max_connections_per_ip (or_else (get ip r.connections_by_ip) 0)
      then pure (refused 429)
      else if upgraded
      then (do write_client socket (λ _. new_data p.now ip challenge_id challenge); pure switched)
      else pure (refused 426)

unfoldable pub add_connection : Text → Server → Server
add_connection ip r = record r {
  connections = r.connections + 1;
  connections_by_ip = put ip (or_else (get ip r.connections_by_ip) 0 + 1) r.connections_by_ip;
}

unfoldable pub open_socket : Platform → Socket → B (Unit {0})
open_socket p socket = do
  d ← gets (λ (r : Server). r.objects socket)
  modify (add_connection d.ip)
  send p socket (device_challenge d.challenge_id d.challenge d.challenge_expires_at)

abbrev pub with_text : Field → (Text → B (Unit {0})) → B (Unit {0})
with_text (string s) f = f s
with_text _ f = throw invalid_control_message

-- the messages of rooms
unfoldable pub dispatch_room : Platform → Socket → ControlMessage → B (Unit {0})
dispatch_room p socket m =
    if is_type m (codes "join")
    then with_text m.room_id (λ id. with_text m.room_auth (λ t. join_room p socket id t))
    else if is_type m (codes "leave")
    then with_text m.room_id (leave_room p socket)
    else if is_type m (codes "signal")
    then with_text m.room_id (λ id. with_text m.payload (λ t. signal_room p socket id t))
    else if is_type m (codes "get_peers")
    then with_text m.room_id (fetch_peers p socket)
    else throw invalid_control_message

-- the `try` block of `message`
unfoldable pub handle_message : Platform → (Text → List ℕ) → Socket → ControlMessage → B (Unit {0})
handle_message p decode socket m =
    if is_type m (codes "device_register")
    then (do check_rate_limit p socket m.type; register_device p socket m)
    else (do
      d ← gets (λ (r : Server). r.objects socket)
      with_some d.peer_id
          (λ _.
            if is_relay m
            then (do
              check_relay_rate_limit p socket
              with_text m.recipient_id
                  (λ id. with_text m.payload (λ t. relay_datagram p decode socket id t)))
            else (do check_rate_limit p socket m.type; dispatch_room p socket m))
          (throw registration_required))

abbrev rethrow : Result ControlError (Unit {0}) → B (Unit {0})
rethrow (ok a) = pure a
rethrow (err e) = throw e

-- `try { m } finally { f }`
unfoldable pub try_finally : B (Unit {0}) → B (Unit {0}) → B (Unit {0})
try_finally m f s = let (r, s') = m s in (f >> rethrow r) s'

unfoldable pub reject_client : Platform → Socket → ControlError → B (Unit {0})
reject_client p socket e =
    try_finally (send p socket (error e))
      (do close_client p socket; write_output (closed socket 1008))

-- `message`, where parsing gives `none` for what is no JSON or is null, whose properties cannot be
-- read. Any other value has the properties of a message, all undefined where it is no object.
unfoldable pub message : Platform → (Text → List ℕ) → Socket → Option ControlMessage → B (Unit {0})
message p decode socket parsed = do
  d ← gets (λ (r : Server). r.objects socket)
  if d.closed
      then pure tt
      else try_catch (with_some parsed (handle_message p decode socket) (throw type_error))
          (reject_client p socket)

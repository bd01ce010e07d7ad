-- ===== src/Control/Close.antt =====
-- control/src/worker.ts: the end of a connection. `handleClose` and `rejectClient`.
use mesh_talk.Common.{
  ◌-◌, Bool, false, not, Option, none, some, Text, ltb, nat_beq, nat_eq, text_eq, contains, remove,
  keep, map, if◌then◌else◌,
}
use mesh_talk.Common.Dict.{Dict, get, put, delete, or_else}
use mesh_talk.Common.Exec.{pure, gets, modify, for_each, with_some, try_catch, ◌>>=◌, ◌>>◌}
use mesh_talk.Control.State.{
  Socket, DeviceLimit, ControlRoom, ControlError, Platform, M, error, closed, write_sockets,
  write_limits, write_output, send,
}
use mesh_talk.Control.Rooms.{leave_room}
use mesh_talk.Control.Pending.{is_of, release_pending}

-- The `filter` over the queue releases the entries of the socket, in order, and then replaces it.
unfoldable pub drop_queued : Socket → M (Unit {0})
drop_queued socket = do
  queue ← gets (λ (r : ControlRoom). r.queue)
  for_each (keep (is_of socket) queue) release_pending
  modify (λ (r : ControlRoom). record r { queue = keep (λ e. not (is_of socket e)) queue })

abbrev pub socket_is : Option Socket → Socket → Bool
socket_is none s = false
socket_is (some o) s = nat_beq o s

abbrev pub free_slot : Text → DeviceLimit → DeviceLimit
free_slot peer_id l = record l { relay_peers = delete peer_id l.relay_peers }

abbrev pub free_slots : Text → Dict Text DeviceLimit → Dict Text DeviceLimit
free_slots peer_id = map (λ entry. (entry.0, free_slot peer_id entry.1))

-- A device that has moved to a newer socket keeps its registration and its limits.
unfoldable pub unregister : Socket → Text → M (Unit {0})
unregister socket peer_id = do
  sockets ← gets (λ (r : ControlRoom). r.sockets_by_peer_id)
  if socket_is (get peer_id sockets) socket
      then (do
        write_sockets (delete peer_id)
        write_limits (λ limits. free_slots peer_id (delete peer_id limits)))
      else pure tt

unfoldable pub forget_connection : Text → ControlRoom → ControlRoom
forget_connection ip r =
    let count = or_else (get ip r.connections_by_ip) 1 - 1 in
    record r {
      connections = r.connections - 1;
      connections_by_ip =
          if ltb 0 count then put ip count r.connections_by_ip else delete ip r.connections_by_ip;
    }

unfoldable pub handle_close : Platform → Socket → M (Unit {0})
handle_close p socket = do
  r ← gets (λ (r : ControlRoom). r)
  let d = r.objects socket
  if contains socket r.clients
      then (do
        modify (λ (r : ControlRoom). record r { clients = remove socket r.clients })
        drop_queued socket
        with_some d.peer_id (unregister socket) (pure tt)
        modify (forget_connection d.ip)
        for_each d.rooms (leave_room p socket))
      else pure tt

-- `socket.close` does not throw here: the source catches what it throws.
unfoldable pub reject_client : Platform → Socket → ControlError → M (Unit {0})
reject_client p socket e = do
  handle_close p socket
  try_catch (send p socket (error e)) (λ _. pure tt)
  write_output (closed socket 1008)

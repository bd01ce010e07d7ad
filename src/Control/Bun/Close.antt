-- ===== src/Control/Bun/Close.antt =====
-- control/src/index.ts: `closeClient`.
use mesh_talk.Common.{◌-◌, true, Text, ltb, nat_eq, text_eq, if◌then◌else◌}
use mesh_talk.Common.Dict.{get, put, delete, or_else}
use mesh_talk.Common.Exec.{pure, gets, modify, for_each, with_some, ◌>>=◌, ◌>>◌}
use mesh_talk.Control.State.{Socket, Platform}
use mesh_talk.Control.Close.{socket_is, free_slots}
use mesh_talk.Control.Bun.State.{Server, B, write_client, write_sockets, write_limits}
use mesh_talk.Control.Bun.Rooms.{leave_room}

-- A device that has moved to a newer socket keeps its registration and its limits.
unfoldable pub unregister : Socket → Text → B (Unit {0})
unregister socket peer_id = do
  sockets ← gets (λ (r : Server). r.sockets_by_peer_id)
  if socket_is (get peer_id sockets) socket
      then (do
        write_sockets (delete peer_id)
        write_limits (λ limits. free_slots peer_id (delete peer_id limits)))
      else pure tt

unfoldable pub forget_connection : Text → Server → Server
forget_connection ip r =
    let count = or_else (get ip r.connections_by_ip) 1 - 1 in
    record r {
      connections = r.connections - 1;
      connections_by_ip =
          if ltb 0 count then put ip count r.connections_by_ip else delete ip r.connections_by_ip;
    }

unfoldable pub close_client : Platform → Socket → B (Unit {0})
close_client p socket = do
  r ← gets (λ (r : Server). r)
  let d = r.objects socket
  if d.closed then pure tt else do
    write_client socket (λ d'. record d' { closed = true })
    with_some d.peer_id (unregister socket) (pure tt)
    modify (forget_connection d.ip)
    for_each d.rooms (leave_room p socket)

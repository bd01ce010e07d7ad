-- ===== src/Control/Limits/Kept.antt =====
-- control/src/worker.ts: the end of a connection and the windows of the addresses.
use mesh_talk.Common.{ℕ, ◌≡◌, ◌++◌, [], ◌∷◌, Text}
use mesh_talk.Common.Dict.{Dict}
use mesh_talk.Common.Exec.{◌>>=◌}
use mesh_talk.Common.Exec.Keeps.{Keeps, Keeps-modify, keeps_rules}
use mesh_talk.Control.State.{
  Socket, ClientData, RoomState, DeviceLimit, RateLimit, PendingMessage, ControlRoom, Platform,
  Output, write_client, write_rooms, write_limits, write_sockets, write_retained,
}
use mesh_talk.Control.Rooms.{leave_room}
use mesh_talk.Control.Rooms.Bounds.{refresh-Keeps}
use mesh_talk.Control.Pending.{release_client, release_ip, release_pending}
use mesh_talk.Control.Close.{drop_queued, unregister, forget_connection, handle_close}

module _ (m : Dict Text RateLimit) where
  abbrev pub IsSame : ControlRoom → Type 0
  IsSame r = r.rate_limits_by_ip ≡ m

  output-IsSame :
      (r : ControlRoom) (o : Output) → IsSame r → IsSame (record r { output = r.output ++ o ∷ [] })
  output-IsSame r o h = h

  client-IsSame : (s : Socket) (f : ClientData → ClientData) → Keeps IsSame (write_client s f)
  unfolding write_client
  client-IsSame s f = Keeps-modify _ (λ r h. h)

  rooms-IsSame : (f : Dict Text RoomState → Dict Text RoomState) → Keeps IsSame (write_rooms f)
  unfolding write_rooms
  rooms-IsSame f = Keeps-modify _ (λ r h. h)

  limits-IsSame :
      (f : Dict Text DeviceLimit → Dict Text DeviceLimit) → Keeps IsSame (write_limits f)
  unfolding write_limits
  limits-IsSame f = Keeps-modify _ (λ r h. h)

  sockets-IsSame : (f : Dict Text Socket → Dict Text Socket) → Keeps IsSame (write_sockets f)
  unfolding write_sockets
  sockets-IsSame f = Keeps-modify _ (λ r h. h)

  retained-IsSame : (f : ℕ → ℕ) → Keeps IsSame (write_retained f)
  unfolding write_retained
  retained-IsSame f = Keeps-modify _ (λ r h. h)

  release-IsSame : (e : PendingMessage) → Keeps IsSame (release_pending e)
  unfolding release_pending release_client release_ip ◌>>=◌
  release-IsSame e = search keeps_rules depth 10

  leave-IsSame : (p : Platform) (s : Socket) (id : Text) → Keeps IsSame (leave_room p s id)
  unfolding leave_room
  leave-IsSame p s id =
      search
        (keeps_rules, client-IsSame, rooms-IsSame, retained-IsSame, refresh-Keeps, output-IsSame)
        depth 14

  pub close-IsSame : (p : Platform) (s : Socket) → Keeps IsSame (handle_close p s)
  unfolding handle_close forget_connection drop_queued unregister ◌>>=◌
  close-IsSame p s =
      search (keeps_rules, release-IsSame, leave-IsSame, sockets-IsSame, limits-IsSame) depth 16

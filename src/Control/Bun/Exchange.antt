-- ===== src/Control/Bun/Exchange.antt =====
-- control/src/index.ts against control/src/worker.ts: a whole message of a registered device.
use mesh_talk.Common.{ℕ, List, Text, nat_eq, codes, if◌then◌else◌}
use mesh_talk.Common.Dict.{Dict}
use mesh_talk.Common.Exec.{throw, ◌>>◌}
use mesh_talk.Common.Exec.Keeps.{Keeps}
use mesh_talk.Control.State.{
  M, Socket, ControlMessage, Platform, ControlRoom, invalid_control_message,
}
use mesh_talk.Control.Limits.{check_rate_limit, check_relay_rate_limit}
use mesh_talk.Control.Pending.{is_relay}
use mesh_talk.Control.Messages.{is_type, with_text, dispatch}
use mesh_talk.Control.Bun.State.{B}
use mesh_talk.Control.Bun.Reading.{IsClean}
use mesh_talk.Control.Bun.Relaying.{IsOpen}
use mesh_talk.Control.Rooms
use mesh_talk.Control.Relay
use mesh_talk.Control.Bun

-- The state as the end of a connection leaves it: sockets that are no clients retain no signal,
-- and are in no room.
pub record IsShared (r : ControlRoom) : Type 0 where
  pub clean : IsClean r
  pub open_rooms : IsOpen r

-- the messages of rooms, in both runtimes
abbrev room_part : Platform → Socket → ControlMessage → M (Unit {0})
room_part p s m =
    if is_type m (codes "join")
    then with_text m.room_id (λ id. with_text m.room_auth (λ t. Rooms.join_room p s id t))
    else if is_type m (codes "leave")
    then with_text m.room_id (Rooms.leave_room p s)
    else if is_type m (codes "signal")
    then with_text m.room_id (λ id. with_text m.payload (λ t. Rooms.signal_room p s id t))
    else if is_type m (codes "get_peers")
    then with_text m.room_id (Rooms.fetch_peers p s)
    else throw invalid_control_message

abbrev bun_part : Platform → (Text → List ℕ) → Socket → ControlMessage → B (Unit {0})
bun_part p decode s m =
    if is_relay m
    then Bun.Messages.with_text m.recipient_id
        (λ id. Bun.Messages.with_text m.payload (λ t. Bun.Relay.relay_datagram p decode s id t))
    else Bun.Messages.dispatch_room p s m

-- The check of the rates at the admission of a message, and its handler.
abbrev pub exchange : Platform → Socket → ControlMessage → M (Unit {0})
exchange p s m =
    (if is_relay m then check_relay_rate_limit p s else check_rate_limit p s m.type)
    >> dispatch p s m

abbrev bun_exchange : Platform → (Text → List ℕ) → Socket → ControlMessage → B (Unit {0})
bun_exchange p decode s m =
    (if is_relay m
      then Bun.Limits.check_relay_rate_limit p s
      else Bun.Limits.check_rate_limit p s m.type)
    >> bun_part p decode s m

-- ===== src/Control/Rooms/Tests.antt =====
-- control/src/worker.ts: the rooms and the relay at concrete inputs.
use mesh_talk.Common.{
  ◌≡◌, refl, true, false, arith, none, some, [], ◌∷◌, ◌+◌, ◌-◌, ◌≤◌, length, keep, nat_beq,
  if◌then◌else◌, Text, codes, nat_eq, text_eq, text_beq, contains, add,
}
use mesh_talk.Common.Dict.{get, put}
use mesh_talk.Common.Exec.{ok, ◌>>=◌, pure, throw, gets, modify, with_some, for_each}
use mesh_talk.Control.Config.{is_hex, all_hex, is_hex_digit}
use mesh_talk.Control.State.{
  Socket, ClientData, ControlRoom, RoomState, signal, client_of, write_rooms, write_client,
  write_output, send,
}
use mesh_talk.Control.Wire.{from_hex, from_digit, differences, timing_safe_equal}
use mesh_talk.Control.Rooms.{
  join_room, find_room, signal_of, signal_room, members_of, signal_length, broadcast_room,
  refresh_room,
}
use mesh_talk.Control.Rooms.Delivery.{
  IsWhole, receivers, told, with_output, retained, signal_room-eq,
}
use mesh_talk.Control.Rooms.Secret.{IsGuarded, join_room-IsGuarded}
use mesh_talk.Control.Relay.{relay_datagram}
use mesh_talk.Control.Relay.Delivery.{IsCaused, relay_datagram-IsCaused}
use mesh_talk.Control.Messages.{new_client}
use mesh_talk.Control.System.{init}
use mesh_talk.Control.System.Tests.{platform}

abbrev pub room_id : Text
room_id = codes "00112233445566778899aabbccddeeff"

abbrev pub secret : Text
secret = codes "00112233445566778899aabbccddeeff00112233445566778899aabbccddeeff"

-- three clients; the second and the third are in the room
abbrev pub client : Socket → ClientData
client s = record (new_client 100_000 (codes "10.0.0.1") (codes "id") (codes "nonce")) {
  rooms = if nat_beq s 1 then [] else room_id ∷ [];
  peer_id = if nat_beq s 2 then some secret else none;
}

abbrev pub the_room : RoomState
the_room = record { auth = secret; members = 2 ∷ 3 ∷ [] }

abbrev pub meeting : ControlRoom
meeting = record init {
  clients = 1 ∷ 2 ∷ 3 ∷ [];
  objects = client;
  rooms = (room_id, the_room) ∷ [];
}

in_room : contains room_id (meeting.objects 2).rooms ≡ true
unfolding contains text_beq
in_room = refl

stored :
    meeting.retained_bytes - signal_length room_id (meeting.objects 2) + length (codes "hi")
    ≤ 67_108_864
unfolding signal_length get new_client
stored = omega arith

whole : IsWhole platform (receivers (some 2) (members_of meeting room_id))
unfolding members_of get text_beq keep
whole = (refl, tt)

signal_room-eq_example : signal_room platform 2 room_id (codes "hi") meeting ≡ (
  ok tt,
  with_output
      (retained 2 room_id (codes "hi") meeting)
      (told (signal room_id (codes "hi")) (receivers (some 2) (members_of meeting room_id))),
)
signal_room-eq_example =
    signal_room-eq platform 2 room_id (codes "hi") meeting in_room refl stored whole

outside : contains room_id (meeting.objects 1).rooms ≡ false
unfolding contains
outside = refl

abbrev joined_room : ControlRoom
joined_room = (join_room platform 1 room_id secret meeting).1

joins : join_room platform 1 room_id secret meeting ≡ (ok tt, joined_room)
unfolding join_room ◌>>=◌ is_hex contains find_room with_some get text_beq timing_safe_equal
    from_hex for_each signal_of new_client write_rooms write_client send write_output refresh_room
    put gets modify pure throw add all_hex is_hex_digit broadcast_room members_of client_of
    differences from_digit
joins = refl

the_room-found : get room_id meeting.rooms ≡ some the_room
unfolding get text_beq
the_room-found = refl

join_room-IsGuarded_example :
    IsGuarded room_id secret the_room
      (meeting.objects 1)
      meeting
      (join_room platform 1 room_id secret meeting)
unfolding is_hex
join_room-IsGuarded_example =
    join_room-IsGuarded platform 1 room_id secret the_room meeting the_room-found refl outside

relay_datagram-IsCaused_example :
    IsCaused platform 2 secret
      (codes "payload")
      meeting
      (relay_datagram platform 2 secret (codes "payload") meeting).1
relay_datagram-IsCaused_example =
    relay_datagram-IsCaused platform 2 secret (codes "payload") meeting

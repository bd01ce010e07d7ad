-- ===== src/Control/Bun/Reading.antt =====
-- control/src/index.ts against control/src/worker.ts: the handlers that read what other sockets
-- hold. The other runtime reads clients only, the Bun server every member.
use mesh_talk.Common.{
  ◌≡◌, refl, subst, sym, false, List, [], ◌∷◌, Text, text_eq, nat_eq, contains, add, length,
  Bool-cases, inl, inr,
}
use mathlib.Core.Path.{ap₂}
use mesh_talk.Common.Dict.{Dict, put, get-nil}
use mesh_talk.Common.Exec.{pure, ◌>>=◌, ◌>>◌, gets, for_each, with_some}
use mesh_talk.Common.Exec.Keeps.{Keeps, Keeps-modify, keeps_rules}
use mesh_talk.Common.Exec.Sim.{
  sim_rules, SimFrom, SimFrom-Sim, SimFrom-if, SimFrom-bind, SimFrom-with_some, SimFrom-gets,
  SimFrom-same, SimFrom-for_each,
}
use mesh_talk.Control.State.{
  M, Socket, RoomState, Platform, Frame, ControlRoom, ControlError, ClientData, Output, sent,
  write_rooms, write_output, send, signal, peers,
}
use mesh_talk.Control.Bun.State.{Server, B}
use mesh_talk.Control.Bun.View.{view, send-Sim}
use mesh_talk.Control.Bun.Agreement.{find-Sim, refresh-Sim, writes}
use mesh_talk.Control.State
use mesh_talk.Control.Rooms
use mesh_talk.Control.Bun

-- A socket that is no client retains no signal.
pub record IsClean (r : ControlRoom) : Type 0 where
  pub signals : (s : Socket) → contains s r.clients ≡ false → (r.objects s).signals ≡ []

signal_of-view :
    (r : ControlRoom) (id : Text) (s : Socket)
    → IsClean r
    → Bun.Rooms.signal_of (view r) id s ≡ Rooms.signal_of r id s
unfolding Rooms.signal_of Bun.Rooms.signal_of State.client_of
signal_of-view r id s h = elim (Bool-cases (contains s r.clients)) [
  | inl t ↦ rw t refl
  | inr f ↦ rw (f, h.signals s f, get-nil) refl
]

rooms-IsClean : (f : Dict Text RoomState → Dict Text RoomState) → Keeps IsClean (write_rooms f)
unfolding write_rooms
rooms-IsClean f = Keeps-modify _ (λ r h. record { signals = h.signals })

output-IsClean : (o : Output) → Keeps IsClean (write_output o)
unfolding write_output
output-IsClean o = Keeps-modify _ (λ r h. record { signals = h.signals })

send-IsClean : (p : Platform) (s : Socket) (f : Frame) → Keeps IsClean (send p s f)
unfolding send
send-IsClean p s f = search (keeps_rules, output-IsClean)

find-IsClean : (id auth : Text) → Keeps IsClean (Rooms.find_room id auth)
unfolding Rooms.find_room
find-IsClean id auth = search (keeps_rules, rooms-IsClean)

abbrev shows : Platform → Socket → Text → Socket → M (Unit {0})
shows p s id m = gets (λ (r : ControlRoom). Rooms.signal_of r id m) >>= λ payload.
    with_some payload (λ t. send p s (signal id t)) (pure tt)

abbrev bun_shows : Platform → Socket → Text → Socket → B (Unit {0})
bun_shows p s id m = gets (λ (r : Server). Bun.Rooms.signal_of r id m) >>= λ payload.
    with_some payload (λ t. Bun.State.send p s (signal id t)) (pure tt)

-- the signals of the members are shown to the socket that joins
shows-Sim :
    (p : Platform) (s : Socket) (id : Text) (m : Socket)
    → SimFrom view IsClean (shows p s id m) (bun_shows p s id m)
shows-Sim p s id m =
    SimFrom-same _ _ _ _ (λ r h. signal_of-view r id m h)
      (λ payload. SimFrom-Sim _ _ (search writes))

abbrev enters : Platform → Socket → Text → RoomState → M (Unit {0})
enters p s id room =
    for_each room.members (shows p s id)
    >> (write_rooms (put id (record room { members = add s room.members }))
        >> (State.write_client s (λ d'. record d' { rooms = add id d'.rooms })
            >> (send p s (State.joined id (length (add s room.members)))
                >> Rooms.refresh_room p id)))

abbrev bun_enters : Platform → Socket → Text → RoomState → B (Unit {0})
bun_enters p s id room =
    for_each room.members (bun_shows p s id)
    >> (Bun.State.write_rooms (put id (record room { members = add s room.members }))
        >> (Bun.State.write_client s (λ d'. record d' { rooms = add id d'.rooms })
            >> (Bun.State.send p s (State.joined id (length (add s room.members)))
                >> Bun.Rooms.refresh_room p id)))

enters-Sim :
    (p : Platform) (s : Socket) (id : Text) (room : RoomState)
    → SimFrom view IsClean (enters p s id room) (bun_enters p s id room)
enters-Sim p s id room =
    SimFrom-bind _ _ _ _
      (SimFrom-for_each _ _ _ (shows-Sim p s id) (λ m. search (keeps_rules, send-IsClean)))
      (search (keeps_rules, send-IsClean))
      (λ _. SimFrom-Sim _ _ (search (writes, refresh-Sim) depth 12))

pub join-Sim :
    (p : Platform) (s : Socket) (id auth : Text)
    → SimFrom view IsClean (Rooms.join_room p s id auth) (Bun.Rooms.join_room p s id auth)
unfolding Rooms.join_room Bun.Rooms.join_room
join-Sim p s id auth =
    search
      (
        SimFrom-bind, SimFrom-gets, SimFrom-if, enters-Sim, sim_rules, SimFrom-Sim, find-Sim,
        find-IsClean, keeps_rules,
      )
      depth 25

payloads_of-view :
    (r : ControlRoom) (id : Text) (ms : List Socket)
    → IsClean r
    → Bun.Rooms.payloads_of (view r) id ms ≡ Rooms.payloads_of r id ms
unfolding Rooms.payloads_of Bun.Rooms.payloads_of
payloads_of-view r id [] h = refl
payloads_of-view r id (m ∷ ms) h =
    ap₂ Rooms.push_some (signal_of-view r id m h) (payloads_of-view r id ms h)

pub fetch-Sim :
    (p : Platform) (s : Socket) (id : Text)
    → SimFrom view IsClean (Rooms.fetch_peers p s id) (Bun.Rooms.fetch_peers p s id)
unfolding Rooms.fetch_peers Bun.Rooms.fetch_peers
fetch-Sim p s id = SimFrom-gets _ _ _ _ (λ r h.
    SimFrom-bind _ _ _ _ (search (SimFrom-Sim, sim_rules)) (search keeps_rules) (λ _.
      SimFrom-with_some _ _ _ _ _
        (λ room.
          subst
            (λ x.
              SimFrom view IsClean (send p s (peers id (Rooms.payloads_of r id room.members)))
                (Bun.State.send p s (peers id x)))
            (sym (payloads_of-view r id room.members h)) (SimFrom-Sim _ _ (send-Sim p s _)))
        (search (SimFrom-Sim, sim_rules))))

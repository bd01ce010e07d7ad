-- ===== src/Control/Bun/Relaying.antt =====
-- control/src/index.ts against control/src/worker.ts: the relay of the two runtimes.
use mesh_talk.Common.{
  ℕ, ◌≡◌, refl, ap, arith, true, false, ◌&&◌, ◌||◌, none, some, List, [], ◌∷◌, Text, text_eq,
  nat_eq, nat_beq_iff, contains, ◌==◌, Option-cases, inl, inr,
}
use mathlib.Core.Path.{ap₂}
use mesh_talk.Common.Dict.{get}
use mesh_talk.Common.Exec.Keeps.{keeps_rules}
use mesh_talk.Common.Exec.Sim.{sim_rules, SimFrom, SimFrom-Sim, SimFrom-bind, SimFrom-gets}
use mesh_talk.Control.State.{M, Socket, RoomState, Platform, ControlRoom}
use mesh_talk.Control.Bun.View.{view}
use mesh_talk.Control.Bun.Agreement.{reserve-Sim, writes}
use mesh_talk.Control.State
use mesh_talk.Control.Rooms
use mesh_talk.Control.Relay
use mesh_talk.Control.Bun

-- Every member of a room is a client.
pub record IsOpen (r : ControlRoom) : Type 0 where
  pub members :
      (id : Text) (room : RoomState) (s : Socket)
      → get id r.rooms ≡ some room
      → contains s room.members ≡ true
      → contains s r.clients ≡ true

-- Node's `Buffer` reads what `atob` reads alike, and no text that `atob` refuses is the encoding
-- of what it reads there.
pub record IsDecoder (p : Platform) (decode : Text → List ℕ) : Type 0 where
  pub alike : (t : Text) (bytes : List ℕ) → p.from_base64 t ≡ some bytes → decode t ≡ bytes
  pub refused : (t : Text) → p.from_base64 t ≡ none → (p.to_base64 (decode t) == t) ≡ false

frame_of-same :
    (p : Platform) (decode : Text → List ℕ) (t : Text)
    → IsDecoder p decode
    → Bun.Relay.frame_of p decode t ≡ Relay.frame_of p t
unfolding Relay.frame_of Bun.Relay.frame_of
frame_of-same p decode t h = elim (Option-cases (p.from_base64 t)) [
  | inl n ↦ rw (Relay.frame_of, n) (ground (arith, h.refused t n))
  | inr (bytes, e) ↦ rw (Relay.frame_of, e, h.alike t bytes e) refl
]

any_is_peer-view :
    (r : ControlRoom) (to : Text) (ms : List Socket)
    → ((s : Socket) → contains s ms ≡ true → contains s r.clients ≡ true)
    → Bun.Relay.any_is_peer (view r) to ms ≡ Relay.any_is_peer r to ms
unfolding Relay.any_is_peer Bun.Relay.any_is_peer contains State.client_of
any_is_peer-view r to [] h = refl
any_is_peer-view r to (m ∷ ms) h =
    let c : contains m r.clients ≡ true = h m (ground (arith, nat_beq_iff m m)) in
    rw c (
      ap (λ b. Relay.text_is (r.objects m).peer_id to || b)
        (any_is_peer-view r to ms (λ s t. h s (ground (arith, t)))))

members-clients :
    (r : ControlRoom) (id : Text) (s : Socket)
    → IsOpen r
    → contains s (Rooms.members_of r id) ≡ true
    → contains s r.clients ≡ true
unfolding Rooms.members_of contains
members-clients r id s h t = elim (Option-cases (get id r.rooms)) [
  | inl n ↦ absurd (ground (arith, rw n at t))
  | inr (room, e) ↦ h.members id room s e (rw e at t)
]

any_room_has-view :
    (r : ControlRoom) (to : Text) (ids : List Text)
    → IsOpen r
    → Bun.Relay.any_room_has (view r) to ids ≡ Relay.any_room_has r to ids
unfolding Relay.any_room_has Bun.Relay.any_room_has Rooms.members_of Bun.Rooms.members_of
any_room_has-view r to [] h = refl
any_room_has-view r to (id ∷ ids) h =
    ap₂ ◌||◌ (any_is_peer-view r to (Rooms.members_of r id) (λ s t. members-clients r id s h t))
      (any_room_has-view r to ids h)

peers_share_room-view :
    (r : ControlRoom) (s : Socket) (to : Text)
    → IsOpen r
    → Bun.Relay.peers_share_room (view r) s to ≡ Relay.peers_share_room r s to
unfolding Relay.peers_share_room Bun.Relay.peers_share_room
peers_share_room-view r s to h =
    ap (λ b. Relay.differs (r.objects s).peer_id to && b)
      (any_room_has-view r to (r.objects s).rooms h)

pub relay-Sim :
    (p : Platform) (decode : Text → List ℕ) (s : Socket) (to payload : Text)
    → IsDecoder p decode
    → SimFrom view IsOpen
        (Relay.relay_datagram p s to payload)
        (Bun.Relay.relay_datagram p decode s to payload)
unfolding Relay.relay_datagram Bun.Relay.relay_datagram
relay-Sim p decode s to payload d =
    SimFrom-bind _ _ _ _ (search (SimFrom-Sim, sim_rules)) (search keeps_rules) (λ _.
      SimFrom-gets _ _ _ _ (λ r h.
        rw (frame_of-same p decode payload d, peers_share_room-view r s to h)
          (SimFrom-Sim _ _ (search (writes, reserve-Sim) depth 20))))

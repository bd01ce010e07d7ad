-- ===== src/Control/Bun/Agreement.antt =====
-- control/src/index.ts against control/src/worker.ts: the handlers of the two runtimes.
use mesh_talk.Common.{
  ℕ, ◌-◌, ◌≡◌, refl, ap, ◌∙◌, Bool, Option, Text, text_eq, leb, Bool-cases, inl, inr, if◌then◌else◌,
}
use mesh_talk.Common.Exec.Sim.{Sim, sim_rules}
use mesh_talk.Control.State.{Socket, ClientData, Field, Platform, Frame, DeviceLimit}
use mesh_talk.Control.Bun.View.{
  view, data_view, rooms-Sim, retained-Sim, sockets-Sim, limits-Sim, rates-Sim, output-Sim,
  send-Sim, client-Sim,
}
use mesh_talk.Control.Limits
use mesh_talk.Control.Limits.{Budget, signals, peer_fetches, control}
use mesh_talk.Control.Rooms
use mesh_talk.Control.Relay
use mesh_talk.Control.Close
use mesh_talk.Control.Bun

pub ruleset writes = (
  sim_rules, rooms-Sim, retained-Sim, sockets-Sim, limits-Sim, rates-Sim, output-Sim, send-Sim,
  client-Sim, refl,
)

pub broadcast-Sim :
    (p : Platform) (id : Text) (f : Frame) (x : Option Socket)
    → Sim view (Rooms.broadcast_room p id f x) (Bun.Rooms.broadcast_room p id f x)
unfolding Rooms.broadcast_room Bun.Rooms.broadcast_room Rooms.members_of Bun.Rooms.members_of
broadcast-Sim p id f x = search (writes)

pub refresh-Sim :
    (p : Platform) (id : Text) → Sim view (Rooms.refresh_room p id) (Bun.Rooms.refresh_room p id)
unfolding Rooms.refresh_room Bun.Rooms.refresh_room
refresh-Sim p id = search (writes, broadcast-Sim)

pub leave-Sim :
    (p : Platform) (s : Socket) (id : Text)
    → Sim view (Rooms.leave_room p s id) (Bun.Rooms.leave_room p s id)
unfolding Rooms.leave_room Bun.Rooms.leave_room Rooms.signal_length Bun.Rooms.signal_length
leave-Sim p s id = search (writes, refresh-Sim) depth 14

pub find-Sim : (id auth : Text) → Sim view (Rooms.find_room id auth) (Bun.Rooms.find_room id auth)
unfolding Rooms.find_room Bun.Rooms.find_room
find-Sim id auth = search (writes) depth 14

pub signal-Sim :
    (p : Platform) (s : Socket) (id t : Text)
    → Sim view (Rooms.signal_room p s id t) (Bun.Rooms.signal_room p s id t)
unfolding Rooms.signal_room Bun.Rooms.signal_room Rooms.signal_length Bun.Rooms.signal_length
signal-Sim p s id t = search (writes, broadcast-Sim) depth 14

pub open-view :
    (now : ℕ) (c : Bool) (d : ClientData)
    → Bun.Limits.open_window now (data_view c d) ≡ data_view c (Limits.open_window now d)
unfolding Bun.Limits.open_window Limits.open_window
open-view now c d = elim (Bool-cases (leb 60_000 (now - d.window_started_at))) [
  | inl t ↦ rw t refl
  | inr f ↦ rw f refl
]

pub count-data :
    (b : Budget) (c : Bool) (d : ClientData)
    → Bun.Limits.count_message b (data_view c d) ≡ data_view c (Limits.count_message b d)
unfolding Bun.Limits.count_message Limits.count_message
count-data signals c d = refl
count-data peer_fetches c d = refl
count-data control c d = refl

pub count-view :
    (b : Budget) (now : ℕ) (c : Bool) (d : ClientData)
    → Bun.Limits.count_message b (Bun.Limits.open_window now (data_view c d))
      ≡ data_view c (Limits.count_message b (Limits.open_window now d))
count-view b now c d =
    ap (Bun.Limits.count_message b) (open-view now c d) ∙ count-data b c (Limits.open_window now d)

pub open_relay-view :
    (now : ℕ) (c : Bool) (d : ClientData)
    → Bun.Limits.open_relay_window now (data_view c d)
      ≡ data_view c (Limits.open_relay_window now d)
unfolding Bun.Limits.open_relay_window Limits.open_relay_window
open_relay-view now c d = elim (Bool-cases (leb 1_000 (now - d.relay_window_started_at))) [
  | inl t ↦ rw t refl
  | inr f ↦ rw f refl
]

pub rate-Sim :
    (p : Platform) (s : Socket) (f : Field)
    → Sim view (Limits.check_rate_limit p s f) (Bun.Limits.check_rate_limit p s f)
unfolding Limits.check_rate_limit Bun.Limits.check_rate_limit
rate-Sim p s f = search (writes, count-view) depth 14

pub relay_rate-Sim :
    (p : Platform) (s : Socket)
    → Sim view (Limits.check_relay_rate_limit p s) (Bun.Limits.check_relay_rate_limit p s)
unfolding Limits.check_relay_rate_limit Bun.Limits.check_relay_rate_limit
relay_rate-Sim p s = search (writes, open_relay-view) depth 14

pub write_limit-Sim :
    (id : Text) (f : DeviceLimit → DeviceLimit)
    → Sim view (Relay.write_limit id f) (Bun.Relay.write_limit id f)
unfolding Relay.write_limit Bun.Relay.write_limit
write_limit-Sim id f = search (writes)

pub refill-Sim :
    (p : Platform) (id : Text) → Sim view (Relay.refill_device p id) (Bun.Relay.refill_device p id)
unfolding Relay.refill_device Bun.Relay.refill_device
refill-Sim p id = search (writes)

pub reserve-Sim :
    (p : Platform) (id to : Text) (n : ℕ)
    → Sim view
        (Relay.reserve_relay_bandwidth p id to n)
        (Bun.Relay.reserve_relay_bandwidth p id to n)
unfolding Relay.reserve_relay_bandwidth Bun.Relay.reserve_relay_bandwidth
reserve-Sim p id to n = search (writes, refill-Sim, write_limit-Sim) depth 20

pub unregister-Sim :
    (s : Socket) (id : Text) → Sim view (Close.unregister s id) (Bun.Close.unregister s id)
unfolding Close.unregister Bun.Close.unregister
unregister-Sim s id = search (writes) depth 10

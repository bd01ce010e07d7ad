-- ===== src/Control/Bun/View.antt =====
-- control/src/index.ts against control/src/worker.ts: the state of the Bun server as a view of the
-- state of the other runtime, which has a queue besides.
use mesh_talk.Common.{
  ℕ, ◌≡◌, refl, ap, ◌∙◌, Bool, not, Text, nat_eq, text_eq, contains, inl, inr, beq-cases,
}
use mathlib.Core.Path.{fun_ext}
use mesh_talk.Common.Dict.{Dict}
use mesh_talk.Common.Exec.Sim.{Sim, Sim-modify, sim_rules}
use mesh_talk.Control.State.{
  Socket, ClientData, RateLimit, RoomState, DeviceLimit, ControlRoom, Output, sent, ControlError,
  Platform, Frame, send_failed,
}
use mesh_talk.Control.State
use mesh_talk.Control.Bun.State.{SocketData, Server}
use mesh_talk.Control.Bun

-- The data of a socket. A socket that is no client is closed.
abbrev pub data_view : Bool → ClientData → SocketData
data_view client d = record {
  ip = d.ip;
  rooms = d.rooms;
  signals = d.signals;
  window_started_at = d.window_started_at;
  control_messages_in_window = d.control_messages_in_window;
  signals_in_window = d.signals_in_window;
  peer_fetches_in_window = d.peer_fetches_in_window;
  relay_window_started_at = d.relay_window_started_at;
  relay_frames_in_window = d.relay_frames_in_window;
  challenge_id = d.challenge_id;
  challenge = d.challenge;
  challenge_expires_at = d.challenge_expires_at;
  peer_id = d.peer_id;
  closed = not client;
}

abbrev pub view : ControlRoom → Server
view r = record {
  rooms = r.rooms;
  connections_by_ip = r.connections_by_ip;
  rate_limits_by_ip = r.rate_limits_by_ip;
  sockets_by_peer_id = r.sockets_by_peer_id;
  device_limits = r.device_limits;
  objects = λ s. data_view (contains s r.clients) (r.objects s);
  connections = r.connections;
  retained_bytes = r.retained_bytes;
  output = r.output;
}

pub rooms-Sim :
    (f : Dict Text RoomState → Dict Text RoomState)
    → Sim view (State.write_rooms f) (Bun.State.write_rooms f)
unfolding State.write_rooms Bun.State.write_rooms
rooms-Sim f = Sim-modify _ _ (λ r. refl)

pub retained-Sim : (f : ℕ → ℕ) → Sim view (State.write_retained f) (Bun.State.write_retained f)
unfolding State.write_retained Bun.State.write_retained
retained-Sim f = Sim-modify _ _ (λ r. refl)

pub sockets-Sim :
    (f : Dict Text Socket → Dict Text Socket)
    → Sim view (State.write_sockets f) (Bun.State.write_sockets f)
unfolding State.write_sockets Bun.State.write_sockets
sockets-Sim f = Sim-modify _ _ (λ r. refl)

pub limits-Sim :
    (f : Dict Text DeviceLimit → Dict Text DeviceLimit)
    → Sim view (State.write_limits f) (Bun.State.write_limits f)
unfolding State.write_limits Bun.State.write_limits
limits-Sim f = Sim-modify _ _ (λ r. refl)

pub rates-Sim :
    (f : Dict Text RateLimit → Dict Text RateLimit)
    → Sim view (State.write_rates f) (Bun.State.write_rates f)
unfolding State.write_rates Bun.State.write_rates
rates-Sim f = Sim-modify _ _ (λ r. refl)

pub output-Sim : (o : Output) → Sim view (State.write_output o) (Bun.State.write_output o)
unfolding State.write_output Bun.State.write_output
output-Sim o = Sim-modify _ _ (λ r. refl)

pub send-Sim :
    (p : Platform) (s : Socket) (f : Frame) → Sim view (State.send p s f) (Bun.State.send p s f)
unfolding State.send Bun.State.send
send-Sim p s f = search (sim_rules, output-Sim)

-- A write to a client that its view follows.
pub client-Sim :
    (s : Socket) (f : ClientData → ClientData) (g : SocketData → SocketData)
    → ((c : Bool) (d : ClientData) → g (data_view c d) ≡ data_view c (f d))
    → Sim view (State.write_client s f) (Bun.State.write_client s g)
unfolding State.write_client Bun.State.write_client
client-Sim s f g same = Sim-modify _ _ (λ r.
    ap (λ o. record (view r) { objects = o })
      (fun_ext (λ j. elim (beq-cases s j) [
        | inl (t, e) ↦ rw t (
            ap (λ i. g (data_view (contains i r.clients) (r.objects s))) e
            ∙ same (contains j r.clients) (r.objects s))
        | inr n ↦ rw n refl
      ])))

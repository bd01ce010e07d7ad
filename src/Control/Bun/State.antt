-- ===== src/Control/Bun/State.antt =====
-- control/src/index.ts: the state of the Bun server, its types and `send`. Rooms, limits, messages,
-- frames and errors are those of the other runtime.
use mesh_talk.Common.{ℕ, Bool, List, [], ◌∷◌, ◌++◌, Option, Text, if◌then◌else◌}
use mesh_talk.Common.Dict.{Dict}
use mesh_talk.Common.Exec.{Exec, throw, modify}
use mesh_talk.Control.State.{
  Socket, RateLimit, RoomState, DeviceLimit, ControlError, Frame, Output, sent, Platform,
  send_failed, update,
}

-- `ClientData` of this runtime, which every socket holds as its `data`
pub record SocketData : Type 0 where
  pub ip : Text
  pub rooms : List Text
  pub signals : Dict Text Text
  pub window_started_at : ℕ
  pub control_messages_in_window : ℕ
  pub signals_in_window : ℕ
  pub peer_fetches_in_window : ℕ
  pub relay_window_started_at : ℕ
  pub relay_frames_in_window : ℕ
  pub challenge_id : Text
  pub challenge : Text
  pub challenge_expires_at : ℕ
  pub peer_id : Option Text
  pub closed : Bool

-- the variables of the module, and the data of every socket
pub record Server : Type 0 where
  pub rooms : Dict Text RoomState
  pub connections_by_ip : Dict Text ℕ
  pub rate_limits_by_ip : Dict Text RateLimit
  pub sockets_by_peer_id : Dict Text Socket
  pub device_limits : Dict Text DeviceLimit
  pub objects : Socket → SocketData
  pub connections : ℕ
  pub retained_bytes : ℕ
  pub output : List Output

abbrev pub B : Type 0 → Type 0
B A = Exec Server ControlError A

-- Writes to one part of the state.
unfoldable pub write_rooms : (Dict Text RoomState → Dict Text RoomState) → B (Unit {0})
unfolding modify
write_rooms f = modify (λ r. record r { rooms = f r.rooms })

unfoldable pub write_client : Socket → (SocketData → SocketData) → B (Unit {0})
unfolding modify
write_client s f = modify (λ r. record r { objects = update r.objects s (f (r.objects s)) })

unfoldable pub write_retained : (ℕ → ℕ) → B (Unit {0})
unfolding modify
write_retained f = modify (λ r. record r { retained_bytes = f r.retained_bytes })

unfoldable pub write_sockets : (Dict Text Socket → Dict Text Socket) → B (Unit {0})
unfolding modify
write_sockets f = modify (λ r. record r { sockets_by_peer_id = f r.sockets_by_peer_id })

unfoldable pub write_limits : (Dict Text DeviceLimit → Dict Text DeviceLimit) → B (Unit {0})
unfolding modify
write_limits f = modify (λ r. record r { device_limits = f r.device_limits })

unfoldable pub write_rates : (Dict Text RateLimit → Dict Text RateLimit) → B (Unit {0})
unfolding modify
write_rates f = modify (λ r. record r { rate_limits_by_ip = f r.rate_limits_by_ip })

unfoldable pub write_output : Output → B (Unit {0})
unfolding modify
write_output o = modify (λ r. record r { output = r.output ++ o ∷ [] })

-- A socket in `p.broken` throws, as in the Worker, so that one platform serves both servers. The
-- send of Bun returns a status there in place of a throw.
unfoldable pub send : Platform → Socket → Frame → B (Unit {0})
unfolding throw
send p s f = if p.broken s then throw send_failed else write_output (sent s f)

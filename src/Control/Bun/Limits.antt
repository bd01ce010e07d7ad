-- ===== src/Control/Bun/Limits.antt =====
-- control/src/index.ts: `checkRateLimit` and `checkRelayRateLimit`.
use mesh_talk.Common.{ℕ, ◌+◌, ◌-◌, ltb, leb, text_eq, if◌then◌else◌}
use mesh_talk.Common.Dict.{get, put}
use mesh_talk.Common.Exec.{gets, throw_if, ◌>>=◌, ◌>>◌}
use mesh_talk.Control.Config.{max_relay_frames_per_second}
use mesh_talk.Control.State.{
  Socket, Field, Platform, rate_limit_exceeded, ip_rate_limit_exceeded, relay_rate_limit_exceeded,
}
use mesh_talk.Control.Limits.{
  Budget, signals, peer_fetches, control, budget_of, over_limits, open_ip_window, count_ip_message,
}
use mesh_talk.Control.Bun.State.{SocketData, Server, B, write_client, write_rates}

-- a window of a client that is over starts anew
unfoldable pub open_window : ℕ → SocketData → SocketData
open_window now d =
    if leb 60_000 (now - d.window_started_at)
    then (record d {
      window_started_at = now;
      control_messages_in_window = 0;
      signals_in_window = 0;
      peer_fetches_in_window = 0;
    })
    else d

unfoldable pub count_message : Budget → SocketData → SocketData
count_message signals d = record d { signals_in_window = d.signals_in_window + 1 }
count_message peer_fetches d = record d { peer_fetches_in_window = d.peer_fetches_in_window + 1 }
count_message control d = record d { control_messages_in_window = d.control_messages_in_window + 1 }

unfoldable pub check_rate_limit : Platform → Socket → Field → B (Unit {0})
check_rate_limit p socket type = do
  let budget = budget_of type
  write_client socket (λ d. count_message budget (open_window p.now d))
  d ← gets (λ (r : Server). r.objects socket)
  throw_if (over_limits d.signals_in_window d.control_messages_in_window d.peer_fetches_in_window)
      rate_limit_exceeded
  l ← gets (λ (r : Server).
      count_ip_message budget (open_ip_window p.now (get d.ip r.rate_limits_by_ip)))
  write_rates (put d.ip l)
  throw_if (over_limits l.signals_in_window l.control_messages_in_window l.peer_fetches_in_window)
      ip_rate_limit_exceeded

unfoldable pub open_relay_window : ℕ → SocketData → SocketData
open_relay_window now d =
    if leb 1_000 (now - d.relay_window_started_at)
    then (record d { relay_window_started_at = now; relay_frames_in_window = 0 })
    else d

unfoldable pub check_relay_rate_limit : Platform → Socket → B (Unit {0})
check_relay_rate_limit p socket = do
  write_client socket (open_relay_window p.now)
  write_client socket (λ d. record d { relay_frames_in_window = d.relay_frames_in_window + 1 })
  d ← gets (λ (r : Server). r.objects socket)
  throw_if (ltb max_relay_frames_per_second d.relay_frames_in_window) relay_rate_limit_exceeded

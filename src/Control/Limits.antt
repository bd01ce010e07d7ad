-- ===== src/Control/Limits.antt =====
-- control/src/worker.ts: `checkRateLimit` and `checkRelayRateLimit`.
pub mod Windows
pub mod Kept
pub mod Runs
use mesh_talk.Common.{
  ℕ, ◌+◌, ◌-◌, Bool, ◌||◌, Option, none, some, Text, ltb, leb, codes, text_eq, ◌==◌, if◌then◌else◌,
}
use mesh_talk.Common.Dict.{get, put}
use mesh_talk.Common.Exec.{gets, throw_if, ◌>>=◌, ◌>>◌}
use mesh_talk.Control.Config.{
  max_signals_per_minute, max_control_messages_per_minute, max_peer_fetches_per_minute,
  max_relay_frames_per_second,
}
use mesh_talk.Control.State.{
  Socket, Field, string, ClientData, RateLimit, ControlRoom, Platform, M, rate_limit_exceeded,
  ip_rate_limit_exceeded, relay_rate_limit_exceeded, write_client, write_rates,
}

-- the budget that a message counts against, by its type
pub data Budget : Type 0 where
  signals peer_fetches control : Budget

-- `messageType === "…"`
abbrev pub field_is : Text → Field → Bool
field_is t (string s) = s == t
field_is t _ = Bool.false

unfoldable pub budget_of : Field → Budget
budget_of type =
    if field_is (codes "signal") type
    then signals
    else if field_is (codes "get_peers") type
    then peer_fetches
    else control

-- a window of a client that is over starts anew
unfoldable pub open_window : ℕ → ClientData → ClientData
open_window now d =
    if leb 60_000 (now - d.window_started_at)
    then (record d {
      window_started_at = now;
      control_messages_in_window = 0;
      signals_in_window = 0;
      peer_fetches_in_window = 0;
    })
    else d

unfoldable pub count_message : Budget → ClientData → ClientData
count_message signals d = record d { signals_in_window = d.signals_in_window + 1 }
count_message peer_fetches d = record d { peer_fetches_in_window = d.peer_fetches_in_window + 1 }
count_message control d = record d { control_messages_in_window = d.control_messages_in_window + 1 }

unfoldable pub over_limits : ℕ → ℕ → ℕ → Bool
over_limits sig con pee =
    ltb max_signals_per_minute sig
    || ltb max_control_messages_per_minute con
    || ltb max_peer_fetches_per_minute pee

-- the limit of an address, new where there is none or its window is over
unfoldable pub open_ip_window : ℕ → Option RateLimit → RateLimit
open_ip_window now none = record {
  window_started_at = now;
  control_messages_in_window = 0;
  signals_in_window = 0;
  peer_fetches_in_window = 0;
}
open_ip_window now (some l) =
    if leb 60_000 (now - l.window_started_at)
    then (record {
      window_started_at = now;
      control_messages_in_window = 0;
      signals_in_window = 0;
      peer_fetches_in_window = 0;
    })
    else l

unfoldable pub count_ip_message : Budget → RateLimit → RateLimit
count_ip_message signals l = record l { signals_in_window = l.signals_in_window + 1 }
count_ip_message peer_fetches l = record l { peer_fetches_in_window = l.peer_fetches_in_window + 1 }
count_ip_message control l = record l {
  control_messages_in_window = l.control_messages_in_window + 1;
}

unfoldable pub check_rate_limit : Platform → Socket → Field → M (Unit {0})
check_rate_limit p socket type = do
  let budget = budget_of type
  write_client socket (λ d. count_message budget (open_window p.now d))
  d ← gets (λ (r : ControlRoom). r.objects socket)
  throw_if (over_limits d.signals_in_window d.control_messages_in_window d.peer_fetches_in_window)
      rate_limit_exceeded
  l ← gets (λ (r : ControlRoom).
      count_ip_message budget (open_ip_window p.now (get d.ip r.rate_limits_by_ip)))
  write_rates (put d.ip l)
  throw_if (over_limits l.signals_in_window l.control_messages_in_window l.peer_fetches_in_window)
      ip_rate_limit_exceeded

unfoldable pub open_relay_window : ℕ → ClientData → ClientData
open_relay_window now d =
    if leb 1_000 (now - d.relay_window_started_at)
    then (record d { relay_window_started_at = now; relay_frames_in_window = 0 })
    else d

unfoldable pub check_relay_rate_limit : Platform → Socket → M (Unit {0})
check_relay_rate_limit p socket = do
  write_client socket (open_relay_window p.now)
  write_client socket (λ d. record d { relay_frames_in_window = d.relay_frames_in_window + 1 })
  d ← gets (λ (r : ControlRoom). r.objects socket)
  throw_if (ltb max_relay_frames_per_second d.relay_frames_in_window) relay_rate_limit_exceeded

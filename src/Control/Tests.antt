-- ===== src/Control/Tests.antt =====
-- control/src/worker.ts: its parts at concrete inputs.
use mesh_talk.Common.{
  contains, add, ℕ, ◌≡◌, ◌↔◌, refl, ◌≤◌, ◌+◌, ◌-◌, ◌*◌, ◌≢◌, ap, true, arith, some, List, [], ◌∷◌,
  Text, codes, nat_eq, text_eq, text_beq,
}
use mesh_talk.Common.Int.{pos}
use mesh_talk.Common.Dict.{get, put}
use mesh_talk.Common.Exec.{◌>>=◌}
use mesh_talk.Control.Config.{is_hex, relay_burst_bytes, relay_bytes_per_second}
use mesh_talk.Control.State.{
  RateLimit, string, write_client, write_rates, write_output, send, DeviceLimit, ControlRoom,
}
use mesh_talk.Control.Wire.{to_hex, from_hex, timing_safe_equal}
use mesh_talk.Control.Wire.Hex.{from_hex-to_hex, room_auth_equal_iff}
use mesh_talk.Control.Limits.{
  signals, over_limits, check_rate_limit, budget_of, count_message, open_window, count_ip_message,
  open_ip_window,
}
use mesh_talk.Control.Limits.Windows.{used, limit_of}
use mesh_talk.Control.Limits.Runs.{Event, checked, passed, address_budget}
use mesh_talk.Control.Close.{handle_close}
use mesh_talk.Control.Relay.Throughput.{Reservation, IsPair, IsOrdered, bytes_sent, bytes_sent-le}
use mesh_talk.Control.Messages.{connect, register_client, new_client}
use mesh_talk.Control.System.{init}
use mesh_talk.Control.System.Tests.{platform, accepted}

abbrev secret : Text
secret = codes "00112233445566778899aabbccddeeff00112233445566778899aabbccddeeff"

from_hex-to_hex_example : from_hex (to_hex (0 ∷ 171 ∷ 255 ∷ [])) ≡ 0 ∷ 171 ∷ 255 ∷ []
from_hex-to_hex_example =
    from_hex-to_hex (0 ∷ 171 ∷ 255 ∷ []) (omega arith, (omega arith, (omega arith, tt)))

room_auth_equal_iff_example :
    (timing_safe_equal (from_hex secret) (from_hex secret) ≡ true) ↔ (secret ≡ secret)
unfolding is_hex
room_auth_equal_iff_example = room_auth_equal_iff secret secret refl refl

-- two signals of one client, after an address has sent one
abbrev counting : ControlRoom
counting = record accepted {
  rate_limits_by_ip =
      (
        codes "10.0.0.1",
        record {
          window_started_at = 100_000;
          control_messages_in_window = 3;
          signals_in_window = 1;
          peer_fetches_in_window = 0;
        },
      )
      ∷ [];
}

abbrev two_signals : List Event
two_signals =
    checked (record { time = 100_500; socket = 1; type = string (codes "signal") })
    ∷ Event.closed 7
    ∷ checked (record { time = 101_000; socket = 1; type = string (codes "signal") })
    ∷ []

abbrev one_signal : RateLimit
one_signal = record {
  window_started_at = 100_000;
  control_messages_in_window = 3;
  signals_in_window = 1;
  peer_fetches_in_window = 0;
}

found : get (codes "10.0.0.1") counting.rate_limits_by_ip ≡ some one_signal
unfolding get text_beq
found = refl

-- of two messages with the end of another connection between them
abbrev signals_passed : ℕ
signals_passed = passed platform (codes "10.0.0.1") signals two_signals counting

both_pass : signals_passed ≡ 2
unfolding passed contains add check_rate_limit write_client write_rates ◌>>=◌ over_limits get put
    text_beq budget_of count_message open_window connect send write_output register_client
    new_client count_ip_message open_ip_window handle_close
both_pass = refl

address_budget_example : used signals one_signal + signals_passed ≤ limit_of signals
address_budget_example =
    address_budget platform (codes "10.0.0.1") signals two_signals counting one_signal found
      (omega arith, (tt, (omega arith, tt))) (omega (arith, both_pass))

-- two devices with full buckets
abbrev full_limit : DeviceLimit
full_limit = record {
  tokens = pos (4 * 1024 * 1024 * 1000);
  receive_tokens = pos (4 * 1024 * 1024 * 1000);
  updated_at = 100_000;
  relay_peers = [];
}

abbrev two_devices : ControlRoom
two_devices = record init { device_limits = (codes "a", full_limit) ∷ (codes "b", full_limit) ∷ [] }

limit_of_a : get (codes "a") two_devices.device_limits ≡ some full_limit
unfolding get text_beq
limit_of_a = refl

a-ne-b : codes "a" ≢ codes "b"
a-ne-b = λ e. ground (arith, ap (λ t. text_beq t (codes "b")) e)

abbrev a_frame : Reservation
a_frame = record { at = 100_250; from = codes "a"; to = codes "b"; bytes = 1200 }

a_frame-IsPair : IsPair two_devices a_frame
unfolding get text_beq
a_frame-IsPair = record { different = a-ne-b; sender = refl; recipient = refl }

a_frame-IsOrdered : IsOrdered platform 100_000 (a_frame ∷ []) 101_000
unfolding IsOrdered
a_frame-IsOrdered = (omega arith, omega arith)

bytes_sent-le_example :
    bytes_sent platform (codes "a") (a_frame ∷ []) two_devices * 1000
    ≤ relay_burst_bytes * 1000 + (101_000 - 100_000) * relay_bytes_per_second
bytes_sent-le_example =
    bytes_sent-le platform (codes "a") two_devices full_limit (a_frame ∷ []) 101_000 limit_of_a refl
      (omega arith) (a_frame-IsPair, tt) a_frame-IsOrdered

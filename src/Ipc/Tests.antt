-- ===== src/Ipc/Tests.antt =====
-- common/ipc-client.ts at concrete inputs.
use mesh_talk.Common.{
  ℕ, ◌+◌, ◌-◌, ◌≡◌, refl, arith, Bool, false, Option, none, some, List, [], ◌∷◌, Text, codes,
  nat_eq, ltb,
}
use mesh_talk.Ipc.Client.{
  Response, unix, Surroundings, opened, connect_rejected, closed_early, destroyed, new_client,
  connect, send, on_error, on_close, on_data, Event, connecting, sending, receiving, run, tcp,
}
use mesh_talk.Ipc.Client.Framing.{on_pieces, on_pieces-eq}
use mesh_talk.Ipc.Client.Accounting.{one_if, times_resolved, times_pending}
use mesh_talk.Ipc.Client.Accounting.Runs.{run-resolved_once, on_close-resolved}

-- a line is the digit of the request that it answers
abbrev parse_digit : Text → Option Response
parse_digit [] = none
parse_digit (c ∷ t) =
    some (record { authenticated = false; is_event = false; id = some (c - b'0'); body = c ∷ t })

abbrev no_faults : ℕ → Response → Bool
no_faults h r = false

abbrev never : ℕ → Bool
never h = false

abbrev on_unix : Surroundings
on_unix = record {
  forced_port = none;
  is_windows = false;
  port_file = some 9000;
  token = some (codes "t");
}

-- two requests, and the response to the second in two pieces
abbrev exchange : List Event
exchange =
    connecting on_unix
    ∷ sending (codes "peers")
    ∷ sending (codes "groups")
    ∷ receiving (codes "1")
    ∷ receiving (codes "\n")
    ∷ []

on_pieces-eq_example :
    on_pieces parse_digit no_faults (codes "1" ∷ codes "\n0\n" ∷ []) new_client
    ≡ on_data parse_digit no_faults (codes "1\n0\n") new_client
on_pieces-eq_example =
    on_pieces-eq parse_digit no_faults (codes "1") (codes "\n0\n" ∷ []) new_client

run-resolved_once_example :
    times_resolved 1 (run parse_digit no_faults never exchange new_client).out
      + times_pending 1 (run parse_digit no_faults never exchange new_client).pending
    ≡ one_if (ltb 1 (run parse_digit no_faults never exchange new_client).id)
run-resolved_once_example = run-resolved_once parse_digit no_faults never exchange 1

on_close-resolved_example :
    times_resolved 0 (on_close never (run parse_digit no_faults never exchange new_client)).out ≡ 1
unfolding run connect send on_data
on_close-resolved_example =
    on_close-resolved parse_digit no_faults never exchange refl 0 (omega arith)

-- the second request was answered, the first is pending
pending_of_exchange : (run parse_digit no_faults never exchange new_client).pending ≡ 0 ∷ []
unfolding run connect send on_data
pending_of_exchange = refl

-- The UNIX socket fails, the port is opened in its place, and then the end of the failed socket
-- is reported: the promise of `connect` is rejected before the port has connected.
fallback_is_rejected :
    (on_close never (on_error on_unix unix (connect on_unix new_client))).out
    ≡ opened unix ∷ destroyed ∷ opened (tcp 9000) ∷ connect_rejected closed_early ∷ []
unfolding on_close on_error connect
fallback_is_rejected = refl

-- ===== src/Control/System/Housing.antt =====
-- control/src/worker.ts: the bounds of the rooms over all events.
pub mod Writes
pub mod Handlers
use mesh_talk.Common.{
  ℕ, ◌+◌, ◌≡◌, refl, arith, Option, some, List, [], ◌∷◌, Text, nat_beq, nat_beq_iff, if◌then◌else◌,
  nat_eq, text_eq, remove,
}
use mesh_talk.Common.Dict.{Dict, get, put}
use mesh_talk.Common.Exec.{modify}
use mesh_talk.Common.Exec.Keeps.{Keeps, Keeps-modify, keeps_rules}
use mesh_talk.Control.State.{
  Socket, Field, string, number, undefined, other, ControlMessage, ControlError, ClientData,
  DeviceLimit, RateLimit, PendingMessage, PendingCount, ControlRoom, Output, Platform, M, Phase,
  idle, verifying, settled, write_client, write_sockets, write_limits, write_rates, write_output,
}
use mesh_talk.Control.Limits.{
  Budget, signals, peer_fetches, control, open_window, open_relay_window, count_message,
  check_rate_limit, check_relay_rate_limit,
}
use mesh_talk.Control.Rooms.{signal_room, fetch_peers}
use mesh_talk.Control.Rooms.Joining.{join_room-IsHoused}
use mesh_talk.Control.Rooms.Bounds.{
  IsHoused, rooms_kept, client-IsHoused, with_client-IsHoused, retained-IsHoused, output-IsHoused,
  send-Keeps, broadcast-Keeps, leave_room-IsHoused,
}
use mesh_talk.Control.Relay.{write_limit, refill_device, reserve_relay_bandwidth, relay_datagram}
use mesh_talk.Control.Pending.{
  Raw, data_of, other, enqueue, admit_raw, release_client, release_ip, release_pending,
}
use mesh_talk.Control.Close.{
  drop_queued, unregister, forget_connection, handle_close, reject_client,
}
use mesh_talk.Control.Register.{
  Registration, begin_registration, replace_session, commit_registration, finish_registration,
}
use mesh_talk.Control.Messages.{
  new_client, register_client, connect, admit_message, with_text, dispatch, handle_message,
  set_phase, handle_registration, run_entry, take_entry, shift_queue, drain_next, resume_phase,
  resume, settle_phase, settle,
}
use mesh_talk.Control.System.{
  Step, accept, receive, drain, resumed, release, failed, close, init, Reach, start, next,
}
use mesh_talk.Control.System.Housing.Writes.{
  modify-IsHoused, sockets-IsHoused, limits-IsHoused, rates-IsHoused, write_output-IsHoused,
  forget-IsHoused, clients-IsHoused, rest-IsHoused, phase-IsHoused, take-IsHoused, enqueue-IsHoused,
  release_client-IsHoused, release_ip-IsHoused, put_signal-IsHoused, identify-IsHoused,
  open_relay-IsHoused, count_relay-IsHoused, count_rooms, count-IsHoused, writes,
}
use mesh_talk.Control.System.Housing.Handlers.{
  signal-IsHoused, fetch-IsHoused, rate-IsHoused, relay_rate-IsHoused, write_limit-IsHoused,
  refill-IsHoused, reserve-IsHoused, relay-IsHoused, release-IsHoused, drop-IsHoused,
  unregister-IsHoused, close-IsHoused, reject-IsHoused, begin-IsHoused, replace-IsHoused,
  commit-IsHoused, finish-IsHoused, with_text-IsHoused, dispatch-IsHoused, handle_message-IsHoused,
  admit_raw-IsHoused, admit-IsHoused, registration-IsHoused, run-IsHoused,
}

shift-IsHoused :
    (p : Platform) (phase : Phase) (queue : List PendingMessage)
    → Keeps IsHoused (shift_queue phase queue p)
shift-IsHoused p idle (e ∷ queue) = search (writes, run-IsHoused)
shift-IsHoused p idle [] = search keeps_rules
shift-IsHoused p (verifying e) queue = search keeps_rules
shift-IsHoused p (settled e) queue = search keeps_rules

drain-IsHoused : (p : Platform) → Keeps IsHoused (drain_next p)
unfolding drain_next
drain-IsHoused p = search (keeps_rules, shift-IsHoused)

resume_phase-IsHoused : (p : Platform) (phase : Phase) → Keeps IsHoused (resume_phase p phase)
resume_phase-IsHoused p (verifying e) = search (writes, finish-IsHoused, reject-IsHoused) depth 10
resume_phase-IsHoused p idle = search keeps_rules
resume_phase-IsHoused p (settled e) = search keeps_rules

resume-IsHoused : (p : Platform) → Keeps IsHoused (resume p)
unfolding resume
resume-IsHoused p = search (keeps_rules, resume_phase-IsHoused)

settle_phase-IsHoused : (phase : Phase) → Keeps IsHoused (settle_phase phase)
settle_phase-IsHoused (settled e) = search (writes, release-IsHoused)
settle_phase-IsHoused idle = search keeps_rules
settle_phase-IsHoused (verifying e) = search keeps_rules

settle-IsHoused : Keeps IsHoused settle
unfolding settle
settle-IsHoused = search (keeps_rules, settle_phase-IsHoused)

register-IsHoused :
    (s : Socket) (now : ℕ) (ip id challenge : Text)
    → Keeps {E = ControlError} IsHoused
        (modify (register_client s (new_client now ip id challenge)))
unfolding register_client new_client
register-IsHoused s now ip id challenge = Keeps-modify _ (λ r h.
    rooms_kept
      (record r {
        objects = λ j. if nat_beq s j then new_client now ip id challenge else r.objects j;
      })
      _ refl (λ j. refl)
      (with_client-IsHoused r s (new_client now ip id challenge) (omega arith) h))

connect-IsHoused :
    (p : Platform) (s : Socket) (ip id challenge : Text)
    → Keeps IsHoused (connect p s ip id challenge)
unfolding connect
connect-IsHoused p s ip id challenge = search (writes, register-IsHoused) depth 10

Step-IsHoused : {r r' : ControlRoom} → Step r r' → IsHoused r → IsHoused r'
Step-IsHoused (accept p s ip id challenge r fresh) h = (connect-IsHoused p s ip id challenge).at r h
Step-IsHoused (receive p s raw r) h = (admit-IsHoused p s raw).at r h
Step-IsHoused (drain p r) h = (drain-IsHoused p).at r h
Step-IsHoused (resumed p r) h = (resume-IsHoused p).at r h
Step-IsHoused (release r) h = settle-IsHoused.at r h
Step-IsHoused (failed p s e r) h = (reject-IsHoused p s e).at r h
Step-IsHoused (close p s r) h = (close-IsHoused p s).at r h

IsHoused-init : IsHoused init
unfolding get new_client
IsHoused-init = record {
  rooms = omega arith;
  members = λ id room e. ground (arith, e);
  joined = λ s. omega arith;
  secrets = λ id room e. absurd (ground (arith, e));
}

-- In every state that the service reaches, by any order of connections, frames, drain rounds,
-- failures and ends of connections: there are at most 10,000 rooms, a room has at most 64 members
-- and a stored secret of the form of one, and no client (also none whose connection has ended) is
-- in more than 32 rooms.
pub Reach-IsHoused : {r : ControlRoom} → Reach r → IsHoused r
Reach-IsHoused start = IsHoused-init
Reach-IsHoused (next reach step) = Step-IsHoused step (Reach-IsHoused reach)

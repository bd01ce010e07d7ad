-- ===== src/Control/System/Housing/Handlers.antt =====
-- control/src/worker.ts: the bounds of the rooms and the handlers of messages.
use mesh_talk.Common.{ℕ, Option, Text, nat_eq, text_eq}
use mesh_talk.Common.Exec.Keeps.{Keeps, keeps_rules}
use mesh_talk.Control.State.{
  Socket, Field, string, number, undefined, other, ControlMessage, ControlError, DeviceLimit,
  PendingMessage, Platform, M,
}
use mesh_talk.Control.Limits.{check_rate_limit, check_relay_rate_limit}
use mesh_talk.Control.Rooms.{signal_room, fetch_peers}
use mesh_talk.Control.Rooms.Joining.{join_room-IsHoused}
use mesh_talk.Control.Rooms.Bounds.{IsHoused, leave_room-IsHoused}
use mesh_talk.Control.Relay.{write_limit, refill_device, reserve_relay_bandwidth, relay_datagram}
use mesh_talk.Control.Pending.{Raw, data_of, other, admit_raw, release_pending}
use mesh_talk.Control.Close.{drop_queued, unregister, handle_close, reject_client}
use mesh_talk.Control.Register.{
  Registration, begin_registration, replace_session, commit_registration, finish_registration,
}
use mesh_talk.Control.Messages.{
  admit_message, with_text, dispatch, handle_message, handle_registration, run_entry,
}
use mesh_talk.Control.System.Housing.Writes.{rest-IsHoused, writes}

pub signal-IsHoused :
    (p : Platform) (s : Socket) (id t : Text) → Keeps IsHoused (signal_room p s id t)
unfolding signal_room
signal-IsHoused p s id t = search writes depth 12

pub fetch-IsHoused : (p : Platform) (s : Socket) (id : Text) → Keeps IsHoused (fetch_peers p s id)
unfolding fetch_peers
fetch-IsHoused p s id = search writes

pub rate-IsHoused :
    (p : Platform) (s : Socket) (f : Field) → Keeps IsHoused (check_rate_limit p s f)
unfolding check_rate_limit
rate-IsHoused p s f = search writes depth 10

pub relay_rate-IsHoused : (p : Platform) (s : Socket) → Keeps IsHoused (check_relay_rate_limit p s)
unfolding check_relay_rate_limit
relay_rate-IsHoused p s = search writes depth 10

pub write_limit-IsHoused :
    (id : Text) (f : DeviceLimit → DeviceLimit) → Keeps IsHoused (write_limit id f)
unfolding write_limit
write_limit-IsHoused id f = search writes

pub refill-IsHoused : (p : Platform) (id : Text) → Keeps IsHoused (refill_device p id)
unfolding refill_device
refill-IsHoused p id = search writes

pub reserve-IsHoused :
    (p : Platform) (id to : Text) (n : ℕ) → Keeps IsHoused (reserve_relay_bandwidth p id to n)
unfolding reserve_relay_bandwidth
reserve-IsHoused p id to n = search (writes, refill-IsHoused, write_limit-IsHoused) depth 20

pub relay-IsHoused :
    (p : Platform) (s : Socket) (id t : Text) → Keeps IsHoused (relay_datagram p s id t)
unfolding relay_datagram
relay-IsHoused p s id t = search (writes, reserve-IsHoused) depth 20

pub release-IsHoused : (e : PendingMessage) → Keeps IsHoused (release_pending e)
unfolding release_pending
release-IsHoused e = search writes depth 10

pub drop-IsHoused : (s : Socket) → Keeps IsHoused (drop_queued s)
unfolding drop_queued
drop-IsHoused s = search (writes, release-IsHoused, rest-IsHoused) depth 10

pub unregister-IsHoused : (s : Socket) (id : Text) → Keeps IsHoused (unregister s id)
unfolding unregister
unregister-IsHoused s id = search writes

pub close-IsHoused : (p : Platform) (s : Socket) → Keeps IsHoused (handle_close p s)
unfolding handle_close
close-IsHoused p s =
    search (writes, drop-IsHoused, unregister-IsHoused, leave_room-IsHoused) depth 14

pub reject-IsHoused :
    (p : Platform) (s : Socket) (e : ControlError) → Keeps IsHoused (reject_client p s e)
unfolding reject_client
reject-IsHoused p s e = search (writes, close-IsHoused) depth 10

pub begin-IsHoused :
    (p : Platform) (s : Socket) (m : ControlMessage) → Keeps IsHoused (begin_registration p s m)
unfolding begin_registration
begin-IsHoused p s m = search writes depth 10

pub replace-IsHoused :
    (p : Platform) (s : Socket) (old : Option Socket) → Keeps IsHoused (replace_session p s old)
unfolding replace_session
replace-IsHoused p s old = search (writes, close-IsHoused)

pub commit-IsHoused :
    (p : Platform) (s : Socket) (id : Text) → Keeps IsHoused (commit_registration p s id)
unfolding commit_registration
commit-IsHoused p s id = search (writes, replace-IsHoused) depth 12

pub finish-IsHoused :
    (p : Platform) (s : Socket) (g : Registration) → Keeps IsHoused (finish_registration p s g)
unfolding finish_registration
finish-IsHoused p s g = search (writes, commit-IsHoused) depth 10

pub with_text-IsHoused :
    (f : Field) (k : Text → M (Unit {0}))
    → ((t : Text) → Keeps IsHoused (k t))
    → Keeps IsHoused (with_text f k)
with_text-IsHoused (string s) k h = h s
with_text-IsHoused (number n) k h = search keeps_rules
with_text-IsHoused undefined k h = search keeps_rules
with_text-IsHoused other k h = search keeps_rules

pub dispatch-IsHoused :
    (p : Platform) (s : Socket) (m : ControlMessage) → Keeps IsHoused (dispatch p s m)
unfolding dispatch
dispatch-IsHoused p s m =
    search
      (
        keeps_rules, with_text-IsHoused, join_room-IsHoused, leave_room-IsHoused, signal-IsHoused,
        fetch-IsHoused, relay-IsHoused,
      )
      depth 10

pub handle_message-IsHoused :
    (p : Platform) (s : Socket) (m : ControlMessage) → Keeps IsHoused (handle_message p s m)
unfolding handle_message
handle_message-IsHoused p s m = search (keeps_rules, dispatch-IsHoused, reject-IsHoused) depth 10

pub admit_raw-IsHoused :
    (p : Platform) (s : Socket) (raw : Raw) → Keeps IsHoused (admit_raw p s raw)
unfolding admit_raw
admit_raw-IsHoused p s other = search keeps_rules
admit_raw-IsHoused p s (data_of n bytes parsed) =
    search (writes, rate-IsHoused, relay_rate-IsHoused) depth 14

pub admit-IsHoused :
    (p : Platform) (s : Socket) (raw : Raw) → Keeps IsHoused (admit_message p s raw)
unfolding admit_message
admit-IsHoused p s raw = search (keeps_rules, admit_raw-IsHoused, reject-IsHoused)

pub registration-IsHoused :
    (p : Platform) (e : PendingMessage) → Keeps IsHoused (handle_registration p e)
unfolding handle_registration
registration-IsHoused p e = search (writes, begin-IsHoused, reject-IsHoused) depth 10

pub run-IsHoused : (p : Platform) (e : PendingMessage) → Keeps IsHoused (run_entry p e)
unfolding run_entry
run-IsHoused p e =
    search (keeps_rules, registration-IsHoused, handle_message-IsHoused, reject-IsHoused) depth 8

-- ===== src/Control/System/Housing/Writes.antt =====
-- control/src/worker.ts: the bounds of the rooms and the writes outside the rooms.
use mesh_talk.Common.{
  ℕ, ◌+◌, ◌≡◌, refl, arith, some, List, Text, nat_beq_iff, nat_eq, text_eq, remove,
}
use mesh_talk.Common.Dict.{Dict, put}
use mesh_talk.Common.Exec.{modify}
use mesh_talk.Common.Exec.Keeps.{Keeps, Keeps-modify, keeps_rules}
use mesh_talk.Control.State.{
  Socket, ControlMessage, ControlError, ClientData, DeviceLimit, RateLimit, PendingMessage,
  PendingCount, ControlRoom, Output, Phase, write_client, write_sockets, write_limits, write_rates,
  write_output,
}
use mesh_talk.Control.Limits.{
  Budget, signals, peer_fetches, control, open_window, open_relay_window, count_message,
}
use mesh_talk.Control.Rooms.Bounds.{
  IsHoused, rooms_kept, client-IsHoused, with_client-IsHoused, retained-IsHoused, output-IsHoused,
  send-Keeps, broadcast-Keeps, leave_room-IsHoused,
}
use mesh_talk.Control.Pending.{enqueue, release_client, release_ip}
use mesh_talk.Control.Close.{forget_connection}
use mesh_talk.Control.Messages.{set_phase, take_entry}

-- A write that leaves the rooms and their members alone.
pub modify-IsHoused :
    (f : ControlRoom → ControlRoom)
    → ((r : ControlRoom) → (f r).rooms ≡ r.rooms)
    → ((r : ControlRoom) (j : Socket) → ((f r).objects j).rooms ≡ (r.objects j).rooms)
    → Keeps {E = ControlError} IsHoused (modify f)
modify-IsHoused f same joins = Keeps-modify f (λ r h. rooms_kept r (f r) (same r) (joins r) h)

pub sockets-IsHoused : (f : Dict Text Socket → Dict Text Socket) → Keeps IsHoused (write_sockets f)
unfolding write_sockets
sockets-IsHoused f = modify-IsHoused _ (λ r. refl) (λ r j. refl)

pub limits-IsHoused :
    (f : Dict Text DeviceLimit → Dict Text DeviceLimit) → Keeps IsHoused (write_limits f)
unfolding write_limits
limits-IsHoused f = modify-IsHoused _ (λ r. refl) (λ r j. refl)

pub rates-IsHoused :
    (f : Dict Text RateLimit → Dict Text RateLimit) → Keeps IsHoused (write_rates f)
unfolding write_rates
rates-IsHoused f = modify-IsHoused _ (λ r. refl) (λ r j. refl)

pub write_output-IsHoused : (o : Output) → Keeps IsHoused (write_output o)
unfolding write_output
write_output-IsHoused o = modify-IsHoused _ (λ r. refl) (λ r j. refl)

pub forget-IsHoused :
    (ip : Text) → Keeps {E = ControlError} IsHoused (modify (forget_connection ip))
unfolding forget_connection
forget-IsHoused ip = modify-IsHoused _ (λ r. refl) (λ r j. refl)

pub clients-IsHoused :
    (s : Socket)
    → Keeps {E = ControlError} IsHoused (modify (λ r. record r { clients = remove s r.clients }))
clients-IsHoused s = modify-IsHoused _ (λ r. refl) (λ r j. refl)

pub rest-IsHoused :
    (queue : List PendingMessage)
    → Keeps {E = ControlError} IsHoused (modify (λ r. record r { queue = queue }))
rest-IsHoused queue = modify-IsHoused _ (λ r. refl) (λ r j. refl)

pub phase-IsHoused : (phase : Phase) → Keeps IsHoused (set_phase phase)
phase-IsHoused phase = modify-IsHoused _ (λ r. refl) (λ r j. refl)

pub take-IsHoused :
    (e : PendingMessage) (queue : List PendingMessage)
    → Keeps {E = ControlError} IsHoused (modify (take_entry e queue))
unfolding take_entry
take-IsHoused e queue = modify-IsHoused _ (λ r. refl) (λ r j. refl)

pub enqueue-IsHoused :
    (s : Socket) (m : ControlMessage) (bytes : ℕ)
    → Keeps {E = ControlError} IsHoused (modify (enqueue s m bytes))
unfolding enqueue
enqueue-IsHoused s m bytes = modify-IsHoused _ (λ r. refl) (λ r j. ground (arith, nat_beq_iff s j))

pub release_client-IsHoused :
    (e : PendingMessage) → Keeps {E = ControlError} IsHoused (modify (release_client e))
unfolding release_client
release_client-IsHoused e =
    modify-IsHoused _ (λ r. refl) (λ r j. ground (arith, nat_beq_iff e.socket j))

pub release_ip-IsHoused :
    (ip : Text) (c : PendingCount) (bytes : ℕ)
    → Keeps {E = ControlError} IsHoused (modify (release_ip ip c bytes))
unfolding release_ip
release_ip-IsHoused ip c bytes = modify-IsHoused _ (λ r. refl) (λ r j. refl)

pub put_signal-IsHoused :
    (s : Socket) (id t : Text)
    → Keeps IsHoused (write_client s (λ d. record d { signals = put id t d.signals }))
put_signal-IsHoused s id t = client-IsHoused s _ (λ d. refl)

pub identify-IsHoused :
    (s : Socket) (id : Text) → Keeps IsHoused (write_client s (λ d. record d { peer_id = some id }))
identify-IsHoused s id = client-IsHoused s _ (λ d. refl)

pub open_relay-IsHoused :
    (s : Socket) (now : ℕ) → Keeps IsHoused (write_client s (open_relay_window now))
unfolding open_relay_window
open_relay-IsHoused s now = client-IsHoused s _ (λ d. ground arith)

pub count_relay-IsHoused :
    (s : Socket)
    → Keeps IsHoused
        (write_client s (λ d. record d { relay_frames_in_window = d.relay_frames_in_window + 1 }))
count_relay-IsHoused s = client-IsHoused s _ (λ d. refl)

pub count_rooms :
    (b : Budget) (now : ℕ) (d : ClientData) → (count_message b (open_window now d)).rooms ≡ d.rooms
unfolding count_message open_window
count_rooms signals now d = ground arith
count_rooms peer_fetches now d = ground arith
count_rooms control now d = ground arith

pub count-IsHoused :
    (s : Socket) (b : Budget) (now : ℕ)
    → Keeps IsHoused (write_client s (λ d. count_message b (open_window now d)))
count-IsHoused s b now = client-IsHoused s _ (count_rooms b now)

pub ruleset writes = (
  keeps_rules, sockets-IsHoused, limits-IsHoused, rates-IsHoused, write_output-IsHoused,
  forget-IsHoused, clients-IsHoused, phase-IsHoused, take-IsHoused, enqueue-IsHoused,
  release_client-IsHoused, release_ip-IsHoused, put_signal-IsHoused, identify-IsHoused,
  open_relay-IsHoused, count_relay-IsHoused, count-IsHoused, retained-IsHoused, send-Keeps,
  broadcast-Keeps, output-IsHoused,
)

-- ===== src/Control/System/Tests.antt =====
-- control/src/worker.ts: runs of the service at concrete inputs.
use mesh_talk.Common.{refl, true, false, contains, some, [], codes, nat_eq}
use mesh_talk.Control.State.{undefined, ControlMessage, ControlRoom, Platform}
use mesh_talk.Control.Pending.{data_of}
use mesh_talk.Control.Messages.{connect, admit_message}
use mesh_talk.Control.System.{IsFresh, accept, receive, init, Reach, start, next}
use mesh_talk.Control.System.Housing.{Reach-IsHoused}
use mesh_talk.Control.Rooms.Bounds.{IsHoused}
use mesh_talk.Control.System.Steps.{IsBooked, Reach-IsBooked}

abbrev pub platform : Platform
platform = record {
  now = 100_000;
  broken = λ s. false;
  relay_enabled = true;
  sha256_hex = λ bytes. [];
  canonical = λ signed. [];
  verify_ed25519 = λ key signature message. true;
  from_base64 = λ t. some t;
  to_base64 = λ bytes. bytes;
}

abbrev pub blank_message : ControlMessage
blank_message = record {
  type = undefined;
  room_id = undefined;
  room_auth = undefined;
  payload = undefined;
  recipient_id = undefined;
  challenge_id = undefined;
  nonce = undefined;
  issued_at = undefined;
  peer_id = undefined;
  signing_public_key = undefined;
  signature = undefined;
}

abbrev pub accepted : ControlRoom
accepted = (connect platform 1 (codes "10.0.0.1") (codes "id") (codes "nonce") init).1

abbrev received : ControlRoom
received = (admit_message platform 1 (data_of 20 20 (some blank_message)) accepted).1

IsFresh-init : IsFresh 1 init
unfolding contains
IsFresh-init = record { unknown = refl; unused = tt }

-- one client, one message on the queue
Reach-received : Reach received
Reach-received =
    next
      (next start
        (accept platform 1 (codes "10.0.0.1") (codes "id") (codes "nonce") init IsFresh-init))
      (receive platform 1 (data_of 20 20 (some blank_message)) accepted)

Reach-IsBooked_example : IsBooked received
Reach-IsBooked_example = Reach-IsBooked Reach-received

Reach-IsHoused_example : IsHoused received
Reach-IsHoused_example = Reach-IsHoused Reach-received

-- ===== src/Control/System.antt =====
-- control/src/worker.ts: the service as a whole. Each event of its sockets and each part of its
-- drain loop is a step, in any order; the platform and its clock are given anew to each step.
pub mod Books
pub mod Flight
pub mod Admission
pub mod Handlers
pub mod Steps
pub mod Housing
pub mod Tests
use mesh_talk.Common.{◌≡◌, ◌≢◌, false, List, [], ◌∷◌, ◌++◌, Text, nat_eq, contains, All}
use mesh_talk.Control.State.{
  Socket, ClientData, PendingMessage, ControlRoom, ControlError, Platform, Phase, idle, verifying,
  settled,
}
use mesh_talk.Control.Pending.{Raw}
use mesh_talk.Control.Close.{handle_close, reject_client}
use mesh_talk.Control.Messages.{new_client, connect, admit_message, drain_next, resume, settle}

-- the entry that `drainQueue` holds
abbrev pub held_by : Phase → List PendingMessage
held_by idle = []
held_by (verifying e) = e ∷ []
held_by (settled e) = e ∷ []

-- A new socket belongs to no client and to no entry in flight.
pub record IsFresh (s : Socket) (r : ControlRoom) : Type 0 where
  pub unknown : contains s r.clients ≡ false
  pub unused : All (λ e. e.socket ≢ s) (held_by r.phase ++ r.queue)

-- The events. `failed` is the error event of a socket.
pub data Step : ControlRoom → ControlRoom → Type 0 where
  accept :
      (p : Platform) (s : Socket) (ip challenge_id challenge : Text) (r : ControlRoom)
      → IsFresh s r
      → Step r (connect p s ip challenge_id challenge r).1
  receive :
      (p : Platform) (s : Socket) (raw : Raw) (r : ControlRoom) → Step r (admit_message p s raw r).1
  drain : (p : Platform) (r : ControlRoom) → Step r (drain_next p r).1
  resumed : (p : Platform) (r : ControlRoom) → Step r (resume p r).1
  release : (r : ControlRoom) → Step r (settle r).1
  failed :
      (p : Platform) (s : Socket) (e : ControlError) (r : ControlRoom)
      → Step r (reject_client p s e r).1
  close : (p : Platform) (s : Socket) (r : ControlRoom) → Step r (handle_close p s r).1

-- the state of a new object; no socket is known yet, and nothing reads what `objects` holds
abbrev pub blank_client : ClientData
blank_client = new_client 0 [] [] []

abbrev pub init : ControlRoom
init = record {
  rooms = [];
  connections_by_ip = [];
  rate_limits_by_ip = [];
  sockets_by_peer_id = [];
  device_limits = [];
  clients = [];
  objects = λ s. blank_client;
  connections = 0;
  retained_bytes = 0;
  queue = [];
  phase = idle;
  pending_messages = 0;
  pending_bytes = 0;
  pending_by_ip = [];
  output = [];
}

pub data Reach : ControlRoom → Type 0 where
  start : Reach init
  next : {r r' : ControlRoom} → Reach r → Step r r' → Reach r'

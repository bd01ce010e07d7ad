-- ===== src/Control/Messages.antt =====
-- control/src/worker.ts: the handlers of a connection's events. `fetch` from the acceptance on,
-- `admitMessage`, `drainQueue` and `handleMessage`.
use mesh_talk.Common.{
  ℕ, ◌+◌, ◌/◌, Bool, true, false, none, List, [], ◌∷◌, Text, leb, codes, nat_eq, text_eq, contains,
  add, if◌then◌else◌,
}
use mesh_talk.Common.Dict.{get, put, or_else}
use mesh_talk.Common.Exec.{pure, throw, gets, modify, with_some, try_catch, ◌>>=◌, ◌>>◌}
use mesh_talk.Control.Config.{max_connections, max_connections_per_ip}
use mesh_talk.Control.State.{
  Socket, Field, string, ControlMessage, ClientData, PendingMessage, ControlRoom, Platform, M,
  Phase, idle, verifying, settled, device_challenge, invalid_control_message, registration_required,
  update, send,
}
use mesh_talk.Control.Limits.{field_is}
use mesh_talk.Control.Rooms.{join_room, leave_room, signal_room, fetch_peers}
use mesh_talk.Control.Relay.{relay_datagram}
use mesh_talk.Control.Pending.{Raw, admit_raw, release_pending}
use mesh_talk.Control.Close.{reject_client}
use mesh_talk.Control.Register.{begin_registration, finish_registration, registration_of}

pub data Upgrade : Type 0 where
  switched : Upgrade
  refused : (status : ℕ) → Upgrade

unfoldable pub new_client : ℕ → Text → Text → Text → ClientData
new_client now ip challenge_id challenge = record {
  ip = ip;
  rooms = [];
  signals = [];
  window_started_at = now;
  control_messages_in_window = 0;
  signals_in_window = 0;
  peer_fetches_in_window = 0;
  relay_window_started_at = now;
  relay_frames_in_window = 0;
  challenge_id = challenge_id;
  challenge = challenge;
  challenge_expires_at = now / 1000 + 60;
  peer_id = none;
  pending_messages = 0;
  pending_bytes = 0;
}

unfoldable pub register_client : Socket → ClientData → ControlRoom → ControlRoom
register_client socket d r = record r {
  objects = update r.objects socket d;
  clients = add socket r.clients;
  connections = r.connections + 1;
  connections_by_ip = put d.ip (or_else (get d.ip r.connections_by_ip) 0 + 1) r.connections_by_ip;
}

-- `fetch` at the path of the rendezvous: the limits on connections, the new socket and its
-- challenge, whose two random texts are arguments
unfoldable pub connect : Platform → Socket → Text → Text → Text → M Upgrade
connect p socket ip challenge_id challenge = do
  r ← gets (λ (r : ControlRoom). r)
  if leb max_connections r.connections
      then pure (refused 503)
      else if leb max_connections_per_ip (or_else (get ip r.connections_by_ip) 0)
      then pure (refused 429)
      else do
        modify (register_client socket (new_client p.now ip challenge_id challenge))
        send p socket (device_challenge challenge_id challenge (p.now / 1000 + 60))
        pure switched

-- `admitMessage`; the drain that it starts is a step of its own
unfoldable pub admit_message : Platform → Socket → Raw → M (Unit {0})
admit_message p socket raw = do
  clients ← gets (λ (r : ControlRoom). r.clients)
  if contains socket clients
      then try_catch (admit_raw p socket raw) (reject_client p socket)
      else pure tt

abbrev pub is_type : ControlMessage → Text → Bool
is_type m t = field_is t m.type

abbrev pub with_text : Field → (Text → M (Unit {0})) → M (Unit {0})
with_text (string s) f = f s
with_text _ f = throw invalid_control_message

-- The branches of `handleMessage` after the registration. A message has one type, so that a branch
-- whose fields have the wrong types ends in the last one.
unfoldable pub dispatch : Platform → Socket → ControlMessage → M (Unit {0})
dispatch p socket m =
    if is_type m (codes "relay")
    then with_text m.recipient_id (λ id. with_text m.payload (λ t. relay_datagram p socket id t))
    else if is_type m (codes "join")
    then with_text m.room_id (λ id. with_text m.room_auth (λ t. join_room p socket id t))
    else if is_type m (codes "leave")
    then with_text m.room_id (leave_room p socket)
    else if is_type m (codes "signal")
    then with_text m.room_id (λ id. with_text m.payload (λ t. signal_room p socket id t))
    else if is_type m (codes "get_peers")
    then with_text m.room_id (fetch_peers p socket)
    else throw invalid_control_message

-- `handleMessage` for all but a registration
unfoldable pub handle_message : Platform → Socket → ControlMessage → M (Unit {0})
handle_message p socket m = do
  r ← gets (λ (r : ControlRoom). r)
  if contains socket r.clients
      then try_catch
          (with_some (r.objects socket).peer_id (λ _. dispatch p socket m)
            (throw registration_required))
          (reject_client p socket)
      else pure tt

abbrev pub set_phase : Phase → M (Unit {0})
set_phase phase = modify (λ (r : ControlRoom). record r { phase = phase })

-- a registration up to its first `await`, or to its rejection
unfoldable pub handle_registration : Platform → PendingMessage → M (Unit {0})
handle_registration p e = do
  clients ← gets (λ (r : ControlRoom). r.clients)
  if contains e.socket clients
      then (do
        begun ←
            try_catch (begin_registration p e.socket e.message >>= λ _. pure true)
              (λ x. reject_client p e.socket x >>= λ _. pure false)
        if begun then set_phase (verifying e) else pure tt)
      else pure tt

-- One round of the loop of `drainQueue`, up to where it releases the entry or awaits. What the
-- rejection itself throws is caught by the loop, which rejects again.
unfoldable pub run_entry : Platform → PendingMessage → M (Unit {0})
run_entry p e =
    try_catch
      (if is_type e.message (codes "device_register")
        then handle_registration p e
        else handle_message p e.socket e.message)
      (reject_client p e.socket)

-- The entry leaves the queue, and the drain holds it.
unfoldable pub take_entry : PendingMessage → List PendingMessage → ControlRoom → ControlRoom
take_entry e queue r = record r { queue = queue; phase = settled e }

abbrev pub shift_queue : Phase → List PendingMessage → Platform → M (Unit {0})
shift_queue idle (e ∷ queue) p = do modify (take_entry e queue); run_entry p e
shift_queue idle [] p = pure tt
shift_queue (verifying e) queue p = pure tt
shift_queue (settled e) queue p = pure tt

unfoldable pub drain_next : Platform → M (Unit {0})
drain_next p = do r ← gets (λ (r : ControlRoom). r); shift_queue r.phase r.queue p

abbrev pub resume_phase : Platform → Phase → M (Unit {0})
resume_phase p (verifying e) = do
  set_phase (settled e)
  try_catch
      (try_catch (with_some (registration_of e.message) (finish_registration p e.socket) (pure tt))
        (reject_client p e.socket))
      (reject_client p e.socket)
resume_phase p idle = pure tt
resume_phase p (settled e) = pure tt

-- the rest of a registration
unfoldable pub resume : Platform → M (Unit {0})
resume p = do r ← gets (λ (r : ControlRoom). r); resume_phase p r.phase

abbrev pub settle_phase : Phase → M (Unit {0})
settle_phase (settled e) = do set_phase idle; release_pending e
settle_phase idle = pure tt
settle_phase (verifying e) = pure tt

-- the `finally` of a round
unfoldable pub settle : M (Unit {0})
settle = do r ← gets (λ (r : ControlRoom). r); settle_phase r.phase

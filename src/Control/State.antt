-- ===== src/Control/State.antt =====
-- control/src/worker.ts: the state of the `ControlRoom` object, its frames and its errors.
--
-- A socket is a number. `objects` is the heap of `ClientData` objects, one for each socket that
-- was ever accepted: the source's closures and queue entries hold on to the object after the map
-- `clients` has lost it, so `clients` is modelled by its keys. Maps that the source only reads and
-- writes by key, and maps whose size it asks for, are lists in the order of insertion.
use mesh_talk.Common.{
  ℕ, Bool, List, [], ◌∷◌, ◌++◌, Option, none, some, Text, nat_beq, contains, if◌then◌else◌, nat_eq,
}
use mesh_talk.Common.Dict.{Dict}
use mesh_talk.Common.Int.{ℤ}
use mesh_talk.Common.Exec.{throw, Exec, modify}

abbrev pub Socket : Type 0
Socket = ℕ

-- a field of a message before its type is tested; of the numbers, the natural ones are `number`,
-- and all else, a fractional number included, is `other`
pub data Field : Type 0 where
  undefined other : Field
  string : Text → Field
  number : ℕ → Field

pub record ControlMessage : Type 0 where
  pub type : Field
  pub room_id : Field
  pub room_auth : Field
  pub payload : Field
  pub recipient_id : Field
  pub challenge_id : Field
  pub nonce : Field
  pub issued_at : Field
  pub peer_id : Field
  pub signing_public_key : Field
  pub signature : Field

-- An absent `peerId` is `none`: no empty text is ever stored there.
pub record ClientData : Type 0 where
  pub ip : Text
  pub rooms : List Text
  pub signals : Dict Text Text
  pub window_started_at : ℕ
  pub control_messages_in_window : ℕ
  pub signals_in_window : ℕ
  pub peer_fetches_in_window : ℕ
  pub relay_window_started_at : ℕ
  pub relay_frames_in_window : ℕ
  pub challenge_id : Text
  pub challenge : Text
  pub challenge_expires_at : ℕ
  pub peer_id : Option Text
  pub pending_messages : ℕ
  pub pending_bytes : ℕ

pub record RateLimit : Type 0 where
  pub window_started_at : ℕ
  pub control_messages_in_window : ℕ
  pub signals_in_window : ℕ
  pub peer_fetches_in_window : ℕ

pub record RoomState : Type 0 where
  pub auth : Text
  pub members : List Socket

-- Tokens are counted in thousandths of a byte, which keeps the refill of each millisecond whole.
pub record DeviceLimit : Type 0 where
  pub tokens : ℤ
  pub receive_tokens : ℤ
  pub updated_at : ℕ
  pub relay_peers : Dict Text ℕ

-- `data` is the object of the socket
pub record PendingMessage : Type 0 where
  pub socket : Socket
  pub message : ControlMessage
  pub bytes : ℕ

pub record PendingCount : Type 0 where
  pub messages : ℕ
  pub bytes : ℕ

-- the messages of the source's errors, and a failure of the platform's `send`
pub data ControlError : Type 0 where
  invalid_control_message control_message_too_large queue_full : ControlError
  registration_required invalid_registration identity_changed identity_mismatch : ControlError
  invalid_signature invalid_room_authorization too_many_joined_rooms : ControlError
  room_limit_reached room_authorization_failed room_full join_first : ControlError
  invalid_signal storage_limit_reached rate_limit_exceeded ip_rate_limit_exceeded : ControlError
  relay_rate_limit_exceeded relay_disabled invalid_relay_frame relay_unregistered : ControlError
  send_failed type_error : ControlError

pub data DropReason : Type 0 where
  unauthorized offline quota : DropReason

pub data Frame : Type 0 where
  device_challenge : (challenge_id nonce : Text) (expires_at : ℕ) → Frame
  device_registered : (peer_id : Text) (relay_enabled : Bool) → Frame
  refresh joined : (room_id : Text) (member_count : ℕ) → Frame
  signal relay : (id payload : Text) → Frame
  peers : (room_id : Text) (payloads : List Text) → Frame
  relay_dropped : (recipient_id : Text) (reason : DropReason) → Frame
  error : ControlError → Frame

pub data Output : Type 0 where
  sent : Socket → Frame → Output
  closed : Socket → ℕ → Output

-- `draining` and the entry that `drainQueue` holds: none, one that awaits the cryptography of a
-- registration, or one whose handler has ended and which is still to be released
pub data Phase : Type 0 where
  idle : Phase
  verifying settled : PendingMessage → Phase

pub record ControlRoom : Type 0 where
  pub rooms : Dict Text RoomState
  pub connections_by_ip : Dict Text ℕ
  pub rate_limits_by_ip : Dict Text RateLimit
  pub sockets_by_peer_id : Dict Text Socket
  pub device_limits : Dict Text DeviceLimit
  pub clients : List Socket
  pub objects : Socket → ClientData
  pub connections : ℕ
  pub retained_bytes : ℕ
  pub queue : List PendingMessage
  pub phase : Phase
  pub pending_messages : ℕ
  pub pending_bytes : ℕ
  pub pending_by_ip : Dict Text PendingCount
  pub output : List Output

-- the part of a registration that is signed; its `kind` and version are constant
pub record Signed : Type 0 where
  pub challenge_id : Text
  pub issued_at : ℕ
  pub nonce : Text
  pub peer_id : Text
  pub signing_public_key : Text

-- What a handler takes from its platform: the clock in milliseconds, the sockets on which `send`
-- throws while the handler runs, the setting of the relay, and the library calls.
pub record Platform : Type 0 where
  pub now : ℕ
  pub broken : Socket → Bool
  pub relay_enabled : Bool
  pub sha256_hex : List ℕ → Text
  pub canonical : Signed → List ℕ
  pub verify_ed25519 : Text → Text → List ℕ → Bool
  pub from_base64 : Text → Option (List ℕ)
  pub to_base64 : List ℕ → Text

abbrev pub M : Type 0 → Type 0
M A = Exec ControlRoom ControlError A

abbrev pub update {ℓ} : {A : Type ℓ} → (Socket → A) → Socket → A → Socket → A
update f i a j = if nat_beq i j then a else f j

-- `this.clients.get(socket)`
unfoldable pub client_of : ControlRoom → Socket → Option ClientData
client_of r s = if contains s r.clients then some (r.objects s) else none

-- Writes to one part of the state.
unfoldable pub write_rooms : (Dict Text RoomState → Dict Text RoomState) → M (Unit {0})
unfolding modify
write_rooms f = modify (λ r. record r { rooms = f r.rooms })

unfoldable pub write_client : Socket → (ClientData → ClientData) → M (Unit {0})
unfolding modify
write_client s f = modify (λ r. record r { objects = update r.objects s (f (r.objects s)) })

unfoldable pub write_retained : (ℕ → ℕ) → M (Unit {0})
unfolding modify
write_retained f = modify (λ r. record r { retained_bytes = f r.retained_bytes })

unfoldable pub write_sockets : (Dict Text Socket → Dict Text Socket) → M (Unit {0})
unfolding modify
write_sockets f = modify (λ r. record r { sockets_by_peer_id = f r.sockets_by_peer_id })

unfoldable pub write_limits : (Dict Text DeviceLimit → Dict Text DeviceLimit) → M (Unit {0})
unfolding modify
write_limits f = modify (λ r. record r { device_limits = f r.device_limits })

unfoldable pub write_rates : (Dict Text RateLimit → Dict Text RateLimit) → M (Unit {0})
unfolding modify
write_rates f = modify (λ r. record r { rate_limits_by_ip = f r.rate_limits_by_ip })

unfoldable pub write_output : Output → M (Unit {0})
unfolding modify
write_output o = modify (λ r. record r { output = r.output ++ o ∷ [] })

-- `send`
unfoldable pub send : Platform → Socket → Frame → M (Unit {0})
unfolding throw
send p s f = if p.broken s then throw send_failed else write_output (sent s f)

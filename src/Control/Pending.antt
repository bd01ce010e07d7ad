-- ===== src/Control/Pending.antt =====
-- control/src/worker.ts: the queue of admitted messages and its accounts. `admitMessage` up to the
-- queue, and `releasePending`.
pub mod Accounts
pub mod Tally
use mesh_talk.Common.{
  ℕ, ◌+◌, ◌-◌, Bool, true, false, ◌||◌, Option, [], ◌∷◌, ◌++◌, Text, ltb, leb, nat_beq, codes,
  text_eq, if◌then◌else◌,
}
use mesh_talk.Common.Dict.{get, put, delete, or_else}
use mesh_talk.Common.Exec.{throw, gets, modify, throw_if, with_some, ◌>>=◌, ◌>>◌}
use mesh_talk.Control.Config.{
  max_control_message_bytes, max_pending_messages, max_pending_message_bytes,
  max_pending_messages_per_client, max_pending_message_bytes_per_client,
  max_pending_messages_per_ip, max_pending_message_bytes_per_ip,
}
use mesh_talk.Control.State.{
  Socket, Field, string, ControlMessage, ClientData, PendingMessage, PendingCount, ControlRoom,
  Platform, M, invalid_control_message, control_message_too_large, queue_full, type_error,
}
use mesh_talk.Control.Limits.{field_is, check_rate_limit, check_relay_rate_limit}

-- A frame of a client: its raw length, its length in bytes, and what parsing makes of it, `none`
-- where the text is no JSON or the value no object. `other` is neither a text nor a buffer.
pub data Raw : Type 0 where
  data_of : (raw_length bytes : ℕ) → Option ControlMessage → Raw
  other : Raw

abbrev pub no_messages : PendingCount
no_messages = record { messages = 0; bytes = 0 }

abbrev pub is_of : Socket → PendingMessage → Bool
is_of socket entry = nat_beq entry.socket socket

abbrev pub is_string : Field → Bool
is_string (string s) = true
is_string _ = false

abbrev pub is_relay : ControlMessage → Bool
is_relay m =
    if field_is (codes "relay") m.type
    then (if is_string m.recipient_id then is_string m.payload else false)
    else false

unfoldable pub is_full : ControlRoom → ClientData → PendingCount → ℕ → Bool
is_full r d ip bytes =
    leb max_pending_messages r.pending_messages
    || ltb max_pending_message_bytes (r.pending_bytes + bytes)
    || leb max_pending_messages_per_client d.pending_messages
    || ltb max_pending_message_bytes_per_client (d.pending_bytes + bytes)
    || leb max_pending_messages_per_ip ip.messages
    || ltb max_pending_message_bytes_per_ip (ip.bytes + bytes)

-- the writes that put a message on the queue
unfoldable pub enqueue : Socket → ControlMessage → ℕ → ControlRoom → ControlRoom
enqueue socket message bytes r =
    let d = r.objects socket in
    let ip = or_else (get d.ip r.pending_by_ip) no_messages in
    record r {
      objects = λ s.
          if nat_beq socket s
          then (record d {
            pending_messages = d.pending_messages + 1;
            pending_bytes = d.pending_bytes + bytes;
          })
          else r.objects s;
      pending_by_ip =
          put d.ip (record { messages = ip.messages + 1; bytes = ip.bytes + bytes })
            r.pending_by_ip;
      pending_messages = r.pending_messages + 1;
      pending_bytes = r.pending_bytes + bytes;
      queue = r.queue ++ (record { socket = socket; message = message; bytes = bytes }) ∷ [];
    }

-- the `try` block of `admitMessage`
unfoldable pub admit_raw : Platform → Socket → Raw → M (Unit {0})
admit_raw p socket other = throw invalid_control_message
admit_raw p socket (data_of raw_length bytes parsed) = do
  throw_if (ltb max_control_message_bytes raw_length) control_message_too_large
  throw_if (ltb max_control_message_bytes bytes) control_message_too_large
  r ← gets (λ (r : ControlRoom). r)
  let d = r.objects socket
  throw_if (is_full r d (or_else (get d.ip r.pending_by_ip) no_messages) bytes) queue_full
  with_some parsed
      (λ message. do
        if is_relay message
            then check_relay_rate_limit p socket
            else check_rate_limit p socket message.type
        modify (enqueue socket message bytes))
      (throw invalid_control_message)

-- the writes of `releasePending` before it reads the account of the address
unfoldable pub release_client : PendingMessage → ControlRoom → ControlRoom
release_client entry r =
    let d = r.objects entry.socket in
    record r {
      objects = λ s.
          if nat_beq entry.socket s
          then (record d {
            pending_messages = d.pending_messages - 1;
            pending_bytes = d.pending_bytes - entry.bytes;
          })
          else r.objects s;
      pending_messages = r.pending_messages - 1;
      pending_bytes = r.pending_bytes - entry.bytes;
    }

-- an account with no message left is deleted
unfoldable pub release_ip : Text → PendingCount → ℕ → ControlRoom → ControlRoom
release_ip ip count bytes r = record r {
  pending_by_ip =
      if nat_beq (count.messages - 1) 0
      then delete ip r.pending_by_ip
      else put ip (record { messages = count.messages - 1; bytes = count.bytes - bytes })
          r.pending_by_ip;
}

-- A missing account throws, as `!` on `undefined` does at its first use.
unfoldable pub release_pending : PendingMessage → M (Unit {0})
release_pending entry = do
  modify (release_client entry)
  r ← gets (λ (r : ControlRoom). r)
  let ip = (r.objects entry.socket).ip
  with_some (get ip r.pending_by_ip) (λ count. modify (release_ip ip count entry.bytes))
      (throw type_error)

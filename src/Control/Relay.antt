-- ===== src/Control/Relay.antt =====
-- control/src/worker.ts: the relay. `peersShareRoom`, `reserveRelayBandwidth`, `relayDatagram`.
pub mod Tokens
pub mod Bandwidth
pub mod Payment
pub mod Spending
pub mod Throughput
pub mod Delivery
use mesh_talk.Common.{
  ℕ, ◌-◌, ◌*◌, Bool, true, false, not, ◌&&◌, ◌||◌, Option, none, some, List, [], ◌∷◌, Text, ltb,
  leb, nat_eq, text_eq, ◌==◌, length, keep, if◌then◌else◌,
}
use mesh_talk.Common.Int.{ℤ, pos, ◌+ℤ◌, ◌-ℤ◌, ltb_ℤ, min_ℤ, sub_ℕ}
use mesh_talk.Common.Dict.{get, has, put}
use mesh_talk.Common.Exec.{pure, throw, gets, throw_if, with_some, ◌>>=◌, ◌>>◌}
use mesh_talk.Control.Config.{
  peer_id_test, max_relay_frame_length, max_relay_peers_per_device, relay_peer_idle_ms,
  relay_bytes_per_second, relay_burst_bytes,
}
use mesh_talk.Control.State.{
  Socket, ClientData, DeviceLimit, ControlRoom, Platform, M, relay, relay_dropped, unauthorized,
  offline, quota, relay_disabled, invalid_relay_frame, relay_unregistered, client_of, write_limits,
  send,
}
use mesh_talk.Control.Rooms.{members_of, is_empty}

abbrev pub text_is : Option Text → Text → Bool
text_is none t = false
text_is (some s) t = s == t

abbrev peer_of : Option ClientData → Option Text
peer_of none = none
peer_of (some d) = d.peer_id

-- `members.some(member => this.clients.get(member)?.peerId === recipientId)`
unfoldable pub any_is_peer : ControlRoom → Text → List Socket → Bool
unfolding client_of
any_is_peer r recipient_id [] = false
any_is_peer r recipient_id (m ∷ ms) =
    text_is (peer_of (client_of r m)) recipient_id || any_is_peer r recipient_id ms

unfoldable pub any_room_has : ControlRoom → Text → List Text → Bool
unfolding any_is_peer members_of
any_room_has r recipient_id [] = false
any_room_has r recipient_id (room_id ∷ rooms) =
    any_is_peer r recipient_id (members_of r room_id) || any_room_has r recipient_id rooms

abbrev pub differs : Option Text → Text → Bool
differs none t = false
differs (some s) t = not (s == t)

unfoldable pub peers_share_room : ControlRoom → Socket → Text → Bool
unfolding any_room_has
peers_share_room r socket recipient_id =
    differs (r.objects socket).peer_id recipient_id
    && any_room_has r recipient_id (r.objects socket).rooms

-- the capacity of a bucket, in thousandths of a byte
abbrev pub burst : ℤ
burst = pos (relay_burst_bytes * 1000)

-- what flows in between two times; the clock of the platform may step back
abbrev pub elapsed_tokens : ℕ → ℕ → ℤ
elapsed_tokens now since = sub_ℕ (now * relay_bytes_per_second) (since * relay_bytes_per_second)

unfoldable pub refill : ℕ → DeviceLimit → DeviceLimit
refill now l = record l {
  tokens = min_ℤ burst (l.tokens +ℤ elapsed_tokens now l.updated_at);
  receive_tokens = min_ℤ burst (l.receive_tokens +ℤ elapsed_tokens now l.updated_at);
  updated_at = now;
}

-- one round of the `map` over sender and recipient
unfoldable pub refill_device : Platform → Text → M (Unit {0})
refill_device p id = do
  limits ← gets (λ (r : ControlRoom). r.device_limits)
  with_some (get id limits) (λ l. write_limits (put id (refill p.now l))) (throw relay_unregistered)

-- a peer that was last sent to at `seen` holds its slot
abbrev pub is_recent : ℕ → Text × ℕ → Bool
is_recent now (_, seen) = leb (now - seen) relay_peer_idle_ms

unfoldable pub forget_idle : ℕ → DeviceLimit → DeviceLimit
forget_idle now l = record l { relay_peers = keep (is_recent now) l.relay_peers }

abbrev pub cost : ℕ → ℤ
cost bytes = pos (bytes * 1000)

unfoldable pub write_limit : Text → (DeviceLimit → DeviceLimit) → M (Unit {0})
write_limit id f = do
  limits ← gets (λ (r : ControlRoom). r.device_limits)
  with_some (get id limits) (λ l. write_limits (put id (f l))) (pure tt)

unfoldable pub take_tokens : ℕ → Text → ℕ → DeviceLimit → DeviceLimit
take_tokens now recipient_id bytes l = record l {
  relay_peers = put recipient_id now l.relay_peers;
  tokens = l.tokens -ℤ cost bytes;
}

unfoldable pub take_receive_tokens : ℕ → DeviceLimit → DeviceLimit
take_receive_tokens bytes l = record l { receive_tokens = l.receive_tokens -ℤ cost bytes }

-- both limits are there after the two refills
unfoldable pub reserve_relay_bandwidth : Platform → Text → Text → ℕ → M Bool
reserve_relay_bandwidth p peer_id recipient_id bytes = do
  refill_device p peer_id
  refill_device p recipient_id
  write_limit peer_id (forget_idle p.now)
  limits ← gets (λ (r : ControlRoom). r.device_limits)
  with_some (get peer_id limits)
      (λ sender.
        with_some (get recipient_id limits)
          (λ recipient.
            if ltb_ℤ sender.tokens (cost bytes) || ltb_ℤ recipient.receive_tokens (cost bytes)
            then pure false
            else if not (has recipient_id sender.relay_peers)
                && leb max_relay_peers_per_device (length sender.relay_peers)
            then pure false
            else do
              write_limit peer_id (take_tokens p.now recipient_id bytes)
              write_limit recipient_id (take_receive_tokens bytes)
              pure true)
          (throw relay_unregistered))
      (throw relay_unregistered)

-- the bytes of a payload that is the one base64 text of 1 to 1200 bytes
unfoldable pub frame_of : Platform → Text → Option (List ℕ)
frame_of p payload = elim (p.from_base64 payload) [
  | none ↦ none
  | some frame ↦
      if is_empty frame
        || ltb max_relay_frame_length (length frame)
        || not (p.to_base64 frame == payload)
      then none
      else some frame
]

unfoldable pub relay_datagram : Platform → Socket → Text → Text → M (Unit {0})
relay_datagram p socket recipient_id payload = do
  throw_if (not p.relay_enabled) relay_disabled
  r ← gets (λ (r : ControlRoom). r)
  with_some (r.objects socket).peer_id
      (λ peer_id. do
        throw_if (not (peer_id_test recipient_id)) invalid_relay_frame
        with_some (frame_of p payload)
            (λ frame.
              if not (peers_share_room r socket recipient_id)
              then send p socket (relay_dropped recipient_id unauthorized)
              else with_some (get recipient_id r.sockets_by_peer_id)
                  (λ recipient. do
                    reserved ← reserve_relay_bandwidth p peer_id recipient_id (length frame)
                    if reserved
                        then send p recipient (relay peer_id payload)
                        else send p socket (relay_dropped recipient_id quota))
                  (send p socket (relay_dropped recipient_id offline)))
            (throw invalid_relay_frame))
      (throw invalid_relay_frame)

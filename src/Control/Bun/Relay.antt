-- ===== src/Control/Bun/Relay.antt =====
-- control/src/index.ts: the relay. `peersShareRoom`, `reserveRelayBandwidth`, `relayDatagram`.
use mesh_talk.Common.{
  ℕ, Bool, true, false, not, ◌&&◌, ◌||◌, Option, none, some, List, [], ◌∷◌, Text, ltb, leb, nat_eq,
  text_eq, ◌==◌, length, if◌then◌else◌,
}
use mesh_talk.Common.Int.{ltb_ℤ}
use mesh_talk.Common.Dict.{get, has, put}
use mesh_talk.Common.Exec.{pure, throw, gets, throw_if, with_some, ◌>>=◌, ◌>>◌}
use mesh_talk.Control.Config.{peer_id_test, max_relay_frame_length, max_relay_peers_per_device}
use mesh_talk.Control.State.{
  Socket, DeviceLimit, Platform, relay, relay_dropped, unauthorized, offline, quota, relay_disabled,
  invalid_relay_frame, relay_unregistered,
}
use mesh_talk.Control.Rooms.{is_empty}
use mesh_talk.Control.Relay.{
  text_is, differs, refill, forget_idle, cost, take_tokens, take_receive_tokens,
}
use mesh_talk.Control.Bun.State.{Server, B, write_limits, send}
use mesh_talk.Control.Bun.Rooms.{members_of}

-- `.some((member) => member.data.peerId === recipientId)`
unfoldable pub any_is_peer : Server → Text → List Socket → Bool
any_is_peer r recipient_id [] = false
any_is_peer r recipient_id (m ∷ ms) =
    text_is (r.objects m).peer_id recipient_id || any_is_peer r recipient_id ms

unfoldable pub any_room_has : Server → Text → List Text → Bool
unfolding any_is_peer members_of
any_room_has r recipient_id [] = false
any_room_has r recipient_id (room_id ∷ rooms) =
    any_is_peer r recipient_id (members_of r room_id) || any_room_has r recipient_id rooms

unfoldable pub peers_share_room : Server → Socket → Text → Bool
unfolding any_room_has
peers_share_room r socket recipient_id =
    differs (r.objects socket).peer_id recipient_id
    && any_room_has r recipient_id (r.objects socket).rooms

-- one round of the `map` over sender and recipient
unfoldable pub refill_device : Platform → Text → B (Unit {0})
refill_device p id = do
  limits ← gets (λ (r : Server). r.device_limits)
  with_some (get id limits) (λ l. write_limits (put id (refill p.now l))) (throw relay_unregistered)

unfoldable pub write_limit : Text → (DeviceLimit → DeviceLimit) → B (Unit {0})
write_limit id f = do
  limits ← gets (λ (r : Server). r.device_limits)
  with_some (get id limits) (λ l. write_limits (put id (f l))) (pure tt)

-- both limits are there after the two refills
unfoldable pub reserve_relay_bandwidth : Platform → Text → Text → ℕ → B Bool
reserve_relay_bandwidth p peer_id recipient_id bytes = do
  refill_device p peer_id
  refill_device p recipient_id
  write_limit peer_id (forget_idle p.now)
  limits ← gets (λ (r : Server). r.device_limits)
  with_some (get peer_id limits)
      (λ sender.
        with_some (get recipient_id limits)
          (λ recipient.
            if ltb_ℤ sender.tokens (cost bytes) || ltb_ℤ recipient.receive_tokens (cost bytes)
            then pure false
            else if not (has recipient_id sender.relay_peers)
                && leb max_relay_peers_per_device (length sender.relay_peers)
            then pure false
            else do
              write_limit peer_id (take_tokens p.now recipient_id bytes)
              write_limit recipient_id (take_receive_tokens bytes)
              pure true)
          (throw relay_unregistered))
      (throw relay_unregistered)

-- `Buffer.from(payload, "base64")` reads any text; `decode` stands for it.
unfoldable pub frame_of : Platform → (Text → List ℕ) → Text → Option (List ℕ)
frame_of p decode payload =
    let frame = decode payload in
    if is_empty frame
      || ltb max_relay_frame_length (length frame)
      || not (p.to_base64 frame == payload)
    then none
    else some frame

unfoldable pub relay_datagram : Platform → (Text → List ℕ) → Socket → Text → Text → B (Unit {0})
relay_datagram p decode socket recipient_id payload = do
  throw_if (not p.relay_enabled) relay_disabled
  r ← gets (λ (r : Server). r)
  with_some (r.objects socket).peer_id
      (λ peer_id. do
        throw_if (not (peer_id_test recipient_id)) invalid_relay_frame
        with_some (frame_of p decode payload)
            (λ frame.
              if not (peers_share_room r socket recipient_id)
              then send p socket (relay_dropped recipient_id unauthorized)
              else with_some (get recipient_id r.sockets_by_peer_id)
                  (λ recipient. do
                    reserved ← reserve_relay_bandwidth p peer_id recipient_id (length frame)
                    if reserved
                        then send p recipient (relay peer_id payload)
                        else send p socket (relay_dropped recipient_id quota))
                  (send p socket (relay_dropped recipient_id offline)))
            (throw invalid_relay_frame))
      (throw invalid_relay_frame)

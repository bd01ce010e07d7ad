-- ===== src/Control/Bun/Register.antt =====
-- control/src/index.ts: `registerDevice`, which runs to its end at once.
use mesh_talk.Common.{
  ℕ, ◌/◌, Bool, not, ◌&&◌, Option, some, Text, ltb, nat_beq, text_eq, ◌==◌, if◌then◌else◌,
}
use mesh_talk.Common.Dict.{get, has, put}
use mesh_talk.Common.Exec.{pure, throw, gets, throw_if, with_some, ◌>>=◌, ◌>>◌}
use mesh_talk.Control.Config.{peer_id_test, hex_32_test, hex_64_test}
use mesh_talk.Control.Wire.{from_hex}
use mesh_talk.Control.State.{
  Socket, ControlMessage, Platform, device_registered, closed, invalid_registration,
  identity_changed, identity_mismatch, invalid_signature,
}
use mesh_talk.Control.Register.{Registration, registration_of, distance, is_other_peer, new_limit}
use mesh_talk.Control.Bun.State.{
  SocketData, Server, B, write_client, write_sockets, write_limits, write_output, send,
}
use mesh_talk.Control.Bun.Close.{close_client}

-- the tests of the first condition but for the types; `now` in seconds
unfoldable pub is_acceptable : ℕ → SocketData → Registration → Bool
is_acceptable now d g =
    (g.signed.challenge_id == d.challenge_id)
    && (g.signed.nonce == d.challenge)
    && not (ltb 30 (distance now g.signed.issued_at))
    && peer_id_test g.signed.peer_id
    && hex_32_test g.signed.signing_public_key
    && hex_64_test g.signature

-- the older session of the device, which is closed
unfoldable pub replace_session : Platform → Socket → Option Socket → B (Unit {0})
replace_session p socket previous =
    with_some previous
      (λ old.
        if nat_beq old socket
        then pure tt
        else do close_client p old; write_output (closed old 4000))
      (pure tt)

unfoldable pub commit_registration : Platform → Socket → Text → B (Unit {0})
commit_registration p socket peer_id = do
  sockets ← gets (λ (r : Server). r.sockets_by_peer_id)
  write_client socket (λ d. record d { peer_id = some peer_id })
  write_sockets (put peer_id socket)
  replace_session p socket (get peer_id sockets)
  limits ← gets (λ (r : Server). r.device_limits)
  if has peer_id limits then pure tt else write_limits (put peer_id (new_limit p.now))
  send p socket (device_registered peer_id p.relay_enabled)

unfoldable pub register_device : Platform → Socket → ControlMessage → B (Unit {0})
register_device p socket message = do
  d ← gets (λ (r : Server). r.objects socket)
  with_some (registration_of message)
      (λ g. do
        throw_if (not (is_acceptable (p.now / 1000) d g)) invalid_registration
        throw_if (is_other_peer d.peer_id g.signed.peer_id) identity_changed
        let key = from_hex g.signed.signing_public_key
        throw_if (not (p.sha256_hex key == g.signed.peer_id)) identity_mismatch
        throw_if
            (not (p.verify_ed25519 g.signed.signing_public_key g.signature (p.canonical g.signed)))
            invalid_signature
        commit_registration p socket g.signed.peer_id)
      (throw invalid_registration)

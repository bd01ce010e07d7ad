-- ===== src/Control/Register.antt =====
-- control/src/worker.ts: `registerDevice`, in two parts. The second part runs when the awaited
-- cryptography has ended; other events may run in between.
use mesh_talk.Common.{
  ℕ, ◌+◌, ◌-◌, ◌/◌, Bool, false, not, ◌&&◌, Option, none, some, [], Text, ltb, nat_beq, nat_eq,
  text_eq, ◌==◌, contains, if◌then◌else◌,
}
use mesh_talk.Common.Dict.{get, put, has}
use mesh_talk.Common.Exec.{pure, throw, gets, throw_if, with_some, ◌>>=◌, ◌>>◌}
use mesh_talk.Control.Config.{peer_id_test, hex_32_test, hex_64_test}
use mesh_talk.Control.Wire.{from_hex}
use mesh_talk.Control.State.{
  Socket, Field, string, number, ControlMessage, ClientData, DeviceLimit, ControlRoom, Signed,
  Platform, M, device_registered, closed, invalid_registration, identity_changed, identity_mismatch,
  invalid_signature, write_client, write_sockets, write_limits, write_output, send,
}
use mesh_talk.Control.Relay.{burst}
use mesh_talk.Control.Close.{handle_close}

-- The fields of a registration, once their types are tested.
pub record Registration : Type 0 where
  pub signed : Signed
  pub signature : Text

abbrev pub texts_of : Field → Option Text
texts_of (string s) = some s
texts_of _ = none

abbrev pub number_of : Field → Option ℕ
number_of (number n) = some n
number_of _ = none

infixl 5 ◌>>=?◌
abbrev ◌>>=?◌ : {A B : Type 0} → Option A → (A → Option B) → Option B
none >>=? f = none
some a >>=? f = f a

-- the `typeof` tests
unfoldable pub registration_of : ControlMessage → Option Registration
registration_of m = texts_of m.challenge_id >>=? λ challenge_id. texts_of m.nonce >>=? λ nonce.
    number_of m.issued_at >>=? λ issued_at. texts_of m.peer_id >>=? λ peer_id.
    texts_of m.signing_public_key >>=? λ key. texts_of m.signature >>=? λ signature. some (record {
      signed = record {
        challenge_id = challenge_id;
        issued_at = issued_at;
        nonce = nonce;
        peer_id = peer_id;
        signing_public_key = key;
      };
      signature = signature;
    })

-- `Math.abs(a - b)`
abbrev pub distance : ℕ → ℕ → ℕ
distance a b = (a - b) + (b - a)

-- the other tests of the first condition; `now` in seconds
unfoldable pub is_acceptable : ℕ → ClientData → Registration → Bool
is_acceptable now d g =
    (g.signed.challenge_id == d.challenge_id)
    && (g.signed.nonce == d.challenge)
    && not (ltb 30 (distance now g.signed.issued_at))
    && peer_id_test g.signed.peer_id
    && hex_32_test g.signed.signing_public_key
    && hex_64_test g.signature

abbrev pub is_other_peer : Option Text → Text → Bool
is_other_peer none id = false
is_other_peer (some old) id = not (old == id)

-- up to the first `await`
unfoldable pub begin_registration : Platform → Socket → ControlMessage → M Registration
begin_registration p socket message = do
  d ← gets (λ (r : ControlRoom). r.objects socket)
  with_some (registration_of message)
      (λ g. do
        throw_if (not (is_acceptable (p.now / 1000) d g)) invalid_registration
        throw_if (is_other_peer d.peer_id g.signed.peer_id) identity_changed
        pure g)
      (throw invalid_registration)

abbrev pub new_limit : ℕ → DeviceLimit
new_limit now = record {
  tokens = burst;
  receive_tokens = burst;
  updated_at = now;
  relay_peers = [];
}

-- the older session of the device, which is closed
unfoldable pub replace_session : Platform → Socket → Option Socket → M (Unit {0})
replace_session p socket previous =
    with_some previous
      (λ old.
        if nat_beq old socket
        then pure tt
        else do handle_close p old; write_output (closed old 4000))
      (pure tt)

unfoldable pub commit_registration : Platform → Socket → Text → M (Unit {0})
commit_registration p socket peer_id = do
  sockets ← gets (λ (r : ControlRoom). r.sockets_by_peer_id)
  write_client socket (λ d. record d { peer_id = some peer_id })
  write_sockets (put peer_id socket)
  replace_session p socket (get peer_id sockets)
  limits ← gets (λ (r : ControlRoom). r.device_limits)
  if has peer_id limits then pure tt else write_limits (put peer_id (new_limit p.now))
  send p socket (device_registered peer_id p.relay_enabled)

-- from the results of the `await`s on
unfoldable pub finish_registration : Platform → Socket → Registration → M (Unit {0})
finish_registration p socket g = do
  let key = from_hex g.signed.signing_public_key
  throw_if (not (p.sha256_hex key == g.signed.peer_id)) identity_mismatch
  throw_if (not (p.verify_ed25519 g.signed.signing_public_key g.signature (p.canonical g.signed)))
      invalid_signature
  clients ← gets (λ (r : ControlRoom). r.clients)
  if contains socket clients then commit_registration p socket g.signed.peer_id else pure tt

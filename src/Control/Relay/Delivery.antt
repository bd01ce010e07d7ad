-- ===== src/Control/Relay/Delivery.antt =====
-- control/src/worker.ts: whom a relayed datagram reaches.
use mesh_talk.Common.{
  ℕ, ◌≤◌, ◌||◌, ltb, ◌==◌, Option-cases, Bool-cases, ◌≡◌, refl, subst, ap, sym, ◌∙◌, arith, true,
  false, not, none, some, List, [], ◌∷◌, ◌++◌, Text, text_eq, nat_eq, length, inl, inr,
}
use mathlib.Core.List.{append-nil}
use mesh_talk.Common.Dict.{Dict, get, or_else}
use mesh_talk.Common.Exec.Keeps.{Keeps, Keeps-modify, keeps_rules}
use mesh_talk.Common.Exec.Triple.{
  of_Outcome, Triple, Triple-throw, Triple-gets, Triple-throw_if, Triple-if, Triple-with_some,
  Triple-fact, Triple-bind, Triple-before, Triple-Keeps,
}
use mesh_talk.Control.Config.{peer_id_test}
use mesh_talk.Control.State.{
  Socket, DeviceLimit, ControlRoom, Platform, Frame, Output, sent, relay, relay_dropped,
  unauthorized, offline, quota, DropReason, write_limits, write_output, send,
}
use mesh_talk.Control.Rooms.{is_empty}
use mesh_talk.Control.Relay.{
  peers_share_room, frame_of, refill_device, write_limit, reserve_relay_bandwidth, relay_datagram,
}

-- The payload is the base64 text of a frame of 1 to 1200 bytes.
pub record IsFrame (p : Platform) (payload : Text) (frame : List ℕ) : Type 0 where
  pub decoded : p.from_base64 payload ≡ some frame
  pub encoded : p.to_base64 frame ≡ payload
  pub some_bytes : 1 ≤ length frame
  pub few_bytes : length frame ≤ 1200

nonempty : (bytes : List ℕ) → is_empty bytes ≡ false → 1 ≤ length bytes
nonempty [] h = ground (arith, h)
nonempty (b ∷ bytes) h = omega arith

-- What has to hold for a relay frame: the sender is registered, the payload is a frame, the two
-- share a room, and the socket is the one of the recipient.
pub record IsAuthorized (p : Platform) (s : Socket) (to payload : Text) (r : ControlRoom)
    (q : Socket) (from : Text) : Type 0 where
  pub enabled : p.relay_enabled ≡ true
  pub sender : (r.objects s).peer_id ≡ some from
  pub recipient_id : peer_id_test to ≡ true
  pub frame : List ℕ
  pub is_frame : IsFrame p payload frame
  pub share : peers_share_room r s to ≡ true
  pub socket : get to r.sockets_by_peer_id ≡ some q

-- the frames that a datagram may cause, to which sockets
pub data Caused (p : Platform) (s : Socket) (to payload : Text) (r : ControlRoom)
    : List Output → Type 0 where
  nothing : Caused p s to payload r []
  relayed :
      (q : Socket) (from : Text)
      → IsAuthorized p s to payload r q from
      → Caused p s to payload r (sent q (relay from payload) ∷ [])
  dropped : (reason : DropReason) → Caused p s to payload r (sent s (relay_dropped to reason) ∷ [])

pub record IsCaused (p : Platform) (s : Socket) (to payload : Text) (r₀ r : ControlRoom)
    : Type 0 where
  pub frames : List Output
  pub output : r.output ≡ r₀.output ++ frames
  pub caused : Caused p s to payload r₀ frames

limits_quiet :
    (o : List Output) (f : Dict Text DeviceLimit → Dict Text DeviceLimit)
    → Keeps (λ r. r.output ≡ o) (write_limits f)
unfolding write_limits
limits_quiet o f = Keeps-modify _ (λ r h. h)

write_limit_quiet :
    (o : List Output) (id : Text) (f : DeviceLimit → DeviceLimit)
    → Keeps (λ r. r.output ≡ o) (write_limit id f)
unfolding write_limit
write_limit_quiet o id f = search (keeps_rules, limits_quiet)

refill_quiet :
    (o : List Output) (p : Platform) (id : Text) → Keeps (λ r. r.output ≡ o) (refill_device p id)
unfolding refill_device
refill_quiet o p id = search (keeps_rules, limits_quiet)

reserve_quiet :
    (o : List Output) (p : Platform) (from to : Text) (bytes : ℕ)
    → Keeps (λ r. r.output ≡ o) (reserve_relay_bandwidth p from to bytes)
unfolding reserve_relay_bandwidth
reserve_quiet o p from to bytes = search (keeps_rules, refill_quiet, write_limit_quiet) depth 20

frame_of-IsFrame :
    (p : Platform) (payload : Text) (frame : List ℕ)
    → frame_of p payload ≡ some frame
    → IsFrame p payload frame
unfolding frame_of
frame_of-IsFrame p payload frame h = elim (Option-cases (p.from_base64 payload)) [
  | inl n ↦
      let z : frame_of p payload ≡ none = rw (n, frame_of) refl in absurd (ground (arith, z, h))
  | inr (bytes, e) ↦
      elim (Bool-cases
        (is_empty bytes || ltb 1200 (length bytes) || not (p.to_base64 bytes == payload))) [
          | inl t ↦
              let z : frame_of p payload ≡ none = rw (frame_of, e, t) refl in
              absurd (ground (arith, z, h))
          | inr f ↦
              let z : frame_of p payload ≡ some bytes = rw (frame_of, e, f) refl in
              subst (λ x. IsFrame p payload x) (ap (λ o. or_else o frame) (sym z ∙ h))
                (record {
                  decoded = e;
                  some_bytes = nonempty bytes (ground (arith, f));
                  few_bytes = ground (arith, f);
                  encoded = (text_eq.beq_iff (p.to_base64 bytes) payload).0 (ground (arith, f));
                })
        ]
]

module _ (p : Platform) (s : Socket) (to payload : Text) (r₀ : ControlRoom) where
  abbrev Post : ControlRoom → Type 0
  Post = IsCaused p s to payload r₀

  abbrev Quiet : ControlRoom → Type 0
  Quiet r = r.output ≡ r₀.output

  quiet : (r : ControlRoom) → Quiet r → Post r
  quiet r h = record { frames = []; output = h ∙ sym (append-nil r₀.output); caused = nothing }

  send-Post :
      (q : Socket) (f : Frame)
      → Caused p s to payload r₀ (sent q f ∷ [])
      → Triple Post Quiet (send p q f) (λ _. Post)
  unfolding send write_output
  send-Post q f c =
      Triple-if Post (p.broken q) _ _ (λ _. record { run = λ r h. quiet r h })
        (λ _. record {
          run = λ r h. record {
            frames = sent q f ∷ [];
            output = ap (λ o. o ++ sent q f ∷ []) h;
            caused = c;
          };
        })

  relay-Triple : Triple Post (λ r. r ≡ r₀) (relay_datagram p s to payload) (λ _. Post)
  unfolding relay_datagram
  relay-Triple =
      Triple-bind Post _ _ (Triple-throw_if Post _ _ (λ r h. quiet r (ap (λ x. x.output) h))) (λ _.
        Triple-fact Post _ (λ enabled. Triple-bind Post _ _ (Triple-gets Post _) (λ r.
          Triple-before Post (λ x. Quiet x × (r ≡ r₀)) _
            (λ x h. (ap (λ y. y.output) h.0, sym h.1 ∙ h.0))
            (Triple-fact Post _ (λ same.
              Triple-with_some Post (r.objects s).peer_id _ _
                (λ from registered. Triple-bind Post _ _ (Triple-throw_if Post _ _ quiet) (λ _.
                  Triple-fact Post _ (λ id.
                    Triple-with_some Post (frame_of p payload) _ _
                      (λ frame is_frame.
                        Triple-if Post (not (peers_share_room r s to)) _ _
                          (λ _. send-Post s _ (dropped unauthorized))
                          (λ share.
                            Triple-with_some Post (get to r.sockets_by_peer_id) _ _
                              (λ q socket.
                                Triple-bind Post _ _
                                  (Triple-Keeps Post _
                                    (reserve_quiet r₀.output p from to (length frame)) quiet)
                                  (λ reserved.
                                    Triple-if Post reserved _ _
                                      (λ _. send-Post q _ (
                                        relayed q from (
                                          subst (λ x. IsAuthorized p s to payload x q from) same
                                            (record {
                                              enabled = ground (arith, enabled);
                                              sender = registered;
                                              recipient_id = ground (arith, id);
                                              frame = frame;
                                              is_frame = frame_of-IsFrame p payload frame is_frame;
                                              share = ground (arith, share);
                                              socket = socket;
                                            }))))
                                      (λ _. send-Post s _ (dropped quota))))
                              (λ _. send-Post s _ (dropped offline))))
                      (λ _. Triple-throw Post _ quiet))))
                (λ _. Triple-throw Post _ quiet))))))

  -- Whether it returns or throws, a datagram causes at most one frame. A relay frame is sent only
  -- while the relay is enabled, from a registered device, to the socket of the device that it
  -- names, with a payload that is the base64 text of 1 to 1200 bytes, and only if the two devices
  -- share a room; it names the sender's registered id. Any other frame tells the sender that the
  -- datagram was dropped.
  pub relay_datagram-IsCaused : IsCaused p s to payload r₀ (relay_datagram p s to payload r₀).1
  relay_datagram-IsCaused =
      of_Outcome Post (relay_datagram p s to payload r₀).0 _ (relay-Triple.run r₀ refl)

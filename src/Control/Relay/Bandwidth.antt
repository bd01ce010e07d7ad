-- ===== src/Control/Relay/Bandwidth.antt =====
-- control/src/worker.ts: what a reservation does to the limits, and how much a device can relay.
use mesh_talk.Common.{
  ℕ, ◌≡◌, ◌≢◌, ◌⊎◌, refl, ap, sym, ◌∙◌, Bool, true, false, not, ◌&&◌, ◌||◌, some, Text, inl, inr,
  arith, leb, nat_eq, text_eq, ◌==◌, beq-cases, Bool-cases, length,
}
use mesh_talk.Common.Int.{ltb_ℤ}
use mesh_talk.Common.Dict.{Dict, get, has, put, get-put, get-put_self}
use mesh_talk.Common.Exec.{ok}
use mesh_talk.Control.State.{DeviceLimit, ControlRoom, Platform}
use mesh_talk.Control.Relay.{
  refill, cost, take_tokens, take_receive_tokens, reserve_relay_bandwidth,
}
use mesh_talk.Control.Relay.Tokens.{
  refilled, granted, sender_after, recipient_after, reserve-eq, d₃, d₅,
}

-- What a call returns, and the limits after it.
pub record Reserved (p : Platform) (from to : Text) (bytes : ℕ) (r : ControlRoom)
    (sender recipient : DeviceLimit) : Type 0 where
  pub result :
      (reserve_relay_bandwidth p from to bytes r).0 ≡ ok (granted p from to bytes sender recipient)
  pub sender_limit :
      get from (reserve_relay_bandwidth p from to bytes r).1.device_limits
      ≡ some (sender_after p from to bytes (granted p from to bytes sender recipient) sender)
  pub recipient_limit :
      get to (reserve_relay_bandwidth p from to bytes r).1.device_limits
      ≡ some (recipient_after p from to bytes (granted p from to bytes sender recipient) recipient)
  pub others :
      (id : Text)
      → (from == id) ≡ false
      → (to == id) ≡ false
      → get id (reserve_relay_bandwidth p from to bytes r).1.device_limits ≡ get id r.device_limits

ne-beq : (a b : Text) → a ≢ b → (a == b) ≡ false
ne-beq a b ne = elim (beq-cases a b) [ inl (t, e) ↦ absurd (ne e) | inr f ↦ f ]

module _ (p : Platform) (from to : Text) (bytes : ℕ) (r : ControlRoom)
    (sender recipient : DeviceLimit) (ne : from ≢ to) (hs : get from r.device_limits ≡ some sender)
    (hr : get to r.device_limits ≡ some recipient) where
  abbrev f : (from == to) ≡ false
  f = ne-beq from to ne

  abbrev g : (to == from) ≡ false
  g = ne-beq to from (λ e. ne (sym e))

  abbrev e₃ : Dict Text DeviceLimit
  e₃ = d₃ p from to bytes r sender recipient f g hs hr

  abbrev e₅ : Dict Text DeviceLimit
  e₅ = d₅ p from to bytes r sender recipient f g hs hr

  e₃_recipient : get to e₃ ≡ some (refill p.now recipient)
  e₃_recipient = ground (
    arith,
    f,
    get-put from to (refilled p from to bytes sender)
        (put to (refill p.now recipient) (put from (refill p.now sender) r.device_limits)),
    get-put_self to (refill p.now recipient) (put from (refill p.now sender) r.device_limits),
  )

  e₅_sender : get from e₅ ≡ some (take_tokens p.now to bytes (refilled p from to bytes sender))
  e₅_sender = ground (
    arith,
    g,
    get-put to from (take_receive_tokens bytes (refill p.now recipient))
        (put from (take_tokens p.now to bytes (refilled p from to bytes sender)) e₃),
    get-put_self from (take_tokens p.now to bytes (refilled p from to bytes sender)) e₃,
  )

  e₃_other :
      (id : Text) → (from == id) ≡ false → (to == id) ≡ false → get id e₃ ≡ get id r.device_limits
  e₃_other id a b = simp (get-put, a, b)

  e₅_other :
      (id : Text) → (from == id) ≡ false → (to == id) ≡ false → get id e₅ ≡ get id r.device_limits
  e₅_other id a b = simp (get-put, a, b)

  abbrev granted_here : Bool
  granted_here = granted p from to bytes sender recipient

  abbrev at_e₃ : ControlRoom
  at_e₃ = record r { device_limits = e₃ }

  abbrev at_e₅ : ControlRoom
  at_e₅ = record r { device_limits = e₅ }

  reserve-cases :
      (granted_here ≡ false × (reserve_relay_bandwidth p from to bytes r ≡ (ok false, at_e₃)))
      ⊎ (granted_here ≡ true × (reserve_relay_bandwidth p from to bytes r ≡ (ok true, at_e₅)))
  reserve-cases =
      elim (Bool-cases (
        ltb_ℤ (refilled p from to bytes sender).tokens (cost bytes)
        || ltb_ℤ (refill p.now recipient).receive_tokens (cost bytes))) [
          | inl t ↦
              inl (rw t refl, reserve-eq p from to bytes r sender recipient f g hs hr ∙ rw t refl)
          | inr t ↦
              elim (Bool-cases (
                not (has to (refilled p from to bytes sender).relay_peers)
                && leb 8 (length (refilled p from to bytes sender).relay_peers))) [
                  | inl u ↦ inl (
                    rw (t, u) refl,
                    reserve-eq p from to bytes r sender recipient f g hs hr ∙ rw (t, u) refl,
                  )
                  | inr u ↦ inr (
                    rw (t, u) refl,
                    reserve-eq p from to bytes r sender recipient f g hs hr ∙ rw (t, u) refl,
                  )
                ]
        ]

  e₃_sender : get from e₃ ≡ some (refilled p from to bytes sender)
  e₃_sender =
      get-put_self from (refilled p from to bytes sender)
        (put to (refill p.now recipient) (put from (refill p.now sender) r.device_limits))

  e₅_recipient : get to e₅ ≡ some (take_receive_tokens bytes (refill p.now recipient))
  e₅_recipient =
      get-put_self to (take_receive_tokens bytes (refill p.now recipient))
        (put from (take_tokens p.now to bytes (refilled p from to bytes sender)) e₃)

  -- For two different devices with limits, a reservation returns whether, after the refill up to
  -- the current time and without the idle slots, both buckets hold the frame and the sender has a
  -- slot for the recipient. If so, the sender's bucket and the recipient's receiving bucket pay
  -- for the frame and the slot is taken; otherwise only the refill and the idle slots change.
  -- The limits of all other devices stay as they are.
  pub reserve_relay_bandwidth-Reserved : Reserved p from to bytes r sender recipient
  reserve_relay_bandwidth-Reserved = elim reserve-cases [
    | inl (b, q) ↦ record {
      result = ap (λ x. x.0) q ∙ ap ok (sym b);
      sender_limit =
          ap (λ x. get from x.1.device_limits) q
          ∙ e₃_sender
          ∙ ap (λ x. some (sender_after p from to bytes x sender)) (sym b);
      recipient_limit =
          ap (λ x. get to x.1.device_limits) q
          ∙ e₃_recipient
          ∙ ap (λ x. some (recipient_after p from to bytes x recipient)) (sym b);
      others = λ id a c. ap (λ x. get id x.1.device_limits) q ∙ e₃_other id a c;
    }
    | inr (b, q) ↦ record {
      result = ap (λ x. x.0) q ∙ ap ok (sym b);
      sender_limit =
          ap (λ x. get from x.1.device_limits) q
          ∙ e₅_sender
          ∙ ap (λ x. some (sender_after p from to bytes x sender)) (sym b);
      recipient_limit =
          ap (λ x. get to x.1.device_limits) q
          ∙ e₅_recipient
          ∙ ap (λ x. some (recipient_after p from to bytes x recipient)) (sym b);
      others = λ id a c. ap (λ x. get id x.1.device_limits) q ∙ e₅_other id a c;
    }
  ]

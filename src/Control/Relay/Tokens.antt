-- ===== src/Control/Relay/Tokens.antt =====
-- control/src/worker.ts: the token buckets and peer slots of the relay.
use mesh_talk.Common.{
  ℕ, ◌≤◌, ◌≡◌, refl, ◌∙◌, Bool, true, false, not, ◌&&◌, ◌||◌, some, List, [], ◌∷◌, Text, inl, inr,
  arith, leb, nat_eq, text_eq, ◌==◌, Bool-cases, length, keep, if◌then◌else◌,
}
use mesh_talk.Common.Int.{◌≤ℤ◌, ltb_ℤ, min_ℤ-le}
use mesh_talk.Common.Dict.{Dict, get, has, put, get-put, get-put_self}
use mesh_talk.Common.Exec.{ok, bind-ok, gets, pure, with_some, ◌>>=◌}
use mesh_talk.Control.State.{DeviceLimit, ControlRoom, Platform, M, write_limits}
use mesh_talk.Control.Relay.{
  burst, refill, refill_device, forget_idle, cost, take_tokens, take_receive_tokens, is_recent,
  write_limit, reserve_relay_bandwidth,
}

-- A limit is sound: neither bucket holds more than the burst, and at most eight peers hold slots.
pub record IsSound (l : DeviceLimit) : Type 0 where
  pub tokens : l.tokens ≤ℤ burst
  pub receive_tokens : l.receive_tokens ≤ℤ burst
  pub slots : length l.relay_peers ≤ 8

pub refill-IsSound : (now : ℕ) (l : DeviceLimit) → IsSound l → IsSound (refill now l)
unfolding refill
refill-IsSound now l h = record {
  tokens = (min_ℤ-le burst _).0;
  receive_tokens = (min_ℤ-le burst _).0;
  slots = h.slots;
}

pub length-keep : {A : Type 0} (p : A → Bool) (xs : List A) → length (keep p xs) ≤ length xs
unfolding keep
length-keep p [] = omega arith
length-keep p (x ∷ xs) = ground (arith, length-keep p xs)

pub forget_idle-IsSound : (now : ℕ) (l : DeviceLimit) → IsSound l → IsSound (forget_idle now l)
unfolding forget_idle
forget_idle-IsSound now l h = record {
  tokens = h.tokens;
  receive_tokens = h.receive_tokens;
  slots = omega (arith, h.slots, length-keep (is_recent now) l.relay_peers);
}

module _ (p : Platform) (from to : Text) (bytes : ℕ) where
  -- the limits at the time of the test
  abbrev pub refilled : DeviceLimit → DeviceLimit
  refilled l = forget_idle p.now (refill p.now l)

  -- whether both buckets hold the frame and the sender has a slot for the recipient
  abbrev pub granted : DeviceLimit → DeviceLimit → Bool
  granted sender recipient =
      if ltb_ℤ (refilled sender).tokens (cost bytes)
        || ltb_ℤ (refill p.now recipient).receive_tokens (cost bytes)
      then false
      else if not (has to (refilled sender).relay_peers)
          && leb 8 (length (refilled sender).relay_peers)
      then false
      else true

  abbrev pub sender_after : Bool → DeviceLimit → DeviceLimit
  sender_after b l = if b then take_tokens p.now to bytes (refilled l) else refilled l

  abbrev pub recipient_after : Bool → DeviceLimit → DeviceLimit
  recipient_after b l = if b then take_receive_tokens bytes (refill p.now l) else refill p.now l

  refill_device_lem :
      (id : Text) (r : ControlRoom) (l : DeviceLimit)
      → get id r.device_limits ≡ some l
      → refill_device p id r
        ≡ (ok tt, record r { device_limits = put id (refill p.now l) r.device_limits })
  unfolding refill_device write_limits with_some ◌>>=◌
  refill_device_lem id r l h = rw h

  write_limit_lem :
      (id : Text) (f : DeviceLimit → DeviceLimit) (r : ControlRoom) (l : DeviceLimit)
      → get id r.device_limits ≡ some l
      → write_limit id f r ≡ (ok tt, record r { device_limits = put id (f l) r.device_limits })
  unfolding write_limit write_limits with_some ◌>>=◌
  write_limit_lem id f r l h = rw h

  module _ (r : ControlRoom) (sender recipient : DeviceLimit) (ne : (from == to) ≡ false)
      (en : (to == from) ≡ false) (hs : get from r.device_limits ≡ some sender)
      (hr : get to r.device_limits ≡ some recipient) where
    abbrev pub d₁ : Dict Text DeviceLimit
    d₁ = put from (refill p.now sender) r.device_limits

    abbrev pub d₂ : Dict Text DeviceLimit
    d₂ = put to (refill p.now recipient) d₁

    abbrev pub d₃ : Dict Text DeviceLimit
    d₃ = put from (refilled sender) d₂

    abbrev pub d₄ : Dict Text DeviceLimit
    d₄ = put from (take_tokens p.now to bytes (refilled sender)) d₃

    abbrev pub d₅ : Dict Text DeviceLimit
    d₅ = put to (take_receive_tokens bytes (refill p.now recipient)) d₄

    abbrev pub tested : M Bool
    tested r₃ =
        if ltb_ℤ (refilled sender).tokens (cost bytes)
          || ltb_ℤ (refill p.now recipient).receive_tokens (cost bytes)
        then (ok false, r₃)
        else if not (has to (refilled sender).relay_peers)
            && leb 8 (length (refilled sender).relay_peers)
        then (ok false, r₃)
        else (ok true, record r { device_limits = d₅ })

    get_to_d₁ : get to d₁ ≡ some recipient
    get_to_d₁ = ground (arith, get-put from to (refill p.now sender) r.device_limits, ne, hr)

    get_from_d₂ : get from d₂ ≡ some (refill p.now sender)
    get_from_d₂ = ground (
      arith,
      get-put to from (refill p.now recipient) d₁,
      en,
      get-put_self from (refill p.now sender) r.device_limits,
    )

    get_to_d₃ : get to d₃ ≡ some (refill p.now recipient)
    get_to_d₃ = ground (
      arith,
      get-put from to (refilled sender) d₂,
      ne,
      get-put_self to (refill p.now recipient) d₁,
    )

    get_to_d₄ : get to d₄ ≡ some (refill p.now recipient)
    get_to_d₄ =
        ground
          (arith, get-put from to (take_tokens p.now to bytes (refilled sender)) d₃, ne, get_to_d₃)

    get_from_d₃ : get from d₃ ≡ some (refilled sender)
    get_from_d₃ = get-put_self from (refilled sender) d₂

    charged :
        (write_limit from (take_tokens p.now to bytes) >>= λ _.
        write_limit to (take_receive_tokens bytes) >>= λ _. pure true)
          (record r { device_limits = d₃ })
        ≡ (ok true, record r { device_limits = d₅ })
    unfolding pure
    charged =
        bind-ok (write_limit from (take_tokens p.now to bytes)) _
          {s = record r { device_limits = d₃ }}
          (write_limit_lem from (take_tokens p.now to bytes) (record r { device_limits = d₃ })
            (refilled sender) get_from_d₃)
        ∙ bind-ok (write_limit to (take_receive_tokens bytes)) _
            {s = record r { device_limits = d₄ }}
            (write_limit_lem to (take_receive_tokens bytes) (record r { device_limits = d₄ })
              (refill p.now recipient) get_to_d₄)

    abbrev short_of_tokens : Bool
    short_of_tokens =
        ltb_ℤ (refilled sender).tokens (cost bytes)
        || ltb_ℤ (refill p.now recipient).receive_tokens (cost bytes)

    abbrev short_of_slots : Bool
    short_of_slots =
        not (has to (refilled sender).relay_peers) && leb 8 (length (refilled sender).relay_peers)

    test-eq :
        (if short_of_tokens
            then pure false
            else if short_of_slots
            then pure false
            else (write_limit from (take_tokens p.now to bytes) >>= λ _.
                write_limit to (take_receive_tokens bytes) >>= λ _. pure true))
          (record r { device_limits = d₃ })
        ≡ tested (record r { device_limits = d₃ })
    unfolding pure
    test-eq = elim (Bool-cases short_of_tokens) [
      | inl t ↦ rw t
      | inr t ↦ rw t (elim (Bool-cases short_of_slots) [ inl u ↦ rw u | inr u ↦ rw u charged ])
    ]

    pub reserve-eq :
        reserve_relay_bandwidth p from to bytes r ≡ tested (record r { device_limits = d₃ })
    unfolding reserve_relay_bandwidth
    reserve-eq =
        bind-ok (refill_device p from) _ {s = r} (refill_device_lem from r sender hs)
        ∙ (bind-ok (refill_device p to) _ {s = record r { device_limits = d₁ }}
              (refill_device_lem to (record r { device_limits = d₁ }) recipient get_to_d₁)
            ∙ (bind-ok (write_limit from (forget_idle p.now)) _
                  {s = record r { device_limits = d₂ }}
                  (write_limit_lem from (forget_idle p.now) (record r { device_limits = d₂ })
                    (refill p.now sender) get_from_d₂)
                ∙ unfold gets with_some in
                  (bind-ok (gets (λ (x : ControlRoom). x.device_limits)) _
                      {s = record r { device_limits = d₃ }} refl
                    ∙ rw (get_from_d₃, get_to_d₃) test-eq)))

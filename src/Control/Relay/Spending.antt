-- ===== src/Control/Relay/Spending.antt =====
-- control/src/worker.ts: what one call of `reserveRelayBandwidth` takes from a bucket.
use mesh_talk.Common.{
  ℕ, ◌+◌, ◌*◌, ◌≤◌, ◌≡◌, Bool, true, false, Text, inl, inr, arith, nat_eq, text_eq, Bool-cases,
  if◌then◌else◌,
}
use mesh_talk.Common.Int.{ℤ, pos_part, neg_part, ◌-ℤ◌, ◌+ℤ◌, ltb_ℤ, min_ℤ, -ℤ_parts, int_laws}
use mesh_talk.Control.State.{DeviceLimit, Platform}
use mesh_talk.Control.Relay.{refill, forget_idle, cost, take_tokens, take_receive_tokens}
use mesh_talk.Control.Relay.Tokens.{refilled, granted, sender_after, recipient_after}

-- A limit before and after a call at the time `at` that relays `amount` bytes of its device.
pub record Spent (at amount : ℕ) (l m : DeviceLimit) : Type 0 where
  pub potential :
      amount * 1000 + pos_part m.tokens + neg_part l.tokens + l.updated_at * 1_048_576
      ≤ pos_part l.tokens + neg_part m.tokens + m.updated_at * 1_048_576
  pub positive : l.updated_at ≤ at → neg_part l.tokens ≡ 0 → neg_part m.tokens ≡ 0
  pub later : l.updated_at ≤ at → l.updated_at ≤ m.updated_at
  pub on_time : l.updated_at ≤ at → m.updated_at ≤ at

pub refill-Spent : (at : ℕ) (l : DeviceLimit) → Spent at 0 l (refill at l)
unfolding refill min_ℤ ◌+ℤ◌
refill-Spent at l = record {
  potential = ground arith;
  positive = λ h z. ground arith;
  later = λ h. h;
  on_time = λ h. omega arith;
}

pub forget_idle-Spent :
    (at : ℕ) (l m : DeviceLimit) → Spent at 0 l m → Spent at 0 l (forget_idle at m)
unfolding forget_idle
forget_idle-Spent at l m h = record {
  potential = h.potential;
  positive = h.positive;
  later = h.later;
  on_time = h.on_time;
}

pub sub_paid : (a b : ℤ) → ltb_ℤ a b ≡ false → neg_part (a -ℤ b) ≡ 0
unfolding ◌-ℤ◌
sub_paid a b h = ground arith

pub take_tokens-Spent :
    (at : ℕ) (to : Text) (bytes : ℕ) (l m : DeviceLimit)
    → ltb_ℤ m.tokens (cost bytes) ≡ false
    → Spent at 0 l m
    → Spent at bytes l (take_tokens at to bytes m)
unfolding take_tokens
take_tokens-Spent at to bytes l m paid h = record {
  potential = omega (int_laws, h.potential, -ℤ_parts m.tokens (cost bytes));
  positive = λ t z. sub_paid m.tokens (cost bytes) paid;
  later = h.later;
  on_time = h.on_time;
}

pub take_receive_tokens-Spent :
    (at bytes : ℕ) (l m : DeviceLimit) → Spent at 0 l m → Spent at 0 l (take_receive_tokens bytes m)
unfolding take_receive_tokens
take_receive_tokens-Spent at bytes l m h = record {
  potential = h.potential;
  positive = h.positive;
  later = h.later;
  on_time = h.on_time;
}

-- the bytes a reservation grants
abbrev pub bytes_of : Bool → ℕ → ℕ
bytes_of b bytes = if b then bytes else 0

pub sender_after-Spent :
    (p : Platform) (from to : Text) (bytes : ℕ) (l m : DeviceLimit)
    → Spent p.now
        (bytes_of (granted p from to bytes l m) bytes)
        l
        (sender_after p from to bytes (granted p from to bytes l m) l)
sender_after-Spent p from to bytes l m =
    elim (Bool-cases (ltb_ℤ (refilled p from to bytes l).tokens (cost bytes))) [
      | inl t ↦ rw t (forget_idle-Spent p.now l (refill p.now l) (refill-Spent p.now l))
      | inr t ↦ elim (Bool-cases (granted p from to bytes l m)) [
        | inl g ↦ rw g (
            take_tokens-Spent p.now to bytes l (refilled p from to bytes l) t
              (forget_idle-Spent p.now l (refill p.now l) (refill-Spent p.now l)))
        | inr g ↦ rw g (forget_idle-Spent p.now l (refill p.now l) (refill-Spent p.now l))
      ]
    ]

pub recipient_after-Spent :
    (p : Platform) (from to : Text) (bytes : ℕ) (b : Bool) (l : DeviceLimit)
    → Spent p.now 0 l (recipient_after p from to bytes b l)
recipient_after-Spent p from to bytes true l =
    take_receive_tokens-Spent p.now bytes l (refill p.now l) (refill-Spent p.now l)
recipient_after-Spent p from to bytes false l = refill-Spent p.now l

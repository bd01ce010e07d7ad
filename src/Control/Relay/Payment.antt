-- ===== src/Control/Relay/Payment.antt =====
-- control/src/worker.ts: `reserveRelayBandwidth` in numbers: what is refilled, paid and refused.
use mesh_talk.Common.{
  ℕ, ◌-◌, ◌*◌, ◌≤◌, ◌≡◌, ◌⊎◌, Bool, true, false, none, some, Text, nat_eq, text_eq, ◌==◌, length,
}
use mesh_talk.Common.Int.{ℤ, pos, sub_ℕ, min_ℤ, ltb_ℤ, ◌+ℤ◌, ◌-ℤ◌, ◌≤ℤ◌}
use mesh_talk.Common.Dict.{Dict, get}
use mesh_talk.Common.Exec.{ok}
use mesh_talk.Control.State.{DeviceLimit, ControlRoom, Platform}
use mesh_talk.Control.Relay.{reserve_relay_bandwidth}
use mesh_talk.Control.Relay.Tokens
use mesh_talk.Control.Relay.Tokens.{refilled, granted}

-- What a bucket of `t` thousandths of a byte holds at `now`: 1 MiB flows in per second, up
-- to 4 MiB.
abbrev pub held : ℕ → ℕ → ℤ → ℤ
held now since t = min_ℤ (pos 4_194_304_000) (t +ℤ sub_ℕ (now * 1_048_576) (since * 1_048_576))

-- The peers that hold slots: none is idle for more than a minute but the one just sent to,
-- and eight are not exceeded.
pub record HasSlots (now : ℕ) (l l' : DeviceLimit) : Type 0 where
  pub bounded : length l.relay_peers ≤ 8 → length l'.relay_peers ≤ 8
  pub recent : (id : Text) (seen : ℕ) → get id l'.relay_peers ≡ some seen → now - seen ≤ 60_000

-- The two limits `s'` and `r'` after a reservation of `bytes` that is granted.
pub record Paid (now : ℕ) (to : Text) (bytes : ℕ) (s r s' r' : DeviceLimit) : Type 0 where
  pub enough : pos (bytes * 1000) ≤ℤ held now s.updated_at s.tokens
  pub room : pos (bytes * 1000) ≤ℤ held now r.updated_at r.receive_tokens
  pub sent : s'.tokens ≡ held now s.updated_at s.tokens -ℤ pos (bytes * 1000)
  pub received : r'.receive_tokens ≡ held now r.updated_at r.receive_tokens -ℤ pos (bytes * 1000)
  pub slot : get to s'.relay_peers ≡ some now

-- The same after one that is refused, and why it is.
pub record Refused (now : ℕ) (to : Text) (bytes : ℕ) (s r s' r' : DeviceLimit) : Type 0 where
  pub sent : s'.tokens ≡ held now s.updated_at s.tokens
  pub received : r'.receive_tokens ≡ held now r.updated_at r.receive_tokens
  pub reason :
      (ltb_ℤ s'.tokens (pos (bytes * 1000)) ≡ true)
      ⊎ ((ltb_ℤ r'.receive_tokens (pos (bytes * 1000)) ≡ true)
          ⊎ ((get to s'.relay_peers ≡ none) × (8 ≤ length s'.relay_peers)))

abbrev pub IsDecided :
    ℕ → Text → ℕ → DeviceLimit → DeviceLimit → Bool → DeviceLimit → DeviceLimit → Type 0
IsDecided now to bytes s r true s' r' = Paid now to bytes s r s' r'
IsDecided now to bytes s r false s' r' = Refused now to bytes s r s' r'

-- What holds of the two limits in either case.
pub record IsSettled (now : ℕ) (to : Text) (bytes : ℕ) (s r : DeviceLimit) (granted : Bool)
    (s' r' : DeviceLimit) : Type 0 where
  pub decided : IsDecided now to bytes s r granted s' r'
  pub slots : HasSlots now s s'
  pub sender_receives : s'.receive_tokens ≡ held now s.updated_at s.receive_tokens
  pub recipient_sends : r'.tokens ≡ held now r.updated_at r.tokens
  pub recipient_peers : r'.relay_peers ≡ r.relay_peers
  pub clocks : (s'.updated_at ≡ now) × (r'.updated_at ≡ now)

module _ (p : Platform) (from to : Text) (bytes : ℕ) (s r : DeviceLimit) where
  abbrev clean : DeviceLimit
  clean = refilled p from to bytes s

-- What a reservation between two devices with limits returns and leaves.
pub record Reserves (p : Platform) (from to : Text) (bytes : ℕ) (r : ControlRoom)
    (sender recipient : DeviceLimit) : Type 0 where
  pub granted : Bool
  pub sender_limit : DeviceLimit
  pub recipient_limit : DeviceLimit
  pub returned : (reserve_relay_bandwidth p from to bytes r).0 ≡ ok granted
  pub sender_found :
      get from (reserve_relay_bandwidth p from to bytes r).1.device_limits ≡ some sender_limit
  pub recipient_found :
      get to (reserve_relay_bandwidth p from to bytes r).1.device_limits ≡ some recipient_limit
  pub settles : IsSettled p.now to bytes sender recipient granted sender_limit recipient_limit
  pub others :
      (id : Text)
      → (from == id) ≡ false
      → (to == id) ≡ false
      → get id (reserve_relay_bandwidth p from to bytes r).1.device_limits ≡ get id r.device_limits

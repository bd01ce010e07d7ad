-- ===== src/Control/Relay/Throughput.antt =====
-- control/src/worker.ts: how many bytes a device can send through the relay over a run of
-- `reserveRelayBandwidth` calls.
use mesh_talk.Common.{
  ℕ, ◌+◌, ◌-◌, ◌*◌, ◌≤◌, ◌≡◌, ◌≢◌, ◌⊎◌, refl, ap, sym, ◌∙◌, subst, Bool, true, false, Option, some,
  List, [], ◌∷◌, Text, inl, inr, arith, nat_eq, text_eq, ◌==◌, beq_refl, beq-cases, Option-cases,
  if◌then◌else◌, All,
}
use mesh_talk.Common.Int.{pos_part, neg_part, ◌≤ℤ◌}
use mesh_talk.Common.Dict.{get, has, is_some, or_else}
use mesh_talk.Common.Exec.{Result, ok, err}
use mesh_talk.Control.Config.{relay_burst_bytes, relay_bytes_per_second}
use mesh_talk.Control.State.{DeviceLimit, ControlRoom, ControlError, Platform}
use mesh_talk.Control.Relay.{burst, reserve_relay_bandwidth}
use mesh_talk.Control.Relay.Tokens.{granted, sender_after, recipient_after}
use mesh_talk.Control.Relay.Bandwidth.{Reserved, reserve_relay_bandwidth-Reserved}
use mesh_talk.Control.Relay.Spending.{Spent, bytes_of, sender_after-Spent, recipient_after-Spent}

-- A call that the relay makes of `reserveRelayBandwidth`.
pub record Reservation : Type 0 where
  pub at : ℕ
  pub from : Text
  pub to : Text
  pub bytes : ℕ

-- The two ends are different devices, and both have limits.
pub record IsPair (r : ControlRoom) (q : Reservation) : Type 0 where
  pub different : q.from ≢ q.to
  pub sender : has q.from r.device_limits ≡ true
  pub recipient : has q.to r.device_limits ≡ true

module _ (p : Platform) where
  abbrev pub reserve : Reservation → ControlRoom → Result ControlError Bool × ControlRoom
  reserve q r = reserve_relay_bandwidth (record p { now = q.at }) q.from q.to q.bytes r

  abbrev pub ok_bytes : Result ControlError Bool → ℕ → ℕ
  ok_bytes (ok b) bytes = bytes_of b bytes
  ok_bytes (err e) bytes = 0

  -- the bytes that a run grants to the sender `id`
  unfoldable pub bytes_sent : Text → List Reservation → ControlRoom → ℕ
  bytes_sent id [] r = 0
  bytes_sent id (q ∷ qs) r =
      (if q.from == id then ok_bytes (reserve q r).0 q.bytes else 0)
      + bytes_sent id qs (reserve q r).1

  -- Times do not step back, from `since` up to `until`.
  unfoldable pub IsOrdered : ℕ → List Reservation → ℕ → Type 0
  IsOrdered since [] until = since ≤ until
  IsOrdered since (q ∷ qs) until = (since ≤ q.at) × IsOrdered q.at qs until

  -- one device over one call
  pub record Call (id : Text) (q : Reservation) (l : DeviceLimit) (r : ControlRoom) : Type 0 where
    pub after : DeviceLimit
    pub found : get id (reserve q r).1.device_limits ≡ some after
    pub spent :
        Spent q.at (if q.from == id then ok_bytes (reserve q r).0 q.bytes else 0) l after
        ⊎ ((after ≡ l) × ((q.from == id) ≡ false))

  limit_of :
      (id : Text) (r : ControlRoom)
      → has id r.device_limits ≡ true
      → (l : DeviceLimit) × (get id r.device_limits ≡ some l)
  limit_of id r h = elim (Option-cases (get id r.device_limits)) [
    | inl n ↦ absurd (ground (arith, n, h))
    | inr (l, e) ↦ (l, e)
  ]

  some-inj : (l m : DeviceLimit) (o : Option DeviceLimit) → o ≡ some l → o ≡ some m → l ≡ m
  some-inj l m o h k = ap (λ x. or_else x l) (sym h ∙ k)

  module _ (q : Reservation) (r : ControlRoom) (s t : DeviceLimit) (pair : IsPair r q)
      (hs : get q.from r.device_limits ≡ some s) (ht : get q.to r.device_limits ≡ some t) where
    abbrev now : Platform
    now = record p { now = q.at }

    reserved : Reserved now q.from q.to q.bytes r s t
    reserved = reserve_relay_bandwidth-Reserved now q.from q.to q.bytes r s t pair.different hs ht

    abbrev b : Bool
    b = granted now q.from q.to q.bytes s t

    abbrev amount : Text → ℕ
    amount id = if q.from == id then ok_bytes (reserve q r).0 q.bytes else 0

    amount_from : amount q.from ≡ bytes_of b q.bytes
    amount_from = rw (beq_refl q.from) (ap (λ x. ok_bytes x q.bytes) reserved.result)

    from-Call : Call q.from q s r
    from-Call = record {
      after = sender_after now q.from q.to q.bytes b s;
      found = reserved.sender_limit;
      spent = inl (
          subst (λ n. Spent q.at n s (sender_after now q.from q.to q.bytes b s)) (sym amount_from)
            (sender_after-Spent now q.from q.to q.bytes s t));
    }

    from-to : (q.from == q.to) ≡ false
    from-to = elim (beq-cases q.from q.to) [ inl (x, e) ↦ absurd (pair.different e) | inr f ↦ f ]

    amount_other : (id : Text) → (q.from == id) ≡ false → amount id ≡ 0
    amount_other id f = rw f refl

    to-Call : Call q.to q t r
    to-Call = record {
      after = recipient_after now q.from q.to q.bytes b t;
      found = reserved.recipient_limit;
      spent = inl (
          subst (λ n. Spent q.at n t (recipient_after now q.from q.to q.bytes b t))
            (sym (amount_other q.to from-to)) (recipient_after-Spent now q.from q.to q.bytes b t));
    }

    other-Call :
        (id : Text) (l : DeviceLimit)
        → (q.from == id) ≡ false
        → (q.to == id) ≡ false
        → get id r.device_limits ≡ some l
        → Call id q l r
    other-Call id l f g h = record {
      after = l;
      found = reserved.others id f g ∙ h;
      spent = inr (refl, f);
    }

    any-Call : (id : Text) (l : DeviceLimit) → get id r.device_limits ≡ some l → Call id q l r
    any-Call id l h = elim (beq-cases q.from id) [
      | inl (x, e) ↦
          subst (λ i. (m : DeviceLimit) → get i r.device_limits ≡ some m → Call i q m r) e
            (λ m k.
              subst (λ n. Call q.from q n r) (some-inj s m (get q.from r.device_limits) hs k)
                from-Call)
            l h
      | inr f ↦ elim (beq-cases q.to id) [
        | inl (x, e) ↦
            subst (λ i. (m : DeviceLimit) → get i r.device_limits ≡ some m → Call i q m r) e
              (λ m k.
                subst (λ n. Call q.to q n r) (some-inj t m (get q.to r.device_limits) ht k) to-Call)
              l h
        | inr g ↦ other-Call id l f g h
      ]
    ]

  reserve-Call :
      (id : Text) (q : Reservation) (l : DeviceLimit) (r : ControlRoom)
      → get id r.device_limits ≡ some l
      → IsPair r q
      → Call id q l r
  reserve-Call id q l r h pair =
      any-Call q r (limit_of q.from r pair.sender).0 (limit_of q.to r pair.recipient).0 pair
        (limit_of q.from r pair.sender).1 (limit_of q.to r pair.recipient).1 id l h

  reserve-has :
      (id : Text) (q : Reservation) (r : ControlRoom)
      → IsPair r q
      → has id r.device_limits ≡ true
      → has id (reserve q r).1.device_limits ≡ true
  reserve-has id q r pair h =
      ap is_some (reserve-Call id q (limit_of id r h).0 r (limit_of id r h).1 pair).found

  reserve-IsPair :
      (q c : Reservation) (r : ControlRoom) → IsPair r q → IsPair r c → IsPair (reserve q r).1 c
  reserve-IsPair q c r pair other = record {
    different = other.different;
    sender = reserve-has c.from q r pair other.sender;
    recipient = reserve-has c.to q r pair other.recipient;
  }

  reserve-All :
      (q : Reservation) (r : ControlRoom) (qs : List Reservation)
      → IsPair r q
      → All (IsPair r) qs
      → All (IsPair (reserve q r).1) qs
  reserve-All q r [] pair h = h
  reserve-All q r (c ∷ qs) pair (h, hs) = (reserve-IsPair q c r pair h, reserve-All q r qs pair hs)

  IsOrdered-earlier :
      (s t : ℕ) (qs : List Reservation) (until : ℕ)
      → s ≤ t
      → IsOrdered t qs until
      → IsOrdered s qs until
  unfolding IsOrdered
  IsOrdered-earlier s t [] until h o = omega (arith, h, o)
  IsOrdered-earlier s t (q ∷ qs) until h (a, o) = (omega (arith, h, a), o)

  bytes_sent-paid :
      (id : Text) (r : ControlRoom) (l : DeviceLimit) (qs : List Reservation) (until : ℕ)
      → get id r.device_limits ≡ some l
      → neg_part l.tokens ≡ 0
      → All (IsPair r) qs
      → IsOrdered l.updated_at qs until
      → bytes_sent id qs r * 1000 + l.updated_at * 1_048_576 ≤ pos_part l.tokens + until * 1_048_576
  unfolding bytes_sent IsOrdered
  bytes_sent-paid id r l [] until h z known ordered = omega (arith, ordered)
  bytes_sent-paid id r l (q ∷ qs) until h z (pair, known) (at, ordered) =
      let call = reserve-Call id q l r h pair in
      let rest =
        λ (m : DeviceLimit) (k : get id (reserve q r).1.device_limits ≡ some m)
            (w : neg_part m.tokens ≡ 0) (t : m.updated_at ≤ q.at).
          bytes_sent-paid id (reserve q r).1 m qs until k w (reserve-All q r qs pair known)
            (IsOrdered-earlier m.updated_at q.at qs until t ordered) in
      elim call.spent [
        | inl s ↦ omega (
          arith,
          s.potential,
          s.positive at z,
          z,
          rest call.after call.found (s.positive at z) (s.on_time at),
        )
        | inr (e, f) ↦ rw f (omega (arith, rest l (call.found ∙ ap some e) z at))
      ]

  -- Over a run of reservations between registered devices, at times that do not step back, a
  -- device whose bucket is not in debt and holds at most the burst of 4 MiB sends at most the
  -- burst and 1 MiB for each second since its bucket was last filled. (Times are in
  -- milliseconds, so both sides are in thousandths of a byte.)
  pub bytes_sent-le :
      (id : Text) (r : ControlRoom) (l : DeviceLimit) (qs : List Reservation) (until : ℕ)
      → get id r.device_limits ≡ some l
      → neg_part l.tokens ≡ 0
      → l.tokens ≤ℤ burst
      → All (IsPair r) qs
      → IsOrdered l.updated_at qs until
      → bytes_sent id qs r * 1000
        ≤ relay_burst_bytes * 1000 + (until - l.updated_at) * relay_bytes_per_second
  bytes_sent-le id r l qs until h z full known ordered =
      omega (arith, bytes_sent-paid id r l qs until h z known ordered, full, z)

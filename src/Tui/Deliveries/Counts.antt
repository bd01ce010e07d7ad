-- ===== src/Tui/Deliveries/Counts.antt =====
-- tui/src/utils.ts: the counts of a delivery label.
use mesh_talk.Common.{
  ℕ, ◌+◌, ◌≤◌, ◌≡◌, refl, inl, inr, arith, Bool, true, false, List, [], ◌∷◌, Text, codes, text_eq,
  length, keep, Bool-cases, beq-cases, text_beq,
}
use mesh_talk.Tui.Deliveries.{
  GroupDelivery, statuses_of, count_status, known_of, details_of, detail, is_delivered, is_queued,
  is_unavailable, is_failed, is_sent, is_pending,
}

abbrev one_if : Bool → ℕ
one_if true = 1
one_if false = 0

count_status-cons :
    (p : Text → Bool) (x : Text) (xs : List Text)
    → count_status p (x ∷ xs) ≡ one_if (p x) + count_status p xs
unfolding count_status keep
count_status-cons p x xs = elim (Bool-cases (p x)) [
  | inl e ↦ rw e (omega arith)
  | inr e ↦ rw e (omega arith)
]

-- a status belongs to one class at most
one_class :
    (x : Text)
    → one_if (is_delivered x)
        + one_if (is_queued x)
        + one_if (is_unavailable x)
        + one_if (is_failed x)
        + one_if (is_sent x)
        + one_if (is_pending x)
      ≤ 1
unfolding text_beq
one_class x = elim (beq-cases x (codes "delivered")) [
  | inl (_, p) ↦ rw p (omega arith)
  | inr a ↦ elim (beq-cases x (codes "queued")) [
    | inl (_, p) ↦ rw p (omega arith)
    | inr b ↦ elim (beq-cases x (codes "unavailable")) [
      | inl (_, p) ↦ rw p (omega arith)
      | inr c ↦ elim (beq-cases x (codes "failed")) [
        | inl (_, p) ↦ rw p (omega arith)
        | inr d ↦ elim (beq-cases x (codes "blocked")) [
          | inl (_, p) ↦ rw p (omega arith)
          | inr e ↦ elim (beq-cases x (codes "sent")) [
            | inl (_, p) ↦ rw p (omega arith)
            | inr f ↦ elim (beq-cases x (codes "pending")) [
              | inl (_, p) ↦ rw p (omega arith)
              | inr g ↦ rw (a, b, c, d, e, f, g) (omega arith)
            ]
          ]
        ]
      ]
    ]
  ]
]

known_of-cons :
    (x : Text) (s : List Text)
    → known_of (x ∷ s)
      ≡ one_if (is_delivered x)
        + one_if (is_queued x)
        + one_if (is_unavailable x)
        + one_if (is_failed x)
        + one_if (is_sent x)
        + one_if (is_pending x)
        + known_of s
unfolding known_of
known_of-cons x s = omega (
  arith,
  count_status-cons is_delivered x s,
  count_status-cons is_queued x s,
  count_status-cons is_unavailable x s,
  count_status-cons is_failed x s,
  count_status-cons is_sent x s,
  count_status-cons is_pending x s,
)

known_of-le : (s : List Text) → known_of s ≤ length s
known_of-le [] = unfold known_of count_status keep in omega arith
known_of-le (x ∷ s) = omega (arith, known_of-cons x s, one_class x, known_of-le s)

known_of_lem :
    (s : List Text)
    → known_of s
      ≡ count_status is_delivered s
        + count_status is_queued s
        + count_status is_unavailable s
        + count_status is_failed s
        + count_status is_sent s
        + count_status is_pending s
unfolding known_of
known_of_lem s = refl

length-statuses_of : (ds : List GroupDelivery) → length (statuses_of ds) ≡ length ds
unfolding statuses_of
length-statuses_of [] = refl
length-statuses_of (d ∷ ds) = omega (arith, length-statuses_of ds)

abbrev pub total : List (Text × ℕ) → ℕ
total [] = 0
total ((name, n) ∷ rest) = n + total rest

total-detail :
    (name : Text) (n : ℕ) (rest : List (Text × ℕ)) → total (detail name n rest) ≡ n + total rest
total-detail name n rest = ground arith

-- The counts of a delivery label add up to the number of deliveries: the delivered ones that the
-- label starts with, and those in its further parts. No delivery is left out or counted twice,
-- whatever its status.
pub details_of-total :
    (deliveries : List GroupDelivery)
    → count_status is_delivered (statuses_of deliveries)
        + total (details_of (statuses_of deliveries))
      ≡ length deliveries
unfolding details_of
details_of-total deliveries =
    let s = statuses_of deliveries in
    omega (arith, known_of-le s, length-statuses_of deliveries, total-detail, known_of_lem s)

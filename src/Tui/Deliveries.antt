-- ===== src/Tui/Deliveries.antt =====
-- tui/src/utils.ts: what a group message shows of its deliveries. `join` takes the separator
-- between the parts that are listed.
pub mod Counts
use mesh_talk.Common.{
  ℕ, zero, suc, ◌+◌, ◌-◌, Bool, true, false, ◌||◌, Option, none, some, List, [], ◌∷◌, ◌++◌, map,
  Text, codes, ltb, text_eq, ◌==◌, length, keep, contains, if◌then◌else◌,
}
use mesh_talk.Common.Decimal.{to_decimal}

-- the fields of a delivery that are read here
pub record GroupDelivery : Type 0 where
  pub recipient_id : Text
  pub status : Text

unfoldable pub normalize_delivery_status : Text → Text
normalize_delivery_status status =
    if status == codes "completed"
    then codes "delivered"
    else if status == codes "transferring" || status == codes "receiving"
    then codes "pending"
    else status

unfoldable pub statuses_of : List GroupDelivery → List Text
unfolding normalize_delivery_status
statuses_of deliveries = map (λ d. normalize_delivery_status d.status) deliveries

unfoldable pub count_status : (Text → Bool) → List Text → ℕ
unfolding keep
count_status p statuses = length (keep p statuses)

abbrev pub is_delivered : Text → Bool
is_delivered s = s == codes "delivered"

abbrev pub is_queued : Text → Bool
is_queued s = s == codes "queued"

abbrev pub is_unavailable : Text → Bool
is_unavailable s = s == codes "unavailable"

abbrev pub is_failed : Text → Bool
is_failed s = s == codes "failed" || s == codes "blocked"

abbrev pub is_sent : Text → Bool
is_sent s = s == codes "sent"

abbrev pub is_pending : Text → Bool
is_pending s = s == codes "pending"

-- the counts that follow the first part, those of 0 left out
abbrev pub detail : Text → ℕ → List (Text × ℕ) → List (Text × ℕ)
detail name n rest = if ltb 0 n then (name, n) ∷ rest else rest

unfoldable pub known_of : List Text → ℕ
unfolding count_status
known_of s =
    count_status is_delivered s
    + count_status is_queued s
    + count_status is_unavailable s
    + count_status is_failed s
    + count_status is_sent s
    + count_status is_pending s

unfoldable pub details_of : List Text → List (Text × ℕ)
unfolding count_status known_of
details_of s = detail (codes "queued") (count_status is_queued s) (
    detail (codes "unavailable") (count_status is_unavailable s) (
      detail (codes "failed") (count_status is_failed s) (
        detail (codes "sent") (count_status is_sent s) (
          detail (codes "pending") (count_status is_pending s)
            (detail (codes "other") (length s - known_of s) [])))))

abbrev shown_detail : Text × ℕ → Text
shown_detail (name, n) = name ++ b' ' ∷ to_decimal n

-- a space, U+00B7 and a space
abbrev pub separator : Text
separator = b' ' ∷ 0xb7 ∷ b' ' ∷ []

abbrev behind : List Text → Text
behind [] = []
behind (t ∷ ts) = (separator ++ t) ++ behind ts

unfoldable pub group_delivery_label : List GroupDelivery → Text
unfolding statuses_of count_status details_of to_decimal
group_delivery_label [] = codes "sent"
group_delivery_label (d ∷ ds) =
    let s = statuses_of (d ∷ ds) in
    (codes "delivered "
      ++ to_decimal (count_status is_delivered s)
      ++ b'/' ∷ to_decimal (length (d ∷ ds)))
    ++ behind (map shown_detail (details_of s))

pub record Summary : Type 0 where
  pub text : Text
  pub failed : Bool

abbrev failed_delivery_statuses : List Text
failed_delivery_statuses = codes "failed" ∷ codes "blocked" ∷ codes "unavailable" ∷ []

unfoldable pub group_delivery_status_summary : List GroupDelivery → Option Summary
unfolding statuses_of count_status contains to_decimal
group_delivery_status_summary deliveries =
    let s = statuses_of deliveries in
    let failed = count_status (λ t. contains t failed_delivery_statuses) s in
    let sending = contains (codes "pending") s in
    if ltb 0 failed
    then some (record {
      text =
          codes "Failed for "
          ++ to_decimal failed
          ++ codes " of "
          ++ to_decimal (length deliveries)
          ++ (if sending then separator ++ codes "sending" else []);
      failed = true;
    })
    else if sending
    then some (record { text = codes "sending"; failed = false })
    else none

-- ===== src/Tui/Mentions.antt =====
-- tui/src/mentions.ts: the mention spans of the composer's text.
pub mod Range
pub mod Edits
mod Tests
use mesh_talk.Common.{
  ℕ, zero, suc, ◌+◌, ◌-◌, Bool, true, false, not, ◌&&◌, Option, none, some, List, [], ◌∷◌, Text,
  ltb, leb, nat_eq, text_eq, ◌==◌, length, contains, get_elem?, if◌then◌else◌,
}

pub record MentionSpan : Type 0 where
  pub peer_id : Text
  pub name : Text
  pub start : ℕ
  pub end : ℕ

abbrev pub same_unit : Option ℕ → Option ℕ → Bool
same_unit (some a) (some b) = a == b
same_unit _ _ = false

-- the first loop: where the two texts first differ
unfoldable pub common_prefix : Text → Text → ℕ
common_prefix [] u = 0
common_prefix (a ∷ t) [] = 0
common_prefix (a ∷ t) (b ∷ u) = let rest = common_prefix t u in if a == b then suc rest else 0

-- the second loop, from two ends down to `start`
unfoldable pub common_ends : Text → Text → ℕ → ℕ → ℕ → ℕ × ℕ
common_ends prev next start zero next_end = (zero, next_end)
common_ends prev next start (suc p) zero = (suc p, zero)
common_ends prev next start (suc p) (suc n) =
    let rest = common_ends prev next start p n in
    if ltb start (suc p) && ltb start (suc n) && same_unit (get_elem? prev p) (get_elem? next n)
    then rest
    else (suc p, suc n)

-- A span after the edit starts at `prev_end` or later, so that its shift by
-- `next_end - prev_end` does not stop at 0.
unfoldable pub move_span : ℕ → ℕ → ℕ → MentionSpan → Option MentionSpan
move_span start prev_end next_end span =
    if leb span.end start
    then some span
    else if leb prev_end span.start
    then some (record span {
      start = span.start + next_end - prev_end;
      end = span.end + next_end - prev_end;
    })
    else none

abbrev push_span : Option MentionSpan → List MentionSpan → List MentionSpan
push_span none spans = spans
push_span (some s) spans = s ∷ spans

unfoldable pub move_spans : ℕ → ℕ → ℕ → List MentionSpan → List MentionSpan
move_spans start prev_end next_end [] = []
move_spans start prev_end next_end (span ∷ spans) =
    push_span (move_span start prev_end next_end span) (move_spans start prev_end next_end spans)

unfoldable pub update_spans_after_edit : List MentionSpan → Text → Text → List MentionSpan
update_spans_after_edit spans prev next =
    if prev == next
    then spans
    else let start = common_prefix prev next in
      let ends = common_ends prev next start (length prev) (length next) in
      move_spans start ends.0 ends.1 spans

-- ===== src/Tui/Mentions/Edits.antt =====
-- tui/src/mentions.ts: the mention spans after an edit.
use mesh_talk.Common.{
  ℕ, ◌+◌, ◌-◌, ◌≤◌, ◌<◌, ◌≡◌, ◌⊎◌, refl, ap, sym, ◌∙◌, subst, inl, inr, arith, none, some, List, [],
  ◌∷◌, Text, leb, nat_eq, text_eq, length, All, beq-cases, Bool-cases, get_elem?,
}
use mesh_talk.Tui.Mentions.{
  MentionSpan, common_prefix, move_span, move_spans, update_spans_after_edit,
}
use mesh_talk.Tui.Mentions.Range.{
  common_prefix-le, common_prefix-units, IsEnds, IsEdit, edit_start, edit_ends, found-IsEnds,
  found-IsEdit,
}

-- The span lies in the text.
pub record IsWithin (t : Text) (s : MentionSpan) : Type 0 where
  pub ordered : s.start ≤ s.end
  pub inside : s.end ≤ length t

-- `m` is `s` after the edit: it covers the same units.
pub record IsCarried (prev next : Text) (s m : MentionSpan) : Type 0 where
  pub peer_id : m.peer_id ≡ s.peer_id
  pub name : m.name ≡ s.name
  pub size : m.end + s.start ≡ s.end + m.start
  pub inside : m.end ≤ length next
  pub units :
      (k : ℕ) → s.start + k < s.end → get_elem? next (m.start + k) ≡ get_elem? prev (s.start + k)

module _ (prev next : Text) (ends : ℕ × ℕ)
    (found : IsEnds prev next (common_prefix prev next) (length prev) (length next) ends)
    (s : MentionSpan) (w : IsWithin prev s) where
  kept-IsCarried : s.end ≤ common_prefix prev next → IsCarried prev next s s
  kept-IsCarried h = record {
    peer_id = refl;
    name = refl;
    size = omega arith;
    inside = omega (arith, h, (common_prefix-le prev next).1);
    units = λ k t. common_prefix-units prev next (s.start + k) (omega (arith, t, h));
  }

  shifted-IsCarried :
      ends.0 ≤ s.start
      → IsCarried prev next s
          (record s { start = s.start + ends.1 - ends.0; end = s.end + ends.1 - ends.0 })
  shifted-IsCarried h = record {
    peer_id = refl;
    name = refl;
    size = omega (arith, h, w.ordered);
    inside = omega (arith, h, w.ordered, w.inside, found.same);
    units = λ k t.
        let here : ends.1 + (s.start - ends.0 + k) ≡ s.start + ends.1 - ends.0 + k =
          omega (arith, h) in
        let there : ends.0 + (s.start - ends.0 + k) ≡ s.start + k = omega (arith, h) in
        ap (get_elem? next) (sym here)
        ∙ found.units (s.start - ends.0 + k) (omega (arith, t, w.inside, h))
        ∙ ap (get_elem? prev) there;
  }

  -- what becomes of a span
  move_span-cases :
      ((m : MentionSpan) × (move_span (common_prefix prev next) ends.0 ends.1 s ≡ some m)
        × IsCarried prev next s m)
      ⊎ ((move_span (common_prefix prev next) ends.0 ends.1 s ≡ none)
          × (common_prefix prev next < s.end)
          × (s.start < ends.0))
  unfolding move_span
  move_span-cases = elim (Bool-cases (leb s.end (common_prefix prev next))) [
    | inl t ↦ inl (s, rw t refl, kept-IsCarried (ground (arith, t)))
    | inr f ↦ elim (Bool-cases (leb ends.0 s.start)) [
      | inl t ↦ inl (
        record s { start = s.start + ends.1 - ends.0; end = s.end + ends.1 - ends.0 },
        rw (f, t) refl,
        shifted-IsCarried (ground (arith, t)),
      )
      | inr g ↦ inr (rw (f, g) refl, ground (arith, f), ground (arith, g))
    ]
  ]

-- The spans of the next text, in order: each span is carried over, or dropped since it overlaps
-- the edited range of the previous text, from `start` up to `prev_end`.
pub data Updated (prev next : Text) (start prev_end : ℕ)
    : List MentionSpan → List MentionSpan → Type 0 where
  done : Updated prev next start prev_end [] []
  carried :
      {s m : MentionSpan} {ss ms : List MentionSpan}
      → IsCarried prev next s m
      → Updated prev next start prev_end ss ms
      → Updated prev next start prev_end (s ∷ ss) (m ∷ ms)
  overlapping :
      {s : MentionSpan} {ss ms : List MentionSpan}
      → start < s.end
      → s.start < prev_end
      → Updated prev next start prev_end ss ms
      → Updated prev next start prev_end (s ∷ ss) ms

module _ (prev next : Text) where
  move_spans-Updated :
      (spans : List MentionSpan)
      → All (IsWithin prev) spans
      → Updated prev next
          (edit_start prev next)
          (edit_ends prev next).0
          spans
          (move_spans (edit_start prev next) (edit_ends prev next).0 (edit_ends prev next).1 spans)
  unfolding move_spans
  move_spans-Updated [] w = done
  move_spans-Updated (s ∷ ss) (w, ws) =
      elim (move_span-cases prev next (edit_ends prev next) (found-IsEnds prev next) s w) [
        | inl (m, e, c) ↦ rw e (carried c (move_spans-Updated ss ws))
        | inr (e, a, b) ↦ rw e (overlapping a b (move_spans-Updated ss ws))
      ]

unchanged-Updated :
    (t : Text) (start prev_end : ℕ) (spans : List MentionSpan)
    → All (IsWithin t) spans
    → Updated t t start prev_end spans spans
unchanged-Updated t start prev_end [] w = done
unchanged-Updated t start prev_end (s ∷ ss) (w, ws) =
    carried
      (record {
        peer_id = refl;
        name = refl;
        size = omega arith;
        inside = w.inside;
        units = λ k h. refl;
      })
      (unchanged-Updated t start prev_end ss ws)

-- what an edit makes of the spans: those of the edited range, which the texts determine
pub record Edited (prev next : Text) (spans result : List MentionSpan) : Type 0 where
  pub start : ℕ
  pub prev_end : ℕ
  pub next_end : ℕ
  pub edit : IsEdit prev next start prev_end next_end
  pub updated : Updated prev next start prev_end spans result

update-Updated :
    (spans : List MentionSpan) (prev next : Text)
    → All (IsWithin prev) spans
    → Updated prev next
        (edit_start prev next)
        (edit_ends prev next).0
        spans
        (update_spans_after_edit spans prev next)
unfolding update_spans_after_edit
update-Updated spans prev next w = elim (beq-cases prev next) [
  | inl (t, e) ↦ rw t (
      subst (λ u. Updated prev u (edit_start prev next) (edit_ends prev next).0 spans spans) e
        (unchanged-Updated prev (edit_start prev next) (edit_ends prev next).0 spans w))
  | inr f ↦ rw f (move_spans-Updated prev next spans w)
]

-- For spans within the previous text, the spans after an edit are the old ones in their order,
-- each with its peer and name and the very units it covered before, now within the next text;
-- only spans that overlap the edited range are dropped. That range is the part between a common
-- beginning of the two texts that cannot be made longer and a common ending behind it that cannot
-- be made longer.
pub update_spans_after_edit-Edited :
    (spans : List MentionSpan) (prev next : Text)
    → All (IsWithin prev) spans
    → Edited prev next spans (update_spans_after_edit spans prev next)
update_spans_after_edit-Edited spans prev next w = record {
  start = edit_start prev next;
  prev_end = (edit_ends prev next).0;
  next_end = (edit_ends prev next).1;
  edit = found-IsEdit prev next;
  updated = update-Updated spans prev next w;
}

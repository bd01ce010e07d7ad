-- ===== src/Tui/Tokens/Scanning.antt =====
-- tui/src/mentions.ts: the scan of a message goes on at each step, and ends.
use mesh_talk.Common.{
  ℕ, zero, suc, ◌+◌, ◌≤◌, ◌<◌, ◌≡◌, ◌⊎◌, refl, inl, inr, arith, true, not, ◌&&◌, Option, none, some,
  List, [], ◌∷◌, Text, ltb, nat_beq, length, get_elem?, drop, slice, Bool-cases, Option-cases,
}
use mesh_talk.Common.Strings.{run_of}
use mesh_talk.Tui.Tokens.{
  Token, has_unit, mention_at, is_escaped_at, index_of, index_from, newline, line_end, next_line,
  fence_of, is_closing, fence_end, is_line_start, fenced_end, fenced, span_end, code_span,
  escaped_step, mention_step, code_step, plain_step, scan_step, scan, scan_mention_content,
}

-- an end that the scan jumps to lies behind `i`
abbrev LiesBehind : ℕ → Option ℕ → Type 0
LiesBehind i none = Unit
LiesBehind i (some end) = i < end

run-drop :
    (t : Text) (i c : ℕ) → has_unit t i c ≡ true → 1 ≤ length (run_of (λ d. nat_beq d c) (drop i t))
unfolding run_of get_elem?
run-drop [] i c h = absurd (ground (arith, h))
run-drop (d ∷ t) zero c h = rw h (omega arith)
run-drop (d ∷ t) (suc i) c h = run-drop t i c h

index_from-le :
    (pattern t : Text) (i : ℕ)
    → (index_from pattern t i ≡ none) ⊎ ((k : ℕ) × (index_from pattern t i ≡ some (i + k)))
unfolding index_from
index_from-le pattern t i = elim (Option-cases (index_of pattern (drop i t))) [
  | inl e ↦ inl (rw e refl)
  | inr (k, e) ↦ inr (k, rw e refl)
]

module _ (content : Text) where
  next_line-lt : (i cursor : ℕ) → i < length content → i ≤ cursor → i < next_line content cursor
  unfolding next_line
  next_line-lt i cursor h k = elim (index_from-le newline content cursor) [
    | inl e ↦ rw e h
    | inr (n, e) ↦ rw e (omega arith)
  ]

  fence_end-lt :
      (fuel marker marker_length i cursor : ℕ)
      → i < length content
      → i ≤ cursor
      → i < fence_end fuel content marker marker_length cursor
  unfolding fence_end
  fence_end-lt zero marker l i cursor h k = h
  fence_end-lt (suc fuel) marker l i cursor h k =
      let next = next_line-lt i cursor h k in
      let rest = fence_end-lt fuel marker l i (next_line content cursor) h (omega (arith, next)) in
      elim (Bool-cases (ltb cursor (length content))) [
        | inr e ↦ rw e h
        | inl e ↦
            elim (Bool-cases
              (is_closing marker l (slice content cursor (line_end content cursor)))) [
                | inl c ↦ rw (e, c) next
                | inr c ↦ rw (e, c) rest
              ]
      ]

  fenced_end-lt :
      (i : ℕ) (found : Option (ℕ × ℕ))
      → i < length content
      → LiesBehind i (fenced_end content i found)
  fenced_end-lt i none h = tt
  fenced_end-lt i (some (marker, l)) h =
      fence_end-lt (length content) marker l i (next_line content i) h
        (omega (arith, next_line-lt i i h (omega arith)))

  fenced-lt : (i : ℕ) → i < length content → LiesBehind i (fenced content i)
  unfolding fenced
  fenced-lt i h = elim (Bool-cases (is_line_start content i)) [
    | inl e ↦ rw e (fenced_end-lt i (fence_of (slice content i (line_end content i))) h)
    | inr e ↦ rw e tt
  ]

  span_end-lt :
      (marker : Text) (i : ℕ) → 1 ≤ length marker → LiesBehind i (span_end marker content i)
  unfolding span_end
  span_end-lt marker i h = elim (index_from-le marker content (i + length marker)) [
    | inl e ↦ rw e tt
    | inr (n, e) ↦ rw e (omega (arith, h))
  ]

  code_span-lt : (i : ℕ) → LiesBehind i (code_span content i)
  unfolding code_span
  code_span-lt i = elim (Bool-cases (has_unit content i b'`' && not (is_escaped_at content i))) [
    | inl e ↦ rw e (
        span_end-lt (run_of (λ c. nat_beq c b'`') (drop i content)) i
          (run-drop content i b'`' (ground (arith, e))))
    | inr e ↦ rw e tt
  ]

  escaped_step-lt : (i : ℕ) (o : Option Text) → i < (escaped_step content i o).1
  escaped_step-lt i none = omega arith
  escaped_step-lt i (some id) = omega arith

  mention_step-lt : (i : ℕ) (o : Option Text) → i < (mention_step content i o).1
  mention_step-lt i none = omega arith
  mention_step-lt i (some id) = omega arith

  plain_step-lt : (i : ℕ) → i < (plain_step content i).1
  unfolding plain_step
  plain_step-lt i = elim (Bool-cases (has_unit content i 0x5c && has_unit content (i + 1) 0x5c)) [
    | inl e ↦ rw e (omega arith)
    | inr e ↦ rw e (elim (Bool-cases (has_unit content i 0x5c)) [
      | inl f ↦ rw f (escaped_step-lt i (mention_at (drop (i + 1) content)))
      | inr f ↦ rw f (mention_step-lt i (mention_at (drop i content)))
    ])
  ]

  code_step-lt :
      (i : ℕ) (o : Option ℕ) (other : Token × ℕ)
      → LiesBehind i o
      → i < other.1
      → i < (code_step content i o other).1
  code_step-lt i none other h k = k
  code_step-lt i (some end) other h k = h

  scan_step-lt : (i : ℕ) → i < length content → i < (scan_step content i).1
  unfolding scan_step
  scan_step-lt i h =
      code_step-lt i (fenced content i)
        (code_step content i (code_span content i) (plain_step content i)) (fenced-lt i h)
        (code_step-lt i (code_span content i) (plain_step content i) (code_span-lt i)
          (plain_step-lt i))

  scan_total :
      (fuel i : ℕ)
      → length content ≤ fuel + i
      → (ts : List Token) × (scan (suc fuel) content i ≡ some ts)
  unfolding scan
  scan_total zero i h = ([], ground arith)
  scan_total (suc fuel) i h = elim (Bool-cases (ltb i (length content))) [
    | inr e ↦ ([], rw e refl)
    | inl e ↦
        let next = scan_step-lt i (ground (arith, e)) in
        let rest = scan_total fuel (scan_step content i).1 (omega (arith, next, h)) in
        ((scan_step content i).0 ∷ rest.0, rw e (rw (rest.1) refl))
  ]

  -- the fuel is enough
  pub scan_mention_content_total : (ts : List Token) × (scan_mention_content content ≡ some ts)
  unfolding scan_mention_content
  scan_mention_content_total = scan_total (length content) 0 (omega arith)

-- ===== src/Tui/MentionIds/Escapes.antt =====
-- tui/src/mentions.ts: the backslashes before a token.
use mesh_talk.Common.{
  ℕ, zero, suc, ◌%◌, ◌≡◌, ◌≢◌, refl, ap, ◌∙◌, arith, inl, inr, true, false, some, Text, get_elem?,
  Bool-cases, Option-cases,
}
use mesh_talk.Tui.Tokens.{has_unit, backslashes_before, is_escaped_at}

-- Directly before position `i` stand `n` backslashes, and no more.
pub data Backslashes (content : Text) : ℕ → ℕ → Type 0 where
  at_start : Backslashes content 0 0
  at_other : {i : ℕ} → get_elem? content i ≢ some 0x5c → Backslashes content (suc i) 0
  one_more :
      {i n : ℕ}
      → get_elem? content i ≡ some 0x5c
      → Backslashes content i n
      → Backslashes content (suc i) (suc n)

module _ (content : Text) where
  has_unit-eq : (i c : ℕ) → has_unit content i c ≡ true → get_elem? content i ≡ some c
  has_unit-eq i c h = elim (Option-cases (get_elem? content i)) [
    | inl e ↦ absurd (ground (arith, e, h))
    | inr (d, e) ↦ e ∙ ap some (ground (arith, e, h))
  ]

  counted : (i : ℕ) → Backslashes content i (backslashes_before content i)
  unfolding backslashes_before
  counted zero = at_start
  counted (suc i) = elim (Bool-cases (has_unit content i 0x5c)) [
    | inl e ↦ rw e (one_more (has_unit-eq i 0x5c e) (counted i))
    | inr e ↦ rw e (at_other (λ k. ground (arith, e, k)))
  ]

  counted_once : (i n : ℕ) → Backslashes content i n → backslashes_before content i ≡ n
  unfolding backslashes_before
  counted_once i n at_start = refl
  counted_once i n (at_other {i = j} h) = elim (Bool-cases (has_unit content j 0x5c)) [
    | inl e ↦ absurd (h (has_unit-eq j 0x5c e))
    | inr e ↦ rw e refl
  ]
  counted_once i n (one_more {i = j} {n = m} e run) = ground (arith, e, counted_once j m run)

  pub free-Backslashes :
      (i : ℕ) → is_escaped_at content i ≡ false → (n : ℕ) × Backslashes content i n × (n % 2 ≡ 0)
  unfolding is_escaped_at
  free-Backslashes i h = (backslashes_before content i, counted i, ground (arith, h))

  pub Backslashes-free :
      (i n : ℕ) → Backslashes content i n → n % 2 ≡ 0 → is_escaped_at content i ≡ false
  unfolding is_escaped_at
  Backslashes-free i n run even = ground (arith, counted_once i n run, even)

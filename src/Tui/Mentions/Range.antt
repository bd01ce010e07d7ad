-- ===== src/Tui/Mentions/Range.antt =====
-- tui/src/mentions.ts: the range of an edit, as the two loops find it.
use mesh_talk.Common.{
  ℕ, zero, suc, ◌+◌, ◌≤◌, ◌<◌, ◌≡◌, ◌≢◌, ap, sym, ◌∙◌, inl, inr, arith, true, ◌&&◌, Option, none,
  some, [], ◌∷◌, Text, ltb, nat_eq, text_eq, length, beq-cases, beq_refl, Bool-cases, get_elem?,
  false,
}
use mesh_talk.Tui.Mentions.{same_unit, common_prefix, common_ends}

pub common_prefix-le :
    (t u : Text) → (common_prefix t u ≤ length t) × (common_prefix t u ≤ length u)
unfolding common_prefix
common_prefix-le [] u = ground arith
common_prefix-le (a ∷ t) [] = ground arith
common_prefix-le (a ∷ t) (b ∷ u) = ground (arith, common_prefix-le t u)

pub common_prefix-units :
    (t u : Text) (i : ℕ) → i < common_prefix t u → get_elem? u i ≡ get_elem? t i
unfolding common_prefix get_elem?
common_prefix-units [] u i h = absurd (omega (arith, h))
common_prefix-units (a ∷ t) [] i h = absurd (omega (arith, h))
common_prefix-units (a ∷ t) (b ∷ u) zero h = elim (beq-cases a b) [
  | inl (e, p) ↦ ap some (sym p)
  | inr f ↦ absurd (ground (arith, f, h))
]
common_prefix-units (a ∷ t) (b ∷ u) (suc i) h = elim (beq-cases a b) [
  | inl (e, p) ↦ common_prefix-units t u i (ground (arith, e, h))
  | inr f ↦ absurd (ground (arith, f, h))
]

same_unit-eq : (a b : Option ℕ) → same_unit a b ≡ true → b ≡ a
same_unit-eq none b h = absurd (ground (arith, h))
same_unit-eq (some a) none h = absurd (ground (arith, h))
same_unit-eq (some a) (some b) h = ap some (sym ((nat_eq.beq_iff a b).0 h))

-- the first loop stops at units that differ, or at the end of a text
common_prefix-last :
    (t u : Text) (c : ℕ)
    → get_elem? t (common_prefix t u) ≡ some c
    → get_elem? u (common_prefix t u) ≢ some c
unfolding common_prefix get_elem?
common_prefix-last [] u c h k = cc
common_prefix-last (a ∷ t) [] c h k = cc
common_prefix-last (a ∷ t) (b ∷ u) c h k = elim (beq-cases a b) [
  | inl (e, p) ↦ common_prefix-last t u c (ground (arith, e, h)) (ground (arith, e, k))
  | inr f ↦ ground (arith, f, nat_eq.beq_iff a b, h, k)
]

same_unit-some : (a b : Option ℕ) (c : ℕ) → a ≡ some c → b ≡ some c → same_unit a b ≡ true
same_unit-some a b c h k = rw (h, k) (beq_refl {A = ℕ} c)

-- no unit stands both before `p` in the one text and before `n` in the other
abbrev pub HasStop : Text → Text → ℕ → ℕ → Type 0
HasStop prev next p n =
    (p' n' c : ℕ)
    → p ≡ suc p'
    → n ≡ suc n'
    → get_elem? prev p' ≡ some c
    → get_elem? next n' ≢ some c

-- what the second loop has found
pub record IsEnds (prev next : Text) (start p n : ℕ) (ends : ℕ × ℕ) : Type 0 where
  pub prev_end : (start ≤ ends.0) × (ends.0 ≤ p)
  pub next_end : (start ≤ ends.1) × (ends.1 ≤ n)
  pub same : ends.0 + n ≡ ends.1 + p
  pub units : (k : ℕ) → ends.0 + k < p → get_elem? next (ends.1 + k) ≡ get_elem? prev (ends.0 + k)
  pub last : start < ends.0 → start < ends.1 → HasStop prev next ends.0 ends.1

stop-IsEnds :
    (prev next : Text) (start p n : ℕ)
    → start ≤ p
    → start ≤ n
    → (start < p → start < n → HasStop prev next p n)
    → IsEnds prev next start p n (p, n)
stop-IsEnds prev next start p n hp hn last = record {
  prev_end = (hp, omega arith);
  next_end = (hn, omega arith);
  same = omega arith;
  units = λ k h. absurd (omega (arith, h));
  last = last;
}

-- one round that goes on
down-IsEnds :
    (prev next : Text) (start p n : ℕ) (ends : ℕ × ℕ)
    → same_unit (get_elem? prev p) (get_elem? next n) ≡ true
    → IsEnds prev next start p n ends
    → IsEnds prev next start (suc p) (suc n) ends
down-IsEnds prev next start p n ends e h = record {
  prev_end = (h.prev_end.0, omega (arith, h.prev_end.1));
  next_end = (h.next_end.0, omega (arith, h.next_end.1));
  same = omega (arith, h.same);
  units = λ k t. elim (Bool-cases (ltb (ends.0 + k) p)) [
    | inl b ↦ h.units k (ground (arith, b))
    | inr b ↦
        let at_p : ends.0 + k ≡ p = ground (arith, b, t) in
        let at_n : ends.1 + k ≡ n = omega (arith, at_p, h.same) in
        rw (at_p, at_n) (same_unit-eq (get_elem? prev p) (get_elem? next n) e)
  ];
  last = h.last;
}

stop-last :
    (prev next : Text) (start p n : ℕ)
    → (ltb start (suc p) && ltb start (suc n) && same_unit (get_elem? prev p) (get_elem? next n))
      ≡ false
    → start < suc p
    → start < suc n
    → HasStop prev next (suc p) (suc n)
stop-last prev next start p n f a b p' n' c ep en h k =
    let at_p : p' ≡ p = omega (arith, ep) in
    let at_n : n' ≡ n = omega (arith, en) in
    let same =
      same_unit-some (get_elem? prev p) (get_elem? next n) c (ap (get_elem? prev) (sym at_p) ∙ h)
        (ap (get_elem? next) (sym at_n) ∙ k) in
    ground (arith, f, a, b, same)

common_ends-IsEnds :
    (prev next : Text) (start p n : ℕ)
    → start ≤ p
    → start ≤ n
    → IsEnds prev next start p n (common_ends prev next start p n)
unfolding common_ends
common_ends-IsEnds prev next start zero n hp hn =
    stop-IsEnds prev next start zero n hp hn (λ a. absurd (omega (arith, a)))
common_ends-IsEnds prev next start (suc p) zero hp hn =
    stop-IsEnds prev next start (suc p) zero hp hn (λ a b. absurd (omega (arith, b)))
common_ends-IsEnds prev next start (suc p) (suc n) hp hn =
    elim (Bool-cases
      (ltb start (suc p) && ltb start (suc n) && same_unit (get_elem? prev p) (get_elem? next n))) [
        | inl t ↦ rw t (
            down-IsEnds prev next start p n (common_ends prev next start p n) (ground (arith, t))
              (common_ends-IsEnds prev next start p n (ground (arith, t)) (ground (arith, t))))
        | inr f ↦
            rw f
              (stop-IsEnds prev next start (suc p) (suc n) hp hn (stop-last prev next start p n f))
      ]

-- The two texts differ from `start` on, up to `prev_end` in the one and `next_end` in the other:
-- they agree before and behind, and neither can be moved further towards the other, for there the
-- units differ, a text ends, or the two meet.
pub record IsEdit (prev next : Text) (start prev_end next_end : ℕ) : Type 0 where
  pub prev_bounds : (start ≤ prev_end) × (prev_end ≤ length prev)
  pub next_bounds : (start ≤ next_end) × (next_end ≤ length next)
  pub same_rest : prev_end + length next ≡ next_end + length prev
  pub before : (i : ℕ) → i < start → get_elem? next i ≡ get_elem? prev i
  pub behind :
      (k : ℕ)
      → prev_end + k < length prev
      → get_elem? next (next_end + k) ≡ get_elem? prev (prev_end + k)
  pub first : (c : ℕ) → get_elem? prev start ≡ some c → get_elem? next start ≢ some c
  pub last : start < prev_end → start < next_end → HasStop prev next prev_end next_end

module _ (prev next : Text) where
  abbrev pub edit_start : ℕ
  edit_start = common_prefix prev next

  abbrev pub edit_ends : ℕ × ℕ
  edit_ends = common_ends prev next edit_start (length prev) (length next)

  pub found-IsEnds : IsEnds prev next edit_start (length prev) (length next) edit_ends
  found-IsEnds =
      common_ends-IsEnds prev next edit_start (length prev) (length next)
        (common_prefix-le prev next).0 (common_prefix-le prev next).1

  pub found-IsEdit : IsEdit prev next edit_start edit_ends.0 edit_ends.1
  found-IsEdit = record {
    prev_bounds = found-IsEnds.prev_end;
    next_bounds = found-IsEnds.next_end;
    same_rest = found-IsEnds.same;
    before = common_prefix-units prev next;
    behind = found-IsEnds.units;
    first = common_prefix-last prev next;
    last = found-IsEnds.last;
  }

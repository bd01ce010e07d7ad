-- ===== src/Tui/TerminalText/Safety.antt =====
-- common/terminal-text.ts: what is left of the controls.
use mesh_talk.Common.{
  ℕ, zero, suc, ◌-◌, ◌/◌, ◌%◌, ◌<◌, ◌≡◌, ◌⊎◌, refl, inl, inr, arith, Bool, true, false, ◌&&◌, ◌||◌,
  [], ◌∷◌, ◌++◌, Text, ltb, nat_beq, length, All, Bool-cases, if◌then◌else◌,
}
use mesh_talk.Common.Decimal.{digit, digits, to_base_16, pad_zeros}
use mesh_talk.Tui.TerminalText.{is_control, encode_control, terminal_text}

-- A unit that may be shown: a control only where the layout is allowed, and then a tab or the end
-- of a line.
abbrev pub IsShowable : Bool → ℕ → Type 0
IsShowable allow_layout c =
    (is_control c ≡ false) ⊎ ((allow_layout ≡ true) × ((c ≡ 0x0a) ⊎ (c ≡ 0x09)))

digit-IsShowable : (b : Bool) (n : ℕ) → n < 16 → IsShowable b (digit n)
digit-IsShowable b n h = inl (unfold is_control in ground arith)

module _ (b : Bool) where
  append-IsShowable :
      (s t : Text) → All (IsShowable b) s → All (IsShowable b) t → All (IsShowable b) (s ++ t)
  append-IsShowable [] t h k = k
  append-IsShowable (c ∷ s) t h k = (h.0, append-IsShowable s t h.1 k)

  digits-IsShowable :
      (fuel n : ℕ) (rest : Text)
      → All (IsShowable b) rest
      → All (IsShowable b) (digits 16 fuel n rest)
  unfolding digits
  digits-IsShowable zero n rest h = h
  digits-IsShowable (suc fuel) n rest h = elim (Bool-cases (ltb n 16)) [
    | inl e ↦ rw e (digit-IsShowable b n (ground (arith, e)), h)
    | inr e ↦ rw e (
        digits-IsShowable fuel (n / 16) (digit (n % 16) ∷ rest)
          (digit-IsShowable b (n % 16) (omega arith), h))
  ]

  pad_zeros-IsShowable :
      (n : ℕ) (t : Text) → All (IsShowable b) t → All (IsShowable b) (pad_zeros n t)
  unfolding pad_zeros
  pad_zeros-IsShowable zero t h = h
  pad_zeros-IsShowable (suc n) t h = (inl (unfold is_control in refl), pad_zeros-IsShowable n t h)

  base_16-IsShowable : (c : ℕ) → All (IsShowable b) (to_base_16 c)
  unfolding to_base_16
  base_16-IsShowable c = digits-IsShowable (suc c) c [] tt

  layout-IsShowable : (c : ℕ) → (b && (nat_beq c 0x0a || nat_beq c 0x09)) ≡ true → IsShowable b c
  layout-IsShowable c e = elim (Bool-cases (nat_beq c 0x0a)) [
    | inl n ↦ inr (ground (arith, e), inl (ground (arith, n)))
    | inr n ↦ inr (ground (arith, e), inr (ground (arith, n, e)))
  ]

  encode_control-IsShowable : (c : ℕ) → All (IsShowable b) (encode_control b c)
  unfolding encode_control
  encode_control-IsShowable c = elim (Bool-cases (b && (nat_beq c 0x0a || nat_beq c 0x09))) [
    | inl e ↦ rw e (layout-IsShowable c e, tt)
    | inr e ↦ rw e (
      inl (unfold is_control in refl),
      (
        inl (unfold is_control in refl),
        pad_zeros-IsShowable (4 - length (to_base_16 c)) (to_base_16 c) (base_16-IsShowable c),
      ),
    )
  ]

  unit-IsShowable :
      (c : ℕ) → All (IsShowable b) (if is_control c then encode_control b c else c ∷ [])
  unit-IsShowable c = elim (Bool-cases (is_control c)) [
    | inl e ↦ rw e (encode_control-IsShowable c)
    | inr e ↦ rw e (inl e, tt)
  ]

-- Every unit of an encoded text may be shown: no control character is left, and no mark that
-- reorders text, but tabs and ends of lines where the layout is allowed.
pub terminal_text-IsShowable :
    (text : Text) (allow_layout : Bool)
    → All (IsShowable allow_layout) (terminal_text text allow_layout)
unfolding terminal_text
terminal_text-IsShowable [] b = tt
terminal_text-IsShowable (c ∷ text) b =
    append-IsShowable b (if is_control c then encode_control b c else c ∷ []) (terminal_text text b)
      (unit-IsShowable b c) (terminal_text-IsShowable text b)

-- ===== src/Common/Bits.antt =====
-- When `|` and `^` of the program give zero, from the recursion on binary digits that they stand
-- for.
use Prim.Native.Nat.{
  ℕ, zero, suc, ◌/◌, ◌%◌, ◌≤◌, max, digits, differ, bit_or, bit_xor, bit_or-bitwise,
  bit_xor-bitwise,
}
use mathlib.Core.Path.{◌≡◌, refl, ap, ◌∙◌, sym}
use mathlib.Core.Logic.{◌↔◌}
use native.Mathlib.Omega.{arith}

differ-eq : (a b : ℕ) → differ a b ≡ 0 → a ≡ b
differ-eq zero b h = sym h
differ-eq (suc a) zero h = h
differ-eq (suc a) (suc b) h = ap suc (differ-eq a b h)

differ_refl : (a : ℕ) → differ a a ≡ 0
differ_refl zero = refl
differ_refl (suc a) = differ_refl a

xor_digits-eq : (n a b : ℕ) → a ≤ n → digits (λ y. y) differ n a b ≡ 0 → a ≡ b
xor_digits-eq zero a b p h = omega arith
xor_digits-eq (suc n) zero b p h = sym h
xor_digits-eq (suc n) (suc a) b p h =
    let halves = xor_digits-eq n (suc a / 2) (b / 2) (omega arith) (omega arith) in
    let ends = differ-eq (suc a % 2) (b % 2) (omega arith) in omega arith

xor_digits_refl : (n a : ℕ) → a ≤ n → digits (λ y. y) differ n a a ≡ 0
xor_digits_refl zero a p = omega arith
xor_digits_refl (suc n) zero p = refl
xor_digits_refl (suc n) (suc a) p =
    omega (arith, xor_digits_refl n (suc a / 2) (omega arith), differ_refl (suc a % 2))

pub bit_xor-eq-zero_iff : (a b : ℕ) → (bit_xor a b ≡ 0) ↔ (a ≡ b)
bit_xor-eq-zero_iff a b = (
  λ h. xor_digits-eq a a b (omega arith) (sym (bit_xor-bitwise a b) ∙ h),
  λ e. rw e (bit_xor-bitwise b b ∙ xor_digits_refl b b (omega arith)),
)

or_digits-zero : (n a b : ℕ) → a ≤ n → digits (λ y. y) max n a b ≡ 0 → (a ≡ 0) × (b ≡ 0)
or_digits-zero zero a b p h = omega arith
or_digits-zero (suc n) zero b p h = (refl, h)
or_digits-zero (suc n) (suc a) b p h =
    let halves = or_digits-zero n (suc a / 2) (b / 2) (omega arith) (omega arith) in omega arith

pub bit_or-eq-zero_iff : (a b : ℕ) → (bit_or a b ≡ 0) ↔ ((a ≡ 0) × (b ≡ 0))
bit_or-eq-zero_iff a b =
    (λ h. or_digits-zero a a b (omega arith) (sym (bit_or-bitwise a b) ∙ h), λ e. rw (e.0, e.1))

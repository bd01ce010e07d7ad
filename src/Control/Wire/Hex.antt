-- ===== src/Control/Wire/Hex.antt =====
-- control/src/worker.ts: hexadecimal text against bytes, and the comparison of room secrets.
use Prim.Native.Nat.{bit_or, bit_xor}
use mesh_talk.Common.{
  ℕ, zero, suc, ◌+◌, ◌*◌, ◌/◌, ◌%◌, ◌<◌, ◌≡◌, ◌↔◌, refl, sym, ap, ◌∙◌, true, List, [], ◌∷◌, Text,
  arith, length, All,
}
use mesh_talk.Common.Bits.{bit_or-eq-zero_iff, bit_xor-eq-zero_iff}
use mesh_talk.Control.Config.{room_auth_test, is_hex_digit, all_hex, is_hex}
use mesh_talk.Control.Wire.{to_digit, to_hex, from_digit, from_hex, differences, timing_safe_equal}

to_digit-is_hex : (n : ℕ) → n < 16 → is_hex_digit (to_digit n) ≡ true
unfolding to_digit is_hex_digit
to_digit-is_hex n h = ground arith

from_digit-to_digit : (n : ℕ) → n < 16 → from_digit (to_digit n) ≡ n
unfolding to_digit from_digit
from_digit-to_digit n h = ground arith

to_digit-from_digit : (c : ℕ) → is_hex_digit c ≡ true → to_digit (from_digit c) ≡ c
unfolding to_digit from_digit is_hex_digit
to_digit-from_digit c h = ground arith

from_digit-lt : (c : ℕ) → is_hex_digit c ≡ true → from_digit c < 16
unfolding from_digit is_hex_digit
from_digit-lt c h = ground arith

abbrev pub IsBytes : List ℕ → Type 0
IsBytes = All (λ b. b < 256)

-- Reading back the hexadecimal text of bytes gives the bytes.
-- For any bytes, reading their hexadecimal text gives them back.
pub from_hex-to_hex : (bytes : List ℕ) → IsBytes bytes → from_hex (to_hex bytes) ≡ bytes
unfolding to_hex from_hex
from_hex-to_hex [] h = refl
from_hex-to_hex (b ∷ bytes) (h, hs) =
    ground
      (arith, from_digit-to_digit (b / 16), from_digit-to_digit (b % 16), from_hex-to_hex bytes hs)

to_hex-all_hex : (bytes : List ℕ) → IsBytes bytes → all_hex (to_hex bytes) ≡ true
unfolding to_hex all_hex
to_hex-all_hex [] h = refl
to_hex-all_hex (b ∷ bytes) (h, hs) =
    ground (arith, to_digit-is_hex (b / 16), to_digit-is_hex (b % 16), to_hex-all_hex bytes hs)

length-to_hex : (bytes : List ℕ) → length (to_hex bytes) ≡ 2 * length bytes
unfolding to_hex
length-to_hex [] = refl
length-to_hex (b ∷ bytes) = omega (arith, length-to_hex bytes)

-- The text has two digits for each byte, and the patterns of the service accept it.
pub to_hex-is_hex :
    (bytes : List ℕ) → IsBytes bytes → is_hex (2 * length bytes) (to_hex bytes) ≡ true
unfolding is_hex
to_hex-is_hex bytes h = ground (arith, to_hex-all_hex bytes h, length-to_hex bytes)

byte_digits :
    (c d : ℕ)
    → is_hex_digit c ≡ true
    → is_hex_digit d ≡ true
    → (to_digit ((from_digit c * 16 + from_digit d) / 16) ≡ c)
      × (to_digit ((from_digit c * 16 + from_digit d) % 16) ≡ d)
byte_digits c d hc hd = (
  ap to_digit (omega (arith, from_digit-lt d hd)) ∙ to_digit-from_digit c hc,
  ap to_digit (omega (arith, from_digit-lt d hd)) ∙ to_digit-from_digit d hd,
)

-- Digits of an even number are those of their bytes.
pub to_hex-from_hex :
    (n : ℕ) (hex : Text) → all_hex hex ≡ true → length hex ≡ 2 * n → to_hex (from_hex hex) ≡ hex
unfolding to_hex from_hex all_hex
to_hex-from_hex n [] h e = refl
to_hex-from_hex n (c ∷ []) h e = absurd (omega arith)
to_hex-from_hex zero (c ∷ d ∷ hex) h e = absurd (omega arith)
to_hex-from_hex (suc n) (c ∷ d ∷ hex) h e = ground (arith, byte_digits c d, to_hex-from_hex n hex)

differences-eq-zero_iff :
    (acc : ℕ) (a b : List ℕ)
    → length a ≡ length b
    → (differences acc a b ≡ 0) ↔ ((acc ≡ 0) × (a ≡ b))
unfolding differences
differences-eq-zero_iff acc [] [] e = ground arith
differences-eq-zero_iff acc [] (y ∷ b) e = absurd (omega arith)
differences-eq-zero_iff acc (x ∷ a) [] e = absurd (omega arith)
differences-eq-zero_iff acc (x ∷ a) (y ∷ b) e = ground (
  arith,
  differences-eq-zero_iff (bit_or acc (bit_xor x y)) a b,
  bit_or-eq-zero_iff acc (bit_xor x y),
  bit_xor-eq-zero_iff x y,
)

pub timing_safe_equal_iff : (a b : List ℕ) → (timing_safe_equal a b ≡ true) ↔ (a ≡ b)
unfolding timing_safe_equal
timing_safe_equal_iff a b =
    ground (arith, differences-eq-zero_iff 0 a b, λ (e : a ≡ b). ap length e)

-- For two texts that the pattern of room secrets accepts, the comparison of their bytes succeeds
-- exactly when the texts are the same.
pub room_auth_equal_iff :
    (a b : Text)
    → room_auth_test a ≡ true
    → room_auth_test b ≡ true
    → (timing_safe_equal (from_hex a) (from_hex b) ≡ true) ↔ (a ≡ b)
unfolding is_hex
room_auth_equal_iff a b ha hb = (
  λ t.
      sym (to_hex-from_hex 32 a (ground arith) (ground arith))
      ∙ (ap to_hex ((timing_safe_equal_iff (from_hex a) (from_hex b)).0 t)
          ∙ to_hex-from_hex 32 b (ground arith) (ground arith)),
  λ e. (timing_safe_equal_iff (from_hex a) (from_hex b)).1 (ap from_hex e),
)

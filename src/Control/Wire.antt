-- ===== src/Control/Wire.antt =====
-- control/src/worker.ts: bytes as hexadecimal text, and the comparison of secrets.
pub mod Hex
use Prim.Native.Nat.{bit_or, bit_xor}
use mesh_talk.Common.{
  ℕ, ◌+◌, ◌-◌, ◌*◌, ◌/◌, ◌%◌, Bool, false, List, [], ◌∷◌, Text, leb, ltb, nat_beq, length,
  if◌then◌else◌,
}

-- one digit of `toString(16)`
unfoldable pub to_digit : ℕ → ℕ
to_digit n = if ltb n 10 then b'0' + n else b'a' + (n - 10)

-- a byte has two digits, the first a padding zero below 16
unfoldable pub to_hex : List ℕ → Text
unfolding to_digit
to_hex [] = []
to_hex (byte ∷ bytes) = to_digit (byte / 16) ∷ to_digit (byte % 16) ∷ to_hex bytes

-- a digit as `parseInt(…, 16)` reads it
unfoldable pub from_digit : ℕ → ℕ
from_digit c = if leb c b'9' then c - b'0' else c - b'a' + 10

-- Two digits make a byte. The program calls it on texts that a pattern of digits has accepted.
unfoldable pub from_hex : Text → List ℕ
unfolding from_digit
from_hex [] = []
from_hex (c ∷ []) = []
from_hex (c ∷ d ∷ hex) = (from_digit c * 16 + from_digit d) ∷ from_hex hex

-- the loop of `timingSafeEqual`, from the index on
unfoldable pub differences : ℕ → List ℕ → List ℕ → ℕ
differences acc [] b = acc
differences acc (x ∷ a) [] = acc
differences acc (x ∷ a) (y ∷ b) = differences (bit_or acc (bit_xor x y)) a b

unfoldable pub timing_safe_equal : List ℕ → List ℕ → Bool
unfolding differences
timing_safe_equal a b =
    if nat_beq (length a) (length b) then nat_beq (differences 0 a b) 0 else false

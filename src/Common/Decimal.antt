-- ===== src/Common/Decimal.antt =====
-- A number as the text that `${n}` makes of it, and in base 16 as `toString(16)`.
use Prim.Native.Nat.{ℕ, zero, suc, ◌+◌, ◌-◌, ◌/◌, ◌%◌}
use mathlib.Core.List.{[], ◌∷◌}
use mesh_talk.Common.Tests.{Text, ltb, if◌then◌else◌}

abbrev pub digit : ℕ → ℕ
digit n = if ltb n 10 then b'0' + n else b'a' + (n - 10)

-- The fuel is the number itself and one more: each round divides by the base, which is above 1.
unfoldable pub digits : ℕ → ℕ → ℕ → Text → Text
digits base zero n rest = rest
digits base (suc fuel) n rest =
    let more = digits base fuel (n / base) (digit (n % base) ∷ rest) in
    if ltb n base then digit n ∷ rest else more

unfoldable pub to_decimal : ℕ → Text
unfolding digits
to_decimal n = digits 10 (suc n) n []

unfoldable pub to_base_16 : ℕ → Text
unfolding digits
to_base_16 n = digits 16 (suc n) n []

-- `padStart(width, "0")`, by the number of characters that are missing
unfoldable pub pad_zeros : ℕ → Text → Text
pad_zeros zero t = t
pad_zeros (suc n) t = b'0' ∷ pad_zeros n t

-- ===== src/Common/Strings.antt =====
-- Texts as JavaScript's strings: white space, trimming and lines.
use Prim.Native.Nat.{ℕ}
use mathlib.Core.Bool.{Bool, true, false, ◌&&◌, ◌||◌}
use mathlib.Core.List.{List, [], ◌∷◌, reverse}
use mesh_talk.Common.Tests.{Text, leb, nat_beq, if◌then◌else◌}

-- the white space and line ends of `trim` and of `\s`
unfoldable pub is_space : ℕ → Bool
is_space c =
    (leb 0x09 c && leb c 0x0d)
    || nat_beq c 0x20
    || nat_beq c 0xa0
    || nat_beq c 0x1680
    || (leb 0x2000 c && leb c 0x200a)
    || (leb 0x2028 c && leb c 0x2029)
    || nat_beq c 0x202f
    || nat_beq c 0x205f
    || nat_beq c 0x3000
    || nat_beq c 0xfeff

unfoldable pub trim_start : Text → Text
unfolding is_space
trim_start [] = []
trim_start (c ∷ t) = let rest = trim_start t in if is_space c then rest else c ∷ t

unfoldable pub trim : Text → Text
unfolding trim_start
trim t = reverse (trim_start (reverse (trim_start t)))

abbrev pub is_empty_text : Text → Bool
is_empty_text [] = true
is_empty_text (c ∷ t) = false

abbrev pub put_first : ℕ → List Text × Text → List Text × Text
put_first c ([], last) = ([], c ∷ last)
put_first c (line ∷ lines, last) = ((c ∷ line) ∷ lines, last)

abbrev pub end_line : List Text × Text → List Text × Text
end_line (lines, last) = ([] ∷ lines, last)

-- `split("\n")`, its last part (`pop`) apart
unfoldable pub take_lines : Text → List Text × Text
take_lines [] = ([], [])
take_lines (c ∷ t) =
    let rest = take_lines t in if nat_beq c 0x0a then end_line rest else put_first c rest

-- the longest beginning of units that pass
unfoldable pub run_of : (ℕ → Bool) → Text → Text
run_of p [] = []
run_of p (c ∷ t) = let rest = run_of p t in if p c then c ∷ rest else []

-- ===== src/Tui/Width.antt =====
-- tui/src/utils.ts: the columns that a text takes in the terminal. `chars` is the iteration of a
-- string: by code points, a pair of surrogates being one, and a lone surrogate one by itself.
pub mod Clipping
use mathlib.Core.List.{flat_map}
use mesh_talk.Common.{
  ℕ, ◌+◌, ◌-◌, ◌*◌, Bool, ◌&&◌, ◌||◌, List, [], ◌∷◌, ◌++◌, Text, ltb, leb, sum_by, if◌then◌else◌,
}

unfoldable pub is_pair : ℕ → ℕ → Bool
is_pair high low = leb 0xd800 high && leb high 0xdbff && leb 0xdc00 low && leb low 0xdfff

unfoldable pub chars : Text → List Text
chars [] = []
chars (a ∷ []) = (a ∷ []) ∷ []
chars (a ∷ b ∷ t) =
    let joined = (a ∷ b ∷ []) ∷ chars t in
    let apart = (a ∷ []) ∷ chars (b ∷ t) in if is_pair a b then joined else apart

-- `codePointAt(0)` of one of them
unfoldable pub code_point : Text → ℕ
code_point [] = 0
code_point (a ∷ []) = a
code_point (a ∷ b ∷ t) = 0x10000 + (a - 0xd800) * 0x400 + (b - 0xdc00)

unfoldable pub is_combining : ℕ → Bool
is_combining c =
    (leb 0x0300 c && leb c 0x036f)
    || (leb 0x1ab0 c && leb c 0x1aff)
    || (leb 0x1dc0 c && leb c 0x1dff)
    || (leb 0x20d0 c && leb c 0x20ff)
    || (leb 0xfe20 c && leb c 0xfe2f)

unfoldable pub char_width : Text → ℕ
unfolding code_point is_combining
char_width char =
    if is_combining (code_point char) then 0 else if ltb 0xff (code_point char) then 2 else 1

unfoldable pub terminal_width : Text → ℕ
unfolding chars char_width sum_by
terminal_width text = sum_by char_width (chars text)

unfoldable pub clip_chars : ℕ → ℕ → List Text → List Text
clip_chars width max_width [] = []
clip_chars width max_width (char ∷ cs) =
    let rest = clip_chars (width + char_width char) max_width cs in
    if ltb max_width (width + char_width char) then [] else char ∷ rest

-- `join("")`
abbrev pub concat : List Text → Text
concat [] = []
concat (t ∷ ts) = t ++ concat ts

unfoldable pub clip_text_to_width : Text → ℕ → Text
unfolding clip_chars chars char_width
clip_text_to_width text max_width = concat (clip_chars 0 max_width (chars text))

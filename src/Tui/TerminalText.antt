-- ===== src/Tui/TerminalText.antt =====
-- common/terminal-text.ts: text shown in the terminal, its controls encoded.
pub mod Safety
use mesh_talk.Common.{
  ℕ, ◌-◌, Bool, ◌&&◌, ◌||◌, List, [], ◌∷◌, ◌++◌, Text, leb, nat_beq, length, if◌then◌else◌,
}
use mesh_talk.Common.Decimal.{to_base_16, pad_zeros}

unfoldable pub is_control : ℕ → Bool
is_control c =
    leb c 0x1f
    || (leb 0x7f c && leb c 0x9f)
    || nat_beq c 0x61c
    || nat_beq c 0x200e
    || nat_beq c 0x200f
    || (leb 0x202a c && leb c 0x202e)
    || (leb 0x2066 c && leb c 0x2069)

-- four digits at least, behind a backslash and a `u`
unfoldable pub encode_control : Bool → ℕ → Text
unfolding to_base_16 pad_zeros
encode_control allow_layout c =
    if allow_layout && (nat_beq c 0x0a || nat_beq c 0x09)
    then c ∷ []
    else 0x5c ∷ b'u' ∷ pad_zeros (4 - length (to_base_16 c)) (to_base_16 c)

unfoldable pub terminal_text : Text → Bool → Text
unfolding is_control encode_control
terminal_text [] allow_layout = []
terminal_text (c ∷ t) allow_layout =
    (if is_control c then encode_control allow_layout c else c ∷ []) ++ terminal_text t allow_layout

-- ===== src/Tui/PastedImage.antt =====
-- tui/src/pastedImageDedup.ts: a terminal may report one pasted image twice. The hash of the
-- bytes (wyhash) is the runtime's, and times are milliseconds.
use mesh_talk.Common.{
  ℕ, ◌-◌, Bool, false, not, ◌&&◌, Option, none, some, Text, [], ltb, leb, nat_beq, text_eq, ◌==◌,
  List, length,
}

pub record PastedImageDedupRecord : Type 0 where
  pub byte_length : ℕ
  pub hash : ℕ
  pub selection_key : Option Text
  pub sent_at : ℕ

abbrev pub pasted_image_dedup_window_ms : ℕ
pasted_image_dedup_window_ms = 750

unfoldable pub create_pasted_image_dedup_record :
    (List ℕ → ℕ) → List ℕ → Option Text → ℕ → PastedImageDedupRecord
create_pasted_image_dedup_record wyhash bytes selection_key sent_at = record {
  byte_length = length bytes;
  hash = wyhash bytes;
  selection_key = selection_key;
  sent_at = sent_at;
}

-- the keys are equal, and the later one is not empty
abbrev pub same_selection : Option Text → Option Text → Bool
same_selection (some a) (some b) = not (b == []) && a == b
same_selection _ _ = false

unfoldable pub should_suppress_pasted_image :
    Option PastedImageDedupRecord → PastedImageDedupRecord → Bool
should_suppress_pasted_image none next = false
should_suppress_pasted_image (some previous) next =
    same_selection previous.selection_key next.selection_key
    && leb previous.sent_at next.sent_at
    && ltb (next.sent_at - previous.sent_at) pasted_image_dedup_window_ms
    && nat_beq previous.byte_length next.byte_length
    && nat_beq previous.hash next.hash

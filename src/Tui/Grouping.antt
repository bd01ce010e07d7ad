-- ===== src/Tui/Grouping.antt =====
-- tui/src/utils.ts: the rows of a conversation, with a header or compact below the row before.
-- Timestamps are whole seconds. The day of a timestamp (`dayKey`) is the runtime's, in its zone.
pub mod Headers
use mesh_talk.Common.{
  ℕ, ◌+◌, ◌-◌, Bool, true, false, not, ◌&&◌, ◌||◌, Option, none, some, List, [], ◌∷◌, Text, codes,
  leb, get_elem?, is_given, text_eq, ◌==◌, if◌then◌else◌,
}

pub record Message : Type 0 where
  pub sender_id : Text
  pub reply_to_message_id : Option Text
  pub kind : Option Text

pub data Content : Type 0 where
  message : Message → Content
  file : Text → Content

-- `created_at` is a whole number of seconds, where the daemon also stores fractions
pub record ConversationItem : Type 0 where
  pub created_at : ℕ
  pub content : Content

pub data RenderType : Type 0 where
  full_header : RenderType
  compact_row : RenderType

abbrev pub message_group_ceiling_seconds : ℕ
message_group_ceiling_seconds = 480

abbrev pub author_of : Content → Text
author_of (message m) = m.sender_id
author_of (file sender_id) = sender_id

abbrev pub grouping_author : ConversationItem → Text
grouping_author item = author_of item.content

abbrev replies : Content → Bool
replies (message m) = is_given m.reply_to_message_id
replies (file sender_id) = false

unfoldable pub grouping_is_reply : ConversationItem → Bool
grouping_is_reply item = replies item.content

abbrev is_notice : Option Text → Bool
is_notice none = false
is_notice (some kind) =
    not (kind == []) && not (kind == codes "message") && not (kind == codes "text")

unfoldable pub is_system_message : Message → Bool → Bool
is_system_message m is_group = is_group && is_notice m.kind

abbrev system_content : Content → Bool → Bool
unfolding is_system_message
system_content (message m) is_group = is_system_message m is_group
system_content (file sender_id) is_group = false

unfoldable pub grouping_is_system : ConversationItem → Bool → Bool
unfolding system_content
grouping_is_system item is_group = system_content item.content is_group

-- the group that the loop is in: none before the first item
pub record OpenGroup : Type 0 where
  pub author : Text
  pub start : ℕ
  pub date : Text

module _ (day_key : ℕ → Text) (is_group : Bool) where
  unfoldable pub open_group : ConversationItem → OpenGroup
  open_group item = record {
    author = grouping_author item;
    start = item.created_at;
    date = day_key item.created_at;
  }

  unfoldable pub should_start_new_group : Option OpenGroup → Bool → ConversationItem → Bool
  should_start_new_group none prev_was_system item = true
  should_start_new_group (some g) prev_was_system item =
      not (grouping_author item == g.author)
      || leb message_group_ceiling_seconds (item.created_at - g.start)
      || (grouping_is_reply item || grouping_is_system item is_group)
      || prev_was_system
      || not (day_key item.created_at == g.date)

  unfoldable pub render_rows : Option OpenGroup → Bool → List ConversationItem → List RenderType
  unfolding should_start_new_group open_group
  render_rows g prev_was_system [] = []
  render_rows g prev_was_system (item ∷ items) =
      let fresh = should_start_new_group g prev_was_system item in
      (if fresh then full_header else compact_row)
      ∷ render_rows (if fresh then some (open_group item) else g) (grouping_is_system item is_group)
          items

  unfoldable pub compute_render_types : List ConversationItem → List RenderType
  unfolding render_rows
  compute_render_types items = render_rows none false items

-- a compact row has no space above it
unfoldable pub group_row_margin_bottom : List RenderType → ℕ → ℕ
unfolding get_elem?
group_row_margin_bottom rows index = elim (get_elem? rows (index + 1)) [
  | some compact_row ↦ 0
  | _ ↦ 1
]

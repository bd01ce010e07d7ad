-- ===== src/Tui/Mentions/Tests.antt =====
-- tui/src/mentions.ts at concrete inputs.
use mesh_talk.Common.{
  if◌then◌else◌, [], ◌∷◌, ◌≡◌, refl, Option, none, some, arith, Text, List, codes, text_beq,
  text_eq,
}
use mesh_talk.Tui.Tokens.{
  MentionSegment, text, code, mention, render_mentioned_content, segment_mentioned_content,
}
use mesh_talk.Tui.Tokens.Rendering.{spelled, render_mentioned_content-segments}
use mesh_talk.Tui.MentionIds.{
  PayloadItem, other, array, payload_mentions, parse_mentions, spans_to_tokens,
}
use mesh_talk.Tui.MentionIds.Unique.{Collects, HasText, IsMentioned, mentions-Collects}
use mesh_talk.Tui.Mentions.{MentionSpan, update_spans_after_edit}
use mesh_talk.Tui.Mentions.Edits.{Edited, update_spans_after_edit-Edited}

-- a letter is typed before the second mention
abbrev before : Text
before = codes "@Ann and @Bob"

abbrev after : Text
after = codes "@Ann andy @Bob"

abbrev two_spans : List MentionSpan
two_spans =
    (record { peer_id = codes "a"; name = codes "Ann"; start = 0; end = 4 })
    ∷ (record { peer_id = codes "b"; name = codes "Bob"; start = 9; end = 13 })
    ∷ []

update_spans_after_edit-Edited_example :
    Edited before after two_spans (update_spans_after_edit two_spans before after)
update_spans_after_edit-Edited_example = update_spans_after_edit-Edited two_spans before after (
  record { ordered = omega arith; inside = omega arith },
  (record { ordered = omega arith; inside = omega arith }, tt),
)

abbrev ann : Text → Option Text
ann id = if text_beq id (codes "a") then some (codes "Ann") else none

-- a mention, one in a code span, and an escaped one
abbrev message : Text
message = codes "<@a> `<@a>` \\<@b>"

message_segments :
    segment_mentioned_content ann message
    ≡ some (
        mention (codes "a") (codes "Ann")
        ∷ text (codes " ")
        ∷ code (codes "`<@a>`")
        ∷ text (codes " <@b>")
        ∷ [])
unfolding segment_mentioned_content text_beq
message_segments = refl

-- a fenced block, up to the line that closes it
fenced_segments :
    segment_mentioned_content ann (codes "~~~\n<@a>\n~~~~\n<@c>")
    ≡ some (code (codes "~~~\n<@a>\n~~~~\n") ∷ mention (codes "c") (codes "unknown") ∷ [])
unfolding segment_mentioned_content text_beq
fenced_segments = refl

render_mentioned_content-segments_example :
    (segments : List MentionSegment) × (segment_mentioned_content ann message ≡ some segments)
    × (render_mentioned_content ann message ≡ some (spelled segments))
render_mentioned_content-segments_example = render_mentioned_content-segments ann message

mentions-Collects_example :
    Collects (HasText (PayloadItem.text (codes "a") ∷ other ∷ PayloadItem.text (codes "a") ∷ [])) (
      payload_mentions
        (array (PayloadItem.text (codes "a") ∷ other ∷ PayloadItem.text (codes "a") ∷ [])))
    × Collects (IsMentioned message) (parse_mentions message)
mentions-Collects_example =
    mentions-Collects (PayloadItem.text (codes "a") ∷ other ∷ PayloadItem.text (codes "a") ∷ [])
      message

-- the two mentions of the composer's text
sent : spans_to_tokens before two_spans ≡ codes "<@a> and <@b>"
unfolding spans_to_tokens text_beq
sent = refl

-- ===== src/Tui/Tokens/Rendering.antt =====
-- tui/src/mentions.ts: what a message is rendered as.
use mathlib.Core.Option
use mathlib.Core.List.{append_assoc, append-nil}
use mesh_talk.Common.{◌≡◌, sym, ap, ◌∙◌, Option, some, List, [], ◌∷◌, ◌++◌, Text}
use mesh_talk.Common.Dict.{or_else}
use mesh_talk.Tui.Tokens.{
  Token, MentionSegment, text, code, mention, unknown, render_tokens, render_mentioned_content,
  flush_text, segment_tokens, segment_mentioned_content,
}
use mesh_talk.Tui.Tokens.Scanning.{scan_mention_content_total}

-- the text of a segment, a mention with its name
abbrev pub shown : MentionSegment → Text
shown (text t) = t
shown (code t) = t
shown (mention id name) = b'@' ∷ name

abbrev pub spelled : List MentionSegment → Text
spelled [] = []
spelled (s ∷ ss) = shown s ++ spelled ss

spelled_snoc :
    (ss : List MentionSegment) (s : MentionSegment) → spelled (ss ++ s ∷ []) ≡ spelled ss ++ shown s
spelled_snoc [] s = append-nil (shown s)
spelled_snoc (t ∷ ss) s = simp (spelled_snoc ss s, append_assoc)

spelled-flush_text :
    (buffer : Text) (ss : List MentionSegment)
    → spelled (flush_text buffer ss) ≡ spelled ss ++ buffer
spelled-flush_text [] ss = sym (append-nil (spelled ss))
spelled-flush_text (c ∷ t) ss = spelled_snoc ss (text (c ∷ t))

module _ (resolve_name : Text → Option Text) where
  -- a segment behind the text before it
  flushed_snoc :
      (buffer : Text) (ss : List MentionSegment) (s : MentionSegment)
      → spelled (flush_text buffer ss ++ s ∷ []) ++ [] ≡ (spelled ss ++ buffer) ++ shown s
  flushed_snoc buffer ss s = simp (append-nil, spelled_snoc, spelled-flush_text)

  spelled-segment_tokens :
      (ss : List MentionSegment) (buffer : Text) (ts : List Token)
      → spelled (segment_tokens resolve_name ss buffer ts)
        ≡ render_tokens resolve_name (spelled ss ++ buffer) ts
  unfolding segment_tokens render_tokens
  spelled-segment_tokens ss buffer [] = spelled-flush_text buffer ss
  spelled-segment_tokens ss buffer (Token.text t ∷ ts) =
      spelled-segment_tokens ss (buffer ++ t) ts
      ∙ ap (λ r. render_tokens resolve_name r ts) (sym (append_assoc (spelled ss) buffer t))
  spelled-segment_tokens ss buffer (Token.mention id ∷ ts) =
      let name = or_else (resolve_name id) unknown in
      spelled-segment_tokens (flush_text buffer ss ++ mention id name ∷ []) [] ts
      ∙ ap (λ r. render_tokens resolve_name r ts) (flushed_snoc buffer ss (mention id name))
  spelled-segment_tokens ss buffer (Token.code t ∷ ts) =
      spelled-segment_tokens (flush_text buffer ss ++ code t ∷ []) [] ts
      ∙ ap (λ r. render_tokens resolve_name r ts) (flushed_snoc buffer ss (code t))

  -- The scan of every message ends, within the fuel that it is given, and the two renderings
  -- agree: the text of a message is that of its segments in order, a mention being spelled with
  -- its name.
  pub render_mentioned_content-segments :
      (content : Text)
      → (segments : List MentionSegment) × (segment_mentioned_content resolve_name content
          ≡ some segments)
        × (render_mentioned_content resolve_name content ≡ some (spelled segments))
  unfolding segment_mentioned_content render_mentioned_content
  render_mentioned_content-segments content =
      let scanned = scan_mention_content_total content in
      (
        segment_tokens resolve_name [] [] scanned.0,
        ap (Option.map (segment_tokens resolve_name [] [])) scanned.1,
        ap (Option.map (render_tokens resolve_name [])) scanned.1
            ∙ ap some (sym (spelled-segment_tokens [] [] scanned.0)),
      )

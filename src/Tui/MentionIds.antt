-- ===== src/Tui/MentionIds.antt =====
-- tui/src/mentions.ts: the ids that a message mentions, from its content or from the payload of
-- the server, whose items are texts or something else.
pub mod Found
pub mod Escapes
pub mod Unique
use mesh_talk.Common.{
  ℕ, zero, suc, ◌+◌, Bool, true, false, Option, none, some, List, [], ◌∷◌, ◌++◌, Text, codes, ltb,
  leb, nat_beq, text_eq, ◌==◌, length, slice, not, ◌||◌, add, contains, if◌then◌else◌,
}
use mesh_talk.Common.Sorting.{sort_by}
use mesh_talk.Tui.Mentions.{MentionSpan}
use mesh_talk.Tui.Tokens.{mention_at, is_escaped_at, Token, MentionSegment}

-- the ids of the matches that are not escaped; `skip` units belong to the match before
unfoldable pub matches : Text → ℕ → ℕ → Text → List Text
unfolding mention_at is_escaped_at
matches content index skip [] = []
matches content index (suc skip) (c ∷ t) = matches content (index + 1) skip t
matches content index zero (c ∷ t) = elim (mention_at (c ∷ t)) [
  | none ↦ matches content (index + 1) 0 t
  | some id ↦
      let rest = matches content (index + 1) (length id + 2) t in
      if is_escaped_at content index then rest else id ∷ rest
]

-- the loop over ids: `seen` and `ids`
unfoldable pub push_unseen : List Text → List Text → List Text → List Text
push_unseen seen ids [] = ids
push_unseen seen ids (id ∷ rest) =
    let skipped = push_unseen seen ids rest in
    let pushed = push_unseen (add id seen) (ids ++ id ∷ []) rest in
    if contains id seen then skipped else pushed

unfoldable pub parse_mentions : Text → List Text
unfolding matches push_unseen
parse_mentions content = push_unseen [] [] (matches content 0 0 content)

unfoldable pub mentions_peer : Text → Text → Bool
unfolding parse_mentions contains
mentions_peer content peer_id =
    if peer_id == [] then false else contains peer_id (parse_mentions content)

pub data PayloadItem : Type 0 where
  text : Text → PayloadItem
  other : PayloadItem

pub data Payload : Type 0 where
  array : List PayloadItem → Payload
  not_array : Payload

abbrev pub payload_texts : List PayloadItem → List Text
payload_texts [] = []
payload_texts (text t ∷ items) = t ∷ payload_texts items
payload_texts (other ∷ items) = payload_texts items

unfoldable pub payload_mentions : Payload → List Text
unfolding push_unseen
payload_mentions not_array = []
payload_mentions (array items) = push_unseen [] [] (payload_texts items)

abbrev pub everyone_peer_id : Text
everyone_peer_id = codes "everyone"

unfoldable pub mentions_everyone : Payload → Bool
unfolding payload_mentions contains
mentions_everyone payload = contains everyone_peer_id (payload_mentions payload)

-- a span whose text no longer matches is left as typed
unfoldable pub replace_span : Text → MentionSpan → Text
replace_span result span =
    if ltb (length result) span.end || leb span.end span.start
    then result
    else if not (slice result span.start span.end == b'@' ∷ span.name)
    then result
    else slice result 0 span.start
      ++ ((b'<' ∷ b'@' ∷ span.peer_id) ++ (b'>' ∷ slice result span.end (length result)))

unfoldable pub replace_spans : Text → List MentionSpan → Text
unfolding replace_span
replace_spans result [] = result
replace_spans result (span ∷ spans) = replace_spans (replace_span result span) spans

-- the last span first
unfoldable pub spans_to_tokens : Text → List MentionSpan → Text
unfolding sort_by replace_spans
spans_to_tokens t spans = replace_spans t (sort_by (λ a b. ltb a.start b.start) spans)

-- ===== src/Tui/Tokens.antt =====
-- tui/src/mentions.ts: the mention tokens `<@id>` of a message. The scan takes fuel, which is the
-- length of the content and one more; `none` is that it ran out.
pub mod Scanning
pub mod Rendering
use mathlib.Core.Option
use mesh_talk.Common.{
  ℕ, zero, suc, ◌+◌, ◌-◌, ◌%◌, Bool, true, false, not, ◌&&◌, ◌||◌, Option, none, some, List, [],
  ◌∷◌, ◌++◌, Text, codes, ltb, leb, nat_beq, nat_eq, text_eq, ◌==◌, length, get_elem?, drop, take,
  slice, add, contains, if◌then◌else◌,
}
use mesh_talk.Common.Dict.{or_else}
use mesh_talk.Common.Strings.{is_space, run_of}

pub data Token : Type 0 where
  text : Text → Token
  mention : Text → Token
  code : Text → Token

unfoldable pub is_id_unit : ℕ → Bool
is_id_unit c =
    (leb b'A' c && leb c b'Z')
    || (leb b'a' c && leb c b'z')
    || (leb b'0' c && leb c b'9')
    || nat_beq c b'_'
    || nat_beq c b'-'

abbrev pub has_unit : Text → ℕ → ℕ → Bool
has_unit t i c = elim (get_elem? t i) [ none ↦ false | some d ↦ nat_beq d c ]

-- an id that is not empty, and the bracket behind it
abbrev pub closed_id : Text → Text → Option Text
closed_id id rest = if not (id == []) && has_unit rest (length id) b'>' then some id else none

-- `MENTION_AT_RE`
unfoldable pub mention_at : Text → Option Text
unfolding run_of is_id_unit get_elem?
mention_at t =
    if has_unit t 0 b'<' && has_unit t 1 b'@'
    then closed_id (run_of is_id_unit (drop 2 t)) (drop 2 t)
    else none

unfoldable pub backslashes_before : Text → ℕ → ℕ
unfolding get_elem?
backslashes_before content zero = 0
backslashes_before content (suc i) =
    let rest = backslashes_before content i in if has_unit content i 0x5c then suc rest else 0

unfoldable pub is_escaped_at : Text → ℕ → Bool
unfolding backslashes_before
is_escaped_at content index = nat_beq (backslashes_before content index % 2) 1

-- `indexOf`
unfoldable pub index_of : Text → Text → Option ℕ
index_of pattern [] = if pattern == [] then some 0 else none
index_of pattern (c ∷ t) =
    let rest = index_of pattern t in
    if take (length pattern) (c ∷ t) == pattern then some 0 else Option.map suc rest

unfoldable pub index_from : Text → Text → ℕ → Option ℕ
unfolding index_of
index_from pattern content i = Option.map (λ k. i + k) (index_of pattern (drop i content))

abbrev pub newline : Text
newline = 0x0a ∷ []

unfoldable pub line_end : Text → ℕ → ℕ
unfolding index_from
line_end content i = or_else (index_from newline content i) (length content)

unfoldable pub next_line : Text → ℕ → ℕ
unfolding index_from
next_line content i = or_else (Option.map suc (index_from newline content i)) (length content)

-- the marker of a fence, and how often it stands
abbrev pub fence_from : Text → Option (ℕ × ℕ)
fence_from rest =
    let ticks = length (run_of (λ c. nat_beq c b'`') rest) in
    let tildes = length (run_of (λ c. nat_beq c b'~') rest) in
    if leb 3 ticks then some (b'`', ticks) else if leb 3 tildes then some (b'~', tildes) else none

abbrev pub spaces_of : Text → ℕ
spaces_of line = length (run_of (λ c. nat_beq c b' ') line)

unfoldable pub fence_of : Text → Option (ℕ × ℕ)
unfolding run_of
fence_of line = if leb (spaces_of line) 3 then fence_from (drop (spaces_of line) line) else none

abbrev pub all_space : Text → Bool
all_space [] = true
all_space (c ∷ t) = is_space c && all_space t

unfoldable pub is_closing : ℕ → ℕ → Text → Bool
unfolding run_of is_space
is_closing marker marker_length line =
    let rest = drop (spaces_of line) line in
    let found = length (run_of (λ c. nat_beq c marker) rest) in
    leb (spaces_of line) 3 && leb marker_length found && all_space (drop found rest)

-- The end of the fenced block, whose lines are looked at from `cursor` on. The fuel is the length
-- of the content, and each round goes on by a line.
unfoldable pub fence_end : ℕ → Text → ℕ → ℕ → ℕ → ℕ
unfolding is_closing line_end next_line
fence_end zero content marker marker_length cursor = length content
fence_end (suc fuel) content marker marker_length cursor =
    let rest = fence_end fuel content marker marker_length (next_line content cursor) in
    if ltb cursor (length content)
    then (if is_closing marker marker_length (slice content cursor (line_end content cursor))
        then next_line content cursor
        else rest)
    else length content

abbrev pub is_line_start : Text → ℕ → Bool
is_line_start content zero = true
is_line_start content (suc i) = has_unit content i 0x0a

-- the fenced block at `i`, up to its end
abbrev pub fenced_end : Text → ℕ → Option (ℕ × ℕ) → Option ℕ
fenced_end content i none = none
fenced_end content i (some (marker, marker_length)) =
    some (fence_end (length content) content marker marker_length (next_line content i))

unfoldable pub fenced : Text → ℕ → Option ℕ
unfolding fence_of fence_end line_end next_line get_elem?
fenced content i =
    if is_line_start content i
    then fenced_end content i (fence_of (slice content i (line_end content i)))
    else none

abbrev pub span_end : Text → Text → ℕ → Option ℕ
unfolding index_from
span_end marker content i =
    Option.map (λ closing. closing + length marker) (index_from marker content (i + length marker))

-- the code span at `i`, up to its end
unfoldable pub code_span : Text → ℕ → Option ℕ
unfolding run_of index_from is_escaped_at get_elem?
code_span content i =
    if has_unit content i b'`' && not (is_escaped_at content i)
    then span_end (run_of (λ c. nat_beq c b'`') (drop i content)) content i
    else none

-- one unit, which is text
abbrev pub unit_step : Text → ℕ → Token × ℕ
unit_step content i = (text (slice content i (i + 1)), i + 1)

abbrev pub escaped_step : Text → ℕ → Option Text → Token × ℕ
escaped_step content i none = unit_step content i
escaped_step content i (some id) = (text (b'<' ∷ b'@' ∷ (id ++ b'>' ∷ [])), i + 1 + (length id + 3))

abbrev pub mention_step : Text → ℕ → Option Text → Token × ℕ
mention_step content i none = unit_step content i
mention_step content i (some id) = (mention id, i + (length id + 3))

-- what is at `i` if no code is, and where the scan goes on
unfoldable pub plain_step : Text → ℕ → Token × ℕ
unfolding mention_at get_elem?
plain_step content i =
    if has_unit content i 0x5c && has_unit content (i + 1) 0x5c
    then (text (0x5c ∷ []), i + 2)
    else if has_unit content i 0x5c
    then escaped_step content i (mention_at (drop (i + 1) content))
    else mention_step content i (mention_at (drop i content))

abbrev pub code_step : Text → ℕ → Option ℕ → Token × ℕ → Token × ℕ
code_step content i none other = other
code_step content i (some end) other = (code (slice content i end), end)

unfoldable pub scan_step : Text → ℕ → Token × ℕ
unfolding fenced code_span plain_step
scan_step content i =
    code_step content i (fenced content i)
      (code_step content i (code_span content i) (plain_step content i))

unfoldable pub scan : ℕ → Text → ℕ → Option (List Token)
unfolding scan_step
scan zero content i = none
scan (suc fuel) content i =
    let step = scan_step content i in
    let rest = scan fuel content step.1 in
    if ltb i (length content) then Option.map (λ ts. step.0 ∷ ts) rest else some []

unfoldable pub scan_mention_content : Text → Option (List Token)
unfolding scan
scan_mention_content content = scan (suc (length content)) content 0

abbrev pub unknown : Text
unknown = codes "unknown"

module _ (resolve_name : Text → Option Text) where
  abbrev pub rendered : Token → Text
  rendered (text t) = t
  rendered (mention id) = b'@' ∷ or_else (resolve_name id) unknown
  rendered (code t) = t

  -- `result += …`
  unfoldable pub render_tokens : Text → List Token → Text
  render_tokens result [] = result
  render_tokens result (t ∷ ts) = render_tokens (result ++ rendered t) ts

  unfoldable pub render_mentioned_content : Text → Option Text
  unfolding scan_mention_content render_tokens
  render_mentioned_content content = Option.map (render_tokens []) (scan_mention_content content)

pub data MentionSegment : Type 0 where
  text : Text → MentionSegment
  code : Text → MentionSegment
  mention : Text → Text → MentionSegment

abbrev pub flush_text : Text → List MentionSegment → List MentionSegment
flush_text [] segments = segments
flush_text (c ∷ t) segments = segments ++ MentionSegment.text (c ∷ t) ∷ []

module _ (resolve_name : Text → Option Text) where
  unfoldable pub segment_tokens : List MentionSegment → Text → List Token → List MentionSegment
  segment_tokens segments buffer [] = flush_text buffer segments
  segment_tokens segments buffer (Token.text t ∷ ts) = segment_tokens segments (buffer ++ t) ts
  segment_tokens segments buffer (Token.mention id ∷ ts) =
      segment_tokens
        (flush_text buffer segments
          ++ MentionSegment.mention id (or_else (resolve_name id) unknown) ∷ [])
        [] ts
  segment_tokens segments buffer (Token.code t ∷ ts) =
      segment_tokens (flush_text buffer segments ++ MentionSegment.code t ∷ []) [] ts

  unfoldable pub segment_mentioned_content : Text → Option (List MentionSegment)
  unfolding scan_mention_content segment_tokens
  segment_mentioned_content content =
      Option.map (segment_tokens [] []) (scan_mention_content content)

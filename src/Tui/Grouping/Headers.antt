-- ===== src/Tui/Grouping/Headers.antt =====
-- tui/src/utils.ts: what the compact rows of a conversation have in common with their header.
use mesh_talk.Common.{
  ℕ, zero, suc, ◌+◌, ◌≤◌, ◌<◌, ◌≡◌, ◌⊎◌, refl, subst, inl, inr, Bool, false, Option, none, some,
  List, [], ◌∷◌, Text, text_eq, get_elem?, Bool-cases, arith,
}
use mesh_talk.Tui.Grouping.{
  ConversationItem, RenderType, full_header, compact_row, OpenGroup, grouping_author,
  grouping_is_reply, grouping_is_system, open_group, should_start_new_group, render_rows,
  compute_render_types,
}

module _ (day_key : ℕ → Text) (is_group : Bool) where
  -- `item` may stand in the group: it is of its author and its day, within the ceiling of its
  -- start, and neither a reply nor a notice
  pub record Joins (g : OpenGroup) (item : ConversationItem) : Type 0 where
    pub author : grouping_author item ≡ g.author
    pub date : day_key item.created_at ≡ g.date
    pub within : item.created_at < g.start + 480
    pub reply : grouping_is_reply item ≡ false
    pub system : grouping_is_system item is_group ≡ false

  compact-Joins :
      (g : OpenGroup) (b : Bool) (item : ConversationItem)
      → should_start_new_group day_key is_group (some g) b item ≡ false
      → Joins g item
  unfolding should_start_new_group
  compact-Joins g b item h = record {
    author = (text_eq.beq_iff _ _).0 (ground arith);
    date = (text_eq.beq_iff _ _).0 (ground arith);
    within = ground arith;
    reply = ground arith;
    system = ground arith;
  }

  -- row `i` has its header in row `j`, and the rows between are compact
  pub record HasHeader (items : List ConversationItem) (rows : List RenderType) (i : ℕ)
      (item : ConversationItem) : Type 0 where
    pub row : ℕ
    pub header : ConversationItem
    pub before : row < i
    pub header_at : get_elem? items row ≡ some header
    pub header_row : get_elem? rows row ≡ some full_header
    pub between : (k : ℕ) → row < k → k ≤ i → get_elem? rows k ≡ some compact_row
    pub joins : Joins (open_group day_key is_group header) item

  -- row `i` belongs to the group that was open before row 0
  record Continues (g : Option OpenGroup) (rows : List RenderType) (i : ℕ) (item : ConversationItem)
      : Type 0 where
    pub group : OpenGroup
    pub is_open : g ≡ some group
    pub between : (k : ℕ) → k ≤ i → get_elem? rows k ≡ some compact_row
    pub joins : Joins group item

  between_shift :
      (r : RenderType) (rows : List RenderType) (j i : ℕ)
      → ((k : ℕ) → j < k → k ≤ i → get_elem? rows k ≡ some compact_row)
      → (k : ℕ) → suc j < k
      → k ≤ suc i
      → get_elem? (r ∷ rows) k ≡ some compact_row
  unfolding get_elem?
  between_shift r rows j i h zero p q = absurd (omega (arith, p))
  between_shift r rows j i h (suc k) p q = h k (omega arith) (omega arith)

  between_first :
      (r : RenderType) (rows : List RenderType) (i : ℕ)
      → ((k : ℕ) → k ≤ i → get_elem? rows k ≡ some compact_row)
      → (k : ℕ) → 0 < k
      → k ≤ suc i
      → get_elem? (r ∷ rows) k ≡ some compact_row
  unfolding get_elem?
  between_first r rows i h zero p q = absurd (omega (arith, p))
  between_first r rows i h (suc k) p q = h k (omega arith)

  between_compact :
      (rows : List RenderType) (i : ℕ)
      → ((k : ℕ) → k ≤ i → get_elem? rows k ≡ some compact_row)
      → (k : ℕ) → k ≤ suc i
      → get_elem? (compact_row ∷ rows) k ≡ some compact_row
  unfolding get_elem?
  between_compact rows i h zero q = refl
  between_compact rows i h (suc k) q = h k (omega arith)

  between_first_row :
      (rows : List RenderType) (k : ℕ) → k ≤ 0 → get_elem? (compact_row ∷ rows) k ≡ some compact_row
  unfolding get_elem?
  between_first_row rows zero q = refl
  between_first_row rows (suc k) q = absurd (omega (arith, q))

  shift-HasHeader :
      (x : ConversationItem) (r : RenderType) (items : List ConversationItem)
      (rows : List RenderType) (i : ℕ) (item : ConversationItem)
      → HasHeader items rows i item
      → HasHeader (x ∷ items) (r ∷ rows) (suc i) item
  unfolding get_elem?
  shift-HasHeader x r items rows i item h = record {
    row = suc h.row;
    header = h.header;
    before = omega (arith, h.before);
    header_at = h.header_at;
    header_row = h.header_row;
    between = between_shift r rows h.row i h.between;
    joins = h.joins;
  }

  -- after a header, the open group is its own
  header-HasHeader :
      (x : ConversationItem) (items : List ConversationItem) (rows : List RenderType) (i : ℕ)
      (item : ConversationItem)
      → Continues (some (open_group day_key is_group x)) rows i item
      → HasHeader (x ∷ items) (full_header ∷ rows) (suc i) item
  unfolding get_elem?
  header-HasHeader x items rows i item c = record {
    row = 0;
    header = x;
    before = omega arith;
    header_at = refl;
    header_row = refl;
    between = between_first full_header rows i c.between;
    joins = subst (λ g. Joins g item) (ground (arith, c.is_open)) c.joins;
  }

  shift-Continues :
      (g : Option OpenGroup) (rows : List RenderType) (i : ℕ) (item : ConversationItem)
      → Continues g rows i item
      → Continues g (compact_row ∷ rows) (suc i) item
  shift-Continues g rows i item c = record {
    group = c.group;
    is_open = c.is_open;
    between = between_compact rows i c.between;
    joins = c.joins;
  }

  -- a compact row at the start of what is left
  first-Continues :
      (g : Option OpenGroup) (b : Bool) (x : ConversationItem) (rows : List RenderType)
      → should_start_new_group day_key is_group g b x ≡ false
      → Continues g (compact_row ∷ rows) 0 x
  first-Continues none b x rows h = absurd (unfold should_start_new_group in ground arith)
  first-Continues (some g) b x rows h = record {
    group = g;
    is_open = refl;
    between = between_first_row rows;
    joins = compact-Joins g b x h;
  }

  -- the row of the item that the loop has come to
  first-Header :
      (g : Option OpenGroup) (b : Bool) (x : ConversationItem) (items : List ConversationItem)
      → get_elem? (render_rows day_key is_group g b (x ∷ items)) 0 ≡ some compact_row
      → Continues g (render_rows day_key is_group g b (x ∷ items)) 0 x
  unfolding render_rows get_elem?
  first-Header g b x items h = elim (Bool-cases (should_start_new_group day_key is_group g b x)) [
    | inl t ↦ absurd (ground (arith, t, h))
    | inr f ↦ rw f (first-Continues g b x _ f)
  ]

  later-Header :
      (g : Option OpenGroup) (b : Bool) (x : ConversationItem) (items : List ConversationItem)
      (i : ℕ) (item : ConversationItem)
      → ((h : Option OpenGroup) (c : Bool)
          → get_elem? (render_rows day_key is_group h c items) i ≡ some compact_row
          → HasHeader items (render_rows day_key is_group h c items) i item
            ⊎ Continues h (render_rows day_key is_group h c items) i item)
      → get_elem? (render_rows day_key is_group g b (x ∷ items)) (suc i) ≡ some compact_row
      → HasHeader (x ∷ items) (render_rows day_key is_group g b (x ∷ items)) (suc i) item
        ⊎ Continues g (render_rows day_key is_group g b (x ∷ items)) (suc i) item
  unfolding render_rows get_elem?
  later-Header g b x items i item ih =
      elim (Bool-cases (should_start_new_group day_key is_group g b x)) [
        | inl t ↦ rw t (λ h. elim (ih (some (open_group day_key is_group x)) _ h) [
          | inl found ↦ inl (shift-HasHeader x full_header items _ i item found)
          | inr open_now ↦ inl (header-HasHeader x items _ i item open_now)
        ])
        | inr f ↦ rw f (λ h. elim (ih g _ h) [
          | inl found ↦ inl (shift-HasHeader x compact_row items _ i item found)
          | inr open_now ↦ inr (shift-Continues g _ i item open_now)
        ])
      ]

  render_rows-Header :
      (items : List ConversationItem) (g : Option OpenGroup) (b : Bool) (i : ℕ)
      (item : ConversationItem)
      → get_elem? items i ≡ some item
      → get_elem? (render_rows day_key is_group g b items) i ≡ some compact_row
      → HasHeader items (render_rows day_key is_group g b items) i item
        ⊎ Continues g (render_rows day_key is_group g b items) i item
  render_rows-Header [] g b i item at row = absurd (unfold get_elem? in ground (arith, at))
  render_rows-Header (x ∷ items) g b zero item at row =
      let same : x ≡ item = unfold get_elem? in ground (arith, at) in
      inr (
        subst (λ y. Continues g (render_rows day_key is_group g b (x ∷ items)) 0 y) same
          (first-Header g b x items row))
  render_rows-Header (x ∷ items) g b (suc i) item at row =
      later-Header g b x items i item
        (λ h c. render_rows-Header items h c i item (unfold get_elem? in at)) row

  -- A compact row has a header: an earlier row with a full header, from which on all rows are
  -- compact; its item is of the same author and day, less than 480 seconds older than the item of
  -- the compact row, which is neither a reply nor a system message.
  pub compute_render_types-HasHeader :
      (items : List ConversationItem) (i : ℕ) (item : ConversationItem)
      → get_elem? items i ≡ some item
      → get_elem? (compute_render_types day_key is_group items) i ≡ some compact_row
      → HasHeader items (compute_render_types day_key is_group items) i item
  unfolding compute_render_types
  compute_render_types-HasHeader items i item at row =
      elim (render_rows-Header items none false i item at row) [
        | inl found ↦ found
        | inr c ↦ absurd (ground (arith, c.is_open))
      ]

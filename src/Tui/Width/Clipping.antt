-- ===== src/Tui/Width/Clipping.antt =====
-- tui/src/utils.ts: a clipped text fits, and is the longest beginning that does.
use mathlib.Core.List.{append_assoc}
use mesh_talk.Common.{
  ℕ, ◌+◌, ◌≤◌, ◌<◌, ◌≡◌, ◌⊎◌, refl, sym, ap, ◌∙◌, inl, inr, arith, Bool, true, false, List, [], ◌∷◌,
  ◌++◌, Text, ltb, sum_by, Bool-cases,
}
use mesh_talk.Tui.Width.{
  is_pair, chars, char_width, terminal_width, clip_chars, concat, clip_text_to_width,
}

-- `h` does not pair with the first unit of the text
abbrev pairs_head : ℕ → Text → Bool
pairs_head h [] = false
pairs_head h (b ∷ t) = is_pair h b

chars_lone : (h : ℕ) (t : Text) → pairs_head h t ≡ false → chars (h ∷ t) ≡ (h ∷ []) ∷ chars t
unfolding chars
chars_lone h [] e = refl
chars_lone h (b ∷ t) e = rw e refl

chars_pair : (a b : ℕ) (t : Text) → is_pair a b ≡ true → chars (a ∷ b ∷ t) ≡ (a ∷ b ∷ []) ∷ chars t
unfolding chars
chars_pair a b t e = rw e refl

concat-chars : (t : Text) → concat (chars t) ≡ t
concat-chars [] = unfold chars in refl
concat-chars (a ∷ []) = unfold chars in refl
concat-chars (a ∷ b ∷ t) = elim (Bool-cases (is_pair a b)) [
  | inl e ↦ rw (chars_pair a b t e, concat-chars t) refl
  | inr e ↦ rw (chars_lone a (b ∷ t) e, concat-chars (b ∷ t)) refl
]

module _ (max_width : ℕ) where
  -- what a clipped text starts with, the text starts with
  pairs_head-clip :
      (w h : ℕ) (t : Text)
      → pairs_head h t ≡ false
      → pairs_head h (concat (clip_chars w max_width (chars t))) ≡ false
  unfolding clip_chars chars
  pairs_head-clip w h [] e = refl
  pairs_head-clip w h (a ∷ []) e = ground (arith, e)
  pairs_head-clip w h (a ∷ b ∷ t) e = ground (arith, e)

  -- the loop stops, or takes the character
  clip_chars-cases :
      (w : ℕ) (c : Text) (cs : List Text)
      → ((max_width < w + char_width c) × (clip_chars w max_width (c ∷ cs) ≡ []))
        ⊎ ((w + char_width c ≤ max_width)
            × (clip_chars w max_width (c ∷ cs) ≡ c ∷ clip_chars (w + char_width c) max_width cs))
  unfolding clip_chars
  clip_chars-cases w c cs = elim (Bool-cases (ltb max_width (w + char_width c))) [
    | inl e ↦ inl (ground (arith, e), rw e refl)
    | inr e ↦ inr (ground (arith, e), rw e refl)
  ]

  chars-clip :
      (w : ℕ) (t : Text)
      → chars (concat (clip_chars w max_width (chars t))) ≡ clip_chars w max_width (chars t)
  chars-clip w [] = unfold clip_chars chars in refl
  chars-clip w (a ∷ []) =
      unfold chars in
      elim (clip_chars-cases w (a ∷ []) []) [
        | inl (_, e) ↦ rw e refl
        | inr (_, e) ↦ rw e (unfold clip_chars in refl)
      ]
  chars-clip w (a ∷ b ∷ t) = elim (Bool-cases (is_pair a b)) [
    | inl p ↦ rw (chars_pair a b t p) (elim (clip_chars-cases w (a ∷ b ∷ []) (chars t)) [
      | inl (_, e) ↦ rw e (unfold chars in refl)
      | inr (_, e) ↦ rw e (
          chars_pair a b (concat (clip_chars (w + char_width (a ∷ b ∷ [])) max_width (chars t))) p
          ∙ ap (λ cs. (a ∷ b ∷ []) ∷ cs) (chars-clip (w + char_width (a ∷ b ∷ [])) t))
    ])
    | inr p ↦ rw (chars_lone a (b ∷ t) p) (elim (clip_chars-cases w (a ∷ []) (chars (b ∷ t))) [
      | inl (_, e) ↦ rw e (unfold chars in refl)
      | inr (_, e) ↦ rw e (
          chars_lone a (concat (clip_chars (w + char_width (a ∷ [])) max_width (chars (b ∷ t))))
            (pairs_head-clip (w + char_width (a ∷ [])) a (b ∷ t) p)
          ∙ ap (λ cs. (a ∷ []) ∷ cs) (chars-clip (w + char_width (a ∷ [])) (b ∷ t)))
    ])
  ]

  -- `cs` is cut where the next character no longer fits behind `w` columns
  record IsCut (w : ℕ) (cs kept : List Text) : Type 0 where
    pub fits : w + sum_by char_width kept ≤ max_width
    pub rest : List Text
    pub parts : cs ≡ kept ++ rest
    pub longest :
        (rest ≡ [])
        ⊎ ((c : Text) × (others : List Text) × (rest ≡ c ∷ others)
            × (max_width < w + sum_by char_width kept + char_width c))

  stop-IsCut :
      (w : ℕ) (c : Text) (cs : List Text)
      → w ≤ max_width
      → max_width < w + char_width c
      → IsCut w (c ∷ cs) []
  stop-IsCut w c cs h k = record {
    fits = unfold sum_by in omega (arith, h);
    rest = c ∷ cs;
    parts = refl;
    longest = inr (c, cs, refl, unfold sum_by in omega (arith, k));
  }

  take-IsCut :
      (w : ℕ) (c : Text) (cs kept : List Text)
      → IsCut (w + char_width c) cs kept
      → IsCut w (c ∷ cs) (c ∷ kept)
  take-IsCut w c cs kept h = record {
    fits = unfold sum_by in omega (arith, h.fits);
    rest = h.rest;
    parts = ap (λ ts. c ∷ ts) h.parts;
    longest = elim h.longest [
      | inl e ↦ inl e
      | inr (d, others, e, over) ↦ inr (d, others, e, unfold sum_by in omega (arith, over))
    ];
  }

  clip_chars-IsCut :
      (w : ℕ) (cs : List Text) → w ≤ max_width → IsCut w cs (clip_chars w max_width cs)
  clip_chars-IsCut w [] h =
      unfold clip_chars in
      record {
        fits = unfold sum_by in omega (arith, h);
        rest = [];
        parts = refl;
        longest = inl refl;
      }
  clip_chars-IsCut w (c ∷ cs) h = elim (clip_chars-cases w c cs) [
    | inl (over, e) ↦ rw e (stop-IsCut w c cs h over)
    | inr (fit, e) ↦ rw e (take-IsCut w c cs _ (clip_chars-IsCut (w + char_width c) cs fit))
  ]

-- `clipped` fits in `max_width` columns, and `text` goes on after it, if at all, with a character
-- that would not fit.
pub record IsClipped (text : Text) (max_width : ℕ) (clipped : Text) : Type 0 where
  pub fits : terminal_width clipped ≤ max_width
  pub rest : List Text
  pub parts : chars text ≡ chars clipped ++ rest
  pub spelled : text ≡ clipped ++ concat rest
  pub longest :
      (rest ≡ [])
      ⊎ ((c : Text) × (others : List Text) × (rest ≡ c ∷ others)
          × (max_width < terminal_width clipped + char_width c))

concat-append : (ts us : List Text) → concat (ts ++ us) ≡ concat ts ++ concat us
concat-append [] us = refl
concat-append (t ∷ ts) us = simp (concat-append ts us, append_assoc)

-- A text clipped to a width has at most that width, is a beginning of the text that cuts no
-- surrogate pair, and is the longest such: if anything is left out, its first character would
-- exceed the width.
pub clip_text_to_width-IsClipped :
    (text : Text) (max_width : ℕ) → IsClipped text max_width (clip_text_to_width text max_width)
unfolding clip_text_to_width terminal_width
clip_text_to_width-IsClipped text max_width =
    let cut : IsCut max_width 0 (chars text) (clip_chars 0 max_width (chars text)) =
      clip_chars-IsCut max_width 0 (chars text) (omega arith) in
    let same = chars-clip max_width 0 text in
    record {
      fits = rw same (omega (arith, cut.fits));
      rest = cut.rest;
      parts = rw same cut.parts;
      spelled =
          sym (concat-chars text)
          ∙ ap concat cut.parts
          ∙ concat-append (clip_chars 0 max_width (chars text)) cut.rest;
      longest = elim cut.longest [
        | inl e ↦ inl e
        | inr (c, others, e, over) ↦ inr (c, others, e, rw same (omega (arith, over)))
      ];
    }

-- ===== src/Tui/MentionIds/Unique.antt =====
-- tui/src/mentions.ts: each mentioned id once.
use mesh_talk.Tui.MentionIds.Escapes.{Backslashes, free-Backslashes, Backslashes-free}
use mesh_talk.Tui.Tokens.{is_escaped_at}
use mesh_talk.Common.{
  ◌+◌, drop, ◌%◌, ℕ, ◌⊎◌, ap, ◌≡◌, refl, sym, ◌∙◌, subst, inl, inr, arith, true, false, ◌||◌, List,
  [], ◌∷◌, ◌++◌, Text, text_eq, ◌==◌, contains, contains-append, contains-add, add, beq-cases,
  beq_refl, Bool-cases,
}
use mesh_talk.Tui.MentionIds.{
  push_unseen, PayloadItem, text, other, array, payload_texts, payload_mentions, matches,
  parse_mentions,
}
use mesh_talk.Tui.MentionIds.Found.{IsToken, matches-found, matches_complete}

-- no id stands twice
abbrev pub IsDistinct : List Text → Type 0
IsDistinct [] = Unit
IsDistinct (x ∷ xs) = (contains x xs ≡ false) × IsDistinct xs

-- the two lists hold the same ids
abbrev AreAlike : List Text → List Text → Type 0
AreAlike xs ys = (x : Text) → contains x xs ≡ contains x ys

beq_false_sym : (a b : Text) → (a == b) ≡ false → (b == a) ≡ false
beq_false_sym a b h = elim (beq-cases b a) [
  | inl (t, p) ↦ absurd (ground (arith, h, subst (λ z. (a == z) ≡ true) (sym p) (beq_refl a)))
  | inr f ↦ f
]

IsDistinct-snoc :
    (xs : List Text) (id : Text)
    → contains id xs ≡ false
    → IsDistinct xs
    → IsDistinct (xs ++ id ∷ [])
unfolding contains
IsDistinct-snoc [] id h d = (refl, tt)
IsDistinct-snoc (x ∷ xs) id h d =
    let fresh : (x == id) ≡ false = ground (arith, h) in
    (
      ground (arith, contains-append x id xs, beq_false_sym x id fresh, d.0),
      IsDistinct-snoc xs id (ground (arith, h)) d.1,
    )

push_alike :
    (seen ids : List Text) (id : Text) → AreAlike seen ids → AreAlike (add id seen) (ids ++ id ∷ [])
push_alike seen ids id h x = ground (arith, contains-add x id seen, contains-append x id ids, h x)

module _ (x : Text) where
  contains-push_unseen :
      (seen ids rest : List Text)
      → AreAlike seen ids
      → contains x (push_unseen seen ids rest) ≡ (contains x ids || contains x rest)
  unfolding push_unseen contains
  contains-push_unseen seen ids [] h = ground arith
  contains-push_unseen seen ids (id ∷ rest) h =
      let skipped = contains-push_unseen seen ids rest h in
      let pushed =
        contains-push_unseen (add id seen) (ids ++ id ∷ []) rest (push_alike seen ids id h) in
      elim (Bool-cases (contains id seen)) [
        | inr e ↦ rw e (ground (arith, pushed, contains-append x id ids))
        | inl e ↦ rw e (elim (beq-cases id x) [
          | inl (t, p) ↦
              ground (arith, skipped, t, subst (λ z. contains z ids ≡ true) p (sym (h id) ∙ e))
          | inr f ↦ ground (arith, skipped, f)
        ])
      ]

push_unseen-IsDistinct :
    (seen ids rest : List Text)
    → AreAlike seen ids
    → IsDistinct ids
    → IsDistinct (push_unseen seen ids rest)
unfolding push_unseen
push_unseen-IsDistinct seen ids [] h d = d
push_unseen-IsDistinct seen ids (id ∷ rest) h d =
    let skipped = push_unseen-IsDistinct seen ids rest h d in
    elim (Bool-cases (contains id seen)) [
      | inl e ↦ rw e skipped
      | inr e ↦ rw e (
          push_unseen-IsDistinct (add id seen) (ids ++ id ∷ []) rest (push_alike seen ids id h)
            (IsDistinct-snoc ids id (sym (h id) ∙ e) d))
    ]

-- The ids are those of which `Holds` is true, each once.
pub record Collects (Holds : Text → Type 0) (ids : List Text) : Type 0 where
  pub distinct : IsDistinct ids
  pub found : (x : Text) → contains x ids ≡ true → Holds x
  pub complete : (x : Text) → Holds x → contains x ids ≡ true

push_unseen-Collects :
    (Holds : Text → Type 0) (source : List Text)
    → ((x : Text) → contains x source ≡ true → Holds x)
    → ((x : Text) → Holds x → contains x source ≡ true)
    → Collects Holds (push_unseen [] [] source)
push_unseen-Collects Holds source found complete =
    let same : (x : Text) → contains x (push_unseen [] [] source) ≡ contains x source =
      λ x. contains-push_unseen x [] [] source (λ x. refl) ∙ unfold contains in refl in
    record {
      distinct = push_unseen-IsDistinct [] [] source (λ x. refl) tt;
      found = λ x h. found x (sym (same x) ∙ h);
      complete = λ x h. same x ∙ complete x h;
    }

-- one of the items is the text `x`
abbrev pub HasText : List PayloadItem → Text → Type 0
HasText [] x = ⊥
HasText (item ∷ items) x = (item ≡ text x) ⊎ HasText items x

-- A token of `x` stands somewhere in the content, behind an even number of backslashes.
abbrev pub IsMentioned : Text → Text → Type 0
IsMentioned content x =
    (j : ℕ) × IsToken x (drop j content) × ((n : ℕ) × Backslashes content j n × (n % 2 ≡ 0))

IsMentioned-found :
    (content x : Text) → contains x (matches content 0 0 content) ≡ true → IsMentioned content x
IsMentioned-found content x h =
    let (j, (token, free)) = matches-found content x 0 0 content h in
    let same : 0 + j ≡ j = omega arith in
    (j, token, free-Backslashes content j (subst (λ i. is_escaped_at content i ≡ false) same free))

IsMentioned-complete :
    (content x : Text) → IsMentioned content x → contains x (matches content 0 0 content) ≡ true
IsMentioned-complete content x (j, token, (n, run, even)) =
    let same : j ≡ 0 + j = omega arith in
    matches_complete content x 0 0 j content (omega arith) (
      token,
      subst (λ i. is_escaped_at content i ≡ false) same (Backslashes-free content j n run even),
    )

module _ (x : Text) where
  HasText-found :
      (items : List PayloadItem) → contains x (payload_texts items) ≡ true → HasText items x
  unfolding contains
  HasText-found [] h = absurd (ground (arith, h))
  HasText-found (other ∷ items) h = inr (HasText-found items h)
  HasText-found (text t ∷ items) h = elim (beq-cases t x) [
    | inl (b, p) ↦ inl (ap text p)
    | inr b ↦ inr (HasText-found items (ground (arith, b, h)))
  ]

  HasText-complete :
      (items : List PayloadItem) → HasText items x → contains x (payload_texts items) ≡ true
  unfolding contains
  HasText-complete [] h = absurd h
  HasText-complete (other ∷ items) (inl e) = absurd (ground (arith, e))
  HasText-complete (other ∷ items) (inr h) = HasText-complete items h
  HasText-complete (text t ∷ items) (inl e) = ground (arith, e, beq_refl x)
  HasText-complete (text t ∷ items) (inr h) = ground (arith, HasText-complete items h)

-- The ids that a payload mentions are exactly the texts among its items, each once; and those that
-- a content mentions are exactly the ids of which a token stands in it that is not escaped, each
-- once. A token is `<@`, an id of at least one unit, each a letter, a digit, `_` or `-`, and `>`;
-- it is escaped by an odd number of backslashes directly before it.
pub mentions-Collects :
    (items : List PayloadItem) (content : Text)
    → Collects (HasText items) (payload_mentions (array items))
      × Collects (IsMentioned content) (parse_mentions content)
unfolding payload_mentions parse_mentions
mentions-Collects items content = (
  push_unseen-Collects (HasText items) (payload_texts items) (λ x. HasText-found x items)
      (λ x. HasText-complete x items),
  push_unseen-Collects (IsMentioned content) (matches content 0 0 content)
      (IsMentioned-found content) (IsMentioned-complete content),
)

-- ===== src/Tui/MentionIds/Found.antt =====
-- tui/src/mentions.ts: the tokens `<@id>` that the pattern finds, against their spelling.
use mesh_talk.Common.{
  ℕ, zero, suc, ◌+◌, ◌≤◌, ◌<◌, ◌≡◌, ◌≢◌, refl, ap, subst, All, arith, inl, inr, Bool, true, false,
  some, [], ◌∷◌, ◌++◌, Text, text_eq, nat_eq, length, drop, contains, get_elem?, ltb, beq-cases,
  beq_refl, Bool-cases, Option-cases,
}
use mesh_talk.Common.Strings.{run_of}
use mesh_talk.Tui.Tokens.{is_id_unit, has_unit, closed_id, mention_at, is_escaped_at}
use mesh_talk.Tui.MentionIds.{matches}

-- The text begins with the token of `id`: the id is not empty, and its units are letters, digits,
-- `_` and `-`.
pub record IsToken (id t : Text) : Type 0 where
  pub rest : Text
  pub spelled : t ≡ b'<' ∷ b'@' ∷ (id ++ b'>' ∷ rest)
  pub filled : id ≢ []
  pub units : All (λ c. is_id_unit c ≡ true) id

run_of-All : (p : ℕ → Bool) (t : Text) → All (λ c. p c ≡ true) (run_of p t)
unfolding run_of
run_of-All p [] = tt
run_of-All p (c ∷ t) = elim (Bool-cases (p c)) [
  | inl e ↦ rw e (e, run_of-All p t)
  | inr e ↦ rw e tt
]

run_of-rest :
    (p : ℕ → Bool) (t : Text) (c : ℕ)
    → has_unit t (length (run_of p t)) c ≡ true
    → (rest : Text) × (t ≡ run_of p t ++ c ∷ rest)
unfolding run_of get_elem?
run_of-rest p [] c h = absurd (ground (arith, h))
run_of-rest p (d ∷ t) c h = elim (Bool-cases (p d)) [
  | inl e ↦
      let (rest, same) = run_of-rest p t c (ground (arith, e, h)) in
      (rest, rw e (ap (λ u. d ∷ u) same))
  | inr e ↦ (t, rw e (ground (arith, e, h)))
]

module _ (p : ℕ → Bool) (c : ℕ) (out : p c ≡ false) where
  run_of-append : (t rest : Text) → All (λ d. p d ≡ true) t → run_of p (t ++ c ∷ rest) ≡ t
  unfolding run_of
  run_of-append [] rest h = rw out refl
  run_of-append (d ∷ t) rest (e, h) = rw e (ap (λ u. d ∷ u) (run_of-append t rest h))

has_unit-append : (t rest : Text) (c : ℕ) → has_unit (t ++ c ∷ rest) (length t) c ≡ true
unfolding get_elem?
has_unit-append [] rest c = ground arith
has_unit-append (d ∷ t) rest c = has_unit-append t rest c

closed_id-IsToken :
    (t id : Text) → closed_id (run_of is_id_unit t) t ≡ some id → IsToken id (b'<' ∷ b'@' ∷ t)
closed_id-IsToken t id h =
    let same : run_of is_id_unit t ≡ id = ground (arith, h) in
    let closed : has_unit t (length (run_of is_id_unit t)) b'>' ≡ true = ground (arith, h) in
    let (rest, spelled) = run_of-rest is_id_unit t b'>' closed in
    subst (λ x. IsToken x (b'<' ∷ b'@' ∷ t)) same
      (record {
        rest = rest;
        spelled = ap (λ u. b'<' ∷ b'@' ∷ u) spelled;
        filled = λ e. ground (arith, h, e, text_eq.beq_iff (run_of is_id_unit t) []);
        units = run_of-All is_id_unit t;
      })

mention_at-IsToken : (t id : Text) → mention_at t ≡ some id → IsToken id t
unfolding mention_at
mention_at-IsToken [] id h = absurd (ground (arith, h))
mention_at-IsToken (a ∷ []) id h = absurd (ground (arith, h))
mention_at-IsToken (a ∷ b ∷ t) id h =
    let opens : a ≡ b'<' = ground (arith, h) in
    let at : b ≡ b'@' = ground (arith, h) in
    let closed : closed_id (run_of is_id_unit t) t ≡ some id = ground (arith, h) in
    rw (opens, at) (closed_id-IsToken t id closed)

IsToken-mention_at : (t id : Text) → IsToken id t → mention_at t ≡ some id
unfolding mention_at is_id_unit
IsToken-mention_at t id h =
    let run = run_of-append is_id_unit b'>' refl id h.rest h.units in
    rw (h.spelled, run)
      (ground (arith, has_unit-append id h.rest b'>', h.filled, text_eq.beq_iff id []))

-- a token begins with its bracket
IsToken-head : (a : ℕ) (t id : Text) → IsToken id (a ∷ t) → a ≡ b'<'
IsToken-head a t id h = ground (arith, h.spelled)

not_in_id :
    (x rest id : Text) (j : ℕ)
    → All (λ c. is_id_unit c ≡ true) id
    → j ≤ length id
    → IsToken x (drop j (id ++ b'>' ∷ rest))
    → ⊥
unfolding is_id_unit
not_in_id x rest [] zero u h k = ground (arith, IsToken-head b'>' rest x k)
not_in_id x rest [] (suc j) u h k = absurd (omega (arith, h))
not_in_id x rest (a ∷ id) zero (u, us) h k =
    ground (arith, u, IsToken-head a (id ++ b'>' ∷ rest) x k)
not_in_id x rest (a ∷ id) (suc j) (u, us) h k = not_in_id x rest id j us (omega (arith, h)) k

-- no token begins within another
IsToken-apart :
    (c : ℕ) (t x id : Text) (j : ℕ)
    → IsToken id (c ∷ t)
    → j < length id + 2
    → IsToken x (drop j t)
    → ⊥
IsToken-apart c t x id j h k found =
    let spelled : t ≡ b'@' ∷ (id ++ b'>' ∷ h.rest) = ground (arith, h.spelled) in
    inside j k (subst (λ u. IsToken x (drop j u)) spelled found)
  where
    inside : (j : ℕ) → j < length id + 2 → IsToken x (drop j (b'@' ∷ (id ++ b'>' ∷ h.rest))) → ⊥
    inside zero k f = ground (arith, IsToken-head b'@' (id ++ b'>' ∷ h.rest) x f)
    inside (suc i) k f = not_in_id x h.rest id i h.units (omega (arith, k)) f

-- a token of `x` at `j` of the rest, which begins at `index`, that is not escaped
abbrev pub StandsAt : Text → ℕ → Text → Text → ℕ → Type 0
StandsAt content index rest x j =
    IsToken x (drop j rest) × (is_escaped_at content (index + j) ≡ false)

module _ (content x : Text) where
  StandsAt-suc :
      (index c j : ℕ) (t : Text)
      → StandsAt content (index + 1) t x j
      → StandsAt content index (c ∷ t) x (suc j)
  StandsAt-suc index c j t (k, e) =
      let same : index + 1 + j ≡ index + suc j = omega arith in
      (k, subst (λ i. is_escaped_at content i ≡ false) same e)

  here :
      (index : ℕ) → is_escaped_at content index ≡ false → is_escaped_at content (index + 0) ≡ false
  here index s =
      let same : index ≡ index + 0 = omega arith in
      subst (λ i. is_escaped_at content i ≡ false) same s

  pub matches-found :
      (index skip : ℕ) (rest : Text)
      → contains x (matches content index skip rest) ≡ true
      → (j : ℕ) × StandsAt content index rest x j
  unfolding matches contains
  matches-found index skip [] h = absurd (ground (arith, h))
  matches-found index (suc skip) (c ∷ t) h =
      let (j, k) = matches-found (index + 1) skip t h in (suc j, StandsAt-suc index c j t k)
  matches-found index zero (c ∷ t) h = elim (Option-cases (mention_at (c ∷ t))) [
    | inl e ↦
        let (j, k) = matches-found (index + 1) 0 t (ground (arith, e, h)) in
        (suc j, StandsAt-suc index c j t k)
    | inr (id, e) ↦
        let later = matches-found (index + 1) (length id + 2) t in
        elim (Bool-cases (is_escaped_at content index)) [
          | inl s ↦
              let (j, k) = later (ground (arith, e, s, h)) in (suc j, StandsAt-suc index c j t k)
          | inr s ↦ elim (beq-cases id x) [
            | inl (b, p) ↦ (
              0,
              (subst (λ y. IsToken y (c ∷ t)) p (mention_at-IsToken (c ∷ t) id e), here index s),
            )
            | inr b ↦
                let (j, k) = later (ground (arith, e, s, b, h)) in
                (suc j, StandsAt-suc index c j t k)
          ]
        ]
  ]

  no_token : (j index : ℕ) → StandsAt content index [] x j → ⊥
  no_token zero index (k, e) = ground (arith, k.spelled)
  no_token (suc j) index (k, e) = ground (arith, k.spelled)

  StandsAt-pred :
      (index c j : ℕ) (t : Text)
      → StandsAt content index (c ∷ t) x (suc j)
      → StandsAt content (index + 1) t x j
  StandsAt-pred index c j t (k, e) =
      let same : index + suc j ≡ index + 1 + j = omega arith in
      (k, subst (λ i. is_escaped_at content i ≡ false) same e)

  pub matches_complete :
      (index skip j : ℕ) (rest : Text)
      → skip ≤ j
      → StandsAt content index rest x j
      → contains x (matches content index skip rest) ≡ true
  unfolding matches contains
  matches_complete index skip j [] h k = absurd (no_token j index k)
  matches_complete index (suc skip) zero (c ∷ t) h k = absurd (omega (arith, h))
  matches_complete index (suc skip) (suc j) (c ∷ t) h k =
      matches_complete (index + 1) skip j t (omega (arith, h)) (StandsAt-pred index c j t k)
  matches_complete index zero zero (c ∷ t) h (k, e) =
      let same : index + 0 ≡ index = omega arith in
      let free = subst (λ i. is_escaped_at content i ≡ false) same e in
      ground (arith, IsToken-mention_at (c ∷ t) x k, free, beq_refl x)
  matches_complete index zero (suc j) (c ∷ t) h k =
      let k' = StandsAt-pred index c j t k in
      elim (Option-cases (mention_at (c ∷ t))) [
        | inl e ↦ ground (arith, e, matches_complete (index + 1) 0 j t (omega arith) k')
        | inr (id, e) ↦ elim (Bool-cases (ltb j (length id + 2))) [
          | inl b ↦
              absurd (
                IsToken-apart c t x id j (mention_at-IsToken (c ∷ t) id e) (ground (arith, b)) k'.0)
          | inr b ↦
              let later = matches_complete (index + 1) (length id + 2) j t (ground (arith, b)) k' in
              elim (Bool-cases (is_escaped_at content index)) [
                | inl s ↦ ground (arith, e, s, later)
                | inr s ↦ ground (arith, e, s, later)
              ]
        ]
      ]

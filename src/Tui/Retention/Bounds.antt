-- ===== src/Tui/Retention/Bounds.antt =====
-- tui/src/stateRetention.ts: the bound on the entries.
use mesh_talk.Common.{
  ℕ, zero, suc, ◌-◌, ◌≤◌, ◌<◌, ◌≡◌, refl, ap, ◌∙◌, inl, inr, arith, Bool, true, false, Option, none,
  some, [], ◌∷◌, ◌++◌, Text, leb, text_eq, ◌==◌, length, length-append, drop, Bool-cases, beq_refl,
  Option-cases,
}
use mesh_talk.Common.Dict.{Dict, get, delete, get-delete, length-delete}
use mesh_talk.Tui.Retention.{last_of, retain_recent_entries, holds, update_bounded_entry}

module _ {A : Type 0} where
  length-drop : (n : ℕ) (xs : Dict Text A) → length (drop n xs) ≡ length xs - n
  length-drop zero xs = omega arith
  length-drop (suc n) [] = omega arith
  length-drop (suc n) (x ∷ xs) = omega (arith, length-drop n xs)

  drop-append : (n : ℕ) (xs ys : Dict Text A) → n ≤ length xs → drop n (xs ++ ys) ≡ drop n xs ++ ys
  drop-append zero xs ys h = refl
  drop-append (suc n) [] ys h = absurd (omega (arith, h))
  drop-append (suc n) (x ∷ xs) ys h = drop-append n xs ys (omega (arith, h))

  get-drop-none : (k : Text) (n : ℕ) (xs : Dict Text A) → get k xs ≡ none → get k (drop n xs) ≡ none
  get-drop-none k zero xs h = h
  get-drop-none k (suc n) [] h = h
  get-drop-none k (suc n) ((j, v) ∷ xs) h = get-drop-none k n xs (unfold get in ground (arith, h))

  get-append-none :
      (k j : Text) (v : A) (xs : Dict Text A)
      → get k xs ≡ none
      → get k (xs ++ (j, v) ∷ []) ≡ get k ((j, v) ∷ [])
  unfolding get
  get-append-none k j v [] h = refl
  get-append-none k j v ((i, w) ∷ xs) h = ground (arith, h, get-append-none k j v xs)

  get-append-some :
      (k : Text) (v : A) (xs ys : Dict Text A) → get k xs ≡ some v → get k (xs ++ ys) ≡ some v
  unfolding get
  get-append-some k v [] ys h = absurd (ground (arith, h))
  get-append-some k v ((i, w) ∷ xs) ys h = ground (arith, h, get-append-some k v xs ys)

  holds-eq :
      (same : A → A → Bool)
      → ((a b : A) → same a b ≡ true → a ≡ b)
      → (o : Option A) (value : A) → holds same o value ≡ true
      → o ≡ some value
  holds-eq same sound none value h = absurd (ground (arith, h))
  holds-eq same sound (some v) value h = ap some (sound v value h)

  get-last_of :
      (k : Text) (v : A) (xs : Dict Text A) (m : ℕ)
      → get k xs ≡ none
      → get k (last_of m (xs ++ (k, v) ∷ [])) ≡ some v
  get-last_of k v xs zero h = get-append-none k k v xs h ∙ unfold get in rw (beq_refl k) refl
  get-last_of k v xs (suc m) h =
      let size = length-append xs ((k, v) ∷ []) in
      let n : ℕ = length (xs ++ (k, v) ∷ []) - suc m in
      let cut : drop n (xs ++ (k, v) ∷ []) ≡ drop n xs ++ (k, v) ∷ [] =
        drop-append n xs ((k, v) ∷ []) (omega (arith, size)) in
      ap (get k) cut
      ∙ get-append-none k k v (drop n xs) (get-drop-none k n xs h)
      ∙ unfold get in rw (beq_refl k) refl

  -- the entry that was written last is kept
  get-retain_last :
      (k : Text) (v : A) (xs : Dict Text A) (m : ℕ)
      → get k xs ≡ none
      → get k (retain_recent_entries (xs ++ (k, v) ∷ []) m) ≡ some v
  unfolding retain_recent_entries
  get-retain_last k v xs m h = elim (Bool-cases (leb (length (xs ++ (k, v) ∷ [])) m)) [
    | inl e ↦ rw e (get-append-none k k v xs h ∙ unfold get in rw (beq_refl k) refl)
    | inr e ↦ rw e (get-last_of k v xs m h)
  ]

  length-last_of : (xs : Dict Text A) (m : ℕ) → 0 < m → length (last_of m xs) ≤ m
  length-last_of xs zero h = absurd (omega (arith, h))
  length-last_of xs (suc m) h = omega (arith, length-drop (length xs - suc m) xs)

  retain_recent_entries-le :
      (xs : Dict Text A) (m : ℕ) → 0 < m → length (retain_recent_entries xs m) ≤ m
  unfolding retain_recent_entries
  retain_recent_entries-le xs m h = ground (arith, length-last_of xs m)

  -- what an update with room for one more does to another key
  get-retain_room :
      (j k : Text) (v : A) (xs : Dict Text A) (m : ℕ)
      → length xs < m
      → (k == j) ≡ false
      → get j (retain_recent_entries (xs ++ (k, v) ∷ []) m) ≡ get j xs
  unfolding retain_recent_entries
  get-retain_room j k v xs m h e =
      let fit : leb (length (xs ++ (k, v) ∷ [])) m ≡ true =
        ground (arith, length-append xs ((k, v) ∷ [])) in
      rw fit (elim (Option-cases (get j xs)) [
        | inl n ↦ get-append-none j k v xs n ∙ unfold get in rw (e, n) refl
        | inr (w, f) ↦ rw f (get-append-some j w xs ((k, v) ∷ []) f)
      ])

  -- what an update leaves of `entries`
  pub record IsUpdated (entries : Dict Text A) (key : Text) (value : A) (maximum : ℕ)
      (next : Dict Text A) : Type 0 where
    pub bounded : length next ≤ maximum
    pub written : get key next ≡ some value
    pub others :
        length entries < maximum → (j : Text) → (key == j) ≡ false → get j next ≡ get j entries

  -- An update of bounded entries, with a maximum above 0 that they keep, keeps it again and gives
  -- the key its new value; the entries of other keys stay as they are while there is room for one
  -- more.
  pub update_bounded_entry-IsUpdated :
      (same : A → A → Bool)
      → ((a b : A) → same a b ≡ true → a ≡ b)
      → (entries : Dict Text A) (key : Text) (value : A) (maximum : ℕ) → 0 < maximum
      → length entries ≤ maximum
      → IsUpdated entries key value maximum (update_bounded_entry same entries key value maximum)
  unfolding update_bounded_entry
  update_bounded_entry-IsUpdated same sound entries key value maximum pos_max fits =
      elim (Bool-cases (holds same (get key entries) value)) [
        | inl e ↦ rw e (record {
          bounded = fits;
          written = holds-eq same sound (get key entries) value e;
          others = λ room j other. refl;
        })
        | inr e ↦ rw e (record {
          bounded =
              retain_recent_entries-le (delete key entries ++ (key, value) ∷ []) maximum pos_max;
          written =
              get-retain_last key value (delete key entries) maximum
                (get-delete key key entries ∙ rw (beq_refl key) refl);
          others = λ room j other.
              get-retain_room j key value (delete key entries) maximum
                (omega (arith, room, length-delete key entries)) other
              ∙ get-delete key j entries
              ∙ rw other refl;
        })
      ]

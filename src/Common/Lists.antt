-- ===== src/Common/Lists.antt =====
-- Lists measured by native numbers, sums over a list, and sets kept as lists.
use Prim.Native.Nat.{ℕ, zero, suc, ◌+◌, ◌-◌, ◌≤◌}
use mathlib.Core.Path.{◌≡◌, refl, subst}
use mathlib.Core.Logic.{inl, inr}
use mathlib.Core.Bool.{Bool, false, not, ◌&&◌, ◌||◌}
use mathlib.Core.Option.{Option, none, some}
use mathlib.Core.List.{List, [], ◌∷◌, ◌++◌}
use native.Mathlib.Omega.{arith}
use mesh_talk.Common.Tests.{Eq, ◌==◌, if◌then◌else◌, beq_refl, beq-cases}

module _ {ℓ} {A : Type ℓ} where
  abbrev pub length : List A → ℕ
  length [] = 0
  length (x ∷ xs) = suc (length xs)

  pub length-append : (xs ys : List A) → length (xs ++ ys) ≡ length xs + length ys
  length-append [] ys = omega arith
  length-append (x ∷ xs) ys = omega (arith, length-append xs ys)

  -- `list[index]`
  unfoldable pub get_elem? : List A → ℕ → Option A
  get_elem? [] i = none
  get_elem? (x ∷ xs) zero = some x
  get_elem? (x ∷ xs) (suc i) = get_elem? xs i

  abbrev pub drop : ℕ → List A → List A
  drop zero xs = xs
  drop (suc n) [] = []
  drop (suc n) (x ∷ xs) = drop n xs

  abbrev pub take : ℕ → List A → List A
  take zero xs = []
  take (suc n) [] = []
  take (suc n) (x ∷ xs) = x ∷ take n xs

  -- `slice(from, to)`
  abbrev pub slice : List A → ℕ → ℕ → List A
  slice xs from to = take (to - from) (drop from xs)

  -- `filter` of the source, on a Boolean test
  unfoldable pub keep : (A → Bool) → List A → List A
  keep p [] = []
  keep p (x ∷ xs) = let rest = keep p xs in if p x then x ∷ rest else rest

  unfoldable pub sum_by : (A → ℕ) → List A → ℕ
  sum_by w [] = 0
  sum_by w (x ∷ xs) = w x + sum_by w xs

  pub sum_by-nil : (w : A → ℕ) → sum_by w [] ≡ 0
  unfolding sum_by
  sum_by-nil w = refl

  pub sum_by-cons : (w : A → ℕ) (x : A) (xs : List A) → sum_by w (x ∷ xs) ≡ w x + sum_by w xs
  unfolding sum_by
  sum_by-cons w x xs = refl

  pub sum_by-append : (w : A → ℕ) (xs ys : List A) → sum_by w (xs ++ ys) ≡ sum_by w xs + sum_by w ys
  unfolding sum_by
  sum_by-append w [] ys = omega arith
  sum_by-append w (x ∷ xs) ys = omega (arith, sum_by-append w xs ys)

module _ {ℓ κ} {A : Type ℓ} (P : A → Type κ) where
  abbrev pub All : List A → Type κ
  All [] = Unit
  All (x ∷ xs) = P x × All xs

module _ {ℓ} {A : Type ℓ} ⦃e : Eq A⦄ where
  -- `Set.has`, `Array.includes`
  unfoldable pub contains : A → List A → Bool
  contains a [] = false
  contains a (x ∷ xs) = (x == a) || contains a xs

  -- `Set.add` keeps the order of insertion
  unfoldable pub add : A → List A → List A
  unfolding contains
  add a xs = if contains a xs then xs else xs ++ a ∷ []

  -- `Set.delete`
  unfoldable pub remove : A → List A → List A
  remove a [] = []
  remove a (x ∷ xs) = let rest = remove a xs in if x == a then rest else x ∷ rest

  pub contains-append :
      (a b : A) (xs : List A) → contains a (xs ++ b ∷ []) ≡ (contains a xs || (b == a))
  unfolding contains
  contains-append a b [] = ground arith
  contains-append a b (x ∷ xs) = ground (arith, contains-append a b xs)

  pub contains-add : (a b : A) (xs : List A) → contains a (add b xs) ≡ ((b == a) || contains a xs)
  unfolding add
  contains-add a b xs = elim (beq-cases b a) [
    | inl (t, p) ↦ rw p (ground (arith, beq_refl a, contains-append a a xs))
    | inr f ↦ ground (arith, f, contains-append a b xs)
  ]

  pub contains-remove :
      (a b : A) (xs : List A) → contains a (remove b xs) ≡ (not (b == a) && contains a xs)
  unfolding contains remove
  contains-remove a b [] = ground arith
  contains-remove a b (x ∷ xs) = elim (beq-cases x b) [
    | inl (t, p) ↦ rw p (ground (arith, beq_refl b, contains-remove a b xs))
    | inr f ↦ elim (beq-cases b a) [
      | inl (t, p) ↦ ground (arith, f, t, subst (λ z. (x == z) ≡ false) p f, contains-remove a b xs)
      | inr g ↦ ground (arith, f, g, contains-remove a b xs)
    ]
  ]

  pub length-add : (a : A) (xs : List A) → length (add a xs) ≤ length xs + 1
  unfolding add
  length-add a xs = ground (arith, length-append xs (a ∷ []))

  pub length-remove : (a : A) (xs : List A) → length (remove a xs) ≤ length xs
  unfolding remove
  length-remove a [] = omega arith
  length-remove a (x ∷ xs) = ground (arith, length-remove a xs)

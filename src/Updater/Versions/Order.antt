-- ===== src/Updater/Versions/Order.antt =====
-- common/updater.ts: the order of versions.
use mesh_talk.Common.{
  ℕ, ◌≡◌, refl, sym, ◌∙◌, inl, inr, Bool-cases, arith, Bool, true, false, Option, none, some, List,
  [], ◌∷◌, Text, ltb, nat_beq, if◌then◌else◌,
}
use mesh_talk.Common.Dict.{is_some}
use mesh_talk.Updater.Versions.{
  Version, rank, newer, newer_suffix, newer_parsed, is_newer_version, parse_version,
}

-- the first numbers that differ decide
abbrev above : List ℕ → List ℕ → Bool
above (x ∷ xs) (y ∷ ys) = let rest = above xs ys in if nat_beq x y then rest else ltb y x
above _ _ = false

above_trans : (xs ys zs : List ℕ) → above xs ys ≡ true → above ys zs ≡ true → above xs zs ≡ true
above_trans [] ys zs h k = absurd (ground (arith, h))
above_trans (x ∷ xs) [] zs h k = absurd (ground (arith, h))
above_trans (x ∷ xs) (y ∷ ys) [] h k = absurd (ground (arith, k))
above_trans (x ∷ xs) (y ∷ ys) (z ∷ zs) h k = ground (arith, h, k, above_trans xs ys zs)

above_irrefl : (xs : List ℕ) → above xs xs ≡ false
above_irrefl [] = refl
above_irrefl (x ∷ xs) = ground (arith, above_irrefl xs)

abbrev rank_of : Option ℕ → ℕ → ℕ
rank_of run revision = if is_some run then 0 else if ltb 0 revision then 2 else 1

abbrev suffix : Option ℕ → ℕ → ℕ
suffix none revision = revision
suffix (some run) revision = run

-- what decides, in its order
abbrev key : Version → List ℕ
key v = v.major ∷ v.minor ∷ v.patch ∷ rank v ∷ suffix v.snapshot_run v.revision ∷ []

-- behind equal ranks the suffixes decide
suffix-above :
    (a b : Option ℕ) (r s : ℕ)
    → nat_beq (rank_of a r) (rank_of b s) ≡ true
    → newer_suffix a b (ltb s r) ≡ ltb (suffix b s) (suffix a r)
suffix-above none none r s h = refl
suffix-above none (some y) r s h = absurd (ground (arith, h))
suffix-above (some x) none r s h = absurd (ground (arith, h))
suffix-above (some x) (some y) r s h = refl

newer-above : (v w : Version) → newer v w ≡ above (key v) (key w)
unfolding newer rank
newer-above v w = ground (arith, suffix-above v.snapshot_run w.snapshot_run v.revision w.revision)

newer_trans : (u v w : Version) → newer u v ≡ true → newer v w ≡ true → newer u w ≡ true
newer_trans u v w h k =
    newer-above u w
    ∙ above_trans (key u) (key v) (key w) (sym (newer-above u v) ∙ h) (sym (newer-above v w) ∙ k)

newer_irrefl : (v : Version) → newer v v ≡ false
newer_irrefl v = newer-above v v ∙ above_irrefl (key v)

newer_parsed_trans :
    (a b c : Option Version)
    → newer_parsed a b ≡ true
    → newer_parsed b c ≡ true
    → newer_parsed a c ≡ true
newer_parsed_trans none b c h k = absurd (ground (arith, h))
newer_parsed_trans (some u) none c h k = absurd (ground (arith, h))
newer_parsed_trans (some u) (some v) none h k = absurd (ground (arith, k))
newer_parsed_trans (some u) (some v) (some w) h k = newer_trans u v w h k

newer_parsed_irrefl : (a : Option Version) → newer_parsed a a ≡ false
newer_parsed_irrefl none = refl
newer_parsed_irrefl (some v) = newer_irrefl v

-- The test for a newer version is a strict order on all texts, versions or not: where `a` is newer
-- than `b` and `b` newer than `c`, `a` is newer than `c`, and `c` is not newer than `a`. So updates
-- to newer versions never come back to a version that was left.
pub is_newer_version_trans :
    (a b c : Text)
    → is_newer_version a b ≡ true
    → is_newer_version b c ≡ true
    → (is_newer_version a c ≡ true) × (is_newer_version c a ≡ false)
unfolding is_newer_version
is_newer_version_trans a b c h k =
    let u = parse_version a in
    let w = parse_version c in
    let both = newer_parsed_trans u (parse_version b) w h k in
    (
      both,
      elim (Bool-cases (newer_parsed w u)) [
        | inr e ↦ e
        | inl e ↦ absurd (ground (arith, newer_parsed_trans u w u both e, newer_parsed_irrefl u))
      ],
    )

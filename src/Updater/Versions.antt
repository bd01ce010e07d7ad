-- ===== src/Updater/Versions.antt =====
-- common/updater.ts: versions and their order. A number of a version is exact, as the program's
-- are below 2^53.
pub mod Order
use mathlib.Core.Option
use mesh_talk.Common.{
  ℕ, ◌+◌, ◌-◌, ◌*◌, Bool, true, false, not, ◌&&◌, ◌||◌, Option, none, some, List, [], ◌∷◌, Text,
  ltb, leb, nat_beq, text_eq, ◌==◌, length, drop, if◌then◌else◌,
}
use mesh_talk.Common.Strings.{run_of}
use mesh_talk.Common.Dict.{is_some}

pub record Version : Type 0 where
  pub major : ℕ
  pub minor : ℕ
  pub patch : ℕ
  pub revision : ℕ
  pub snapshot_run : Option ℕ

unfoldable pub is_digit : ℕ → Bool
is_digit c = leb b'0' c && leb c b'9'

unfoldable pub is_suffix_unit : ℕ → Bool
unfolding is_digit
is_suffix_unit c =
    is_digit c
    || (leb b'A' c && leb c b'Z')
    || (leb b'a' c && leb c b'z')
    || nat_beq c b'.'
    || nat_beq c b'-'

-- `Number` of digits
unfoldable pub digits_value : ℕ → Text → ℕ
digits_value acc [] = acc
digits_value acc (c ∷ t) = digits_value (acc * 10 + (c - b'0')) t

-- a run that is not empty, and what follows it
unfoldable pub take_run : (ℕ → Bool) → Text → Option (Text × Text)
unfolding run_of
take_run p t =
    let found = run_of p t in if found == [] then none else some (found, drop (length found) t)

abbrev pub after_mark : ℕ → Text → Option Text
after_mark c [] = none
after_mark c (d ∷ t) = if nat_beq d c then some t else none

-- a part of the pattern that may be missing, with its mark in front
unfoldable pub take_suffix : ℕ → Text → Option (Option Text × Text)
unfolding take_run is_suffix_unit
take_suffix mark [] = some (none, [])
take_suffix mark (c ∷ t) =
    if nat_beq c mark
    then Option.map (λ found. (some found.0, found.1)) (take_run is_suffix_unit t)
    else some (none, c ∷ t)

abbrev pub all_digits : Text → Bool
all_digits [] = true
all_digits (c ∷ t) = is_digit c && all_digits t

-- the leading number of the build, or 0
abbrev pub run_number : Option Text → ℕ
run_number none = 0
run_number (some build) = digits_value 0 (run_of is_digit build)

abbrev pub version_of : ℕ → ℕ → ℕ → Option Text → Option Text → Version
version_of major minor patch none build = record {
  major = major;
  minor = minor;
  patch = patch;
  revision = 0;
  snapshot_run = none;
}
version_of major minor patch (some pre) build =
    if all_digits pre
    then record {
      major = major;
      minor = minor;
      patch = patch;
      revision = digits_value 0 pre;
      snapshot_run = none;
    }
    else record {
      major = major;
      minor = minor;
      patch = patch;
      revision = 0;
      snapshot_run = some (run_number build);
    }

-- `replace(/^v/, "")`
abbrev pub without_v : Text → Text
without_v [] = []
without_v (c ∷ t) = if nat_beq c b'v' then t else c ∷ t

abbrev pub at_end : Version → Text → Option Version
at_end v [] = some v
at_end v (c ∷ t) = none

infixl 5 ◌>>=◌
abbrev pub ◌>>=◌ {ℓ κ} : {A : Type ℓ} {B : Type κ} → Option A → (A → Option B) → Option B
none >>= f = none
some a >>= f = f a

unfoldable pub parse_version : Text → Option Version
unfolding take_run take_suffix run_of digits_value is_digit
parse_version value = do
  major ← take_run is_digit (without_v value)
  rest ← after_mark b'.' major.1
  minor ← take_run is_digit rest
  rest' ← after_mark b'.' minor.1
  patch ← take_run is_digit rest'
  pre ← take_suffix b'-' patch.1
  build ← take_suffix b'+' pre.1
  at_end
      (version_of (digits_value 0 major.0) (digits_value 0 minor.0) (digits_value 0 patch.0) pre.0
        build.0)
      build.1

abbrev pub is_stable : Option Version → Bool
is_stable none = false
is_stable (some v) = not (is_some v.snapshot_run)

unfoldable pub is_stable_version : Text → Bool
unfolding parse_version
is_stable_version value = is_stable (parse_version value)

unfoldable pub rank : Version → ℕ
rank v = if is_some v.snapshot_run then 0 else if ltb 0 v.revision then 2 else 1

abbrev pub newer_suffix : Option ℕ → Option ℕ → Bool → Bool
newer_suffix (some a) (some b) revised = ltb b a
newer_suffix _ _ revised = revised

unfoldable pub newer : Version → Version → Bool
unfolding rank
newer next installed =
    if not (nat_beq next.major installed.major)
    then ltb installed.major next.major
    else if not (nat_beq next.minor installed.minor)
    then ltb installed.minor next.minor
    else if not (nat_beq next.patch installed.patch)
    then ltb installed.patch next.patch
    else if not (nat_beq (rank next) (rank installed))
    then ltb (rank installed) (rank next)
    else newer_suffix next.snapshot_run installed.snapshot_run
        (ltb installed.revision next.revision)

abbrev pub newer_parsed : Option Version → Option Version → Bool
newer_parsed (some next) (some installed) = newer next installed
newer_parsed _ _ = false

unfoldable pub is_newer_version : Text → Text → Bool
unfolding parse_version newer
is_newer_version latest current = newer_parsed (parse_version latest) (parse_version current)

-- ===== src/Tui/Retention.antt =====
-- tui/src/stateRetention.ts: bounded records of state. `entries` is an object: a list of its
-- keys, in the order of insertion, with their values. The keys of the program are conversations'
-- and messages' ids, which are no integer numerals, the keys that an object would put first.
pub mod Bounds
use mesh_talk.Common.{
  ℕ, ◌-◌, zero, suc, Bool, false, Option, none, some, List, [], ◌∷◌, ◌++◌, Text, leb, text_eq, ◌==◌,
  length, drop, if◌then◌else◌,
}
use mesh_talk.Common.Dict.{Dict, get, delete}

-- `slice(-maximum)`, where -0 is 0: all of them
abbrev pub last_of {ℓ} : {A : Type ℓ} → ℕ → List A → List A
last_of zero xs = xs
last_of (suc n) xs = drop (length xs - suc n) xs

module _ {A : Type 0} where
  unfoldable pub retain_recent_entries : Dict Text A → ℕ → Dict Text A
  retain_recent_entries entries maximum =
      if leb (length entries) maximum then entries else last_of maximum entries

  abbrev pub holds : (A → A → Bool) → Option A → A → Bool
  holds same none value = false
  holds same (some v) value = same v value

  -- `same` is `Object.is`
  unfoldable pub update_bounded_entry : (A → A → Bool) → Dict Text A → Text → A → ℕ → Dict Text A
  unfolding retain_recent_entries
  update_bounded_entry same entries key value maximum =
      if holds same (get key entries) value
      then entries
      else retain_recent_entries (delete key entries ++ (key, value) ∷ []) maximum

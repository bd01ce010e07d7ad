-- ===== src/Updater/Releases/Offers.antt =====
-- common/updater.ts: what is known of an update that is offered.
use mesh_talk.Common.{
  ◌≡◌, ◌⊎◌, Bool, true, false, not, ◌&&◌, Option, none, some, List, [], ◌∷◌, Text,
}
use mesh_talk.Common.Dict.{is_some}
use mesh_talk.Updater.Versions.{without_v, parse_version}
use mesh_talk.Updater.Releases.{Asset, ReleaseResponse, Release, find_asset, Fetched}

-- one of the releases of a list
abbrev pub IsAmong : ReleaseResponse → List ReleaseResponse → Type 0
IsAmong value [] = ⊥
IsAmong value (x ∷ xs) = (x ≡ value) ⊎ IsAmong value xs

-- what the answers to one source's requests hold for the channel: any of the releases where
-- prereleases are allowed, else the latest release
abbrev pub IsAnswer : Bool → Fetched → ReleaseResponse → Type 0
IsAnswer true f value = IsAmong value f.releases
IsAnswer false f value = f.release ≡ some value

-- an answer of one of the three sources, the last of which may not have been asked
abbrev pub IsFetched : Bool → Fetched → Fetched → Option Fetched → ReleaseResponse → Type 0
IsFetched allow listed gh none value = IsAnswer allow listed value ⊎ IsAnswer allow gh value
IsFetched allow listed gh (some f) value =
    IsAnswer allow listed value ⊎ (IsAnswer allow gh value ⊎ IsAnswer allow f value)

-- The release is that of an answer of `From`, for this platform and this channel: no draft, no
-- prerelease but where these are allowed, with the answer's tag and a version that can be read.
pub record IsUsable (asset_name : Option Text) (allow_prerelease : Bool)
    (From : ReleaseResponse → Type 0) (r : Release) : Type 0 where
  pub response : ReleaseResponse
  pub fetched : From response
  pub published : response.draft ≡ false
  pub stable : (not allow_prerelease && response.prerelease) ≡ false
  pub tagged : response.tag_name ≡ some r.tag
  pub named : asset_name ≡ some r.asset_name
  pub versioned : r.version ≡ without_v r.tag
  pub readable : is_some (parse_version r.version) ≡ true
  pub asset : Asset
  pub found : find_asset r.asset_name response.assets ≡ some asset
  pub located : asset.browser_download_url ≡ some r.download_url

module _ (asset_name : Option Text) (allow : Bool) where
  abbrev AllUsable : (ReleaseResponse → Type 0) → Option Release → Type 0
  AllUsable From none = Unit
  AllUsable From (some r) = IsUsable asset_name allow From r

-- ===== src/Updater/Releases.antt =====
-- common/updater.ts: the release that is offered as an update. What GitHub and the `gh` program
-- answer is given; a field that is no text is `none`.
pub mod Offers
use mesh_talk.Common.{
  Bool, true, false, not, ◌&&◌, ◌||◌, Option, none, some, List, [], ◌∷◌, ◌++◌, Text, codes, text_eq,
  ◌==◌, if◌then◌else◌,
}
use mesh_talk.Common.Dict.{is_some}
use mesh_talk.Updater.Versions.{without_v, parse_version, is_newer_version}

pub record Asset : Type 0 where
  pub name : Option Text
  pub browser_download_url : Option Text
  pub digest : Option Text

pub record ReleaseResponse : Type 0 where
  pub tag_name : Option Text
  pub prerelease : Bool
  pub draft : Bool
  pub assets : List Asset

pub record Release : Type 0 where
  pub tag : Text
  pub version : Text
  pub asset_name : Text
  pub download_url : Text
  pub digest : Option Text

abbrev architecture : Text → Option Text
architecture arch =
    if arch == codes "x64"
    then some (codes "x64")
    else if arch == codes "arm64"
    then some (codes "arm64")
    else none

abbrev asset_of : Text → Option Text → Option Text
asset_of platform none = none
asset_of platform (some arch) =
    if platform == codes "linux" || platform == codes "macos"
    then some (codes "meshtalk-" ++ platform ++ codes "-" ++ arch ++ codes ".tar.gz")
    else if platform == codes "win32"
    then some (codes "meshtalk-windows-x64.exe.tar.gz")
    else none

-- of `process.platform` and `process.arch`
unfoldable pub platform_asset_name : Text → Text → Option Text
platform_asset_name platform arch =
    asset_of (if platform == codes "darwin" then codes "macos" else platform) (architecture arch)

abbrev is_named : Text → Option Text → Bool
is_named name none = false
is_named name (some t) = t == name

unfoldable pub find_asset : Text → List Asset → Option Asset
find_asset name [] = none
find_asset name (a ∷ as_) = if is_named name a.name then some a else find_asset name as_

abbrev pub release_of : Text → Text → Option Text → Option Text → Option Release
release_of tag name none digest = none
release_of tag name (some url) digest = some (record {
  tag = tag;
  version = without_v tag;
  asset_name = name;
  download_url = url;
  digest = digest;
})

abbrev pub with_asset : Text → Text → Option Asset → Option Release
with_asset tag name none = none
with_asset tag name (some a) = release_of tag name a.browser_download_url a.digest

abbrev pub with_tag : ReleaseResponse → Option Text → Option Text → Option Release
with_tag value none name = none
with_tag value (some tag) none = none
with_tag value (some tag) (some name) =
    if is_some (parse_version (without_v tag))
    then with_asset tag name (find_asset name value.assets)
    else none

-- `asset_name` is that of the platform
unfoldable pub as_release : Option Text → Option ReleaseResponse → Bool → Option Release
unfolding find_asset
as_release asset_name none allow_prerelease = none
as_release asset_name (some value) allow_prerelease =
    if value.draft || (not allow_prerelease && value.prerelease)
    then none
    else with_tag value value.tag_name asset_name

abbrev pub or_next : Option Release → Option Release → Option Release
or_next none o = o
or_next (some r) o = some r

unfoldable pub newest_usable : Option Text → List ReleaseResponse → Bool → Option Release
unfolding as_release
newest_usable asset_name [] allow_prerelease = none
newest_usable asset_name (candidate ∷ releases) allow_prerelease =
    or_next (as_release asset_name (some candidate) allow_prerelease)
      (newest_usable asset_name releases allow_prerelease)

-- the answers to the requests: of all releases, or of the latest one
pub record Fetched : Type 0 where
  pub releases : List ReleaseResponse
  pub release : Option ReleaseResponse
  pub access_denied : Bool

pub data Check : Type 0 where
  offered : Release → Check
  nothing_newer : Check
  authentication_error : Check

abbrev pub decide : Option Release → Bool → Text → Check
decide none true current = authentication_error
decide none false current = nothing_newer
decide (some r) denied current =
    if is_newer_version r.version current then offered r else nothing_newer

module _ (asset_name : Option Text) (allow_prerelease : Bool) where
  -- what one source has to offer
  unfoldable pub usable : Fetched → Option Release
  unfolding newest_usable as_release
  usable f =
      if allow_prerelease
      then newest_usable asset_name f.releases true
      else as_release asset_name f.release false

  -- the requests with a token, of which there may be none
  abbrev pub decide_by_token : Option Fetched → Option Release → Bool → Text → Check
  decide_by_token (some f) none denied current =
      decide (usable f) (denied || f.access_denied) current
  decide_by_token _ r denied current = decide r denied current

  -- `listed` is public, `gh` the program's and `by_token` that of the token
  unfoldable pub check_for_update : Fetched → Fetched → Option Fetched → Text → Check
  unfolding usable
  check_for_update listed gh by_token current =
      decide_by_token by_token (or_next (usable listed) (usable gh)) listed.access_denied current

-- ===== src/Updater/Tests.antt =====
-- common/updater.ts at concrete inputs.
use mesh_talk.Common.{◌≡◌, refl, true, false, none, some, [], ◌∷◌, Text, codes, text_beq}
use mesh_talk.Updater.Versions.{is_newer_version, is_stable_version}
use mesh_talk.Updater.Versions.Order.{is_newer_version_trans}
use mesh_talk.Updater.Releases.{Release, ReleaseResponse, Fetched, platform_asset_name}

-- a revision is above the release, and that above its snapshots
is_newer_version_trans_example :
    (is_newer_version (codes "v0.7.1-1") (codes "0.7.1-SNAPSHOT+250-ab") ≡ true)
    × (is_newer_version (codes "0.7.1-SNAPSHOT+250-ab") (codes "v0.7.1-1") ≡ false)
unfolding is_newer_version text_beq
is_newer_version_trans_example =
    is_newer_version_trans (codes "v0.7.1-1") (codes "0.7.1") (codes "0.7.1-SNAPSHOT+250-ab") refl
      refl

snapshot_is_not_stable : is_stable_version (codes "1.2.3-SNAPSHOT+7") ≡ false
unfolding is_stable_version text_beq
snapshot_is_not_stable = refl

abbrev linux : Text
linux = codes "meshtalk-linux-x64.tar.gz"

linux_name : platform_asset_name (codes "linux") (codes "x64") ≡ some linux
unfolding platform_asset_name text_beq
linux_name = refl

abbrev response : ReleaseResponse
response = record {
  tag_name = some (codes "v1.10.0");
  prerelease = false;
  draft = false;
  assets =
      record { name = some linux; browser_download_url = some (codes "https://x"); digest = none }
      ∷ [];
}

abbrev release : Release
release = record {
  tag = codes "v1.10.0";
  version = codes "1.10.0";
  asset_name = linux;
  download_url = codes "https://x";
  digest = none;
}

abbrev latest : Fetched
latest = record { releases = []; release = some response; access_denied = false }

abbrev no_answer : Fetched
no_answer = record { releases = []; release = none; access_denied = true }

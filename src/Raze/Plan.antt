-- ===== src/Raze/Plan.antt =====
-- src/raze_update.cpp: `plan_raze_package_updates`.
use stmanager.Prelude.{
  Text, Bool, true, false, codes, text_eq, not, Option, none, some, List, [], ◌∷◌, ◌++◌,
  if◌then◌else◌,
}
use stmanager.Status.{Result, ok, fail, Exec, invalid_manifest}
use stmanager.Raze.Types.{
  TextMap, lookup, to_lower_ascii, RazeReleaseInfo, RazePackageInfo, RazeVersionManifest,
  RazePackageUpdate,
}

-- The update of a package before its URL is looked up.
unfoldable pub compare_package : RazePackageInfo → Bool → Option RazePackageInfo → RazePackageUpdate
unfolding to_lower_ascii
compare_package info has_local_manifest installed = elim has_local_manifest [
  | false ↦ update true (codes "initial install") []
  | true ↦ elim installed [
    | none ↦ update true (codes "missing locally") []
    | some old ↦
        let changed = not (text_eq (to_lower_ascii old.hash) (to_lower_ascii info.hash)) in
        update changed (if changed then codes "hash changed" else codes "unchanged") old.hash
  ]
]
  where
    update : Bool → Text → Text → RazePackageUpdate
    update needs_download reason local_hash = record {
      name = info.name;
      file = info.file;
      download_url = [];
      local_hash = local_hash;
      remote_hash = info.hash;
      reason = reason;
      needs_download = needs_download;
    }

-- The URL, which only a package to download must have.
unfoldable pub set_url : RazePackageUpdate → Option Text → Result RazePackageUpdate
set_url update (some download_url) = ok (record update { download_url = download_url })
set_url update none =
    if update.needs_download
    then fail invalid_manifest
        (codes "stage=raze.plan.asset; missing release asset for " ++ update.file)
    else ok update

module _ (has_local_manifest : Bool) (local_manifest : RazeVersionManifest)
    (release_info : RazeReleaseInfo) where
  unfoldable pub plan_package : RazePackageInfo → Result RazePackageUpdate
  unfolding compare_package set_url
  plan_package info =
      set_url (compare_package info has_local_manifest (lookup info.name local_manifest.packages))
        (lookup info.file release_info.asset_download_urls)

  -- The loop over the packages; the state is `package_updates`.
  unfoldable pub plan_loop : TextMap RazePackageInfo → Exec (List RazePackageUpdate) (Unit {0})
  unfolding plan_package
  plan_loop [] updates = (ok tt, updates)
  plan_loop ((name, info) ∷ rest) updates = elim (plan_package info) [
    | Result.ok update ↦ plan_loop rest (updates ++ update ∷ [])
    | Result.err e ↦ (Result.err e, updates)
    | Result.looping ↦ (Result.looping, updates)
    | Result.threw what ↦ (Result.threw what, updates)
  ]

unfoldable pub plan_raze_package_updates :
    RazeVersionManifest
    → Bool
    → RazeVersionManifest
    → RazeReleaseInfo
    → Exec (List RazePackageUpdate) (Unit {0})
unfolding plan_loop
plan_raze_package_updates remote_manifest has_local_manifest local_manifest release_info updates =
    plan_loop has_local_manifest local_manifest release_info remote_manifest.packages []

-- ===== src/Raze/Planning.antt =====
-- `plan_raze_package_updates` of src/raze_update.cpp as a whole.
use stmanager.Prelude.{Bool, true, false, some, List, [], ◌∷◌, ◌≡◌, ◌↔◌, inl, refl, subst, sym}
use stmanager.Status.{ok}
use stmanager.Raze.Types.{
  TextMap, lookup, RazeReleaseInfo, RazePackageInfo, RazeVersionManifest, RazePackageUpdate,
}
use stmanager.Raze.Plan.{plan_raze_package_updates}
use stmanager.Raze.PlanLaws.{
  EachPlanned, EachCovered, plan_loop-Appended, planned-covered, plan_loop-covered,
}

module _ (remote : RazeVersionManifest) (has_local : Bool) (local_manifest : RazeVersionManifest)
    (release : RazeReleaseInfo) (updates : List RazePackageUpdate) where
  -- A plan that succeeds has one update for each package of the remote manifest, in their order and
  -- whatever the list held before; an update is to be downloaded exactly if the package is not
  -- installed with the same hash, in letters of either case, and has then the URL of the release's
  -- asset for its file.
  pub plan_raze_package_updates-EachPlanned :
      (plan_raze_package_updates remote has_local local_manifest release updates).0 ≡ ok tt
      → EachPlanned has_local local_manifest release remote.packages
          (plan_raze_package_updates remote has_local local_manifest release updates).1
  unfolding plan_raze_package_updates
  plan_raze_package_updates-EachPlanned h =
      let run = plan_loop-Appended has_local local_manifest release remote.packages [] h in
      subst (EachPlanned has_local local_manifest release remote.packages) (sym run.appended)
        run.planned

  -- The plan succeeds exactly if each package of the remote manifest is installed with the same
  -- hash already or the release has an asset for its file.
  pub plan_raze_package_updates-covered :
      ((plan_raze_package_updates remote has_local local_manifest release updates).0 ≡ ok tt)
      ↔ EachCovered has_local local_manifest release remote.packages
  unfolding plan_raze_package_updates
  plan_raze_package_updates-covered = (
    (λ h.
        let run = plan_loop-Appended has_local local_manifest release remote.packages [] h in
        planned-covered has_local local_manifest release remote.packages run.more run.planned),
    plan_loop-covered has_local local_manifest release remote.packages [],
  )

-- Each package is found under its name.
abbrev pub IsKeyed : TextMap RazePackageInfo → TextMap RazePackageInfo → Type 0
IsKeyed packages [] = Unit
IsKeyed packages ((name, info) ∷ rest) =
    (lookup info.name packages ≡ some info) × IsKeyed packages rest

-- No update is to be downloaded.
abbrev pub NothingToDo : List RazePackageUpdate → Type 0
NothingToDo [] = Unit
NothingToDo (update ∷ updates) = (update.needs_download ≡ false) × NothingToDo updates

module _ (manifest : RazeVersionManifest) (release : RazeReleaseInfo) where
  keyed-covered :
      (packages : TextMap RazePackageInfo)
      → IsKeyed manifest.packages packages
      → EachCovered true manifest release packages
  keyed-covered [] k = tt
  keyed-covered ((name, info) ∷ rest) (k, ks) = (
    inl (record { local_there = refl; old = info; found = k; same_hash = refl }),
    keyed-covered rest ks,
  )

  keyed-NothingToDo :
      (packages : TextMap RazePackageInfo) (updates : List RazePackageUpdate)
      → IsKeyed manifest.packages packages
      → EachPlanned true manifest release packages updates
      → NothingToDo updates
  keyed-NothingToDo [] [] k p = tt
  keyed-NothingToDo [] (update ∷ updates) k p = absurd p
  keyed-NothingToDo ((name, info) ∷ rest) [] k p = absurd p
  keyed-NothingToDo ((name, info) ∷ rest) (update ∷ updates) (k, ks) (p, ps) = (
    p.current.1 (record { local_there = refl; old = info; found = k; same_hash = refl }),
    keyed-NothingToDo rest updates ks ps,
  )

  -- Once a manifest whose packages stand under their names is installed, planning the same manifest
  -- again succeeds and downloads nothing, whatever assets the release has.
  pub plan_raze_package_updates-idempotent :
      (updates : List RazePackageUpdate)
      → IsKeyed manifest.packages manifest.packages
      → ((plan_raze_package_updates manifest true manifest release updates).0 ≡ ok tt)
        × NothingToDo (plan_raze_package_updates manifest true manifest release updates).1
  plan_raze_package_updates-idempotent updates keyed =
      let succeeds =
        (plan_raze_package_updates-covered manifest true manifest release updates).1
          (keyed-covered manifest.packages keyed) in
      (
        succeeds,
        keyed-NothingToDo manifest.packages _ keyed
            (plan_raze_package_updates-EachPlanned manifest true manifest release updates succeeds),
      )

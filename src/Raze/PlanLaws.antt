-- ===== src/Raze/PlanLaws.antt =====
-- What `plan_raze_package_updates` of src/raze_update.cpp plans, and when it fails.
use stmanager.Prelude.{
  Text, Bool, true, false, text_eq_sound, text_eq_refl, Option, none, some, List, [], ◌∷◌, ◌++◌,
  ◌≡◌, ◌↔◌, ◌⊎◌, inl, inr, refl, sym, ap, ◌∙◌, arith, append-nil, append_assoc, Bool-cases, subst,
}
use stmanager.Status.{Result, ok, err, looping, threw}
use stmanager.Raze.Types.{
  TextMap, lookup, to_lower_ascii, RazeReleaseInfo, RazePackageInfo, RazeVersionManifest,
  RazePackageUpdate,
}
use stmanager.Raze.Plan.{compare_package, set_url, plan_package, plan_loop}

-- The same package, with the same hash in letters of either case, is installed.
pub record IsCurrent (has_local : Bool) (installed : Option RazePackageInfo)
    (info : RazePackageInfo) : Type 0 where
  pub local_there : has_local ≡ true
  pub old : RazePackageInfo
  pub found : installed ≡ some old
  pub same_hash : to_lower_ascii old.hash ≡ to_lower_ascii info.hash

compare_package-IsCurrent :
    (info : RazePackageInfo) (has_local : Bool) (installed : Option RazePackageInfo)
    → ((compare_package info has_local installed).needs_download ≡ false)
      ↔ IsCurrent has_local installed info
unfolding compare_package
compare_package-IsCurrent info false installed = (λ h. cc, λ c. sym c.local_there)
compare_package-IsCurrent info true none = (λ h. cc, λ c. absurd (none_found c.found))
  where
    none_found : {old : RazePackageInfo} → none ≡ some old → ⊥
    none_found e = cc
compare_package-IsCurrent info true (some old) = (
  (λ h. record {
    local_there = refl;
    old = old;
    found = refl;
    same_hash = text_eq_sound _ _ (ground arith);
  }),
  (λ c.
      rw
        (
          ap to_lower_ascii (ap (λ (i : RazePackageInfo). i.hash) (same c.found)),
          c.same_hash,
          text_eq_refl (to_lower_ascii info.hash),
        )
        refl),
)
  where
    same : {next : RazePackageInfo} → some old ≡ some next → old ≡ next
    same e = cc

compare_package-fields :
    (info : RazePackageInfo) (has_local : Bool) (installed : Option RazePackageInfo)
    → let c = compare_package info has_local installed in
      (c.name ≡ info.name) × (c.file ≡ info.file) × (c.remote_hash ≡ info.hash)
unfolding compare_package
compare_package-fields info false installed = (refl, refl, refl)
compare_package-fields info true none = (refl, refl, refl)
compare_package-fields info true (some old) = (refl, refl, refl)

-- Only the URL differs, and what is to be downloaded has one.
record UrlSet (compared : RazePackageUpdate) (asset : Option Text) (update : RazePackageUpdate)
    : Type 0 where
  kept : update ≡ record compared { download_url = update.download_url }
  found : update.needs_download ≡ true → asset ≡ some update.download_url

set_url-UrlSet :
    (compared : RazePackageUpdate) (asset : Option Text) (update : RazePackageUpdate)
    → set_url compared asset ≡ ok update
    → UrlSet compared asset update
unfolding set_url
set_url-UrlSet compared (some url) update h =
    subst (UrlSet compared (some url)) (the_same h) (record { kept = refl; found = λ n. refl })
  where
    the_same : {u : RazePackageUpdate} → Result.ok u ≡ Result.ok update → u ≡ update
    the_same e = cc
set_url-UrlSet compared none update h = elim (Bool-cases compared.needs_download) [
  | inl n ↦ absurd (ground arith)
  | inr n ↦
      subst (UrlSet compared none) (the_same n)
        (record { kept = refl; found = λ m. absurd (ground arith) })
]
  where
    the_same : compared.needs_download ≡ false → compared ≡ update
    the_same n = ground arith

module _ (has_local : Bool) (local_manifest : RazeVersionManifest) (release : RazeReleaseInfo) where
  abbrev pub Current : RazePackageInfo → Type 0
  Current info = IsCurrent has_local (lookup info.name local_manifest.packages) info

  -- The update belongs to the package, is to be downloaded exactly if the package is not current,
  -- and has then the URL of the release's asset.
  pub record Planned (info : RazePackageInfo) (update : RazePackageUpdate) : Type 0 where
    pub same_name : update.name ≡ info.name
    pub same_file : update.file ≡ info.file
    pub same_hash : update.remote_hash ≡ info.hash
    pub current : (update.needs_download ≡ false) ↔ Current info
    pub url :
        update.needs_download ≡ true
        → lookup info.file release.asset_download_urls ≡ some update.download_url

  -- There is an update for each package, in the order of the packages.
  abbrev pub EachPlanned : TextMap RazePackageInfo → List RazePackageUpdate → Type 0
  EachPlanned [] [] = Unit
  EachPlanned [] (update ∷ updates) = ⊥
  EachPlanned ((name, info) ∷ rest) [] = ⊥
  EachPlanned ((name, info) ∷ rest) (update ∷ updates) =
      Planned info update × EachPlanned rest updates

  plan_package-Planned :
      (info : RazePackageInfo) (update : RazePackageUpdate)
      → plan_package has_local local_manifest release info ≡ ok update
      → Planned info update
  unfolding plan_package
  plan_package-Planned info update h = record {
    same_name = ap (λ (u : RazePackageUpdate). u.name) set.kept ∙ fields.0;
    same_file = ap (λ (u : RazePackageUpdate). u.file) set.kept ∙ fields.1;
    same_hash = ap (λ (u : RazePackageUpdate). u.remote_hash) set.kept ∙ fields.2;
    current =
        subst (λ (b : Bool). (b ≡ false) ↔ Current info)
          (sym (ap (λ (u : RazePackageUpdate). u.needs_download) set.kept))
          (compare_package-IsCurrent info has_local (lookup info.name local_manifest.packages));
    url = set.found;
  }
    where
      set :
          UrlSet
            (compare_package info has_local (lookup info.name local_manifest.packages))
            (lookup info.file release.asset_download_urls)
            update
      set = set_url-UrlSet _ _ update h

      fields :
          let c = compare_package info has_local (lookup info.name local_manifest.packages) in
          (c.name ≡ info.name) × (c.file ≡ info.file) × (c.remote_hash ≡ info.hash)
      fields = compare_package-fields info has_local (lookup info.name local_manifest.packages)

  -- What the loop appends to the updates, if it succeeds.
  pub record Appended (packages : TextMap RazePackageInfo) (updates : List RazePackageUpdate)
      (run : Result (Unit {0}) × List RazePackageUpdate) : Type 0 where
    pub more : List RazePackageUpdate
    pub appended : run.1 ≡ updates ++ more
    pub planned : EachPlanned packages more

  pub plan_loop-Appended :
      (packages : TextMap RazePackageInfo) (updates : List RazePackageUpdate)
      → (plan_loop has_local local_manifest release packages updates).0 ≡ ok tt
      → Appended packages updates (plan_loop has_local local_manifest release packages updates)
  unfolding plan_loop
  plan_loop-Appended [] updates h = record {
    more = [];
    appended = sym (append-nil updates);
    planned = tt;
  }
  plan_loop-Appended ((name, info) ∷ rest) updates h =
      go (plan_loop-Appended rest) (plan_package has_local local_manifest release info) refl
    where
      go :
          ((us : List RazePackageUpdate)
            → (plan_loop has_local local_manifest release rest us).0 ≡ ok tt
            → Appended rest us (plan_loop has_local local_manifest release rest us))
          → (r : Result RazePackageUpdate) → plan_package has_local local_manifest release info ≡ r
          → Appended
              ((name, info) ∷ rest)
              updates
              (plan_loop has_local local_manifest release ((name, info) ∷ rest) updates)
      go again (ok update) e =
          let later = again (updates ++ update ∷ []) (rw (e, plan_loop) at h) in
          rw (e, plan_loop)
            (record {
              more = update ∷ later.more;
              appended = later.appended ∙ append_assoc updates (update ∷ []) later.more;
              planned = (plan_package-Planned info update e, later.planned);
            })
      go again (err e') e = absurd (ground arith)
      go again looping e = absurd (ground arith)
      go again (threw what) e = absurd (ground arith)

  -- A package that is current, or that the release has a file for.
  abbrev pub EachCovered : TextMap RazePackageInfo → Type 0
  EachCovered [] = Unit
  EachCovered ((name, info) ∷ rest) =
      (Current info ⊎ ((url : Text) × (lookup info.file release.asset_download_urls ≡ some url)))
      × EachCovered rest

  pub planned-covered :
      (packages : TextMap RazePackageInfo) (updates : List RazePackageUpdate)
      → EachPlanned packages updates
      → EachCovered packages
  planned-covered [] updates p = tt
  planned-covered ((name, info) ∷ rest) [] p = absurd p
  planned-covered ((name, info) ∷ rest) (update ∷ updates) (p, ps) = (
    elim (Bool-cases update.needs_download) [
      | inl e ↦ inr (update.download_url, p.url e)
      | inr e ↦ inl (p.current.0 e)
    ],
    planned-covered rest updates ps,
  )

  plan_package-covered :
      (info : RazePackageInfo)
      → (Current info ⊎ ((url : Text) × (lookup info.file release.asset_download_urls ≡ some url)))
      → (update : RazePackageUpdate) × (plan_package has_local local_manifest release info
          ≡ ok update)
  unfolding plan_package set_url
  plan_package-covered info (inr (url, e)) = (
    record (compare_package info has_local (lookup info.name local_manifest.packages)) {
      download_url = url;
    },
    rw e refl,
  )
  plan_package-covered info (inl c) =
      go (lookup info.file release.asset_download_urls)
        ((compare_package-IsCurrent info has_local (lookup info.name local_manifest.packages)).1 c)
    where
      go :
          (asset : Option Text)
          → (compare_package info has_local
              (lookup info.name local_manifest.packages)).needs_download
            ≡ false
          → (update : RazePackageUpdate) × (set_url
                (compare_package info has_local (lookup info.name local_manifest.packages))
                asset
              ≡ ok update)
      go none n =
          (compare_package info has_local (lookup info.name local_manifest.packages), rw n refl)
      go (some url) n = (_, refl)

  pub plan_loop-covered :
      (packages : TextMap RazePackageInfo) (updates : List RazePackageUpdate)
      → EachCovered packages
      → (plan_loop has_local local_manifest release packages updates).0 ≡ ok tt
  unfolding plan_loop
  plan_loop-covered [] updates c = refl
  plan_loop-covered ((name, info) ∷ rest) updates (c, cs) =
      let (update, e) = plan_package-covered info c in
      rw (e, plan_loop) (plan_loop-covered rest (updates ++ update ∷ []) cs)

-- ===== src/Archive/Installed.antt =====
-- What a restoration has made once the former directories are aside.
use stmanager.Prelude.{Text, codes, ◌++◌, Bool, true, false, ◌≡◌, ◌≢◌, refl, ap, ◌∙◌, Option}
use stmanager.Status.{Status, Result, ok, err, fail, io_error}
use stmanager.Client.Branches.{returns_status, settle-holds}
use stmanager.Archive.Targets.{
  Tree, paths_of, rollback_restore_targets, restore_git_manifest, undone, install_manifest,
  install_extensions, install_data,
}
use stmanager.Archive.Places.{
  Place, old_data, old_extensions, backup_data, backup_extensions, staged_data, staged_extensions,
  manifest, staged_manifest, IsAtomic, path_of,
}
use stmanager.Archive.Rollback.{Owed, Same, rollback-Owed}
use stmanager.Archive.Survived.{Survives, rollback-Survives}
use stmanager.Archive.Kept.{Owed-Keeps, Owed-installed, restore_git_manifest-Keeps}

module _ (t : Tree) (stage_root destination_root : Text)
    (h : IsAtomic t stage_root destination_root) where
  abbrev Keeps : Place → t.State → t.State → Type 0
  Keeps = Same t stage_root destination_root h

  abbrev HadOwed : Bool → Bool → Place → Place → t.State → Option h.Content → Type 0
  HadOwed = Owed t stage_root destination_root h

  abbrev place : Place → Text
  place = path_of t stage_root destination_root

  -- What a restoration has made of the data and the extensions that were there: both are as they
  -- were, and it reports an error; both are replaced, and it reports success; or it reports an error
  -- and that the rollback failed too. Then its last call was that rollback, for what was there at
  -- the start, from a state from which all that was there could be brought back; and each of the
  -- two still stands at its place or at its backup. The last case is one without a status.
  pub data Replacement (s : t.State) (r : Result (Unit {0})) (s' : t.State) : Type 0 where
    kept : r ≢ ok tt → Keeps old_data s s' → Keeps old_extensions s s' → Replacement s r s'
    replaced :
        r ≡ ok tt
        → h.slot s' old_data ≡ h.slot s staged_data
        → h.slot s' old_extensions ≡ h.slot s staged_extensions
        → Replacement s r s'
    not_rolled_back :
        (installed_data installed_extensions : Bool) (failure rollback_failure : Status)
        (u : t.State)
        → HadOwed
            (t.exists (place old_data) s)
            installed_data
            old_data
            backup_data
            u
            (h.slot s old_data)
        → HadOwed
            (t.exists (place old_extensions) s)
            installed_extensions
            old_extensions
            backup_extensions
            u
            (h.slot s old_extensions)
        → rollback_restore_targets t
            (paths_of t stage_root destination_root)
            (t.exists (place old_data) s)
            (t.exists (place old_extensions) s)
            installed_data
            installed_extensions
            u
          ≡ (err rollback_failure, s')
        → r
          ≡ fail io_error
              (failure.message ++ (codes "; rollback failed: " ++ rollback_failure.message))
        → Survives t stage_root destination_root h old_data backup_data (h.slot s old_data) s'
        → Survives t stage_root destination_root h old_extensions backup_extensions
            (h.slot s old_extensions)
            s'
        → Replacement s r s'
    unfinished : returns_status r ≡ false → Replacement s r s'

  module _ (s : t.State) where
    abbrev had_data : Bool
    had_data = t.exists (place old_data) s

    abbrev had_extensions : Bool
    had_extensions = t.exists (place old_extensions) s

    abbrev pub Done : Result (Unit {0}) × t.State → Type 0
    Done x = Replacement s x.0 x.1

    pub undone-Done :
        (installed_data installed_extensions : Bool) (e : Status) (u : t.State)
        → HadOwed had_data installed_data old_data backup_data u (h.slot s old_data)
        → HadOwed had_extensions installed_extensions old_extensions backup_extensions u
            (h.slot s old_extensions)
        → Done (
            undone t
              (rollback_restore_targets t
                (paths_of t stage_root destination_root)
                had_data
                had_extensions
                installed_data
                installed_extensions)
              e
              u)
    unfolding undone
    undone-Done installed_data installed_extensions e u owed_data owed_extensions =
        let x =
          rollback_restore_targets t (paths_of t stage_root destination_root) had_data
            had_extensions installed_data installed_extensions u in
        settle-holds Done x.0 _ _ x.1 (unfinished refl) (λ w. unfinished refl)
          (λ f g.
            let (safe_data, safe_extensions) =
              rollback-Survives t stage_root destination_root h had_data had_extensions
                installed_data installed_extensions u (h.slot s old_data) (h.slot s old_extensions)
                owed_data owed_extensions (ap returns_status g) in
            not_rolled_back installed_data installed_extensions e f u owed_data owed_extensions
              (ap (λ r. (r, x.1)) g) refl safe_data safe_extensions)
          (λ a g.
            let (k, l) =
              rollback-Owed t stage_root destination_root h had_data had_extensions installed_data
                installed_extensions u (h.slot s old_data) (h.slot s old_extensions) owed_data
                owed_extensions g in
            kept (λ o. cc) k l)

    install_manifest-Done :
        (u : t.State)
        → HadOwed had_data true old_data backup_data u (h.slot s old_data)
        → HadOwed had_extensions true old_extensions backup_extensions u (h.slot s old_extensions)
        → h.slot u old_data ≡ h.slot s staged_data
        → h.slot u old_extensions ≡ h.slot s staged_extensions
        → Done (
            install_manifest t stage_root destination_root
              (paths_of t stage_root destination_root)
              had_data
              had_extensions
              u)
    unfolding install_manifest
    install_manifest-Done u owed_data owed_extensions new_data new_extensions =
        let x = restore_git_manifest t stage_root destination_root u in
        settle-holds Done x.0 _ _ x.1 (unfinished refl) (λ w. unfinished refl)
          (λ e f.
            let k = λ (o : Place) (n : o ≢ manifest) (m : o ≢ staged_manifest).
              restore_git_manifest-Keeps t stage_root destination_root h o u n m
                (ap returns_status f) in
            undone-Done true true e x.1
              (Owed-Keeps x.1 (k old_data (λ y. cc) (λ y. cc)) (k backup_data (λ y. cc) (λ y. cc))
                owed_data)
              (Owed-Keeps x.1 (k old_extensions (λ y. cc) (λ y. cc))
                (k backup_extensions (λ y. cc) (λ y. cc)) owed_extensions))
          (λ a f.
            let k = λ (o : Place) (n : o ≢ manifest) (m : o ≢ staged_manifest).
              restore_git_manifest-Keeps t stage_root destination_root h o u n m
                (ap returns_status f) in
            replaced refl (k old_data (λ y. cc) (λ y. cc) ∙ new_data)
              (k old_extensions (λ y. cc) (λ y. cc) ∙ new_extensions))

    install_extensions-Done :
        (u : t.State)
        → HadOwed had_data true old_data backup_data u (h.slot s old_data)
        → HadOwed had_extensions false old_extensions backup_extensions u (h.slot s old_extensions)
        → h.slot u old_data ≡ h.slot s staged_data
        → h.slot u staged_extensions ≡ h.slot s staged_extensions
        → Done (
            install_extensions t stage_root destination_root
              (paths_of t stage_root destination_root)
              had_data
              had_extensions
              u)
    unfolding install_extensions
    install_extensions-Done u owed_data owed_extensions new_data staged =
        let x = t.move_or_copy (place staged_extensions) (place old_extensions) u in
        settle-holds Done x.0 _ _ x.1 (unfinished refl) (λ w. unfinished refl)
          (λ e f.
            let k = h.move-failed staged_extensions old_extensions u e f in
            undone-Done true false e x.1 (Owed-Keeps x.1 (k old_data) (k backup_data) owed_data)
              (Owed-Keeps x.1 (k old_extensions) (k backup_extensions) owed_extensions))
          (λ a f.
            let (free, to, left, k) = h.move-ok staged_extensions old_extensions u (λ y. cc) f in
            install_manifest-Done x.1
              (Owed-Keeps x.1 (k old_data (λ y. cc) (λ y. cc)) (k backup_data (λ y. cc) (λ y. cc))
                owed_data)
              (Owed-installed x.1 free (k backup_extensions (λ y. cc) (λ y. cc)) owed_extensions)
              (k old_data (λ y. cc) (λ y. cc) ∙ new_data) (to ∙ staged))

    pub install_data-Done :
        (u : t.State)
        → HadOwed had_data false old_data backup_data u (h.slot s old_data)
        → HadOwed had_extensions false old_extensions backup_extensions u (h.slot s old_extensions)
        → h.slot u staged_data ≡ h.slot s staged_data
        → h.slot u staged_extensions ≡ h.slot s staged_extensions
        → Done (
            install_data t stage_root destination_root
              (paths_of t stage_root destination_root)
              had_data
              had_extensions
              u)
    unfolding install_data
    install_data-Done u owed_data owed_extensions staged staged' =
        let x = t.move_or_copy (place staged_data) (place old_data) u in
        settle-holds Done x.0 _ _ x.1 (unfinished refl) (λ w. unfinished refl)
          (λ e f.
            let k = h.move-failed staged_data old_data u e f in
            undone-Done false false e x.1 (Owed-Keeps x.1 (k old_data) (k backup_data) owed_data)
              (Owed-Keeps x.1 (k old_extensions) (k backup_extensions) owed_extensions))
          (λ a f.
            let (free, to, left, k) = h.move-ok staged_data old_data u (λ y. cc) f in
            install_extensions-Done x.1
              (Owed-installed x.1 free (k backup_data (λ y. cc) (λ y. cc)) owed_data)
              (Owed-Keeps x.1 (k old_extensions (λ y. cc) (λ y. cc))
                (k backup_extensions (λ y. cc) (λ y. cc)) owed_extensions)
              (to ∙ staged) (k staged_extensions (λ y. cc) (λ y. cc) ∙ staged'))

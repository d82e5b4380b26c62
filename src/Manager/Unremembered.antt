-- ===== src/Manager/Unremembered.antt =====
-- What becomes of a sync with a device that is not to be remembered.
use stmanager.Prelude.{Bool, true, false, is_empty, not, codes, ◌≡◌, ◌≢◌, sym, ap, ◌∙◌, ◌||◌}
use stmanager.Prelude.Int.{is_positive}
use stmanager.Status.{Result, ok}
use stmanager.Json.{JsonLibrary}
use stmanager.PathSafety.Disk.{Disk}
use stmanager.TrustedDevices.Store.{TrustStore}
use stmanager.DataManager.{Archives}
use stmanager.Client.Pair.{DeviceInfo, Transport, make_staged_error, pair_device}
use stmanager.Client.Sync.{pull_from_device}
use stmanager.Client.Grants.{PairOutcome, pair_device-PairOutcome}
use stmanager.Client.Branches.{settle-holds, lift-holds, choice-holds, done_choice-holds}
use stmanager.Client.Pulls.{PullOutcome, untouched, restored, pull_from_device-PullOutcome}
use stmanager.Manager.State.{Manager, ensure_initialized}
use stmanager.Manager.Targets.{staged}
use stmanager.Manager.PairSync.{
  PairSyncOptions, PairSyncResult, is_connectable_host, sync_setup, pull_step, pair_and_pull,
  pair_sync,
}

module _ (lib : JsonLibrary) (net : Transport) (store : TrustStore) {os : Disk} (ar : Archives os)
    (m : Manager) (options : PairSyncOptions) (device_info : DeviceInfo) where
  abbrev Fails : Result PairSyncResult × (net.Link × store.State × os.State) → Type 0
  Fails x = (result : PairSyncResult) → x.0 ≢ ok result

  -- A pull from a device that the store, loaded again, does not trust does not succeed.
  pull_step-Fails :
      (paired_this_time : Bool) (l : net.Link) (t : store.State) (d : os.State)
      → store.is_trusted (store.load t).1 device_info.device_id ≡ false
      → Fails (pull_step lib net store ar m options device_info paired_this_time (l, t, d))
  unfolding pull_step
  pull_step-Fails paired_this_time l t d distrusted =
      let setup = sync_setup lib net store ar m options in
      let x =
        pull_from_device lib net store setup ar m.data_manager device_info options.sync_options
          (l, t, d) in
      settle-holds Fails x.0 _ _ x.1 (λ r e. cc) (λ w r e. cc) (λ e f r g. cc)
        (λ a f. absurd (
          not_pulled
            (pull_from_device-PullOutcome lib net store setup device_info ar m.data_manager
              options.sync_options l t d)
            f))
    where
      not_pulled :
          {r : Result (Unit {0})} {d' : os.State}
          → PullOutcome lib net store
              (sync_setup lib net store ar m options)
              device_info
              ar
              m.data_manager
              options.sync_options
              t
              d
              r
              d'
          → r ≡ ok tt
          → ⊥
      not_pulled (untouched n) e = n e
      not_pulled (restored may link archive received s) e =
          absurd (unlike (sym may.trusted ∙ distrusted))
        where
          unlike : true ≡ false → ⊥
          unlike e = cc

  module _ (forget : options.pairing_options.remember_device ≡ false) (t : store.State)
      (reload : (store.load (store.load t).1).1 ≡ (store.load t).1)
      (distrusted : store.is_trusted (store.load t).1 device_info.device_id ≡ false) where
    twice_loaded :
        store.is_trusted (store.load (store.load (store.load t).1).1).1 device_info.device_id
        ≡ false
    twice_loaded =
        ap (λ (s : store.State). store.is_trusted (store.load s).1 device_info.device_id) reload
        ∙ ap (λ (s : store.State). store.is_trusted s device_info.device_id) reload
        ∙ distrusted

    still_distrusted :
        {l : net.Link} {r : Result (Unit {0})} {u : store.State}
        → PairOutcome lib net store
            (sync_setup lib net store ar m options)
            device_info
            options.pairing_options
            l
            (store.load t).1
            r
            u
        → store.is_trusted (store.load u).1 device_info.device_id ≡ false
    still_distrusted (PairOutcome.kept n) =
        ap (λ (s : store.State). store.is_trusted s device_info.device_id) reload ∙ distrusted
    still_distrusted (PairOutcome.reloaded n) = twice_loaded
    still_distrusted (PairOutcome.not_remembered e accepted forgotten) = twice_loaded
    still_distrusted (PairOutcome.not_saved n accepted remembered) = cc
    still_distrusted (PairOutcome.saved accepted remembered trusts saves) = cc

    -- A sync with a device that the store does not trust yet and that is not to be remembered never
    -- succeeds, even if the other device accepts the pairing: the pull that follows asks the store,
    -- which was not told. The store is one that gives the same when it is loaded again.
    pub pair_sync-unremembered :
        (l : net.Link) (d : os.State) (result : PairSyncResult)
        → (pair_sync lib net store ar m options device_info (l, t, d)).0 ≢ ok result
    unfolding pair_sync pair_and_pull make_staged_error
    pair_sync-unremembered l d =
        lift-holds Fails (staged (codes "manager.pair_sync.init") (ensure_initialized m)) _
          (l, t, d) (λ r e. cc) (λ w r e. cc) (λ f r e. cc)
          (λ a i.
            choice-holds Fails (is_empty device_info.device_id) _ _ (l, t, d) (λ n r e. cc)
              (λ id.
                choice-holds Fails
                  (not (is_connectable_host device_info.host) || not (is_positive device_info.port))
                  _ _ (l, t, d) (λ n r e. cc)
                  (λ n.
                    settle-holds Fails (store.load t).0 _ _ (l, (store.load t).1, d) (λ r e. cc)
                      (λ w r e. cc) (λ e f r g. cc)
                      (λ b g.
                        done_choice-holds Fails
                          (not (store.is_trusted (store.load t).1 device_info.device_id)) _ _
                          (λ y.
                            let x =
                              pair_device lib net store (sync_setup lib net store ar m options)
                                device_info options.pairing_options (l, (store.load t).1) in
                            settle-holds Fails x.0 _ _ (x.1.0, x.1.1, d) (λ r e. cc) (λ w r e. cc)
                              (λ e f r k. cc)
                              (λ c k. pull_step-Fails true x.1.0 x.1.1 d (
                                still_distrusted (
                                  pair_device-PairOutcome lib net store
                                    (sync_setup lib net store ar m options) device_info
                                    options.pairing_options l (store.load t).1))))
                          (λ y r e. cc)))))

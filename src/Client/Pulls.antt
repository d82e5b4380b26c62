-- ===== src/Client/Pulls.antt =====
-- When a sync changes the local data, and that it leaves no connection open.
use stmanager.Prelude.{Text, Bool, true, not, ◌≡◌, ◌≢◌, ap, ◌∙◌}
use stmanager.Status.{Result, ok}
use stmanager.Json.{JsonLibrary}
use stmanager.TrustedDevices.Store.{TrustStore}
use stmanager.PathSafety.Disk.{Disk}
use stmanager.DataManager.{Archives, DataManager, is_valid, restore}
use stmanager.Server.Archive.{double_negated}
use stmanager.Protocol.Messages.{
  SyncDirection, pull, build_auth_request_message, parse_auth_response_message,
}
use stmanager.Client.Branches.{settle-holds, lift-holds, choice-holds, done_choice-holds}
use stmanager.Client.Pair.{
  DeviceInfo, Transport, LocalSetup, is_configured, with_stage, make_staged_error,
}
use stmanager.Client.Sync.{
  SyncOptions, authorize_trusted, authorize_remote, with_peer, restore_root, restore_archive,
  pull_from_device,
}

module _ (lib : JsonLibrary) (net : Transport) (store : TrustStore) (setup : LocalSetup)
    (device_info : DeviceInfo) where
  -- The client trusts the device, by the store that it has just loaded, and a response of the
  -- device was received that accepts.
  pub record MayPull (t : store.State) : Type 0 where
    pub loaded : (store.load t).0 ≡ ok tt
    pub trusted : store.is_trusted (store.load t).1 device_info.device_id ≡ true
    pub link : net.Link
    pub message : Text
    pub received : (net.receive_message link).0 ≡ ok message
    pub error : Text
    pub accepts : parse_auth_response_message lib message ≡ ok (true, error)

  module _ (direction : SyncDirection) (l : net.Link) (t : store.State) where
    abbrev Granted : Result (Unit {0}) × (net.Link × store.State) → Type 0
    Granted x = x.0 ≡ ok tt → MayPull t

    authorize_trusted-Granted :
        (store.load t).0 ≡ ok tt
        → store.is_trusted (store.load t).1 device_info.device_id ≡ true
        → Granted
            (authorize_trusted lib net store setup device_info direction (l, (store.load t).1))
    unfolding authorize_trusted make_staged_error with_stage
    authorize_trusted-Granted loaded trusted =
        lift-holds Granted
          (build_auth_request_message lib setup.local_device_id setup.local_device_name direction) _
          (l, (store.load t).1) (λ o. cc) (λ w o. cc) (λ e o. cc)
          (λ request b.
            settle-holds Granted (net.send_message request l).0 _ _ (_, (store.load t).1) (λ o. cc)
              (λ w o. cc) (λ e f o. cc)
              (λ a s.
                let l' = (net.send_message request l).1 in
                settle-holds Granted (net.receive_message l').0 _ _ (_, (store.load t).1) (λ o. cc)
                  (λ w o. cc) (λ e f o. cc)
                  (λ message r.
                    settle-holds Granted (parse_auth_response_message lib message) _ _
                      (_, (store.load t).1) (λ o. cc) (λ w o. cc) (λ e f o. cc)
                      (λ answer p.
                        choice-holds Granted (not answer.0) _ _ (_, (store.load t).1) (λ n o. cc)
                          (λ n o. record {
                            loaded = loaded;
                            trusted = trusted;
                            link = l';
                            message = message;
                            received = r;
                            error = answer.1;
                            accepts =
                                p ∙ ap (λ (b : Bool). ok (b, answer.1)) (double_negated answer.0 n);
                          })))))

    authorize_remote-Granted :
        Granted (authorize_remote lib net store setup device_info direction (l, t))
    unfolding authorize_remote make_staged_error
    authorize_remote-Granted =
        choice-holds Granted (is_configured setup) _ _ (l, t)
          (λ c.
            settle-holds Granted (store.load t).0 _ _ (l, (store.load t).1) (λ o. cc) (λ w o. cc)
              (λ e f o. cc)
              (λ a loaded.
                done_choice-holds Granted
                  (not (store.is_trusted (store.load t).1 device_info.device_id)) _ _ (λ n o. cc)
                  (λ n. authorize_trusted-Granted loaded (double_negated _ n))))
          (λ c o. cc)

  module _ {os : Disk} (ar : Archives os) (manager : DataManager) (options : SyncOptions) where
    -- What a pull has made of the local data: nothing, and then it does not report success, or a
    -- restoration of the archive that was received, and then it reports success only if that did.
    pub data PullOutcome (t : store.State) (d : os.State) (r : Result (Unit {0}))
        : os.State → Type 0 where
      untouched : r ≢ ok tt → PullOutcome t d r d
      restored :
          MayPull t
          → (link : net.Link) (archive : Text) → (net.receive_stream link).0 ≡ ok archive
          → (r ≡ ok tt → (restore ar manager archive (restore_root manager options) d).0 ≡ ok tt)
          → PullOutcome t d r (restore ar manager archive (restore_root manager options) d).1

    module _ (l : net.Link) (t : store.State) (d : os.State) where
      abbrev Pulled : Result (Unit {0}) × (net.Link × store.State × os.State) → Type 0
      Pulled x = PullOutcome t d x.0 x.1.2

      restore_archive-Pulled :
          MayPull t
          → (archive : Text) (link : net.Link) (u : store.State)
          → (net.receive_stream link).0 ≡ ok archive
          → Pulled (
              restore_archive lib net store setup ar manager options archive
                ((net.receive_stream link).1, u, d))
      unfolding restore_archive
      restore_archive-Pulled may archive link u received =
          settle-holds Pulled (restore ar manager archive (restore_root manager options) d).0 _ _
            (_, u, _) (restored may link archive received (λ o. cc))
            (λ w. restored may link archive received (λ o. cc))
            (λ e f. restored may link archive received (λ o. cc))
            (λ a e. restored may link archive received (λ o. e))

      -- Whatever the other device sends, a pull leaves the local data as it was and does not report
      -- success, or it restores an archive that it received, and reports success only if the
      -- restoration did; and it restores only if the store was loaded and trusts the device, and a
      -- response was received that accepts the request.
      pub pull_from_device-PullOutcome :
          PullOutcome t d
            (pull_from_device lib net store setup ar manager device_info options (l, t, d)).0
            (pull_from_device lib net store setup ar manager device_info options (l, t, d)).1.2
      unfolding pull_from_device with_peer make_staged_error
      pull_from_device-PullOutcome =
          choice-holds Pulled (not (is_valid manager)) _ _ (l, t, d) (λ e. untouched (λ o. cc))
            (λ v.
              choice-holds Pulled (not setup.has_transport) _ _ (l, t, d) (λ e. untouched (λ o. cc))
                (λ h.
                  settle-holds Pulled (net.connect device_info l).0 _ _ (_, t, d)
                    (untouched (λ o. cc)) (λ w. untouched (λ o. cc)) (λ e f. untouched (λ o. cc))
                    (λ a c.
                      let l' = (net.connect device_info l).1 in
                      settle-holds Pulled
                        (authorize_remote lib net store setup device_info pull (l', t)).0 _ _
                        (_, _, d) (untouched (λ o. cc)) (λ w. untouched (λ o. cc))
                        (λ e f. untouched (λ o. cc))
                        (λ a' g.
                          let s =
                            (authorize_remote lib net store setup device_info pull (l', t)).1 in
                          settle-holds Pulled (net.receive_stream s.0).0 _ _ (_, s.1, d)
                            (untouched (λ o. cc)) (λ w. untouched (λ o. cc))
                            (λ e f. untouched (λ o. cc))
                            (λ archive r.
                              restore_archive-Pulled (authorize_remote-Granted pull l' t g) archive
                                s.0 s.1 r)))))

-- ===== src/Client/Grants.antt =====
-- When pairing makes the client trust a device.
use stmanager.Prelude.{Text, Bool, true, false, not, ◌≡◌, ◌≢◌, refl, ap, ◌∙◌}
use stmanager.Status.{Result, ok}
use stmanager.Json.{JsonLibrary}
use stmanager.TrustedDevices.Store.{TrustStore}
use stmanager.Protocol.Messages.{build_pair_request_message, parse_pair_response_message}
use stmanager.Client.Branches.{settle-holds, lift-holds, choice-holds, done_choice-holds}
use stmanager.Server.Archive.{double_negated}
use stmanager.Client.Pair.{
  make_staged_error, DeviceInfo, PairingOptions, Transport, LocalSetup, is_configured,
  conclude_pairing, pair_connected, pair_device,
}

negated_true : (b : Bool) → not b ≡ true → b ≡ false
negated_true true e = cc
negated_true false e = refl

module _ (lib : JsonLibrary) (net : Transport) (store : TrustStore) (setup : LocalSetup)
    (device_info : DeviceInfo) (options : PairingOptions) where
  -- On the connection of this run, a response of the other device to the request was received that
  -- accepts.
  pub record Accepted (l : net.Link) : Type 0 where
    pub request : Text
    pub message : Text
    pub received :
        (net.receive_message (net.send_message request (net.connect device_info l).1).1).0
        ≡ ok message
    pub error : Text
    pub accepts : parse_pair_response_message lib message ≡ ok (true, error)

  -- The result of pairing and the store after it: the store is as it was or was only loaded again,
  -- and pairing failed; it was only loaded again, the other device has accepted and is not to be
  -- remembered; or it has accepted and is to be remembered. Then either pairing failed and the
  -- store was only told to trust it, or it trusted it and was told to save, and pairing succeeds
  -- only if saving does.
  pub data PairOutcome (l : net.Link) (t : store.State) (r : Result (Unit {0}))
      : store.State → Type 0 where
    kept : r ≢ ok tt → PairOutcome l t r t
    reloaded : r ≢ ok tt → PairOutcome l t r (store.load t).1
    not_remembered :
        r ≡ ok tt
        → Accepted l
        → options.remember_device ≡ false
        → PairOutcome l t r (store.load t).1
    not_saved :
        r ≢ ok tt
        → Accepted l
        → options.remember_device ≡ true
        → PairOutcome l t r (store.trust_device device_info.device_id (store.load t).1).1
    saved :
        Accepted l
        → options.remember_device ≡ true
        → (store.trust_device device_info.device_id (store.load t).1).0 ≡ ok tt
        → (r ≡ ok tt
            → (store.save (store.trust_device device_info.device_id (store.load t).1).1).0 ≡ ok tt)
        → PairOutcome l t r
            (store.save (store.trust_device device_info.device_id (store.load t).1).1).1

  module _ (l : net.Link) (t : store.State) where
    abbrev Outcome : Result (Unit {0}) × (net.Link × store.State) → Type 0
    Outcome x = PairOutcome l t x.0 x.1.1

    conclude_pairing-Outcome :
        (answer : Bool × Text) (m : net.Link)
        → (answer.0 ≡ true → Accepted l)
        → Outcome
            (conclude_pairing lib net store setup device_info options answer (m, (store.load t).1))
    unfolding conclude_pairing make_staged_error
    conclude_pairing-Outcome answer m accepted =
        let trust = store.trust_device device_info.device_id (store.load t).1 in
        done_choice-holds Outcome (not answer.0) _ _ (λ n. reloaded (λ e. cc))
          (λ y.
            let yes = accepted (double_negated answer.0 y) in
            done_choice-holds Outcome (not options.remember_device) _ _
              (λ f. not_remembered refl yes (negated_true options.remember_device f))
              (λ f.
                let remembered = double_negated options.remember_device f in
                settle-holds Outcome trust.0 _ _ (net.disconnect m, trust.1)
                  (not_saved (λ o. cc) yes remembered) (λ w. not_saved (λ o. cc) yes remembered)
                  (λ e g. not_saved (λ o. cc) yes remembered)
                  (λ a g.
                    settle-holds Outcome (store.save trust.1).0 _ _
                      (net.disconnect m, (store.save trust.1).1) (saved yes remembered g (λ o. cc))
                      (λ w. saved yes remembered g (λ o. cc))
                      (λ e k. saved yes remembered g (λ o. cc))
                      (λ b k. saved yes remembered g (λ o. k)))))

    pair_connected-Outcome :
        (request : Text)
        → Outcome (
            pair_connected lib net store setup device_info options request
              ((net.connect device_info l).1, (store.load t).1))
    unfolding pair_connected
    pair_connected-Outcome request =
        let c = (net.connect device_info l).1 in
        settle-holds Outcome (net.send_message request c).0 _ _ (_, (store.load t).1)
          (reloaded (λ o. cc)) (λ w. reloaded (λ o. cc)) (λ e g. reloaded (λ o. cc))
          (λ a s.
            let l' = (net.send_message request c).1 in
            settle-holds Outcome (net.receive_message l').0 _ _ (_, (store.load t).1)
              (reloaded (λ o. cc)) (λ w. reloaded (λ o. cc)) (λ e g. reloaded (λ o. cc))
              (λ message r.
                settle-holds Outcome (parse_pair_response_message lib message) _ _
                  (_, (store.load t).1) (reloaded (λ o. cc)) (λ w. reloaded (λ o. cc))
                  (λ e g. reloaded (λ o. cc))
                  (λ answer p. conclude_pairing-Outcome answer (net.receive_message l').1 (λ y.
                    record {
                      request = request;
                      message = message;
                      received = r;
                      error = answer.1;
                      accepts = p ∙ ap (λ (b : Bool). ok (b, answer.1)) y;
                    }))))

  -- Whatever the other device and the store do: if pairing fails, the client's store is as it was,
  -- or loaded again, or, once the device has accepted and is to be remembered, it was told to trust
  -- the device, or told that and to save. If pairing succeeds, a response that accepts was received
  -- on the connection that was made, and the store was loaded again, and, if the device is to be
  -- remembered, told to trust it and to save, both with success.
  pub pair_device-PairOutcome :
      (l : net.Link) (t : store.State)
      → PairOutcome l t
          (pair_device lib net store setup device_info options (l, t)).0
          (pair_device lib net store setup device_info options (l, t)).1.1
  unfolding pair_device make_staged_error
  pair_device-PairOutcome l t =
      choice-holds (Outcome l t) (is_configured setup) _ _ (l, t)
        (λ c.
          settle-holds (Outcome l t) (store.load t).0 _ _ (l, (store.load t).1) (reloaded (λ o. cc))
            (λ w. reloaded (λ o. cc)) (λ e g. reloaded (λ o. cc))
            (λ a e.
              settle-holds (Outcome l t) (net.connect device_info l).0 _ _
                ((net.connect device_info l).1, (store.load t).1) (reloaded (λ o. cc))
                (λ w. reloaded (λ o. cc)) (λ e' g. reloaded (λ o. cc))
                (λ a' e'.
                  lift-holds (Outcome l t)
                    (build_pair_request_message lib setup.local_device_id setup.local_device_name
                      options.pairing_code options.remember_device)
                    _ ((net.connect device_info l).1, (store.load t).1) (reloaded (λ o. cc))
                    (λ w. reloaded (λ o. cc)) (λ f. reloaded (λ o. cc))
                    (λ request b. pair_connected-Outcome l t request))))
        (λ c. kept (λ o. cc))

-- ===== src/Server/Trust.antt =====
-- What a client can do to the store of the trusted devices, whatever it sends.
use stmanager.Prelude.{
  ℕ, Text, Bool, true, false, codes, is_empty, text_eq, text_eq_ne, [], ◌≡◌, ◌≢◌, ◌⊎◌, inl, inr,
  refl, arith, Bool-cases, if◌then◌else◌, some, Option, none,
}
use stmanager.Status.{
  Status, Result, ok, err, looping, threw, Exec, lift, throw, ◌>>=◌, sync_protocol_error,
}
use stmanager.Json.{Json, JsonLibrary, value_string, value_boolean, parsed, is_object}
use stmanager.Wire.Socket.{Socket}
use stmanager.Wire.Frames.{receive_framed_string}
use stmanager.TrustedDevices.Store.{TrustStore}
use stmanager.Server.Requests.{
  ServerSetup, settle, pair_checked, handle_pair_request, send_backup, auth_loaded, auth_checked,
  handle_auth_request, handle_request, serve_client, handle_client_connection,
}

module _ {S B : Type 0} (P : S → Type 0) where
  -- Both branches of a test have it, so the test has it.
  pub if-keeps :
      (b : Bool) (m n : Exec S B) (s : S)
      → (b ≡ true → P (m s).1)
      → (b ≡ false → P (n s).1)
      → P ((if b then m else n) s).1
  if-keeps true m n s h g = h refl
  if-keeps false m n s h g = g refl

  pub if_done-keeps :
      (b : Bool) (x y : Result B × S)
      → (b ≡ true → P x.1)
      → (b ≡ false → P y.1)
      → P (if b then x else y).1
  if_done-keeps true x y h g = h refl
  if_done-keeps false x y h g = g refl

module _ {S A B : Type 0} (P : S → Type 0) where
  -- What the first state has and what every state after a success has, the last state has.
  pub lift-keeps :
      (r : Result A) (f : A → Exec S B) (s : S)
      → P s
      → ((a : A) → r ≡ ok a → P (f a s).1)
      → P ((lift r >>= f) s).1
  lift-keeps (ok a) f s p h = h a refl
  lift-keeps (err e) f s p h = p
  lift-keeps looping f s p h = p
  lift-keeps (threw what) f s p h = p

  pub settle-keeps :
      (r : Result A) (failed : Status → Exec S B) (done : A → Exec S B) (s : S)
      → P s
      → ((e : Status) → P (failed e s).1)
      → ((a : A) → r ≡ ok a → P (done a s).1)
      → P (settle r failed done s).1
  settle-keeps (ok a) failed done s p q h = h a refl
  settle-keeps (err e) failed done s p q h = q e
  settle-keeps looping failed done s p q h = p
  settle-keeps (threw what) failed done s p q h = p

module _ (lib : JsonLibrary) (k : Socket) (fuel : ℕ) (store : TrustStore)
    (setup : ServerSetup) where
  pair_checked-wrong_code :
      (device code : Text) (remember : Bool) (s : k.Conn × store.State)
      → setup.pairing_code ≢ []
      → code ≢ setup.pairing_code
      → (pair_checked lib k fuel store setup device code remember s).1.1 ≡ s.1
  unfolding pair_checked
  pair_checked-wrong_code device code remember s required wrong =
      ground (arith, text_eq_ne code setup.pairing_code)

  -- A pairing request with another code than the one the server asks for leaves the store of the
  -- trusted devices as it was: nothing is loaded, trusted or saved.
  pub handle_pair_request-wrong_code :
      (request_json : Json) (s : k.Conn × store.State)
      → setup.pairing_code ≢ []
      → value_string lib (codes "pairing_code") [] request_json ≢ ok setup.pairing_code
      → (handle_pair_request lib k fuel store setup request_json s).1.1 ≡ s.1
  unfolding handle_pair_request
  handle_pair_request-wrong_code j s required wrong =
      let P : k.Conn × store.State → Type 0 = λ t. t.1 ≡ s.1 in
      lift-keeps P (value_string lib (codes "device_id") [] j) _ s refl (λ device d.
        lift-keeps P (value_string lib (codes "pairing_code") [] j) _ s refl (λ code e.
          lift-keeps P (value_boolean lib (codes "remember_device") true j) _ s refl (λ remember b.
            pair_checked-wrong_code device code remember s required
              (λ same. wrong (rw (e, same) refl)))))

  -- The store after an authorisation request, or after a loading that was tried.
  abbrev pub Reloaded : store.State → store.State → Type 0
  Reloaded t t' = (t' ≡ t) ⊎ (t' ≡ (store.load t).1)

  send_backup-store : (s : k.Conn × store.State) → (send_backup lib k fuel store setup s).1.1 ≡ s.1
  unfolding send_backup
  send_backup-store s =
      settle-keeps (λ (t : k.Conn × store.State). t.1 ≡ s.1) setup.backup _ _ s refl (λ e. refl)
        (λ archive e. ground arith)

  auth_loaded-store :
      (device direction : Text) (s : k.Conn × store.State)
      → (auth_loaded lib k fuel store setup device direction s).1.1 ≡ s.1
  unfolding auth_loaded
  auth_loaded-store device direction s = ground (arith, send_backup-store s)

  auth_checked-Reloaded :
      (device direction : Text) (s : k.Conn × store.State)
      → Reloaded s.1 (auth_checked lib k fuel store setup device direction s).1.1
  unfolding auth_checked
  auth_checked-Reloaded device direction (c, t) = elim (Bool-cases (is_empty device)) [
    | inl e ↦ rw e (inl refl)
    | inr e ↦ rw e (elim (Bool-cases setup.has_store) [
      | inl h ↦ rw h (
          settle-keeps (λ (u : k.Conn × store.State). Reloaded t u.1) (store.load t).0 _ _
            (c, (store.load t).1) (inr refl) (λ e'. inr refl)
            (λ a e'. inr (auth_loaded-store device direction (c, (store.load t).1))))
      | inr h ↦ rw h (inl refl)
    ])
  ]

  handle_auth_request-Reloaded :
      (request_json : Json) (s : k.Conn × store.State)
      → Reloaded s.1 (handle_auth_request lib k fuel store setup request_json s).1.1
  unfolding handle_auth_request
  handle_auth_request-Reloaded j s =
      let P : k.Conn × store.State → Type 0 = λ t. Reloaded s.1 t.1 in
      lift-keeps P (value_string lib (codes "device_id") [] j) _ s (inl refl) (λ device d.
        lift-keeps P (value_string lib (codes "direction") [] j) _ s (inl refl)
          (λ direction e. auth_checked-Reloaded device direction s))

  handle_request-Reloaded :
      (request_json : Json) (message_type : Text) (s : k.Conn × store.State)
      → setup.pairing_code ≢ []
      → value_string lib (codes "pairing_code") [] request_json ≢ ok setup.pairing_code
      → Reloaded s.1 (handle_request lib k fuel store setup request_json message_type s).1.1
  unfolding handle_request
  handle_request-Reloaded j kind s required wrong =
      elim (Bool-cases (text_eq kind (codes "pair_request"))) [
        | inl e ↦ rw e (inl (handle_pair_request-wrong_code j s required wrong))
        | inr e ↦ rw e (elim (Bool-cases (text_eq kind (codes "auth_request"))) [
          | inl h ↦ rw h (handle_auth_request-Reloaded j s)
          | inr h ↦ rw h (inl refl)
        ])
      ]

  -- Where the server asks for a pairing code, a client whose message does not carry it, whatever it
  -- sends instead, changes nothing about the trusted devices: the store is left as it was, or
  -- loaded again from its file.
  pub handle_client_connection-Reloaded :
      (s : k.Conn × store.State)
      → setup.pairing_code ≢ []
      → ((message : Text) (request_json : Json)
          → (receive_framed_string k fuel s.0).0 ≡ ok message
          → lib.parse message ≡ some request_json
          → value_string lib (codes "pairing_code") [] request_json ≢ ok setup.pairing_code)
      → ((handle_client_connection lib k fuel store setup s).1.1 ≡ s.1)
        ⊎ ((handle_client_connection lib k fuel store setup s).1.1 ≡ (store.load s.1).1)
  unfolding handle_client_connection serve_client
  handle_client_connection-Reloaded (c, t) required wrong =
      let P : k.Conn × store.State → Type 0 = λ u. Reloaded t u.1 in
      let (_, c') = receive_framed_string k fuel c in
      lift-keeps P (receive_framed_string k fuel c).0 _ (c', t) (inl refl)
        (λ message m.
          lift-keeps P (parsed lib message (lib.parse message)) _ (c', t) (inl refl)
            (λ j p.
              request_sent j (c', t)
                (wrong message j m (parsed_some message (lib.parse message) j p))))
    where
      parsed_some :
          (message : Text) (o : Option Json) (j : Json) → parsed lib message o ≡ ok j → o ≡ some j
      parsed_some message none j e = cc
      parsed_some message (some v) j e = cc

      request_sent :
          (j : Json) (s : k.Conn × store.State)
          → value_string lib (codes "pairing_code") [] j ≢ ok setup.pairing_code
          → Reloaded s.1
              ((if is_object j
                  then lift (value_string lib (codes "type") [] j)
                    >>= handle_request lib k fuel store setup j
                  else throw sync_protocol_error (codes "Protocol request must be a json object"))
                s).1.1
      request_sent j s without = elim (Bool-cases (is_object j)) [
        | inl e ↦ rw e (
            lift-keeps (λ (u : k.Conn × store.State). Reloaded s.1 u.1)
              (value_string lib (codes "type") [] j) _ s (inl refl)
              (λ kind _. handle_request-Reloaded j kind s required without))
        | inr e ↦ rw e (inl refl)
      ]

-- ===== src/Server/Kept.antt =====
-- What all the clients of a run of the server together can do to the trusted devices.
use stmanager.Prelude.{
  ℕ, Text, is_empty, codes, not, ◌≡◌, ◌≢◌, ◌⊎◌, inl, inr, refl, sym, if-holds, subst, Option, none,
  some, [],
}
use stmanager.Status.{Result, ok, err, looping, threw}
use stmanager.Json.{Json, value_string}
use stmanager.Wire.Socket.{Socket}
use stmanager.Wire.Frames.{receive_framed_string}
use stmanager.TrustedDevices.Store.{TrustStore}
use stmanager.DataManager.{DataManager, is_valid}
use stmanager.Client.Branches.{settle-holds, choice-holds}
use stmanager.Server.Requests.{handle_client_connection}
use stmanager.Server.Trust.{handle_client_connection-Reloaded}
use stmanager.Server.Listen.{Listening, create_listen_socket}
use stmanager.Server.Rounds.{RoundHolds, serve_loop-holds}
use stmanager.Server.Serve.{
  Round, goes_on, breaks, held, fails, ServeSetup, client_setup, client_done, accept_answered,
  select_answered, serve_round, serve_loop, serve_done, serve_started, serve_listening, serve_bound,
  serve_sync_server,
}
use stmanager.Sockets.Calls.{
  Accepted, accepted, not_accepted, Selected, readable, timed_out, select_failed, SocketCalls,
}

-- The store `u` is `t`, but for loading it from its file any number of times.
pub data Reloads (store : TrustStore) (t : store.State) : store.State → Type 0 where
  unchanged : Reloads store t t
  reloaded : {u : store.State} → Reloads store t u → Reloads store t (store.load u).1

module _ {k : Socket} {calls : SocketCalls k} (sv : ServeSetup calls) where
  open sv use {lib, fuel, store, responder, options}

  -- What a client sends first is no request with the pairing code of the server.
  abbrev pub NoCode : k.Conn → Type 0
  NoCode c =
      (message : Text) (request_json : Json)
      → (receive_framed_string k fuel c).0 ≡ ok message
      → lib.parse message ≡ some request_json
      → value_string lib (codes "pairing_code") [] request_json ≢ ok options.pairing_code

  abbrev pub NoCodeAccepted : Accepted k.Conn → Type 0
  NoCodeAccepted (not_accepted errno) = Unit {0}
  NoCodeAccepted (accepted fd c) = NoCode c

  module _ (required : options.pairing_code ≢ [])
      (without : (fd : ℕ) (s : calls.State) → NoCodeAccepted (calls.accept fd s).0)
      (t : store.State) where
    client_done-store :
        (fd : ℕ) (r : Result (Unit {0})) (s : calls.State) (u : store.State)
        → (client_done sv fd r s u).1.1 ≡ u
    client_done-store fd looping s u = refl
    client_done-store fd (ok a) s u = refl
    client_done-store fd (err e) s u = refl
    client_done-store fd (threw what) s u = refl

    -- A store that a client leaves.
    client_Reloads :
        (u v : store.State)
        → Reloads store t u
        → (v ≡ u) ⊎ (v ≡ (store.load u).1)
        → Reloads store t v
    client_Reloads u v r (inl e) = subst (Reloads store t) (sym e) r
    client_Reloads u v r (inr e) = subst (Reloads store t) (sym e) (reloaded r)

    accept_answered-Reloads :
        (answer : Accepted k.Conn) (s : calls.State) (u : store.State)
        → NoCodeAccepted answer
        → Reloads store t u
        → Reloads store t (accept_answered sv answer (s, u)).1.1
    accept_answered-Reloads (not_accepted errno) s u w r = r
    accept_answered-Reloads (accepted fd c) s u w r =
        let setup_now = client_setup sv s in
        let client = handle_client_connection lib k fuel store setup_now (c, u) in
        subst (Reloads store t) (sym (client_done-store fd client.0 s client.1.1)) (
          client_Reloads u client.1.1 r
            (handle_client_connection-Reloaded lib k fuel store setup_now (c, u) required w))

    select_answered-Reloads :
        (listen_fd : ℕ) (answer : Selected) (s : calls.State) (u : store.State)
        → Reloads store t u
        → Reloads store t (select_answered sv listen_fd answer (s, u)).1.1
    select_answered-Reloads listen_fd (select_failed errno) s u r = r
    select_answered-Reloads listen_fd timed_out s u r = r
    select_answered-Reloads listen_fd readable s u r =
        accept_answered-Reloads (calls.accept listen_fd s).0 (calls.accept listen_fd s).1 u
          (without listen_fd s) r

    serve_round-Reloads :
        (listen_fd : ℕ) (s : calls.State) (u : store.State)
        → Reloads store t u
        → Reloads store t (serve_round sv listen_fd (s, u)).1.1
    unfolding serve_round
    serve_round-Reloads listen_fd s u r =
        if-holds (λ (y : Round × (calls.State × store.State)). Reloads store t y.1.1)
          (sv.stop_requested s) _ _ (λ b. r)
          (λ b.
            select_answered-Reloads listen_fd (calls.select_readable listen_fd 500 s).0
              (calls.select_readable listen_fd 500 s).1 u r)

    -- The rule of the loop asks the same of the store however a round ends.
    RoundHolds-store :
        (n : ℕ) (r : Round) (x : calls.State × store.State)
        → Reloads store t x.1
        → RoundHolds sv (λ n y. Reloads store t y.1) (λ y. Reloads store t y.1.1) n (r, x)
    RoundHolds-store n goes_on x h = h
    RoundHolds-store n breaks x h = h
    RoundHolds-store n held x h = h
    RoundHolds-store n (fails f) x h = h

    serve_loop-Reloads :
        (rounds listen_fd : ℕ) (x : calls.State × store.State)
        → Reloads store t x.1
        → Reloads store t (serve_loop sv rounds listen_fd x).1.1
    serve_loop-Reloads rounds listen_fd =
        serve_loop-holds sv (λ n y. Reloads store t y.1) (λ y. Reloads store t y.1.1) listen_fd
          (λ y r. r) (λ n y r. RoundHolds-store n _ _ (serve_round-Reloads listen_fd y.0 y.1 r))
          rounds

    serve_done-store :
        (listen_fd : ℕ) (r : Result (Unit {0})) (x : calls.State × store.State)
        → (serve_done sv listen_fd r x).1.1 ≡ x.1
    serve_done-store listen_fd (ok u) (s, v) = refl
    serve_done-store listen_fd (err e) (s, v) = refl
    serve_done-store listen_fd looping x = refl
    serve_done-store listen_fd (threw what) x = refl

    serve_started-Reloads :
        (rounds : ℕ) (l : Listening) (r : Result (Unit {0})) (s : calls.State)
        → Reloads store t (serve_started sv rounds l r (s, t)).1.1
    serve_started-Reloads rounds l (ok u) s =
        subst (Reloads store t) (sym (serve_done-store l.listen_fd _ _))
          (serve_loop-Reloads rounds l.listen_fd (s, t) unchanged)
    serve_started-Reloads rounds l (err e) s = unchanged
    serve_started-Reloads rounds l looping s = unchanged
    serve_started-Reloads rounds l (threw what) s = unchanged

    -- Where the server asks for a pairing code, clients that do not send it, however many there are
    -- and whatever they send instead, change nothing about the trusted devices in the whole run of
    -- the server: its store is the one of the start, or was only loaded again from its file.
    pub serve_sync_server-Reloads :
        (rounds : ℕ) (data_manager : DataManager) (local_device_id : Text) (s : calls.State)
        (endpoint : Option (Text × ℕ))
        → Reloads store t
            (serve_sync_server sv rounds data_manager local_device_id (s, t, endpoint)).1.1
    unfolding serve_sync_server serve_bound serve_listening
    serve_sync_server-Reloads rounds data_manager local_device_id s endpoint =
        let Q : Result (Unit {0}) × (calls.State × store.State × Option (Text × ℕ)) → Type 0 =
          λ y. Reloads store t y.1.1 in
        let c = create_listen_socket calls options s in
        choice-holds Q (not (is_valid data_manager)) _ _ (s, t, endpoint) (λ b. unchanged)
          (λ b.
            choice-holds Q (is_empty local_device_id) _ _ (s, t, endpoint) (λ d. unchanged)
              (λ d.
                settle-holds Q c.0 _ _ (c.1, t, none) unchanged (λ w. unchanged) (λ f g. unchanged)
                  (λ l g. serve_started-Reloads rounds l _ _)))

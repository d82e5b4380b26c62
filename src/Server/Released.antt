-- ===== src/Server/Released.antt =====
-- That the server closes every socket that it opens, and stops what it started.
use stmanager.Prelude.{
  if◌then◌else◌, ℕ, Text, Bool, true, false, is_empty, Option, none, List, ◌∷◌, not, ◌==◌, ◌≡◌,
  refl, if-holds, ◌∙◌, subst,
}
use stmanager.Status.{Result, ok, err, looping, threw}
use stmanager.Wire.Socket.{Socket}
use stmanager.DataManager.{DataManager, is_valid}
use stmanager.Client.Pair.{DeviceInfo}
use stmanager.Client.Branches.{returns_status, settle-holds, choice-holds}
use stmanager.Server.Requests.{handle_client_connection}
use stmanager.Server.Listen.{Listening, create_listen_socket}
use stmanager.Server.Bound.{Listened, create_listen_socket-Listened}
use stmanager.Server.Rounds.{RoundHolds, serve_loop-holds}
use stmanager.Server.Serve.{
  Responder, Round, ServeSetup, client_setup, client_done, accept_answered, select_answered,
  serve_round, serve_loop, stop_scope, serve_done, serve_started, serve_listening, serve_bound,
  serve_sync_server,
}
use stmanager.FdStream.Buffers.{eintr}
use stmanager.Sockets.Calls.{
  Accepted, accepted, not_accepted, Selected, readable, timed_out, select_failed, SocketCalls,
}
use stmanager.Sockets.Table.{DescriptorTable, with_accepted, close-first}

-- The responder has sockets of its own; the table here is that of the server.
pub record QuietResponder {k : Socket} {calls : SocketCalls k} (table : DescriptorTable calls)
    (responder : Responder calls) : Type 0 where
  pub starting :
      (d : DeviceInfo) (s : calls.State) → table.open_fds (responder.start d s).1 ≡ table.open_fds s
  pub stopping : (s : calls.State) → table.open_fds (responder.stop s).1 ≡ table.open_fds s

module _ {k : Socket} {calls : SocketCalls k} (table : DescriptorTable calls)
    (sv : ServeSetup calls) (quiet : QuietResponder table sv.responder) where
  open sv use {lib, fuel, store, responder, options}

  -- What returns a status leaves the table `l`.
  abbrev Leaves : List ℕ → Result (Unit {0}) × (calls.State × store.State) → Type 0
  Leaves l x = returns_status x.0 ≡ true → table.open_fds x.1.0 ≡ l

  -- The table is `l` after the round, unless a client holds the server.
  abbrev AfterRound : List ℕ → Round × (calls.State × store.State) → Type 0
  AfterRound l = RoundHolds sv (λ n x. table.open_fds x.0 ≡ l) (Leaves l) 0

  client_done-AfterRound :
      (fd : ℕ) (r : Result (Unit {0})) (s : calls.State) (t : store.State) (l : List ℕ)
      → table.open_fds s ≡ fd ∷ l
      → AfterRound l (client_done sv fd r s t)
  client_done-AfterRound fd looping s t l e = λ k. cc
  client_done-AfterRound fd (ok u) s t l e = close-first table fd l s e
  client_done-AfterRound fd (err x) s t l e = close-first table fd l s e
  client_done-AfterRound fd (threw what) s t l e = close-first table fd l s e

  accept_answered-AfterRound :
      (answer : Accepted k.Conn) (s : calls.State) (t : store.State) (l : List ℕ)
      → table.open_fds s ≡ with_accepted answer l
      → AfterRound l (accept_answered sv answer (s, t))
  accept_answered-AfterRound (not_accepted errno) s t l e =
      if-holds (λ r. AfterRound l (r, (s, t))) (sv.stop_requested s) _ _ (λ b k. e) (λ b. e)
  accept_answered-AfterRound (accepted fd c) s t l e =
      let client = handle_client_connection lib k fuel store (client_setup sv s) (c, t) in
      client_done-AfterRound fd client.0 s client.1.1 l e

  select_answered-AfterRound :
      (listen_fd : ℕ) (answer : Selected) (s : calls.State) (t : store.State)
      → AfterRound (table.open_fds s) (select_answered sv listen_fd answer (s, t))
  select_answered-AfterRound listen_fd (select_failed errno) s t =
      if-holds (λ r. AfterRound (table.open_fds s) (r, (s, t))) (errno == eintr) _ _ (λ b. refl)
        (λ b k. refl)
  select_answered-AfterRound listen_fd timed_out s t = refl
  select_answered-AfterRound listen_fd readable s t =
      accept_answered-AfterRound (calls.accept listen_fd s).0 (calls.accept listen_fd s).1 t
        (table.open_fds s) (table.accepting listen_fd s)

  serve_round-AfterRound :
      (listen_fd : ℕ) (s : calls.State) (t : store.State)
      → AfterRound (table.open_fds s) (serve_round sv listen_fd (s, t))
  unfolding serve_round
  serve_round-AfterRound listen_fd s t =
      if-holds (AfterRound (table.open_fds s)) (sv.stop_requested s) _ _ (λ b k. refl)
        (λ b.
          let x = calls.select_readable listen_fd 500 s in
          subst (λ l. AfterRound l (select_answered sv listen_fd x.0 (x.1, t)))
            (table.selecting listen_fd 500 s) (select_answered-AfterRound listen_fd x.0 x.1 t))

  serve_loop-Leaves :
      (rounds listen_fd : ℕ) (x : calls.State × store.State) (l : List ℕ)
      → table.open_fds x.0 ≡ l
      → Leaves l (serve_loop sv rounds listen_fd x)
  serve_loop-Leaves rounds listen_fd x l e =
      serve_loop-holds sv (λ n y. table.open_fds y.0 ≡ l) (Leaves l) listen_fd (λ y i k. cc)
        (λ n y i.
          subst (λ m. AfterRound m (serve_round sv listen_fd y)) i
            (serve_round-AfterRound listen_fd y.0 y.1))
        rounds x e

  stop_scope-kept :
      (b : Bool) (s : calls.State) → table.open_fds (stop_scope sv b s).1 ≡ table.open_fds s
  stop_scope-kept true s = quiet.stopping s
  stop_scope-kept false s = refl

  start_scope-kept :
      (b : Bool) (d : DeviceInfo) (s : calls.State)
      → table.open_fds (if b then responder.start d s else (ok tt, s)).1 ≡ table.open_fds s
  start_scope-kept true d s = quiet.starting d s
  start_scope-kept false d s = refl

  module _ (listen_fd : ℕ) (base : List ℕ) where
    serve_done-Leaves :
        (r : Result (Unit {0})) (s : calls.State) (t : store.State)
        → (returns_status r ≡ true → table.open_fds s ≡ listen_fd ∷ base)
        → Leaves base (serve_done sv listen_fd r (s, t))
    serve_done-Leaves (ok u) s t e k =
        close-first table listen_fd base _ (stop_scope-kept options.advertise s ∙ e refl)
    serve_done-Leaves (err f) s t e k =
        stop_scope-kept options.advertise (calls.close listen_fd s)
        ∙ close-first table listen_fd base s (e refl)
    serve_done-Leaves looping s t e k = cc
    serve_done-Leaves (threw what) s t e k = cc

  serve_started-Leaves :
      (rounds : ℕ) (l : Listening) (r : Result (Unit {0})) (s : calls.State) (t : store.State)
      (base : List ℕ)
      → table.open_fds s ≡ l.listen_fd ∷ base
      → Leaves base (serve_started sv rounds l r (s, t))
  serve_started-Leaves rounds l (ok u) s t base e =
      let x = serve_loop sv rounds l.listen_fd (s, t) in
      serve_done-Leaves l.listen_fd base x.0 x.1.0 x.1.1
        (serve_loop-Leaves rounds l.listen_fd (s, t) (l.listen_fd ∷ base) e)
  serve_started-Leaves rounds l (err f) s t base e = λ k. close-first table l.listen_fd base s e
  serve_started-Leaves rounds l looping s t base e = λ k. cc
  serve_started-Leaves rounds l (threw what) s t base e = λ k. cc

  serve_listening-Leaves :
      (rounds : ℕ) (local_device_id : Text) (l : Listening) (s : calls.State) (t : store.State)
      (base : List ℕ)
      → table.open_fds s ≡ l.listen_fd ∷ base
      → Leaves base (serve_listening sv rounds local_device_id l (s, t))
  unfolding serve_listening
  serve_listening-Leaves rounds local_device_id l s t base e =
      serve_started-Leaves rounds l _ _ t base (start_scope-kept options.advertise _ s ∙ e)

  -- However a call of the server ends that returns a status, it has closed every socket that it
  -- opened, that of each client included: the table of descriptors is what it was before.
  pub serve_sync_server-releases :
      (rounds : ℕ) (data_manager : DataManager) (local_device_id : Text)
      (x : calls.State × store.State × Option (Text × ℕ))
      → returns_status (serve_sync_server sv rounds data_manager local_device_id x).0 ≡ true
      → table.open_fds (serve_sync_server sv rounds data_manager local_device_id x).1.0
        ≡ table.open_fds x.0
  unfolding serve_sync_server serve_bound
  serve_sync_server-releases rounds data_manager local_device_id (s, t, endpoint) =
      let Q : Result (Unit {0}) × (calls.State × store.State × Option (Text × ℕ)) → Type 0 =
        λ y. returns_status y.0 ≡ true → table.open_fds y.1.0 ≡ table.open_fds s in
      choice-holds Q (not (is_valid data_manager)) _ _ (s, t, endpoint) (λ b k. refl)
        (λ b.
          choice-holds Q (is_empty local_device_id) _ _ (s, t, endpoint) (λ d k. refl)
            (λ d.
              let c = create_listen_socket calls options s in
              let h = create_listen_socket-Listened table options (table.open_fds s) s refl in
              settle-holds Q c.0 _ _ (c.1, t, none) (λ k. cc) (λ w k. cc)
                (λ f g k. subst (λ r. Listened table options (table.open_fds s) (r, c.1)) g h)
                (λ l g k.
                  serve_listening-Leaves rounds local_device_id l c.1 t (table.open_fds s)
                    (subst (λ r. Listened table options (table.open_fds s) (r, c.1)) g h) k)))

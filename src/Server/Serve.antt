-- ===== src/Server/Serve.antt =====
-- src/sync_server.cpp: `serve_sync_server`, from the checks to the end of the loop that accepts
-- clients. The responder of the discovery is an interface.
use stmanager.Prelude.{
  ℕ, zero, suc, Text, Bool, codes, is_empty, Option, none, some, not, ◌==◌, if◌then◌else◌,
}
use stmanager.Prelude.Int.{pos}
use stmanager.Status.{
  Status, Result, ok, err, looping, threw, Exec, lift, throw, ◌>>◌, sync_protocol_error,
}
use stmanager.Json.{JsonLibrary}
use stmanager.Wire.Socket.{Socket}
use stmanager.TrustedDevices.Store.{TrustStore}
use stmanager.DataManager.{DataManager, is_valid, last_status}
use stmanager.Client.Pair.{DeviceInfo}
use stmanager.Server.Requests.{ServerSetup, settle, handle_client_connection}
use stmanager.Server.Listen.{ServerOptions, Listening, create_listen_socket}
use stmanager.FdStream.Buffers.{eintr}
use stmanager.Sockets.Calls.{
  Accepted, accepted, not_accepted, Selected, readable, timed_out, select_failed, SocketCalls,
  socket_error, ensure_socket_runtime,
}

-- `start_discovery_responder` and `stop_discovery_responder`.
pub record Responder {k : Socket} (calls : SocketCalls k) : Type 0 where
  pub start : DeviceInfo → Exec calls.State (Unit {0})
  pub stop : Exec calls.State (Unit {0})

-- How a round of the loop ends. `held` is a client whose conversation has no end.
pub data Round : Type 0 where
  goes_on breaks held : Round
  fails : Status → Round

-- What the server is given. `fuel` is that of the calls of a client's socket. `stop_requested`
-- reads the flag; a pointer to it that is NULL reads false. `backup` is what a backup made now gives.
pub record ServeSetup {k : Socket} (calls : SocketCalls k) : Type 1 where
  pub lib : JsonLibrary
  pub fuel : ℕ
  pub store : TrustStore
  pub responder : Responder calls
  pub options : ServerOptions
  pub server_build : Text
  pub has_store : Bool
  pub backup : calls.State → Result Text
  pub stop_requested : calls.State → Bool

module _ {k : Socket} {calls : SocketCalls k} (sv : ServeSetup calls) where
  open sv use {lib, fuel, store, responder, options}

  abbrev pub client_setup : calls.State → ServerSetup
  client_setup s = record {
    server_build = sv.server_build;
    pairing_code = options.pairing_code;
    has_store = sv.has_store;
    backup = sv.backup s;
  }

  -- After a client: its status is ignored, and its socket is closed.
  abbrev pub client_done :
      ℕ → Result (Unit {0}) → calls.State → store.State → Round × (calls.State × store.State)
  client_done fd looping s t = (held, (s, t))
  client_done fd (ok u) s t = (goes_on, (calls.close fd s, t))
  client_done fd (err e) s t = (goes_on, (calls.close fd s, t))
  client_done fd (threw what) s t = (goes_on, (calls.close fd s, t))

  abbrev pub accept_answered :
      Accepted k.Conn → calls.State × store.State → Round × (calls.State × store.State)
  accept_answered (not_accepted errno) (s, t) =
      (if sv.stop_requested s then breaks else goes_on, (s, t))
  accept_answered (accepted fd c) (s, t) =
      let (r, (c', t')) = handle_client_connection lib k fuel store (client_setup s) (c, t) in
      client_done fd r s t'

  abbrev pub select_answered :
      ℕ → Selected → calls.State × store.State → Round × (calls.State × store.State)
  select_answered listen_fd (select_failed errno) x = (
    if errno == eintr then goes_on else fails (socket_error calls (codes "select failed") errno),
    x,
  )
  select_answered listen_fd timed_out x = (goes_on, x)
  select_answered listen_fd readable (s, t) =
      let (answer, s') = calls.accept listen_fd s in accept_answered answer (s', t)

  unfoldable pub serve_round : ℕ → calls.State × store.State → Round × (calls.State × store.State)
  unfolding socket_error handle_client_connection
  serve_round listen_fd (s, t) =
      if sv.stop_requested s
      then (breaks, (s, t))
      else (let (answer, s') = calls.select_readable listen_fd 500 s in
          select_answered listen_fd answer (s', t))

  unfoldable pub serve_loop : ℕ → ℕ → Exec (calls.State × store.State) (Unit {0})
  unfolding serve_round
  serve_loop zero listen_fd x = (looping, x)
  serve_loop (suc rounds) listen_fd x =
      let (r, x') = serve_round listen_fd x in
      elim r [
        | goes_on ↦ serve_loop rounds listen_fd x'
        | breaks ↦ (ok tt, x')
        | held ↦ (looping, x')
        | fails e ↦ (err e, x')
      ]

  -- DiscoveryResponderScope: the argument is `started_`.
  abbrev pub stop_scope : Bool → Exec calls.State (Unit {0})
  stop_scope started s = if started then responder.stop s else (ok tt, s)

  abbrev pub advertised_name : Text → Text
  advertised_name local_device_id =
      if is_empty options.advertise_name then local_device_id else options.advertise_name

  abbrev pub local_device : Text → Listening → DeviceInfo
  local_device local_device_id l = record {
    device_id = local_device_id;
    device_name = advertised_name local_device_id;
    host = l.bound_host;
    port = pos l.bound_port;
  }

  abbrev pub start_scope : Text → Listening → Exec calls.State (Unit {0})
  start_scope local_device_id l s =
      if options.advertise then responder.start (local_device local_device_id l) s else (ok tt, s)

  -- After the loop: on a break the responder stops and the socket closes, on an error they do so
  -- the other way round, and the status of the stop is lost.
  abbrev pub serve_done : ℕ → Result (Unit {0}) → Exec (calls.State × store.State) (Unit {0})
  serve_done listen_fd (ok u) (s, t) =
      let (r, s') = stop_scope options.advertise s in (r, (calls.close listen_fd s', t))
  serve_done listen_fd (err e) (s, t) =
      (err e, ((stop_scope options.advertise (calls.close listen_fd s)).1, t))
  serve_done listen_fd looping x = (looping, x)
  serve_done listen_fd (threw what) x = (threw what, x)

  -- `rounds` is the fuel of the loop. With the socket comes the endpoint that the callback is told.
  abbrev pub serve_started :
      ℕ → Listening → Result (Unit {0}) → Exec (calls.State × store.State) (Unit {0})
  serve_started rounds l (ok u) x =
      let (r, x') = serve_loop rounds l.listen_fd x in serve_done l.listen_fd r x'
  serve_started rounds l (err e) (s, t) = (err e, (calls.close l.listen_fd s, t))
  serve_started rounds l looping x = (looping, x)
  serve_started rounds l (threw what) x = (threw what, x)

  unfoldable pub serve_listening :
      ℕ → Text → Listening → Exec (calls.State × store.State) (Unit {0})
  unfolding serve_loop
  serve_listening rounds local_device_id l (s, t) =
      let (r, s') = start_scope local_device_id l s in serve_started rounds l r (s', t)

  -- The endpoint is what `*bound_host` and `*bound_port` are set to, and `started_callback` gets.
  unfoldable pub serve_bound :
      ℕ → Text → Exec (calls.State × store.State × Option (Text × ℕ)) (Unit {0})
  unfolding create_listen_socket serve_listening
  serve_bound rounds local_device_id (s, t, endpoint) =
      let (r, s') = create_listen_socket calls options s in
      settle r (λ e. lift (err e))
        (λ l _.
          let (r', (s'', t')) = serve_listening rounds local_device_id l (s', t) in
          (r', (s'', t', some (l.bound_host, l.bound_port))))
        (s', t, none)

  unfoldable pub serve_sync_server :
      ℕ → DataManager → Text → Exec (calls.State × store.State × Option (Text × ℕ)) (Unit {0})
  unfolding serve_bound
  serve_sync_server rounds data_manager local_device_id =
      if not (is_valid data_manager)
      then lift (err (last_status data_manager))
      else if is_empty local_device_id
      then throw sync_protocol_error (codes "local_device_id cannot be empty")
      else lift ensure_socket_runtime >> serve_bound rounds local_device_id

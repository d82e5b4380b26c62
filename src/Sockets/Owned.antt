-- ===== src/Sockets/Owned.antt =====
-- That TcpSyncTransport closes every socket that it opens, but the one that it is connected by.
use stmanager.Prelude.{
  ℕ, is_empty, Option, none, some, List, [], ◌∷◌, ◌++◌, not, ◌||◌, ◌≡◌, refl, sym, ap, ◌∙◌,
}
use stmanager.Prelude.Int.{is_positive}
use stmanager.Status.{Status, Result, ok, err, looping, threw, pure}
use stmanager.Wire.Socket.{Socket}
use stmanager.Client.Branches.{done_choice-holds}
use stmanager.Server.Requests.{settle}
use stmanager.Client.Pair.{DeviceInfo}
use stmanager.Sockets.Calls.{
  Resolved, addresses, unresolved, Descriptor, descriptor, no_descriptor, Connecting, connected,
  not_connected, NameAnswer, named, unnamed, SocketCalls,
}
use stmanager.Sockets.Table.{DescriptorTable, with_new, close-first}
use stmanager.Sockets.Tcp.{
  TcpSyncTransport, with_local_end, connect_answered, socket_made, try_connect, connect_loop,
  connect_resolved, connect_checked, connect, closed_socket, disconnect,
}

module _ {k : Socket} {calls : SocketCalls k} (table : DescriptorTable calls) where
  abbrev own_fds : Option (ℕ × k.Conn) → List ℕ
  own_fds none = []
  own_fds (some (fd, c)) = fd ∷ []

  -- Beside the descriptors `others` only the socket of the transport is open.
  abbrev pub Owned : List ℕ → TcpSyncTransport calls → Type 0
  Owned others l = table.open_fds l.net ≡ own_fds l.socket_fd ++ others

  -- A connection came about, or the transport is left with no socket.
  abbrev pub ConnectOutcome : List ℕ → Result (Unit {0}) × TcpSyncTransport calls → Type 0
  ConnectOutcome others (ok u, l) =
      (Owned others l) × ((fd : ℕ) × (c : k.Conn) × (l.socket_fd ≡ some (fd, c)))
  ConnectOutcome others (err e, l) = (Owned others l) × (l.socket_fd ≡ none)
  ConnectOutcome others (looping, l) = ⊥
  ConnectOutcome others (threw what, l) = ⊥

  module _ (others : List ℕ) where
    Owned-none :
        (l : TcpSyncTransport calls)
        → l.socket_fd ≡ none
        → table.open_fds l.net ≡ others
        → Owned others l
    Owned-none l u e = e ∙ ap (λ o. own_fds o ++ others) (sym u)

    connect_answered-Outcome :
        (fd : ℕ) (answer : Connecting k.Conn) (l : TcpSyncTransport calls)
        → l.socket_fd ≡ none
        → table.open_fds l.net ≡ fd ∷ others
        → ConnectOutcome others (connect_answered calls fd answer l)
    connect_answered-Outcome fd (connected c) l u e = local_end (calls.getsockname l.net fd)
      where
        local_end :
            (n : NameAnswer)
            → ConnectOutcome others
                (ok tt, with_local_end calls n (record l { socket_fd = some (fd, c) }))
        local_end (named n) = (e, (fd, c, refl))
        local_end (unnamed errno) = (e, (fd, c, refl))
    connect_answered-Outcome fd (not_connected errno) l u e = (
      Owned-none (record l { net = calls.close fd l.net }) u (close-first table fd others l.net e),
      u,
    )

    socket_made-Outcome :
        (a : calls.Address) (d : Descriptor) (l : TcpSyncTransport calls)
        → l.socket_fd ≡ none
        → table.open_fds l.net ≡ with_new d others
        → ConnectOutcome others (socket_made calls a d l)
    socket_made-Outcome a (no_descriptor errno) l u e = (Owned-none l u e, u)
    socket_made-Outcome a (descriptor fd) l u e =
        connect_answered-Outcome fd (calls.connect fd a l.net).0 _ u
          (table.connecting fd a l.net ∙ e)

    try_connect-Outcome :
        (a : calls.Address) (l : TcpSyncTransport calls)
        → l.socket_fd ≡ none
        → table.open_fds l.net ≡ others
        → ConnectOutcome others (try_connect calls a l)
    unfolding try_connect
    try_connect-Outcome a l u e =
        socket_made-Outcome a (calls.socket a l.net).0 _ u
          (table.opening a l.net ∙ ap (with_new (calls.socket a l.net).0) e)

    -- The rounds after this one.
    next_round-Outcome :
        (list : List calls.Address)
        → ((last_error : Status) (l : TcpSyncTransport calls)
            → l.socket_fd ≡ none
            → table.open_fds l.net ≡ others
            → ConnectOutcome others (connect_loop calls list last_error l))
        → (r : Result (Unit {0})) (l : TcpSyncTransport calls) → ConnectOutcome others (r, l)
        → ConnectOutcome others (settle r (λ e. connect_loop calls list e) (λ _. pure tt) l)
    next_round-Outcome list again (ok tt) l o = o
    next_round-Outcome list again (err e) l o =
        again e l o.1 (o.0 ∙ ap (λ d. own_fds d ++ others) o.1)
    next_round-Outcome list again looping l o = absurd o
    next_round-Outcome list again (threw what) l o = absurd o

    connect_loop-Outcome :
        (list : List calls.Address) (last_error : Status) (l : TcpSyncTransport calls)
        → l.socket_fd ≡ none
        → table.open_fds l.net ≡ others
        → ConnectOutcome others (connect_loop calls list last_error l)
    unfolding connect_loop
    connect_loop-Outcome [] last_error l u e = (Owned-none l u e, u)
    connect_loop-Outcome (a ∷ rest) last_error l u e =
        next_round-Outcome rest (connect_loop-Outcome rest) (try_connect calls a l).0
          (try_connect calls a l).1 (try_connect-Outcome a l u e)

    connect_resolved-Outcome :
        (r : Resolved calls.Address) (l : TcpSyncTransport calls)
        → l.socket_fd ≡ none
        → table.open_fds l.net ≡ others
        → ConnectOutcome others (connect_resolved calls r l)
    connect_resolved-Outcome (unresolved text) l u e = (Owned-none l u e, u)
    connect_resolved-Outcome (addresses list) l u e = connect_loop-Outcome list _ l u e

    connect_checked-Outcome :
        (device_info : DeviceInfo) (l : TcpSyncTransport calls)
        → l.socket_fd ≡ none
        → table.open_fds l.net ≡ others
        → ConnectOutcome others (connect_checked calls device_info l)
    unfolding connect_checked
    connect_checked-Outcome device_info l u e =
        done_choice-holds (ConnectOutcome others)
          (is_empty device_info.host || not (is_positive device_info.port)) _ _
          (λ b. (Owned-none l u e, u))
          (λ b.
            let host = device_info.host in
            let port = calls.int_to_string device_info.port in
            connect_resolved-Outcome (calls.getaddrinfo host port l.net).0
              (record l { net = (calls.getaddrinfo host port l.net).1 }) u
              (table.resolving host port l.net ∙ e))

    closed_socket-closed :
        (o : Option (ℕ × k.Conn)) (l : TcpSyncTransport calls)
        → l.socket_fd ≡ o
        → table.open_fds l.net ≡ own_fds o ++ others
        → ((closed_socket calls o l).socket_fd ≡ none)
          × (table.open_fds (closed_socket calls o l).net ≡ others)
    closed_socket-closed none l d e = (d, e)
    closed_socket-closed (some (fd, c)) l d e = (refl, close-first table fd others l.net e)

    -- What a transport is left with by `disconnect`.
    disconnect-closed :
        (l : TcpSyncTransport calls)
        → Owned others l
        → ((disconnect calls l).socket_fd ≡ none)
          × (table.open_fds (disconnect calls l).net ≡ others)
    unfolding disconnect
    disconnect-closed l o = closed_socket-closed l.socket_fd l refl o

    -- However connecting ends, the transport owns what it opened: if the status is ok, one socket
    -- is open, by which the transport is connected; if not, none is, neither a socket of before nor
    -- one of an address that did not answer. Connecting ends with a status.
    pub connect-ConnectOutcome :
        (device_info : DeviceInfo) (l : TcpSyncTransport calls)
        → Owned others l
        → ConnectOutcome others (connect calls device_info l)
    unfolding connect
    connect-ConnectOutcome device_info l o =
        let (u, e) = disconnect-closed l o in
        connect_checked-Outcome device_info (disconnect calls l) u e

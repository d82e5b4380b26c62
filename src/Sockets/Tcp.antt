-- ===== src/Sockets/Tcp.antt =====
-- src/tcp_transport.cpp: the class TcpSyncTransport, and the interface ISyncTransport by it.
use stmanager.Prelude.{
  ℕ, Text, codes, is_empty, Option, none, some, List, [], ◌∷◌, ◌++◌, not, ◌||◌, if◌then◌else◌,
}
use stmanager.Prelude.Int.{is_positive}
use stmanager.Status.{
  Status, ok, err, fail, status, Exec, pure, lift, throw, ◌>>◌, io_error, sync_protocol_error,
}
use stmanager.Wire.Socket.{Socket}
use stmanager.Wire.Frames.{
  InStream, OutStream, good, send_framed_string, receive_framed_string, send_framed_stream,
  receive_framed_stream,
}
use stmanager.Wire.Runs.{in_stream}
use stmanager.Server.Requests.{settle}
use stmanager.Client.Pair.{DeviceInfo, Transport}
use stmanager.Sockets.Calls.{
  Resolved, addresses, unresolved, Descriptor, descriptor, no_descriptor, Connecting, connected,
  not_connected, NameAnswer, named, unnamed, port_of, SocketCalls, socket_error, make_socket_error,
  ensure_socket_runtime,
}

module _ {k : Socket} (calls : SocketCalls k) where
  -- The object, and the state of the sockets. `none` is -1; the connection is the socket's.
  pub record TcpSyncTransport : Type 0 where
    pub socket_fd : Option (ℕ × k.Conn)
    pub local_host : Text
    pub local_port : ℕ
    pub net : calls.State

  unfoldable pub new_transport : calls.State → TcpSyncTransport
  new_transport s = record { socket_fd = none; local_host = []; local_port = 0; net = s }

  abbrev pub closed_socket : Option (ℕ × k.Conn) → TcpSyncTransport → TcpSyncTransport
  closed_socket none l = l
  closed_socket (some (fd, c)) l = record l { socket_fd = none; net = calls.close fd l.net }

  unfoldable pub disconnect : TcpSyncTransport → TcpSyncTransport
  disconnect l = closed_socket l.socket_fd l

  abbrev host_or_empty : Option Text → Text
  host_or_empty none = []
  host_or_empty (some host) = host

  -- The local end of a socket that has connected.
  abbrev pub with_local_end : NameAnswer → TcpSyncTransport → TcpSyncTransport
  with_local_end (named n) l = record l {
    local_host = host_or_empty n.numeric_host;
    local_port = port_of n;
  }
  with_local_end (unnamed errno) l = record l { local_host = []; local_port = 0 }

  abbrev pub connect_answered : ℕ → Connecting k.Conn → Exec TcpSyncTransport (Unit {0})
  connect_answered fd (connected c) l =
      (ok tt, with_local_end (calls.getsockname l.net fd) (record l { socket_fd = some (fd, c) }))
  connect_answered fd (not_connected errno) l = (
    make_socket_error calls (codes "Socket connect failed") errno,
    record l { net = calls.close fd l.net },
  )

  abbrev pub socket_made : calls.Address → Descriptor → Exec TcpSyncTransport (Unit {0})
  socket_made a (no_descriptor errno) l =
      (make_socket_error calls (codes "Socket creation failed") errno, l)
  socket_made a (descriptor fd) l =
      let (answer, s) = calls.connect fd a l.net in
      connect_answered fd answer (record l { net = s })

  -- One round of the loop over the addresses.
  unfoldable pub try_connect : calls.Address → Exec TcpSyncTransport (Unit {0})
  unfolding socket_error
  try_connect a l = let (d, s) = calls.socket a l.net in socket_made a d (record l { net = s })

  unfoldable pub connect_loop : List calls.Address → Status → Exec TcpSyncTransport (Unit {0})
  unfolding try_connect
  connect_loop [] last_error l = (err last_error, l)
  connect_loop (a ∷ rest) last_error l =
      let (r, l') = try_connect a l in settle r (λ e. connect_loop rest e) (λ _. pure tt) l'

  abbrev pub connect_resolved : Resolved calls.Address → Exec TcpSyncTransport (Unit {0})
  connect_resolved (unresolved text) = throw io_error text
  connect_resolved (addresses l) =
      connect_loop l (status io_error (codes "Unable to connect to remote device"))

  unfoldable pub connect_checked : DeviceInfo → Exec TcpSyncTransport (Unit {0})
  unfolding connect_loop
  connect_checked device_info l =
      if is_empty device_info.host || not (is_positive device_info.port)
      then (fail sync_protocol_error (codes "Device host or port is invalid"), l)
      else (let (r, s) =
            calls.getaddrinfo device_info.host (calls.int_to_string device_info.port) l.net in
          connect_resolved r (record l { net = s }))

  unfoldable pub connect : DeviceInfo → Exec TcpSyncTransport (Unit {0})
  unfolding disconnect connect_checked
  connect device_info l = (lift ensure_socket_runtime >> connect_checked device_info) (disconnect l)

  abbrev pub local_endpoint : TcpSyncTransport → Text × ℕ
  local_endpoint l = (l.local_host, l.local_port)

  -- A call over the socket, if there is one.
  abbrev pub over_socket : {A : Type 0} → Exec k.Conn A → Exec TcpSyncTransport A
  over_socket m l = elim l.socket_fd [
    | none ↦ (fail sync_protocol_error (codes "Transport is not connected"), l)
    | some (fd, c) ↦ let (r, c') = m c in (r, record l { socket_fd = some (fd, c') })
  ]

  module _ (fuel : ℕ) where
    unfoldable pub send_message : Text → Exec TcpSyncTransport (Unit {0})
    send_message message = over_socket (send_framed_string k fuel message)

    unfoldable pub receive_message : Exec TcpSyncTransport Text
    receive_message = over_socket (receive_framed_string k fuel)

    unfoldable pub send_stream : InStream → Exec TcpSyncTransport (Unit {0})
    send_stream stream = over_socket (send_framed_stream k fuel stream)

    -- A stream that keeps what is written to it, as a `std::stringstream` does.
    abbrev text_stream : OutStream
    text_stream = record { Out = Text; write = λ out chunk. (good, out ++ chunk) }

    abbrev received_text : Exec k.Conn Text
    received_text c =
        let (r, x) = receive_framed_stream k fuel text_stream (c, []) in
        settle r (λ e y. (err e, y)) (λ _ y. (ok x.1, y)) x.0

    unfoldable pub receive_stream : Exec TcpSyncTransport Text
    receive_stream = over_socket received_text

    abbrev pub tcp_transport : Transport
    tcp_transport = record {
      Link = TcpSyncTransport;
      connect = connect;
      disconnect = disconnect;
      send_message = send_message;
      receive_message = receive_message;
      send_stream = λ contents. send_stream (in_stream contents);
      receive_stream = receive_stream;
    }

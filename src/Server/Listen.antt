-- ===== src/Server/Listen.antt =====
-- src/sync_server.cpp: `create_listen_socket`, and the host under which the server is found.
use stmanager.Prelude.{
  ℕ, Text, Bool, true, false, codes, is_empty, text_eq, Option, none, some, List, [], ◌∷◌, not,
  ◌&&◌, ◌||◌, if◌then◌else◌,
}
use stmanager.Prelude.Int.{ℤ}
use stmanager.Status.{Status, ok, err, status, Exec, pure, throw, io_error}
use stmanager.Wire.Socket.{Socket}
use stmanager.Server.Requests.{settle}
use stmanager.Sockets.Calls.{
  Resolved, addresses, unresolved, Descriptor, descriptor, no_descriptor, Family, inet, LocalName,
  NameAnswer, named, unnamed, Interface, port_of, SocketCalls, socket_error, make_socket_error,
  non_empty,
}

pub record ServerOptions : Type 0 where
  pub bind_host : Text
  pub port : ℤ
  pub pairing_code : Text
  pub advertise : Bool
  pub advertise_name : Text

abbrev pub loopback : Text
loopback = codes "127.0.0.1"

unfoldable pub is_wildcard_bind_host : Text → Bool
is_wildcard_bind_host host =
    is_empty host
    || text_eq host (codes "0.0.0.0")
    || text_eq host (codes "::")
    || text_eq host (codes "[::]")

-- A text that is no wildcard and no loopback.
abbrev pub is_reachable : Text → Bool
is_reachable ip = not (is_wildcard_bind_host ip) && not (text_eq ip loopback)

abbrev pub reachable : Option Text → Option Text
reachable none = none
reachable (some ip) = if is_reachable ip then some ip else none

unfoldable pub sockaddr_to_ip : LocalName → Option Text
sockaddr_to_ip n = non_empty n.numeric_host

abbrev pub probed_name : Bool → NameAnswer → Option Text
unfolding sockaddr_to_ip
probed_name true (named n) = reachable (sockaddr_to_ip n)
probed_name is_connected answer = none

abbrev pub is_inet : Option Family → Bool
is_inet (some inet) = true
is_inet _ = false

abbrev pub interface_host : Interface → Option Text
unfolding is_wildcard_bind_host
interface_host i =
    if is_inet i.address_family && i.is_up && not i.is_loopback then reachable i.ipv4_text else none

-- The loop over the interfaces.
unfoldable pub first_interface : List Interface → Option Text
first_interface [] = none
first_interface (i ∷ rest) = elim (interface_host i) [
  | some ip ↦ some ip
  | none ↦ first_interface rest
]

abbrev pub of_interfaces : Option (List Interface) → Option Text
of_interfaces none = none
of_interfaces (some list) = first_interface list

abbrev pub host_or : Text → Option Text → Text
host_or fallback none = fallback
host_or fallback (some host) = host

-- The host of the socket's own name, unless it is a wildcard.
abbrev pub named_host : Text → Option Text → Text
named_host bind_host none = bind_host
named_host bind_host (some ip) = if is_wildcard_bind_host ip then bind_host else ip

pub record Listening : Type 0 where
  pub listen_fd : ℕ
  pub bound_port : ℕ
  pub bound_host : Text

module _ {k : Socket} (calls : SocketCalls k) where
  -- What the datagram socket is asked for before it is closed, else the interfaces.
  abbrev pub probe_or_interfaces : Option Text → calls.State → Option Text × calls.State
  probe_or_interfaces (some ip) s = (some ip, s)
  probe_or_interfaces none s = (of_interfaces (calls.interfaces s), s)

  abbrev pub probe_made : Descriptor → calls.State → Option Text × calls.State
  probe_made (no_descriptor errno) s = (of_interfaces (calls.interfaces s), s)
  probe_made (descriptor fd) s =
      let (is_connected, s') = calls.connect_probe fd s in
      probe_or_interfaces (probed_name is_connected (calls.getsockname s' fd)) (calls.close fd s')

  unfoldable pub detect_local_reachable_ipv4 : calls.State → Option Text × calls.State
  unfolding first_interface sockaddr_to_ip
  detect_local_reachable_ipv4 s = let (d, s') = calls.datagram_socket s in probe_made d s'

  unfoldable pub actual_host : Text → LocalName → calls.State → Text × calls.State
  unfolding detect_local_reachable_ipv4 is_wildcard_bind_host sockaddr_to_ip
  actual_host bind_host n s =
      let host = named_host bind_host (sockaddr_to_ip n) in
      if is_wildcard_bind_host host
      then (let (found, s') = detect_local_reachable_ipv4 s in
          let detected = host_or loopback found in
          (if is_wildcard_bind_host detected then loopback else detected, s'))
      else (host, s)

  module _ (options : ServerOptions) where
    -- A call that failed: the candidate is closed.
    abbrev pub given_up : ℕ → Text → ℕ → Exec calls.State Listening
    given_up fd prefix errno s = (make_socket_error calls prefix errno, calls.close fd s)

    abbrev pub name_answered : ℕ → NameAnswer → Exec calls.State Listening
    name_answered fd (unnamed errno) s = given_up fd (codes "getsockname failed") errno s
    name_answered fd (named n) s =
        let (host, s') = actual_host options.bind_host n s in
        (ok (record { listen_fd = fd; bound_port = port_of n; bound_host = host }), s')

    abbrev pub listen_answered : ℕ → Option ℕ → Exec calls.State Listening
    listen_answered fd (some errno) s = given_up fd (codes "listen failed") errno s
    listen_answered fd none s = name_answered fd (calls.getsockname s fd) s

    abbrev pub bind_answered : ℕ → Option ℕ → Exec calls.State Listening
    bind_answered fd (some errno) s = given_up fd (codes "bind failed") errno s
    bind_answered fd none s = let (answer, s') = calls.listen fd 8 s in listen_answered fd answer s'

    abbrev pub candidate_made : calls.Address → Descriptor → Exec calls.State Listening
    candidate_made a (no_descriptor errno) s =
        (make_socket_error calls (codes "socket creation failed") errno, s)
    candidate_made a (descriptor fd) s =
        let (answer, s') = calls.bind fd a (calls.set_reuse_address fd s) in
        bind_answered fd answer s'

    -- One round of the loop over the addresses.
    unfoldable pub try_listen : calls.Address → Exec calls.State Listening
    unfolding actual_host socket_error
    try_listen a s = let (d, s') = calls.socket a s in candidate_made a d s'

    unfoldable pub listen_loop : List calls.Address → Status → Exec calls.State Listening
    unfolding try_listen
    listen_loop [] last_error s = (err last_error, s)
    listen_loop (a ∷ rest) last_error s =
        let (r, s') = try_listen a s in settle r (λ e. listen_loop rest e) (λ l. pure l) s'

    abbrev pub listen_resolved : Resolved calls.Address → Exec calls.State Listening
    listen_resolved (unresolved text) = throw io_error text
    listen_resolved (addresses list) =
        listen_loop list (status io_error (codes "Unable to create server socket"))

    unfoldable pub create_listen_socket : Exec calls.State Listening
    unfolding listen_loop
    create_listen_socket s =
        let (r, s') = calls.getaddrinfo options.bind_host (calls.int_to_string options.port) s in
        listen_resolved r s'

-- ===== src/Server/Bound.antt =====
-- That `create_listen_socket` leaves the socket that listens and no other.
use stmanager.Prelude.{ℕ, Text, Option, none, some, List, [], ◌∷◌, ◌≡◌, refl, ap, if-holds, ◌∙◌}
use stmanager.Status.{Status, Result, ok, err, looping, threw, pure}
use stmanager.Wire.Socket.{Socket}
use stmanager.Server.Requests.{settle}
use stmanager.Server.Listen.{
  ServerOptions, Listening, is_wildcard_bind_host, sockaddr_to_ip, probe_or_interfaces, probe_made,
  detect_local_reachable_ipv4, named_host, actual_host, name_answered, listen_answered,
  bind_answered, candidate_made, try_listen, listen_loop, listen_resolved, create_listen_socket,
}
use stmanager.Sockets.Calls.{
  Resolved, addresses, unresolved, Descriptor, descriptor, no_descriptor, LocalName, NameAnswer,
  named, unnamed, SocketCalls,
}
use stmanager.Sockets.Table.{DescriptorTable, with_new, close-first}

module _ {k : Socket} {calls : SocketCalls k} (table : DescriptorTable calls)
    (options : ServerOptions) where
  probe_or_interfaces-state :
      (o : Option Text) (s : calls.State) → (probe_or_interfaces calls o s).1 ≡ s
  probe_or_interfaces-state none s = refl
  probe_or_interfaces-state (some ip) s = refl

  probe_made-kept :
      (d : Descriptor) (s : calls.State) (base : List ℕ)
      → table.open_fds s ≡ with_new d base
      → table.open_fds (probe_made calls d s).1 ≡ base
  probe_made-kept (no_descriptor errno) s base e = e
  probe_made-kept (descriptor fd) s base e =
      ap table.open_fds (probe_or_interfaces-state _ _)
      ∙ close-first table fd base (calls.connect_probe fd s).1 (table.probed fd s ∙ e)

  -- Looking for the host leaves no socket.
  actual_host-kept :
      (bind_host : Text) (n : LocalName) (s : calls.State)
      → table.open_fds (actual_host calls bind_host n s).1 ≡ table.open_fds s
  unfolding actual_host detect_local_reachable_ipv4
  actual_host-kept bind_host n s =
      if-holds (λ (x : Text × calls.State). table.open_fds x.1 ≡ table.open_fds s)
        (is_wildcard_bind_host (named_host bind_host (sockaddr_to_ip n))) _ _
        (λ b.
          probe_made-kept (calls.datagram_socket s).0 (calls.datagram_socket s).1 (table.open_fds s)
            (table.probing s))
        (λ b. refl)

  module _ (base : List ℕ) where
    -- The socket that listens is the only one that is left, if any.
    abbrev pub Listened : Result Listening × calls.State → Type 0
    Listened (ok l, s) = table.open_fds s ≡ l.listen_fd ∷ base
    Listened (err e, s) = table.open_fds s ≡ base
    Listened (looping, s) = ⊥
    Listened (threw what, s) = ⊥

    name_answered-Listened :
        (fd : ℕ) (answer : NameAnswer) (s : calls.State)
        → table.open_fds s ≡ fd ∷ base
        → Listened (name_answered calls options fd answer s)
    name_answered-Listened fd (unnamed errno) s e = close-first table fd base s e
    name_answered-Listened fd (named n) s e = actual_host-kept options.bind_host n s ∙ e

    listen_answered-Listened :
        (fd : ℕ) (answer : Option ℕ) (s : calls.State)
        → table.open_fds s ≡ fd ∷ base
        → Listened (listen_answered calls options fd answer s)
    listen_answered-Listened fd (some errno) s e = close-first table fd base s e
    listen_answered-Listened fd none s e = name_answered-Listened fd (calls.getsockname s fd) s e

    bind_answered-Listened :
        (fd : ℕ) (answer : Option ℕ) (s : calls.State)
        → table.open_fds s ≡ fd ∷ base
        → Listened (bind_answered calls options fd answer s)
    bind_answered-Listened fd (some errno) s e = close-first table fd base s e
    bind_answered-Listened fd none s e =
        listen_answered-Listened fd (calls.listen fd 8 s).0 (calls.listen fd 8 s).1
          (table.listening fd 8 s ∙ e)

    candidate_made-Listened :
        (a : calls.Address) (d : Descriptor) (s : calls.State)
        → table.open_fds s ≡ with_new d base
        → Listened (candidate_made calls options a d s)
    candidate_made-Listened a (no_descriptor errno) s e = e
    candidate_made-Listened a (descriptor fd) s e =
        let s' = calls.set_reuse_address fd s in
        bind_answered-Listened fd (calls.bind fd a s').0 (calls.bind fd a s').1
          (table.binding fd a s' ∙ (table.reusing fd s ∙ e))

    -- The rounds after this one.
    next_round-Listened :
        (list : List calls.Address)
        → ((last_error : Status) (s : calls.State)
            → table.open_fds s ≡ base
            → Listened (listen_loop calls options list last_error s))
        → (r : Result Listening) (s : calls.State) → Listened (r, s)
        → Listened (settle r (λ e. listen_loop calls options list e) (λ l. pure l) s)
    next_round-Listened list again (ok l) s h = h
    next_round-Listened list again (err e) s h = again e s h
    next_round-Listened list again looping s h = absurd h
    next_round-Listened list again (threw what) s h = absurd h

    listen_loop-Listened :
        (list : List calls.Address) (last_error : Status) (s : calls.State)
        → table.open_fds s ≡ base
        → Listened (listen_loop calls options list last_error s)
    unfolding listen_loop try_listen
    listen_loop-Listened [] last_error s e = e
    listen_loop-Listened (a ∷ rest) last_error s e =
        next_round-Listened rest (listen_loop-Listened rest) (try_listen calls options a s).0
          (try_listen calls options a s).1
          (candidate_made-Listened a (calls.socket a s).0 (calls.socket a s).1
            (table.opening a s ∙ ap (with_new (calls.socket a s).0) e))

    listen_resolved-Listened :
        (r : Resolved calls.Address) (s : calls.State)
        → table.open_fds s ≡ base
        → Listened (listen_resolved calls options r s)
    listen_resolved-Listened (unresolved text) s e = e
    listen_resolved-Listened (addresses list) s e = listen_loop-Listened list _ s e

    pub create_listen_socket-Listened :
        (s : calls.State)
        → table.open_fds s ≡ base
        → Listened (create_listen_socket calls options s)
    unfolding create_listen_socket
    create_listen_socket-Listened s e =
        let host = options.bind_host in
        let port = calls.int_to_string options.port in
        listen_resolved-Listened (calls.getaddrinfo host port s).0 (calls.getaddrinfo host port s).1
          (table.resolving host port s ∙ e)

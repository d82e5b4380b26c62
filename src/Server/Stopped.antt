-- ===== src/Server/Stopped.antt =====
-- That a stop that is requested ends the server.
use stmanager.Prelude.{
  ℕ, zero, suc, ◌-◌, ◌<◌, ◌≤◌, Text, Bool, true, false, if◌then◌else◌, ◌==◌, ◌≡◌, ◌≢◌, refl, arith,
  if-holds,
}
use stmanager.Status.{Result, ok, err, looping, threw}
use stmanager.Wire.Socket.{Socket}
use stmanager.Client.Pair.{DeviceInfo}
use stmanager.Client.Branches.{returns_status}
use stmanager.Server.Requests.{handle_client_connection}
use stmanager.Server.Listen.{Listening}
use stmanager.Server.Rounds.{RoundHolds, serve_loop-holds}
use stmanager.Server.Serve.{
  Round, ServeSetup, client_setup, client_done, accept_answered, select_answered, serve_round,
  serve_loop, stop_scope, serve_done, serve_started, serve_listening,
}
use stmanager.FdStream.Buffers.{eintr}
use stmanager.Sockets.Calls.{
  Accepted, accepted, not_accepted, Selected, readable, timed_out, select_failed, SocketCalls,
}

-- Another thread sets the flag that stops the server: `waits` are the calls of `select` until then.
-- The responder's functions return.
pub record StopClock {k : Socket} {calls : SocketCalls k} (sv : ServeSetup calls) : Type 0 where
  pub waits : calls.State → ℕ
  pub stopped : (s : calls.State) → waits s ≡ 0 → sv.stop_requested s ≡ true
  pub selecting :
      (fd ms : ℕ) (s : calls.State) → waits (calls.select_readable fd ms s).1 ≤ waits s - 1
  pub accepting : (fd : ℕ) (s : calls.State) → waits (calls.accept fd s).1 ≤ waits s
  pub closing : (fd : ℕ) (s : calls.State) → waits (calls.close fd s) ≤ waits s
  pub starting : (d : DeviceInfo) (s : calls.State) → waits (sv.responder.start d s).1 ≤ waits s
  pub starts : (d : DeviceInfo) (s : calls.State) → returns_status (sv.responder.start d s).0 ≡ true
  pub stops : (s : calls.State) → returns_status (sv.responder.stop s).0 ≡ true

module _ {k : Socket} {calls : SocketCalls k} (sv : ServeSetup calls) (clock : StopClock sv) where
  open sv use {lib, fuel, store, responder, options}

  -- The conversation with a client has an end.
  abbrev pub Ends : Accepted k.Conn → calls.State → Type 0
  Ends (not_accepted errno) s = Unit {0}
  Ends (accepted fd c) s =
      (t : store.State)
      → (handle_client_connection lib k fuel store (client_setup sv s) (c, t)).0 ≢ looping

  abbrev Returned : Result (Unit {0}) × (calls.State × store.State) → Type 0
  Returned x = returns_status x.0 ≡ true

  -- After a round that goes on fewer than `n` waits are left.
  abbrev Advances : ℕ → Round × (calls.State × store.State) → Type 0
  Advances = RoundHolds sv (λ n x. clock.waits x.0 < n) Returned

  client_done-Advances :
      (n fd : ℕ) (r : Result (Unit {0})) (s : calls.State) (t : store.State)
      → r ≢ looping
      → clock.waits s < n
      → Advances n (client_done sv fd r s t)
  client_done-Advances n fd looping s t h w = absurd (h refl)
  client_done-Advances n fd (ok u) s t h w = omega (arith, clock.closing fd s)
  client_done-Advances n fd (err e) s t h w = omega (arith, clock.closing fd s)
  client_done-Advances n fd (threw what) s t h w = omega (arith, clock.closing fd s)

  accept_answered-Advances :
      (n : ℕ) (answer : Accepted k.Conn) (s : calls.State) (t : store.State)
      → Ends answer s
      → clock.waits s < n
      → Advances n (accept_answered sv answer (s, t))
  accept_answered-Advances n (not_accepted errno) s t h w =
      if-holds (λ r. Advances n (r, (s, t))) (sv.stop_requested s) _ _ (λ b. refl) (λ b. w)
  accept_answered-Advances n (accepted fd c) s t h w =
      let client = handle_client_connection lib k fuel store (client_setup sv s) (c, t) in
      client_done-Advances n fd client.0 s client.1.1 (h t) w

  module _
      (ends : (fd : ℕ) (s : calls.State) → Ends (calls.accept fd s).0 (calls.accept fd s).1) where
    select_answered-Advances :
        (n listen_fd : ℕ) (answer : Selected) (s : calls.State) (t : store.State)
        → clock.waits s < n
        → Advances n (select_answered sv listen_fd answer (s, t))
    select_answered-Advances n listen_fd (select_failed errno) s t w =
        if-holds (λ r. Advances n (r, (s, t))) (errno == eintr) _ _ (λ b. w) (λ b. refl)
    select_answered-Advances n listen_fd timed_out s t w = w
    select_answered-Advances n listen_fd readable s t w =
        accept_answered-Advances n (calls.accept listen_fd s).0 (calls.accept listen_fd s).1 t
          (ends listen_fd s) (omega (arith, clock.accepting listen_fd s))

    some_left : (n : ℕ) (s : calls.State) → clock.waits s ≡ n → sv.stop_requested s ≡ false → 0 < n
    some_left zero s e f = cc (clock.stopped s e)
    some_left (suc n) s e f = omega arith

    serve_round-Advances :
        (n listen_fd : ℕ) (x : calls.State × store.State)
        → clock.waits x.0 < suc n
        → Advances n (serve_round sv listen_fd x)
    unfolding serve_round
    serve_round-Advances n listen_fd (s, t) w =
        if-holds (Advances n) (sv.stop_requested s) _ _ (λ b. refl)
          (λ b.
            select_answered-Advances n listen_fd (calls.select_readable listen_fd 500 s).0
              (calls.select_readable listen_fd 500 s).1 t
              (omega (arith, clock.selecting listen_fd 500 s, some_left (clock.waits s) s refl b)))

    -- With a round for each wait, and one more, the loop ends with a status.
    serve_loop-returns :
        (rounds listen_fd : ℕ) (x : calls.State × store.State)
        → clock.waits x.0 < rounds
        → returns_status (serve_loop sv rounds listen_fd x).0 ≡ true
    serve_loop-returns rounds listen_fd x w =
        serve_loop-holds sv (λ n y. clock.waits y.0 < n) Returned listen_fd
          (λ y i. absurd (omega arith)) (λ n y i. serve_round-Advances n listen_fd y i) rounds x w

    stop_scope-returns : (b : Bool) (s : calls.State) → returns_status (stop_scope sv b s).0 ≡ true
    stop_scope-returns true s = clock.stops s
    stop_scope-returns false s = refl

    serve_done-returns :
        (listen_fd : ℕ) (r : Result (Unit {0})) (x : calls.State × store.State)
        → returns_status r ≡ true
        → returns_status (serve_done sv listen_fd r x).0 ≡ true
    serve_done-returns listen_fd (ok u) (s, t) h = stop_scope-returns options.advertise s
    serve_done-returns listen_fd (err e) (s, t) h = refl
    serve_done-returns listen_fd looping x h = h
    serve_done-returns listen_fd (threw what) x h = h

    serve_started-returns :
        (rounds : ℕ) (l : Listening) (r : Result (Unit {0})) (x : calls.State × store.State)
        → returns_status r ≡ true
        → clock.waits x.0 < rounds
        → returns_status (serve_started sv rounds l r x).0 ≡ true
    serve_started-returns rounds l (ok u) x h w =
        serve_done-returns l.listen_fd _ _ (serve_loop-returns rounds l.listen_fd x w)
    serve_started-returns rounds l (err e) (s, t) h w = refl
    serve_started-returns rounds l looping x h w = h
    serve_started-returns rounds l (threw what) x h w = h

    scope_started :
        (b : Bool) (d : DeviceInfo) (s : calls.State)
        → (returns_status (if b then responder.start d s else (ok tt, s)).0 ≡ true)
          × (clock.waits (if b then responder.start d s else (ok tt, s)).1 ≤ clock.waits s)
    scope_started true d s = (clock.starts d s, clock.starting d s)
    scope_started false d s = (refl, omega arith)

    -- Once the socket listens, a stop that is requested within so many waits ends the server: it
    -- returns a status, whatever clients connect before, if no client holds it in its conversation.
    -- The fuel is a round for each wait and one more.
    pub serve_listening-returns :
        (rounds : ℕ) (local_device_id : Text) (l : Listening) (s : calls.State) (t : store.State)
        → clock.waits s < rounds
        → returns_status (serve_listening sv rounds local_device_id l (s, t)).0 ≡ true
    unfolding serve_listening
    serve_listening-returns rounds local_device_id l s t w =
        let started = scope_started options.advertise _ s in
        serve_started-returns rounds l _ _ started.0 (omega (arith, started.1))

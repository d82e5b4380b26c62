-- ===== src/Server/Rounds.antt =====
-- The rule of the loop of `serve_sync_server`.
use stmanager.Prelude.{ℕ, zero, suc}
use stmanager.Status.{Result, ok, err, looping}
use stmanager.Wire.Socket.{Socket}
use stmanager.Server.Serve.{
  Round, goes_on, breaks, held, fails, ServeSetup, serve_round, serve_loop,
}
use stmanager.Sockets.Calls.{SocketCalls}

module _ {k : Socket} {calls : SocketCalls k} (sv : ServeSetup calls)
    (I : ℕ → calls.State × sv.store.State → Type 0)
    (Q : Result (Unit {0}) × (calls.State × sv.store.State) → Type 0) where
  -- A round that goes on leaves what the rounds after it need, any other has the result.
  abbrev pub RoundHolds : ℕ → Round × (calls.State × sv.store.State) → Type 0
  RoundHolds n (goes_on, x) = I n x
  RoundHolds n (breaks, x) = Q (ok tt, x)
  RoundHolds n (held, x) = Q (looping, x)
  RoundHolds n (fails e, x) = Q (err e, x)

  pub serve_loop-holds :
      (listen_fd : ℕ)
      → ((x : calls.State × sv.store.State) → I 0 x → Q (looping, x))
      → ((n : ℕ) (x : calls.State × sv.store.State)
          → I (suc n) x
          → RoundHolds n (serve_round sv listen_fd x))
      → (rounds : ℕ) (x : calls.State × sv.store.State) → I rounds x
      → Q (serve_loop sv rounds listen_fd x)
  unfolding serve_loop
  serve_loop-holds listen_fd out step zero x i = out x i
  serve_loop-holds listen_fd out step (suc rounds) x i =
      after (serve_loop-holds listen_fd out step rounds) (serve_round sv listen_fd x).0
        (serve_round sv listen_fd x).1 (step rounds x i)
    where
      after :
          ((x : calls.State × sv.store.State) → I rounds x → Q (serve_loop sv rounds listen_fd x))
          → (r : Round) (x : calls.State × sv.store.State) → RoundHolds rounds (r, x)
          → Q (elim r as (λ _. Result (Unit {0}) × (calls.State × sv.store.State)) [
            | goes_on ↦ serve_loop sv rounds listen_fd x
            | breaks ↦ (ok tt, x)
            | held ↦ (looping, x)
            | fails e ↦ (err e, x)
          ])
      after later goes_on x h = later x h
      after later breaks x h = h
      after later held x h = h
      after later (fails e) x h = h

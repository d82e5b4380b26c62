-- ===== src/Manager/Serving.antt =====
-- What `Manager::serve_sync` returns, and what its worker does to the trusted devices.
use stmanager.Prelude.{ℕ, Text, Bool, true, false, arith, ◌≡◌, ◌≢◌, refl, [], Option, none, some}
use stmanager.Status.{Status, Result, ok, err, looping, threw}
use stmanager.Wire.Socket.{Socket}
use stmanager.Sockets.Calls.{SocketCalls}
use stmanager.Client.Branches.{returns_status}
use stmanager.Server.Serve.{ServeSetup}
use stmanager.Server.Kept.{Reloads, NoCodeAccepted, serve_sync_server-Reloads}
use stmanager.Task.Handle.{serve, returns, start, make_finished_sync_task, wait_section, is_running}
use stmanager.Task.Threads.{created, started, fresh, Reach, here, next}
use stmanager.Manager.State.{Manager, ensure_initialized}
use stmanager.Manager.Serve.{
  ServeSyncOptions, task_device_info, serving_setup, run_server, Serving, started_serving,
  serve_initialized, serve_sync,
}

module _ {k : Socket} {calls : SocketCalls k} (sv : ServeSetup calls) (C : Type 0) (m : Manager)
    (options : ServeSyncOptions) where
  open sv use {store}

  -- A handle of a task that has ended with the status that kept the manager from serving; or of one
  -- at the start of its life, and a worker function that only loads the trusted devices.
  pub data ServeOutcome (rounds : ℕ) : Result (Serving C _) → Type 0 where
    refused :
        {r : Serving C _} (e : Status)
        → ensure_initialized m ≡ err e
        → r.worker_fn ≡ none
        → is_running r.threads.task ≡ false
        → ((own : Bool) → wait_section own r.threads.task ≡ (returns e, r.threads.task))
        → ServeOutcome rounds (ok r)
    serving :
        {r : Serving C _}
        → ensure_initialized m ≡ ok tt
        → Reach (fresh serve (task_device_info m options)) r.threads
        → r.threads.worker ≡ created
        → r.worker_fn ≡ some (run_server m options sv rounds)
        → ((s : calls.State) (t : store.State) (endpoint : Option (Text × ℕ))
            → Reloads store t (run_server m options sv rounds (s, t, endpoint)).1.1)
        → ServeOutcome rounds (ok r)

  ensure_initialized-returns : returns_status (ensure_initialized m) ≡ true
  unfolding ensure_initialized
  ensure_initialized-returns = ground arith

  module _ (required : options.server_options.pairing_code ≢ [])
      (without : (fd : ℕ) (s : calls.State)
        → NoCodeAccepted (serving_setup m options sv) (calls.accept fd s).0) where
    run_server-Reloads :
        (rounds : ℕ) (s : calls.State) (t : store.State) (endpoint : Option (Text × ℕ))
        → Reloads store t (run_server m options sv rounds (s, t, endpoint)).1.1
    unfolding run_server
    run_server-Reloads rounds s t endpoint =
        serve_sync_server-Reloads (serving_setup m options sv) required without t rounds
          m.data_manager m.local_device_id s endpoint

    started_serving-Reach :
        (rounds : ℕ)
        → Reach
            (fresh serve (task_device_info m options))
            (started_serving m options sv C rounds).threads
    unfolding started_serving fresh start
    started_serving-Reach rounds = next here (started refl)

    serve_initialized-ServeOutcome :
        (rounds : ℕ) (r : Result (Unit {0}))
        → ensure_initialized m ≡ r
        → returns_status r ≡ true
        → ServeOutcome rounds (serve_initialized m options sv C rounds r)
    unfolding started_serving make_finished_sync_task is_running wait_section
    serve_initialized-ServeOutcome rounds (ok u) e k =
        serving e (started_serving-Reach rounds) refl refl (run_server-Reloads rounds)
    serve_initialized-ServeOutcome rounds (err f) e k = refused f e refl refl (λ own. refl)
    serve_initialized-ServeOutcome rounds looping e k = cc
    serve_initialized-ServeOutcome rounds (threw what) e k = cc

    -- Where the server is to ask for a pairing code, and whatever the clients send, but for that
    -- code in a request: `serve_sync` returns a handle. If the manager is not initialised, the task
    -- has ended without a thread, and each call of `wait` returns at once why. Else the task is one
    -- at the start of its life, for the device of the manager, and its worker function leaves the
    -- trusted devices as they were, or as they are loaded again from their file.
    pub serve_sync-ServeOutcome :
        (rounds : ℕ) → ServeOutcome rounds (serve_sync m options sv C rounds)
    unfolding serve_sync
    serve_sync-ServeOutcome rounds =
        serve_initialized-ServeOutcome rounds (ensure_initialized m) refl ensure_initialized-returns

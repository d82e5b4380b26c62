-- ===== src/Manager/Serve.antt =====
-- src/sync.cpp: `Manager::serve_sync`. The worker function runs in a set-up of the server
-- (`ServeSetup`), which has the trusted devices of `trusted_store_path`, the backup by the data
-- manager and the task's flag; the options are those of the call.
use stmanager.Prelude.{ℕ, Text, true, false, codes, is_empty, Option, none, some, if◌then◌else◌}
use stmanager.Status.{Result, ok, err, looping, threw, Exec}
use stmanager.Wire.Socket.{Socket}
use stmanager.Client.Pair.{DeviceInfo, with_stage}
use stmanager.Sockets.Calls.{SocketCalls}
use stmanager.Server.Listen.{ServerOptions}
use stmanager.Server.Serve.{ServeSetup, serve_sync_server}
use stmanager.Task.Handle.{serve, start, make_finished_sync_task}
use stmanager.Task.Threads.{not_started, created, Threads, fresh}
use stmanager.Manager.State.{Manager, ensure_initialized}
use stmanager.Manager.Targets.{staged}

pub record ServeSyncOptions : Type 0 where
  pub server_options : ServerOptions
  pub device_name : Text

-- The handle that is returned, and the worker function if a thread was started with it.
pub record Serving (C W : Type 0) : Type 0 where
  pub threads : Threads C
  pub worker_fn : Option W

module _ (m : Manager) (options : ServeSyncOptions) where
  abbrev pub effective_device_name : Text
  effective_device_name =
      if is_empty options.device_name then m.local_device_name else options.device_name

  abbrev pub task_device_info : DeviceInfo
  task_device_info = record {
    device_id = m.local_device_id;
    device_name = effective_device_name;
    host = options.server_options.bind_host;
    port = options.server_options.port;
  }

  abbrev pub named_options : ServerOptions
  named_options = record (options.server_options) {
    advertise_name =
        if is_empty options.server_options.advertise_name
        then effective_device_name
        else options.server_options.advertise_name;
  }

  module _ {k : Socket} {calls : SocketCalls k} (sv : ServeSetup calls) where
    open sv use {store}

    abbrev pub serving_setup : ServeSetup calls
    serving_setup = record sv { options = named_options; has_store = true }

    -- The worker function.
    unfoldable pub run_server : ℕ → Exec (calls.State × store.State × Option (Text × ℕ)) (Unit {0})
    unfolding serve_sync_server with_stage
    run_server rounds x =
        let (r, y) = serve_sync_server serving_setup rounds m.data_manager m.local_device_id x in
        (staged (codes "serve.server.run") r, y)

    module _ (C : Type 0) where
      abbrev pub Served : Type 0
      Served = Serving C (Exec (calls.State × store.State × Option (Text × ℕ)) (Unit {0}))

      unfoldable pub started_serving : ℕ → Served
      unfolding fresh start run_server
      started_serving rounds =
          let t = fresh serve task_device_info in
          record {
            threads = record t { task = start t.task; worker = created };
            worker_fn = some (run_server rounds);
          }

      abbrev pub serve_initialized : ℕ → Result (Unit {0}) → Result Served
      unfolding make_finished_sync_task started_serving
      serve_initialized rounds (ok u) = ok (started_serving rounds)
      serve_initialized rounds (err e) = ok (record {
        threads = record {
          task = make_finished_sync_task serve m.local_device_id effective_device_name e;
          worker = not_started;
          joiner = false;
        };
        worker_fn = none;
      })
      serve_initialized rounds looping = looping
      serve_initialized rounds (threw what) = threw what

      unfoldable pub serve_sync : ℕ → Result Served
      unfolding ensure_initialized
      serve_sync rounds = serve_initialized rounds (ensure_initialized m)

-- ===== src/Tests/Servers.antt =====
-- The theorems of the sockets and of the whole server, over a network with one kind of client.
use stmanager.Prelude.{
  ℕ, ◌+◌, ◌-◌, if◌then◌else◌, true, codes, text_eq, none, some, List, [], ◌∷◌, ◌==◌, ◌≡◌, refl,
  arith,
}
use stmanager.Prelude.Int.{pos}
use stmanager.Status.{ok, status, ok_code}
use stmanager.Json.{find, find_member, value_string}
use stmanager.DataManager.{DataManager, is_valid}
use stmanager.TrustedDevices.Store.{store_json}
use stmanager.Client.Branches.{returns_status}
use stmanager.Wire.Words.{read_u32, host_value}
use stmanager.Wire.Transfer.{read_all}
use stmanager.Wire.Frames.{receive_framed_string}
use stmanager.Server.Requests.{handle_client_connection, handle_request, serve_client}
use stmanager.Server.Listen.{ServerOptions, create_listen_socket}
use stmanager.Server.Serve.{
  Responder, ServeSetup, client_setup, serve_listening, serve_sync_server, serve_bound, serve_loop,
  serve_round,
}
use stmanager.Server.Released.{QuietResponder, serve_sync_server-releases}
use stmanager.Server.Stopped.{StopClock, serve_listening-returns}
use stmanager.Manager.Serve.{ServeSyncOptions, serve_sync}
use stmanager.Manager.Serving.{ServeOutcome, serve_sync-ServeOutcome}
use stmanager.Sockets.Calls.{
  inet, addresses, descriptor, connected, accepted, readable, named, SocketCalls,
}
use stmanager.Sockets.Table.{DescriptorTable, without}
use stmanager.Sockets.Tcp.{new_transport, connect}
use stmanager.Sockets.Owned.{ConnectOutcome, connect-ConnectOutcome}
use stmanager.Tests.Memory.{memory_socket, memory_json}
use stmanager.Tests.Requests.{store, devices, no_code}
use stmanager.Tests.Sessions.{peer, ready_manager}

-- The descriptors that are open, and how often the server still waits before it is stopped. Each
-- client sends a message of one byte.
abbrev network : SocketCalls memory_socket
network = record {
  State = List ℕ × ℕ;
  Address = ℕ;
  getaddrinfo = λ h p s. (addresses (1 ∷ 2 ∷ []), s);
  socket = λ a s. (descriptor (a + 2), ((a + 2) ∷ s.0, s.1));
  set_reuse_address = λ fd s. s;
  bind = λ fd a s. (if a == 1 then some 98 else none, s);
  listen = λ fd n s. (none, s);
  connect = λ fd a s. (connected ([], []), s);
  getsockname =
      λ s fd. named (record { family = inet; port = 80; numeric_host = some (codes "0.0.0.0") });
  select_readable = λ fd ms s. (readable, (s.0, s.1 - 1));
  accept = λ fd s. (accepted 9 (0 ∷ 0 ∷ 0 ∷ 1 ∷ b'x' ∷ [], []), (9 ∷ s.0, s.1));
  close = λ fd s. (without fd s.0, s.1);
  datagram_socket = λ s. (descriptor 5, (5 ∷ s.0, s.1));
  connect_probe = λ fd s. (true, s);
  interfaces = λ s. none;
  strerror = λ errno. [];
  int_to_string = λ n. [];
}

abbrev table : DescriptorTable network
table = record {
  open_fds = λ s. s.0;
  resolving = λ h p s. refl;
  opening = λ a s. refl;
  reusing = λ fd s. refl;
  binding = λ fd a s. refl;
  listening = λ fd n s. refl;
  connecting = λ fd a s. refl;
  selecting = λ fd ms s. refl;
  accepting = λ fd s. refl;
  closing = λ fd s. refl;
  probing = λ s. refl;
  probed = λ fd s. refl;
}

connect-ConnectOutcome_example :
    ConnectOutcome table (4 ∷ []) (connect network peer (new_transport network (4 ∷ [], 0)))
unfolding new_transport
connect-ConnectOutcome_example =
    connect-ConnectOutcome table (4 ∷ []) peer (new_transport network (4 ∷ [], 0)) refl

abbrev silent : Responder network
silent = record { start = λ d s. (ok tt, s); stop = λ s. (ok tt, s) }

abbrev silent-quiet : QuietResponder table silent
silent-quiet = record { starting = λ d s. refl; stopping = λ s. refl }

abbrev with_code : ServerOptions
with_code = record {
  bind_host = [];
  port = pos 0;
  pairing_code = b'7' ∷ [];
  advertise = true;
  advertise_name = [];
}

abbrev serve_setup : ServeSetup network
serve_setup = record {
  lib = memory_json;
  fuel = 9;
  store = devices;
  responder = silent;
  options = with_code;
  server_build = [];
  has_store = true;
  backup = λ s. ok (codes "zip");
  stop_requested = λ s. s.1 == 0;
}

abbrev manager : DataManager
manager = record {
  root_path = [];
  extensions_path = [];
  data_path = [];
  manager_status = status ok_code [];
}

serve_run :
    returns_status (serve_sync_server serve_setup 3 manager (codes "s") (([], 2), store, none)).0
    ≡ true
unfolding serve_sync_server serve_bound serve_listening serve_loop serve_round create_listen_socket
    handle_client_connection serve_client handle_request receive_framed_string value_string find
    find_member text_eq codes store_json is_valid read_u32 read_all host_value
serve_run = refl

serve_sync_server-releases_example :
    (serve_sync_server serve_setup 3 manager (codes "s") (([], 2), store, none)).1.0.0 ≡ []
serve_sync_server-releases_example =
    serve_sync_server-releases table serve_setup silent-quiet 3 manager (codes "s")
      (([], 2), store, none) serve_run

abbrev clock : StopClock serve_setup
clock = record {
  waits = λ s. s.1;
  stopped = λ s e. rw e refl;
  selecting = λ fd ms s. omega arith;
  accepting = λ fd s. omega arith;
  closing = λ fd s. omega arith;
  starting = λ d s. omega arith;
  starts = λ d s. refl;
  stops = λ s. refl;
}

client_ends :
    (s : List ℕ × ℕ) (t : devices.State)
    → returns_status
        (handle_client_connection memory_json memory_socket 9 devices
          (client_setup serve_setup s)
          ((0 ∷ 0 ∷ 0 ∷ 1 ∷ b'x' ∷ [], []), t)).0
      ≡ true
unfolding handle_client_connection serve_client handle_request receive_framed_string value_string
    find find_member text_eq codes store_json read_u32 read_all host_value
client_ends s t = refl

serve_listening-returns_example :
    returns_status
      (serve_listening serve_setup 3
        (codes "s")
        (record { listen_fd = 3; bound_port = 80; bound_host = [] })
        ((3 ∷ [], 2), store)).0
    ≡ true
serve_listening-returns_example =
    serve_listening-returns serve_setup clock (λ fd s t e. cc (client_ends (9 ∷ s.0, s.1) t)) 3
      (codes "s") (record { listen_fd = 3; bound_port = 80; bound_host = [] }) (3 ∷ [], 2) store
      (omega arith)

abbrev serve_options : ServeSyncOptions
serve_options = record { server_options = with_code; device_name = [] }

serve_sync-ServeOutcome_example :
    ServeOutcome serve_setup ℕ ready_manager serve_options 3
      (serve_sync ready_manager serve_options serve_setup ℕ 3)
serve_sync-ServeOutcome_example =
    serve_sync-ServeOutcome serve_setup ℕ ready_manager serve_options (λ e. cc) (λ fd s. no_code) 3

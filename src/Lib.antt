-- ===== src/Lib.antt =====
-- STManager backs up, restores, syncs and updates SillyTavern data directories (a C++ library and
-- a command line). These modules model its parts and prove what they promise.
--
-- Parts and files. The C++ sources stand in src/, include/STManager/ and cli/.
-- The module Status: `Status` and `StatusCode` of include/STManager/data.h. A function that
--   returns a status and writes outputs is an action of `Exec S A`: a result beside the state it
--   leaves. `err` is a status that is not ok, `threw` an exception that leaves the function,
--   `looping` fuel that ran out. What was changed before an error stays changed.
-- The module PathSafety: src/path_safety.cpp. Paths are lists of bytes. Paths holds `split_path`,
--   `join_path`, `validate_archive_relative_path` and `join_destination_path`; Ensure the walks that
--   make directories, over an operating system (Disk) that is a parameter; Location and Guarantees
--   the proofs.
-- The module Wire: the protocol functions of src/tcp_transport.cpp. Transfer has the loops around
--   `send` and `recv`, Words the integers in network order, Frames the messages and streams with a
--   length in front. The socket is a parameter; `IsReliable` says that a connection delivers in
--   order, in pieces of any size, and interrupts a call finitely often. The fuel of a loop counts
--   its calls. Fuel of the bytes to move plus the interrupts to come is enough, since every call
--   that is not interrupted moves a byte.
-- The module Sha256: the class `Sha256Context` of src/raze_update.cpp, on 32-bit words kept below
--   2 ^ 32. Padding has the description that it is compared with: the padded message, cut into
--   blocks.
-- The module Json: the values and calls of nlohmann::json. Parsing and printing are parameters;
--   the members of an object stand in the order of their names.
-- The module TrustedDevices: src/trusted_device_store.cpp and the class `JsonTrustedDeviceStore`
--   of src/sync.cpp. `TrustStore` is the interface `ITrustedDeviceStore`, which the server uses.
-- The module Sockets: the class `TcpSyncTransport` of src/tcp_transport.cpp (Tcp) over the socket
--   calls (Calls). Table says which descriptors are open, Owned has the proof. A connection's state
--   is apart from the state of the other sockets.
-- The module Server: src/sync_server.cpp. Listen has `create_listen_socket`, Serve
--   `serve_sync_server` with its loop, Replies what is sent, Requests `handle_pair_request`,
--   `handle_auth_request` and `handle_client_connection`. Bound, Rounds, Released, Stopped, Kept,
--   Trust, Archive, Delivery and Pairing have the proofs. The backup is a parameter, as it is made
--   by the archive code, and so is the responder of the discovery. The loop's fuel is its rounds,
--   of which each waits once.
-- The module Raze: src/raze_update.cpp but for Sha256. Types has the structs of
--   include/STManager/raze_update.h and `std::map` as an association list, Releases
--   `parse_release_json`, Manifests `parse_raze_version_manifest`, Plan `plan_raze_package_updates`,
--   Verify `compute_file_sha256` and `verify_raze_package_file`; Checks, PlanLaws, Planning and
--   ManifestLaws the proofs. Reading a file is a parameter. The loop that hashes a file has as many
--   rounds as the file has bytes, and each takes at least one.
-- The module Protocol: src/sync_protocol.cpp, the client's messages (Messages), and that client
--   and server read what the other one writes (Meeting).
-- The module Client: the class `SyncManager` of src/sync.cpp, over the interfaces `ISyncTransport`,
--   `IDeviceDiscovery` and `ITrustedDeviceStore`. Pair has `pair_device`, Sync the other methods;
--   Branches, Grants, Pulls and Links the proofs.
-- The module Task: the class `SyncTaskHandle` and its Impl of src/sync.cpp. Handle has a function for
--   each critical section under the mutex, Threads the worker and its callers as a step relation:
--   a step is one section or one atomic store. Reached, Ends and Promise have the proofs. The
--   worker function is any, with any status if it returns; nothing says that it does.
-- The module DataManager: the class `DataManager` of src/data.cpp, and src/locate.cpp (Locate).
-- The module Manager: the class `Manager` of src/sync.cpp. State has `initialize_from_root` and
--   `ensure_initialized`, Targets `resolve_pair_target`, PairSync `pair_sync`, Serve `serve_sync`,
--   whose worker is the whole server; Chosen, Restored, Unremembered, Ready and Serving have the
--   proofs. Counting is the class `CountingOutputStreamBuf`, with which an export counts its bytes,
--   over any stream buffer; Counted has the proof. Outputs that are NULL are left out, as is what
--   an error leaves in an output.
-- The module Files: src/fs_ops.cpp, over the calls of the operating system (Calls): Copy, Remove
--   and Move. `rounds` and `depth` are the fuel of the loops and of the recursions: more rounds than
--   calls of `read` and `write`, and more depth than the tree has levels.
-- The module Archive: src/archive_stream.cpp. Entries has `extract_archive_to_directory`, over
--   libarchive as a parameter, Targets `restore_from_staging_directory` with its rollback, over the
--   functions of Files (`Tree`), Restore `restore_backup_archive`. Temp has
--   `create_temp_archive_file_path`, Write the entries of an archive, Backup `write_backup_archive`
--   and `validate_backup_archive`; Implementation gives the backup and the restoration to the
--   DataManager. Places has what a restoration relies on (`IsAtomic`), Slots and Atomic that
--   src/fs_ops.cpp gives it, on one device, by what the operating system does (`IsSlotted`),
--   Rollback, Kept, Survived, Installed and Replaced the proofs of a restoration; Touches, Walks
--   and Confined those of where an extraction writes, Answers, Rounds and Ends that it ends;
--   Cleared that of the temporary archive. The extraction has two numbers for fuel, the entries of
--   the archive and the rounds of the loops of one entry; Ends has how many are enough.
-- The module GitManifest: src/git_manifest.cpp. Config has `parse_origin_url_from_git_config` over
--   the lines of a file, Extensions the other functions; Lines says what the lines are, OriginUrl
--   has the proof.
-- The module FdStream: src/fd_stream.cpp (Buffers), and what `xsputn` reports against what the
--   descriptor got (Accounts).
-- The module CommandLine: cli/cli_args.cpp. Args has the structs of cli/cli_args.h, Parser
--   `parse_cli_args`; the loop that each command has is written once, over the flags of the command.
--   `strtol` is a parameter. Laws and Lines have the proofs.
-- The module Tests: concrete runs and examples.
--
-- The parts interact as the code's calls do: the server takes a TrustStore, a connection and the
-- archive code's backup; the update part hashes files by Sha256; the manager makes a SyncManager
-- and pulls through it, over the DataManager, which calls the archive code.
--
-- Not modelled: libarchive, mDNS discovery, HTTP (libcurl), Windows variants, failure of memory. Where such code is
-- called, it is a parameter.
pub mod Prelude
pub mod Status
pub mod PathSafety
pub mod Wire
pub mod Sha256
pub mod Json
pub mod TrustedDevices
pub mod Server
pub mod Raze
pub mod CommandLine
pub mod Protocol
pub mod Client
pub mod Task
pub mod DataManager
pub mod Manager
pub mod Files
pub mod Archive
pub mod GitManifest
pub mod FdStream
pub mod Sockets
pub mod Tests

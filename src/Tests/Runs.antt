-- ===== src/Tests/Runs.antt =====
-- The hash of the standard's first example, and the theorems at concrete data.
use mathlib.Core.List.{foldl, reverse}
use stmanager.Prelude.{
  ℕ, Text, codes, text_eq, false, [], ◌∷◌, ◌++◌, ◌≡◌, refl, arith, replicate, length,
  length-replicate,
}
use stmanager.Status.{Result, ok}
use stmanager.PathSafety.Paths.{
  split_path, join_path, join_destination_path, validate_archive_relative_path, validate_parts,
  is_forbidden,
}
use stmanager.PathSafety.Ensure.{
  ensure_archive_entry_directory_impl, ensure_component, entry_loop, create_directory,
}
use stmanager.PathSafety.Location.{names, location, join_destination_path-location}
use stmanager.PathSafety.Guarantees.{
  AllDirectories, walked, ensure_archive_entry_directory_impl-AllDirectories,
}
use stmanager.Wire.Frames.{
  send_framed_string, receive_framed_string, send_framed_stream, receive_framed_stream,
}
use stmanager.Wire.Runs.{in_stream}
use stmanager.Wire.Agreement.{
  receive_framed_string-send_framed_string, receive_framed_stream-send_framed_stream,
}
use stmanager.Sha256.Context.{new_context, update, update_byte, final_hash}
use stmanager.Sha256.Compress.{compress}
use stmanager.Sha256.Padding.{digest}
use stmanager.Sha256.Digest.{final_hash-update}
use stmanager.TrustedDevices.Store.{JsonStore, load_trusted_device_ids, save_trusted_device_ids}
use stmanager.TrustedDevices.Persistence.{load-save}
use stmanager.Tests.Memory.{
  memory_disk, memory_disk-IsPosix, memory_socket, memory_view, memory_view-IsReliable,
  memory_stream, memory_stream-IsStoring, memory_files, memory_files-IsFaithful, memory_json,
  memory_json-IsRoundTrip, probe, is_made, print_one,
}

hash_abc :
    final_hash (update new_context (97 ∷ 98 ∷ 99 ∷ []))
    ≡ 0xba ∷ 0x78 ∷ 0x16 ∷ 0xbf ∷ 0x8f ∷ 0x01 ∷ 0xcf ∷ 0xea ∷ 0x41 ∷ 0x41 ∷ 0x40 ∷ 0xde ∷ 0x5d
      ∷ 0xae ∷ 0x22 ∷ 0x23 ∷ 0xb0 ∷ 0x03 ∷ 0x61 ∷ 0xa3 ∷ 0x96 ∷ 0x17 ∷ 0x7a ∷ 0x9c ∷ 0xb4 ∷ 0x10
      ∷ 0xff ∷ 0x61 ∷ 0xf2 ∷ 0x00 ∷ 0x15 ∷ 0xad ∷ []
unfolding final_hash update update_byte new_context compress
hash_abc = refl

final_hash-update_example :
    final_hash (foldl update new_context ((97 ∷ []) ∷ [] ∷ (98 ∷ 99 ∷ []) ∷ []))
    ≡ digest (97 ∷ 98 ∷ 99 ∷ [])
final_hash-update_example = final_hash-update ((97 ∷ []) ∷ [] ∷ (98 ∷ 99 ∷ []) ∷ [])

abbrev root : Text
root = b'r' ∷ []

abbrev entry : Text
entry = b'a' ∷ b'/' ∷ b'b' ∷ []

entry_joined : join_destination_path root entry ≡ ok (b'r' ∷ b'/' ∷ b'a' ∷ b'/' ∷ b'b' ∷ [])
unfolding join_destination_path join_path validate_archive_relative_path codes text_eq split_path
    validate_parts is_forbidden
entry_joined = refl

join_destination_path-location_example :
    location (b'r' ∷ b'/' ∷ b'a' ∷ b'/' ∷ b'b' ∷ [])
    ≡ reverse (names (split_path entry)) ++ location root
join_destination_path-location_example =
    join_destination_path-location root entry (b'r' ∷ b'/' ∷ b'a' ∷ b'/' ∷ b'b' ∷ []) entry_joined

parents_made : (ensure_archive_entry_directory_impl memory_disk root entry 0o755 false []).0 ≡ ok tt
unfolding ensure_archive_entry_directory_impl validate_archive_relative_path entry_loop
    ensure_component create_directory join_path codes text_eq split_path validate_parts probe
    is_forbidden is_made
parents_made = refl

ensure_archive_entry_directory_impl-AllDirectories_example :
    AllDirectories memory_disk
      (ensure_archive_entry_directory_impl memory_disk root entry 0o755 false []).1
      root
      (names (walked memory_disk false (split_path entry)))
ensure_archive_entry_directory_impl-AllDirectories_example =
    ensure_archive_entry_directory_impl-AllDirectories memory_disk memory_disk-IsPosix 0o755 root
      entry false [] parents_made

abbrev store : JsonStore memory_files
store = record { path = codes "ids.json"; ids = entry ∷ []; disk = [] }

abbrev stored : Result (Unit {0}) × JsonStore memory_files
stored = save_trusted_device_ids memory_json memory_files store

store_saved : stored.0 ≡ ok tt
unfolding save_trusted_device_ids print_one text_eq codes
store_saved = refl

load-save_example :
    load_trusted_device_ids memory_json memory_files (record (stored.1) { ids = [] })
      ≡ (ok tt, stored.1)
    × (stored.1.ids ≡ entry ∷ [])
load-save_example =
    load-save memory_json memory_files store [] memory_json-IsRoundTrip memory_files-IsFaithful
      store_saved

abbrev hello : Text
hello = b'h' ∷ b'i' ∷ []

-- What a connection with nothing on it has sent after a message, and a connection that receives
-- it, with an `x` behind it.
abbrev wire_after : Text → Text
wire_after message = (send_framed_string memory_socket 9 message ([], [])).1.1 ++ b'x' ∷ []

receive_framed_string-send_framed_string_example :
    ((send_framed_string memory_socket 9 hello ([], [])).0 ≡ ok tt)
    × ((receive_framed_string memory_socket 9 (wire_after hello, [])).0 ≡ ok hello)
    × ((receive_framed_string memory_socket 9 (wire_after hello, [])).1.0 ≡ b'x' ∷ [])
receive_framed_string-send_framed_string_example =
    receive_framed_string-send_framed_string memory_view memory_view 9 hello (b'x' ∷ []) ([], [])
      (wire_after hello, []) memory_view-IsReliable memory_view-IsReliable (omega arith)
      (omega arith) (omega arith) refl

long_message : Text
long_message = replicate 1048577 0

length-long_message : length long_message ≡ 1048577
unfolding long_message
length-long_message = length-replicate {0} {A = ℕ} 1048577 0

abbrev long_wire : Text
long_wire = (send_framed_string memory_socket 1048581 long_message ([], [])).1.1 ++ b'x' ∷ []

abbrev stream_wire : Text
stream_wire = (send_framed_stream memory_socket 10 (in_stream hello) ([], [])).1.1 ++ b'x' ∷ []

receive_framed_stream-send_framed_stream_example :
    ((send_framed_stream memory_socket 10 (in_stream hello) ([], [])).0 ≡ ok tt)
    × ((receive_framed_stream memory_socket 10 memory_stream ((stream_wire, []), [])).0 ≡ ok tt)
    × ((receive_framed_stream memory_socket 10 memory_stream ((stream_wire, []), [])).1.1 ≡ hello)
    × ((receive_framed_stream memory_socket 10 memory_stream ((stream_wire, []), [])).1.0.0
        ≡ b'x' ∷ [])
receive_framed_stream-send_framed_stream_example =
    receive_framed_stream-send_framed_stream memory_view memory_view memory_stream
      memory_stream-IsStoring 10 hello (b'x' ∷ []) ([], []) (stream_wire, []) []
      memory_view-IsReliable memory_view-IsReliable (omega arith) (omega arith) (omega arith) refl

-- ===== src/Tests/Requests.antt =====
-- The server's theorems at concrete requests.
use stmanager.Prelude.{
  ℕ, Text, Option, none, codes, text_eq, text_eq_sound, true, false, ◌&&◌, if◌then◌else◌, sym, some,
  [], ◌∷◌, ◌++◌, ◌≡◌, ◌≢◌, inr, refl, ap, subst, length, arith,
}
use stmanager.Status.{Result, ok}
use stmanager.Json.{
  Json, null, boolean, number, array, object, member, none_left, string, JsonLibrary, IsRoundTrip,
  find, find_member, value_string, value_boolean,
}
use stmanager.Wire.Frames.{receive_framed_string, receive_framed_stream}
use stmanager.TrustedDevices.Store.{
  JsonStore, TrustStore, json_trusted_device_store, load_trusted_device_ids,
  save_trusted_device_ids, json_is_trusted, ids_of_json, store_json, items_of, string_items,
  write_printed,
}
use stmanager.TrustedDevices.Ids.{contains_device_id, add_device_id}
use stmanager.Server.Replies.{response_json}
use stmanager.Protocol.Messages.{parse_pair_response_message}
use stmanager.Server.Requests.{ServerSetup, handle_pair_request, handle_auth_request}
use stmanager.Server.Archive.{MaySend, AuthOutcome, handle_auth_request-AuthOutcome}
use stmanager.Server.Delivery.{handle_auth_request-delivers}
use stmanager.Server.Pairing.{MayPair, handle_pair_request-trusts}
use stmanager.Tests.Memory.{
  memory_socket, memory_view, memory_view-IsReliable, memory_stream, memory_stream-IsStoring,
  memory_files, memory_files-IsFaithful, memory_json, memory_json-IsRoundTrip, print_one,
  without_last,
}

abbrev setup : ServerSetup
setup = record {
  server_build = [];
  pairing_code = b'7' ∷ [];
  has_store = true;
  backup = ok (b'z' ∷ b'i' ∷ b'p' ∷ []);
}

abbrev phone : Text
phone = b'p' ∷ []

-- A request with a device and one more field.
abbrev request : Text → Text → Json
request name value =
    object (member (codes "device_id") (string phone) (member name (string value) none_left))

-- A store whose file names the phone.
abbrev pub store : JsonStore memory_files
store = record { path = []; ids = []; disk = b'p' ∷ 10 ∷ [] }

abbrev pub devices : TrustStore
devices = json_trusted_device_store memory_json memory_files

wrong_code :
    value_string memory_json
      (codes "pairing_code")
      []
      (request (codes "pairing_code") (b'7' ∷ b'7' ∷ []))
    ≢ ok (b'7' ∷ [])
unfolding value_string find find_member text_eq codes
wrong_code e = omega (arith, ap tail_of e)
  where
    tail_of : Result Text → ℕ
    tail_of (ok t) = length t
    tail_of _ = 0

-- The message of one byte that the server finds on this connection carries no pairing code.
pub no_code :
    (message : Text) (j : Json)
    → (receive_framed_string memory_socket 9 (0 ∷ 0 ∷ 0 ∷ 1 ∷ b'x' ∷ [], [])).0 ≡ ok message
    → memory_json.parse message ≡ some j
    → value_string memory_json (codes "pairing_code") [] j ≢ ok (b'7' ∷ [])
unfolding value_string find find_member text_eq codes store_json
no_code message j e p q = cc
  where
    same : j ≡ store_json (message ∷ [])
    same = cc

    nothing : value_string memory_json (codes "pairing_code") [] (store_json (message ∷ [])) ≡ ok []
    nothing = refl

    none_given :
        value_string memory_json (codes "pairing_code") [] (store_json (message ∷ []))
        ≡ ok (b'7' ∷ [])
    none_given =
        subst (λ (v : Json). value_string memory_json (codes "pairing_code") [] v ≡ ok (b'7' ∷ []))
          same q

handle_auth_request-AuthOutcome_example :
    AuthOutcome memory_json memory_socket 9 devices setup
      (request (codes "direction") (codes "push"))
      store
      ([], [])
      (handle_auth_request memory_json memory_socket 9 devices setup
        (request (codes "direction") (codes "push"))
        (([], []), store)).1.0
handle_auth_request-AuthOutcome_example =
    handle_auth_request-AuthOutcome memory_json memory_socket 9 devices setup
      (request (codes "direction") (codes "push")) ([], []) store

-- A library that prints every value as two bytes.
abbrev brief_json : JsonLibrary
brief_json = record memory_json { dump = λ j. some (b'o' ∷ b'k' ∷ []) }

abbrev pull : Json
pull = request (codes "direction") (codes "pull")

pull-MaySend :
    MaySend brief_json memory_socket 17
      (json_trusted_device_store brief_json memory_files)
      setup
      pull
      store
      (b'z' ∷ b'i' ∷ b'p' ∷ [])
unfolding value_string find find_member text_eq codes load_trusted_device_ids ids_of_json store_json
    items_of string_items json_is_trusted contains_device_id without_last
pull-MaySend = record {
  device = phone;
  device_named = refl;
  device_given = refl;
  configured = refl;
  loaded = refl;
  trusted = refl;
  pulls = refl;
  backed_up = refl;
  not_empty = refl;
}

abbrev served : Result (Unit {0}) × ((Text × Text) × JsonStore memory_files)
served =
    handle_auth_request brief_json memory_socket 17
      (json_trusted_device_store brief_json memory_files) setup pull (([], []), store)

abbrev answered : Result Text × (Text × Text)
answered = receive_framed_string memory_socket 17 (served.1.0.1 ++ b'x' ∷ [], [])

abbrev archive_received : Result (Unit {0}) × ((Text × Text) × Text)
archive_received = receive_framed_stream memory_socket 17 memory_stream (answered.1, [])

handle_auth_request-delivers_example :
    (served.0 ≡ ok tt)
    × (answered.0 ≡ ok (b'o' ∷ b'k' ∷ []))
    × (archive_received.0 ≡ ok tt)
    × (archive_received.1.1 ≡ b'z' ∷ b'i' ∷ b'p' ∷ [])
    × (archive_received.1.0.0 ≡ b'x' ∷ [])
handle_auth_request-delivers_example =
    handle_auth_request-delivers memory_view memory_view memory_stream memory_stream-IsStoring 17
      brief_json (json_trusted_device_store brief_json memory_files) setup pull
      (b'z' ∷ b'i' ∷ b'p' ∷ []) (b'o' ∷ b'k' ∷ []) (b'x' ∷ []) ([], []) store
      (served.1.0.1 ++ b'x' ∷ [], []) [] memory_view-IsReliable memory_view-IsReliable pull-MaySend
      refl (omega arith) (omega arith) (omega arith) (omega arith) refl

abbrev pair : Json
pair = request (codes "pairing_code") (b'7' ∷ [])

-- A store with no file yet.
abbrev new_store : JsonStore memory_files
new_store = record { path = []; ids = []; disk = b'p' ∷ 10 ∷ [] }

-- A library that knows how to print an acceptance, as its type.
unfoldable print_answer : Json → Option Text
print_answer (object (member key (boolean true) (member kind (string value) none_left))) =
    if text_eq key (codes "ok") && text_eq kind (codes "type") then some value else none
print_answer _ = none

abbrev pairing_json : JsonLibrary
pairing_json = record memory_json {
  parse = λ t. some (response_json t true []);
  dump = print_answer;
}

print_answer_sound : (j : Json) (t : Text) → print_answer j ≡ some t → j ≡ response_json t true []
unfolding print_answer response_json
print_answer_sound null t h = cc
print_answer_sound (boolean b) t h = cc
print_answer_sound (number n) t h = cc
print_answer_sound (string u) t h = cc
print_answer_sound (array items) t h = cc
print_answer_sound (object none_left) t h = cc
print_answer_sound (object (member key null rest)) t h = cc
print_answer_sound (object (member key (boolean false) rest)) t h = cc
print_answer_sound (object (member key (number n) rest)) t h = cc
print_answer_sound (object (member key (string u) rest)) t h = cc
print_answer_sound (object (member key (array a) rest)) t h = cc
print_answer_sound (object (member key (object m) rest)) t h = cc
print_answer_sound (object (member key (boolean true) none_left)) t h = cc
print_answer_sound (object (member key (boolean true) (member kind null rest))) t h = cc
print_answer_sound (object (member key (boolean true) (member kind (boolean b) rest))) t h = cc
print_answer_sound (object (member key (boolean true) (member kind (number n) rest))) t h = cc
print_answer_sound (object (member key (boolean true) (member kind (array a) rest))) t h = cc
print_answer_sound (object (member key (boolean true) (member kind (object m) rest))) t h = cc
print_answer_sound (object (member key (boolean true) (member kind (string u) (member k v rest)))) t
      h =
    cc
print_answer_sound (object (member key (boolean true) (member kind (string u) none_left))) t h =
    ground (arith, text_eq_sound key (codes "ok"), text_eq_sound kind (codes "type"))

pairing_json-IsRoundTrip : IsRoundTrip pairing_json
pairing_json-IsRoundTrip = record {
  parse-dump = λ j t ordered h. ap some (sym (print_answer_sound j t h));
  read_value-dump_indented = memory_json-IsRoundTrip.read_value-dump_indented;
}

pair-MayPair : MayPair pairing_json memory_files memory_socket 17 setup pair new_store phone
unfolding value_string value_boolean find find_member text_eq codes load_trusted_device_ids
    save_trusted_device_ids write_printed ids_of_json store_json items_of string_items add_device_id
    contains_device_id without_last print_one
pair-MayPair = record {
  code = b'7' ∷ [];
  device_named = refl;
  code_given = refl;
  remembered = refl;
  device_given = refl;
  code_right = inr refl;
  configured = refl;
  loads = refl;
  saves = refl;
}

abbrev pair_answered : Result (Unit {0}) × ((Text × Text) × JsonStore memory_files)
pair_answered =
    handle_pair_request pairing_json memory_socket 17
      (json_trusted_device_store pairing_json memory_files) setup pair (([], []), new_store)

acceptance_printed :
    pairing_json.dump (response_json (codes "pair_response") true []) ≡ some (codes "pair_response")
unfolding print_answer response_json text_eq codes
acceptance_printed = refl

handle_pair_request-trusts_example :
    (pair_answered.0 ≡ ok tt)
    × ((receive_framed_string memory_socket 17 (pair_answered.1.0.1 ++ b'x' ∷ [], [])).0
        ≡ ok (codes "pair_response"))
    × (parse_pair_response_message pairing_json (codes "pair_response") ≡ ok (true, []))
    × (json_is_trusted pairing_json memory_files pair_answered.1.1 phone ≡ true)
    × (json_is_trusted pairing_json memory_files
          (load_trusted_device_ids pairing_json memory_files
            (record (pair_answered.1.1) { ids = [] })).1
          phone
        ≡ true)
unfolding codes
handle_pair_request-trusts_example =
    handle_pair_request-trusts memory_view memory_view pairing_json memory_files 17 setup pair phone
      (codes "pair_response") (b'x' ∷ []) ([], []) (pair_answered.1.0.1 ++ b'x' ∷ [], []) new_store
      [] memory_view-IsReliable memory_view-IsReliable pairing_json-IsRoundTrip
      memory_files-IsFaithful pair-MayPair acceptance_printed (omega arith) (omega arith)
      (omega arith) refl

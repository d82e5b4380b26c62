-- ===== src/Tests/Memory.antt =====
-- A disk, a connection, a file system and a JSON library that keep all they have in lists.
use stmanager.Prelude.{
  ℕ, Text, Bool, false, text_eq, text_eq_refl, text_eq_sound, codes, Option, none, some, List, [],
  ◌∷◌, ◌++◌, ◌≡◌, refl, sym, ap, arith, length, take, drop, length-take, take-append-drop,
  append-nil, if◌then◌else◌, ◌||◌,
}
use stmanager.PathSafety.Disk.{directory, Probe, found, failed, Disk, IsPosix}
use stmanager.Wire.Socket.{Socket, View, IsReliable, bytes, taken}
use stmanager.Wire.Frames.{OutStream, good}
use stmanager.Wire.Streams.{IsStoring}
use stmanager.TrustedDevices.Files.{FileSystem, IsFaithful, complete}
use stmanager.TrustedDevices.Store.{store_json, ids_key}
use stmanager.Json.{
  Json, null, boolean, number, array, object, string, item, end, member, none_left, JsonLibrary,
  IsRoundTrip,
}

-- The directories that there are.
unfoldable pub is_made : List Text → Text → Bool
is_made [] path = false
is_made (p ∷ ps) path = text_eq p path || is_made ps path

unfoldable pub probe : List Text → Text → Probe
probe s path = if is_made s path then found directory else failed 2

abbrev pub memory_disk : Disk
memory_disk = record {
  State = List Text;
  lstat = probe;
  stat = probe;
  mkdir = λ s path mode. (none, path ∷ s);
  strerror = λ errno. [];
}

pub memory_disk-IsPosix : IsPosix memory_disk
unfolding probe is_made
memory_disk-IsPosix = record {
  lstat-mkdir_self = λ s p mode h. rw (text_eq_refl p) refl;
  lstat-mkdir_found = λ s p q mode t h. ground arith;
}

-- What is still to come, and what was sent.
abbrev pub memory_socket : Socket
memory_socket = record {
  Conn = Text × Text;
  recv = λ c n. (bytes (take n c.0), (drop n c.0, c.1));
  send = λ c b. (taken (length b), (c.0, c.1 ++ b));
}

abbrev pub memory_view : View memory_socket
memory_view = record { stream = λ c. c.0; output = λ c. c.1; interrupts = λ c. 0 }

drop-length : (b : Text) → drop (length b) b ≡ []
drop-length [] = refl
drop-length (x ∷ b) = drop-length b

pub memory_view-IsReliable : IsReliable memory_view
memory_view-IsReliable = record {
  receives = λ c n pos more. (
    omega (arith, length-take n c.0),
    omega (arith, length-take n c.0),
    sym (take-append-drop n c.0),
    omega arith,
    refl,
  );
  sends =
      λ c b pos. (pos, omega arith, rw (drop-length b) (append-nil (c.1 ++ b)), omega arith, refl);
}

abbrev pub memory_stream : OutStream
memory_stream = record { Out = Text; write = λ out t. (good, out ++ t) }

abbrev pub memory_stream-IsStoring : IsStoring memory_stream
memory_stream-IsStoring = record { contents = λ out. out; writes = λ out t. (refl, refl) }

-- A disk with one file.
abbrev pub memory_files : FileSystem
memory_files = record {
  Disk = Text;
  read_file = λ d path. some d;
  write_file = λ d path contents. (complete, contents);
}

pub memory_files-IsFaithful : IsFaithful memory_files
memory_files-IsFaithful = record { read-write = λ d path contents h. refl }

-- A library that knows how to print a list with one device, as the device.
unfoldable pub print_one : Json → Option Text
print_one (object (member key (array (item (string id) end)) none_left)) =
    if text_eq key ids_key then some id else none
print_one _ = none

unfoldable pub without_last : Text → Text
without_last [] = []
without_last (x ∷ []) = []
without_last (x ∷ y ∷ rest) = x ∷ without_last (y ∷ rest)

abbrev pub memory_json : JsonLibrary
memory_json = record {
  parse = λ t. some (store_json (t ∷ []));
  read_value = λ t. some (store_json (without_last t ∷ []));
  dump = print_one;
  dump_indented = print_one;
  what = λ raised. codes "no JSON";
}

without_last-append : (t : Text) (x : ℕ) → without_last (t ++ x ∷ []) ≡ t
unfolding without_last
without_last-append [] x = refl
without_last-append (a ∷ []) x = refl
without_last-append (a ∷ b ∷ t) x = ap (λ r. a ∷ r) (without_last-append (b ∷ t) x)

print_one_sound : (j : Json) (t : Text) → print_one j ≡ some t → j ≡ store_json (t ∷ [])
unfolding print_one store_json
print_one_sound null t h = cc
print_one_sound (boolean b) t h = cc
print_one_sound (number n) t h = cc
print_one_sound (string u) t h = cc
print_one_sound (array items) t h = cc
print_one_sound (object none_left) t h = cc
print_one_sound (object (member key null rest)) t h = cc
print_one_sound (object (member key (boolean b) rest)) t h = cc
print_one_sound (object (member key (number n) rest)) t h = cc
print_one_sound (object (member key (string u) rest)) t h = cc
print_one_sound (object (member key (object m) rest)) t h = cc
print_one_sound (object (member key (array end) rest)) t h = cc
print_one_sound (object (member key (array (item null more)) rest)) t h = cc
print_one_sound (object (member key (array (item (boolean b) more)) rest)) t h = cc
print_one_sound (object (member key (array (item (number n) more)) rest)) t h = cc
print_one_sound (object (member key (array (item (array a) more)) rest)) t h = cc
print_one_sound (object (member key (array (item (object m) more)) rest)) t h = cc
print_one_sound (object (member key (array (item (string id) (item other more))) rest)) t h = cc
print_one_sound (object (member key (array (item (string id) end)) (member k v rest))) t h = cc
print_one_sound (object (member key (array (item (string id) end)) none_left)) t h =
    ground (arith, text_eq_sound key ids_key)

pub memory_json-IsRoundTrip : IsRoundTrip memory_json
unfolding codes
memory_json-IsRoundTrip = record {
  parse-dump = λ j t ordered h. ap some (sym (print_one_sound j t h));
  read_value-dump_indented =
      λ j t ordered h. rw (without_last-append t 10) (ap some (sym (print_one_sound j t h)));
}

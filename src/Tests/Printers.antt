-- ===== src/Tests/Printers.antt =====
-- A JSON library that prints one message.
use stmanager.Prelude.{
  Text, true, text_eq, text_eq_sound, codes, Option, none, some, [], ◌≡◌, sym, ap, arith, ◌&&◌,
  if◌then◌else◌,
}
use stmanager.Json.{
  Json, null, boolean, number, string, array, object, member, none_left, JsonLibrary, IsRoundTrip,
}
use stmanager.Tests.Memory.{memory_json}

none_printed : {t : Text} → none ≡ some t → ⊥
none_printed e = cc

abbrev pub the_reply : Json
the_reply = object (
    member (codes "ok") (boolean true)
      (member (codes "type") (string (codes "auth_response")) none_left))

-- It prints the value `the_reply`, and reads every text as it.
unfoldable pub print_reply : Json → Option Text
print_reply (object (member k0 (boolean v0) (member k1 (string v1) none_left))) =
    if text_eq k0 (codes "ok")
      && (v0 && (text_eq k1 (codes "type") && (text_eq v1 (codes "auth_response"))))
    then some []
    else none
print_reply _ = none

print_reply_sound : (j : Json) (t : Text) → print_reply j ≡ some t → j ≡ the_reply
unfolding print_reply
print_reply_sound null t h = cc
print_reply_sound (boolean b) t h = cc
print_reply_sound (number u) t h = cc
print_reply_sound (string u) t h = cc
print_reply_sound (array items) t h = cc
print_reply_sound (object none_left) t h = cc
print_reply_sound (object (member k0 (boolean v0) none_left)) t h = cc
print_reply_sound (object (member k0 (boolean v0) (member k1 (string v1) (member k v rest)))) t h =
    cc
print_reply_sound (object (member k0 null r)) t h = cc
print_reply_sound (object (member k0 (number u) r)) t h = cc
print_reply_sound (object (member k0 (array items) r)) t h = cc
print_reply_sound (object (member k0 (object u) r)) t h = cc
print_reply_sound (object (member k0 (string u) r)) t h = cc
print_reply_sound (object (member k0 (boolean v0) (member k1 null r))) t h = cc
print_reply_sound (object (member k0 (boolean v0) (member k1 (number u) r))) t h = cc
print_reply_sound (object (member k0 (boolean v0) (member k1 (array items) r))) t h = cc
print_reply_sound (object (member k0 (boolean v0) (member k1 (object u) r))) t h = cc
print_reply_sound (object (member k0 (boolean v0) (member k1 (boolean u) r))) t h = cc
print_reply_sound (object (member k0 (boolean v0) (member k1 (string v1) none_left))) t h = ground (
  arith,
  text_eq_sound k0 (codes "ok"),
  text_eq_sound k1 (codes "type"),
  text_eq_sound v1 (codes "auth_response"),
)

abbrev pub reply_json : JsonLibrary
reply_json = record memory_json {
  parse = λ t. some the_reply;
  read_value = λ t. none;
  dump = print_reply;
  dump_indented = λ j. none;
}

pub reply_json-IsRoundTrip : IsRoundTrip reply_json
reply_json-IsRoundTrip = record {
  parse-dump = λ j t ordered h. ap some (sym (print_reply_sound j t h));
  read_value-dump_indented = λ j t ordered h. absurd (none_printed h);
}

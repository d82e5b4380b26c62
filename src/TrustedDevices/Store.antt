-- ===== src/TrustedDevices/Store.antt =====
-- src/trusted_device_store.cpp: `load_trusted_device_ids` and `save_trusted_device_ids`; src/sync.cpp:
-- the class JsonTrustedDeviceStore, and its interface ITrustedDeviceStore.
use stmanager.Prelude.{
  Text, Bool, codes, is_empty, Option, none, some, List, [], ◌∷◌, ◌++◌, if◌then◌else◌,
}
use stmanager.Status.{Result, ok, err, fail, looping, threw, Exec, io_error, sync_protocol_error}
use stmanager.Json.{
  Json, object, array, string, Items, end, item, none_left, member, JsonLibrary, parse_error,
  dump_error, find,
}
use stmanager.TrustedDevices.Files.{FileSystem, WriteResult, not_opened, cut_short, complete}
use stmanager.TrustedDevices.Ids.{contains_device_id, add_device_id, remove_device_id}

-- ITrustedDeviceStore: what the server and the client call.
pub record TrustStore : Type 1 where
  pub State : Type 0
  pub load : Exec State (Unit {0})
  pub save : Exec State (Unit {0})
  pub is_trusted : State → Text → Bool
  pub trust_device : Text → Exec State (Unit {0})
  pub untrust_device : Text → Exec State (Unit {0})

abbrev pub ids_key : Text
ids_key = codes "trusted_device_ids"

-- The loop over the array: what is no string is passed over.
unfoldable pub string_items : Items → List Text
string_items end = []
string_items (item (string s) rest) = s ∷ string_items rest
string_items (item other rest) = string_items rest

-- The value of a `std::vector<std::string>`.
unfoldable pub items_of : List Text → Items
items_of [] = end
items_of (id ∷ ids) = item (string id) (items_of ids)

-- What the loader makes of the value that it read: the ids, or its error.
unfoldable pub ids_of_json : Json → Result (List Text)
unfolding string_items
ids_of_json (object members) = elim (find ids_key (object members)) [
  | none ↦ ok []
  | some (array items) ↦ ok (string_items items)
  | some other ↦ fail io_error (codes "trusted_device_ids must be an array")
]
ids_of_json other = fail io_error (codes "Invalid trusted device store json object")

unfoldable pub store_json : List Text → Json
unfolding items_of
store_json ids = object (member ids_key (array (items_of ids)) none_left)

pub record JsonStore (fs : FileSystem) : Type 0 where
  pub path : Text
  pub ids : List Text
  pub disk : fs.Disk

module _ (lib : JsonLibrary) (fs : FileSystem) where
  -- The list is cleared first, so it stays empty on every error.
  abbrev pub loaded : Result (List Text) → Exec (JsonStore fs) (Unit {0})
  loaded (ok ids) s = (ok tt, record s { ids = ids })
  loaded (err e) s = (err e, record s { ids = [] })
  loaded looping s = (looping, record s { ids = [] })
  loaded (threw what) s = (fail io_error what, record s { ids = [] })

  abbrev pub load_value : Text → Option Json → Exec (JsonStore fs) (Unit {0})
  load_value text none = loaded (threw (lib.what (parse_error text)))
  load_value text (some j) = loaded (ids_of_json j)

  abbrev pub load_text : Option Text → Exec (JsonStore fs) (Unit {0})
  load_text none s = (ok tt, record s { ids = [] })
  load_text (some text) s = load_value text (lib.read_value text) s

  unfoldable pub load_trusted_device_ids : Exec (JsonStore fs) (Unit {0})
  load_trusted_device_ids s = load_text (fs.read_file s.disk s.path) s

  abbrev pub written : WriteResult → Result (Unit {0})
  written not_opened = fail io_error (codes "Failed opening trusted device store for write")
  written cut_short = fail io_error (codes "Failed writing trusted device store")
  written complete = ok tt

  abbrev pub dump_failed : Text → WriteResult → Result (Unit {0})
  dump_failed what not_opened = written not_opened
  dump_failed what _ = threw what

  -- The file is opened, and with it emptied, before `dump` is called: an id that is no UTF-8 leaves
  -- it empty.
  unfoldable pub write_printed : Option Text → Exec (JsonStore fs) (Unit {0})
  unfolding store_json
  write_printed none s =
      let (w, d) = fs.write_file s.disk s.path [] in
      (dump_failed (lib.what (dump_error (store_json s.ids))) w, record s { disk = d })
  write_printed (some text) s =
      let (w, d) = fs.write_file s.disk s.path (text ++ codes "\n") in
      (written w, record s { disk = d })

  unfoldable pub save_trusted_device_ids : Exec (JsonStore fs) (Unit {0})
  unfolding store_json write_printed
  save_trusted_device_ids s = write_printed (lib.dump_indented (store_json s.ids)) s

  unfoldable pub json_is_trusted : JsonStore fs → Text → Bool
  json_is_trusted s device_id = contains_device_id s.ids device_id

  unfoldable pub json_trust_device : Text → Exec (JsonStore fs) (Unit {0})
  json_trust_device device_id s =
      if is_empty device_id
      then (fail sync_protocol_error (codes "Device ID cannot be empty"), s)
      else (ok tt, record s { ids = add_device_id s.ids device_id })

  unfoldable pub json_untrust_device : Text → Exec (JsonStore fs) (Unit {0})
  json_untrust_device device_id s = (ok tt, record s { ids = remove_device_id s.ids device_id })

  abbrev pub json_trusted_device_store : TrustStore
  json_trusted_device_store = record {
    State = JsonStore fs;
    load = load_trusted_device_ids;
    save = save_trusted_device_ids;
    is_trusted = json_is_trusted;
    trust_device = json_trust_device;
    untrust_device = json_untrust_device;
  }

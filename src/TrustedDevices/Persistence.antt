-- ===== src/TrustedDevices/Persistence.antt =====
-- What `save_trusted_device_ids` of src/trusted_device_store.cpp writes, `load_trusted_device_ids`
-- reads; and what the loader does with every other file.
use stmanager.Prelude.{
  Text, false, codes, Option, none, some, List, [], ◌∷◌, ◌++◌, ◌≡◌, refl, sym, ap, text_eq, ◌∙◌,
  inl, inr, ◌⊎◌,
}
use stmanager.Status.{Result, ok, fail, io_error}
use stmanager.Json.{
  Json, IsOrdered, IsOrderedItems, JsonLibrary, IsRoundTrip, find_member, find, dump_error, null,
  boolean, number, string, array, object,
}
use stmanager.TrustedDevices.Files.{
  FileSystem, IsFaithful, WriteResult, not_opened, cut_short, complete,
}
use stmanager.TrustedDevices.Ids.{contains_device_id}
use stmanager.TrustedDevices.Store.{
  string_items, items_of, ids_of_json, store_json, JsonStore, load_trusted_device_ids,
  save_trusted_device_ids, write_printed, written, dump_failed, loaded, load_text, load_value,
  ids_key, json_is_trusted,
}

string_items-items_of : (ids : List Text) → string_items (items_of ids) ≡ ids
unfolding string_items items_of
string_items-items_of [] = refl
string_items-items_of (id ∷ ids) = rw (string_items-items_of ids) refl

items_of-IsOrdered : (ids : List Text) → IsOrderedItems (items_of ids)
unfolding items_of IsOrderedItems
items_of-IsOrdered [] = tt
items_of-IsOrdered (id ∷ ids) = (tt, items_of-IsOrdered ids)

store_json-IsOrdered : (ids : List Text) → IsOrdered (store_json ids)
unfolding store_json IsOrdered
store_json-IsOrdered ids = (tt, (items_of-IsOrdered ids, tt))

ids_of_json-store_json : (ids : List Text) → ids_of_json (store_json ids) ≡ ok ids
unfolding ids_of_json store_json find find_member codes text_eq
ids_of_json-store_json ids = ap ok (string_items-items_of ids)

-- The loader accepts a value, or says why not.
ids_of_json-cases :
    (j : Json)
    → ((ids : List Text) × (ids_of_json j ≡ ok ids))
      ⊎ ((m : Text) × (ids_of_json j ≡ fail io_error m))
unfolding ids_of_json
ids_of_json-cases (object members) = go (find ids_key (object members)) refl
  where
    go :
        (found : Option Json)
        → find ids_key (object members) ≡ found
        → ((ids : List Text) × (ids_of_json (object members) ≡ ok ids))
          ⊎ ((m : Text) × (ids_of_json (object members) ≡ fail io_error m))
    go none e = inl ([], rw (e, ids_of_json) refl)
    go (some (array items)) e = inl (string_items items, rw (e, ids_of_json) refl)
    go (some null) e = inr (codes "trusted_device_ids must be an array", rw (e, ids_of_json) refl)
    go (some (boolean _)) e =
        inr (codes "trusted_device_ids must be an array", rw (e, ids_of_json) refl)
    go (some (number _)) e =
        inr (codes "trusted_device_ids must be an array", rw (e, ids_of_json) refl)
    go (some (string _)) e =
        inr (codes "trusted_device_ids must be an array", rw (e, ids_of_json) refl)
    go (some (object _)) e =
        inr (codes "trusted_device_ids must be an array", rw (e, ids_of_json) refl)
ids_of_json-cases null = inr (_, refl)
ids_of_json-cases (boolean _) = inr (_, refl)
ids_of_json-cases (number _) = inr (_, refl)
ids_of_json-cases (string _) = inr (_, refl)
ids_of_json-cases (array _) = inr (_, refl)

module _ (lib : JsonLibrary) (fs : FileSystem) where
  -- A list that was saved is in its file: the file reads as the printed list and a line end.
  record Saved (s s' : JsonStore fs) : Type 0 where
    text : Text
    printed : lib.dump_indented (store_json s.ids) ≡ some text
    contents : fs.read_file s'.disk s.path ≡ some (text ++ codes "\n")
    same_path : s'.path ≡ s.path
    same_ids : s'.ids ≡ s.ids

  write_printed-Saved :
      IsFaithful fs
      → (s : JsonStore fs) (o : Option Text) → lib.dump_indented (store_json s.ids) ≡ o
      → (write_printed lib fs o s).0 ≡ ok tt
      → Saved s (write_printed lib fs o s).1
  unfolding write_printed
  write_printed-Saved faithful s none e h = absurd (no_ok _ h)
    where
      no_ok :
          (w : WriteResult)
          → dump_failed lib fs (lib.what (dump_error (store_json s.ids))) w ≡ ok tt
          → ⊥
      no_ok not_opened k = cc
      no_ok cut_short k = cc
      no_ok complete k = cc
  write_printed-Saved faithful s (some t) e h = record {
    text = t;
    printed = e;
    contents = faithful.read-write s.disk s.path _ (complete_of _ h);
    same_path = refl;
    same_ids = refl;
  }
    where
      complete_of : (w : WriteResult) → written lib fs w ≡ ok tt → w ≡ complete
      complete_of not_opened k = cc
      complete_of cut_short k = cc
      complete_of complete k = refl

  save-Saved :
      IsFaithful fs
      → (s : JsonStore fs) → (save_trusted_device_ids lib fs s).0 ≡ ok tt
      → Saved s (save_trusted_device_ids lib fs s).1
  unfolding save_trusted_device_ids
  save-Saved faithful s h =
      write_printed-Saved faithful s (lib.dump_indented (store_json s.ids)) refl h

  load_from :
      (s : JsonStore fs) (text : Text) (j : Json) (ids : List Text)
      → fs.read_file s.disk s.path ≡ some text
      → lib.read_value text ≡ some j
      → ids_of_json j ≡ ok ids
      → load_trusted_device_ids lib fs s ≡ (ok tt, record s { ids = ids })
  unfolding load_trusted_device_ids
  load_from s text j ids e p h = rw (e, p, h)

  -- A store that was saved is loaded again: whatever list a store at the same path and on the same
  -- disk has, loading succeeds and gives the list that was saved, on a file system that reads back
  -- what it wrote and with a JSON library that reads back what it printed.
  pub load-save :
      (s : JsonStore fs) (stale : List Text)
      → IsRoundTrip lib
      → IsFaithful fs
      → (save_trusted_device_ids lib fs s).0 ≡ ok tt
      → load_trusted_device_ids lib fs (record (save_trusted_device_ids lib fs s).1 { ids = stale })
          ≡ (ok tt, (save_trusted_device_ids lib fs s).1)
        × ((save_trusted_device_ids lib fs s).1.ids ≡ s.ids)
  load-save s stale trip faithful h = (
    load_from (record s' { ids = stale }) (saved.text ++ codes "\n") (store_json s.ids) s.ids
          (rw saved.same_path saved.contents)
          (trip.read_value-dump_indented (store_json s.ids) saved.text (store_json-IsOrdered s.ids)
            saved.printed)
          (ids_of_json-store_json s.ids)
        ∙ ap (λ (l : List Text). (ok tt, record s' { ids = l })) (sym saved.same_ids),
    saved.same_ids,
  )
    where
      s' : JsonStore fs
      s' = (save_trusted_device_ids lib fs s).1

      saved : Saved s (save_trusted_device_ids lib fs s).1
      saved = save-Saved faithful s h

  abbrev Refused : Result (Unit {0}) × JsonStore fs → Type 0
  Refused (r, s) =
      (r ≡ ok tt)
      ⊎ ((message : Text) × (r ≡ fail io_error message)
          × ((device_id : Text) → json_is_trusted lib fs s device_id ≡ false))

  loaded-Refused : (s : JsonStore fs) (j : Json) → Refused (loaded lib fs (ids_of_json j) s)
  unfolding json_is_trusted contains_device_id
  loaded-Refused s j = elim (ids_of_json-cases j) [
    | inl (ids, e) ↦ rw e (inl refl)
    | inr (m, e) ↦ rw e (inr (m, refl, λ device_id. refl))
  ]

  load_value-Refused :
      (s : JsonStore fs) (text : Text) (v : Option Json) → Refused (load_value lib fs text v s)
  unfolding json_is_trusted contains_device_id
  load_value-Refused s text none = inr (_, refl, λ device_id. refl)
  load_value-Refused s text (some j) = loaded-Refused s j

  load_text-Refused : (s : JsonStore fs) (o : Option Text) → Refused (load_text lib fs o s)
  load_text-Refused s none = inl refl
  load_text-Refused s (some text) = load_value-Refused s text (lib.read_value text)

  -- Loading, whatever the file holds, succeeds, or returns an I/O error and leaves no device
  -- trusted; no exception leaves it.
  pub load-nothing_trusted :
      (s : JsonStore fs)
      → ((load_trusted_device_ids lib fs s).0 ≡ ok tt)
        ⊎ ((message : Text) × ((load_trusted_device_ids lib fs s).0 ≡ fail io_error message)
            × ((device_id : Text)
                → json_is_trusted lib fs (load_trusted_device_ids lib fs s).1 device_id ≡ false))
  unfolding load_trusted_device_ids
  load-nothing_trusted s = load_text-Refused s (fs.read_file s.disk s.path)

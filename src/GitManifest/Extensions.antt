-- ===== src/GitManifest/Extensions.antt =====
-- src/git_manifest.cpp: `collect_git_extension_info` and `build_git_manifest_json`. A `std::set` of
-- names is a list that is only searched.
use stmanager.Prelude.{
  Text, codes, not, Option, none, some, List, [], ◌∷◌, ◌++◌, ◌||◌, if◌then◌else◌,
}
use stmanager.Status.{Result, ok, threw, fail, io_error}
use stmanager.Json.{
  Json, string, array, object, Items, end, item, none_left, member, JsonLibrary, text_lt,
  dump_error,
}
use stmanager.PathSafety.Disk.{Disk}
use stmanager.PathSafety.Paths.{join_path}
use stmanager.DataManager.{is_directory}
use stmanager.Files.Calls.{listed, not_listed, FileCalls, is_dot_name}
use stmanager.GitManifest.Config.{parse_origin_url_from_git_config}

pub record GitExtensionInfo : Type 0 where
  pub extension_name : Text
  pub remote_url : Text

-- `std::sort` by the name, as the insertion of each.
unfoldable pub insert_by_name : GitExtensionInfo → List GitExtensionInfo → List GitExtensionInfo
insert_by_name x [] = x ∷ []
insert_by_name x (y ∷ rest) =
    if text_lt y.extension_name x.extension_name then y ∷ insert_by_name x rest else x ∷ y ∷ rest

unfoldable pub sort_by_name : List GitExtensionInfo → List GitExtensionInfo
unfolding insert_by_name
sort_by_name [] = []
sort_by_name (x ∷ rest) = insert_by_name x (sort_by_name rest)

module _ {os : Disk} (fs : FileCalls os) (read_lines : os.State → Text → Option (List Text)) where
  abbrev with_url : Text → Option Text → List GitExtensionInfo → List GitExtensionInfo
  with_url name none rest = rest
  with_url name (some url) rest = record { extension_name = name; remote_url = url } ∷ rest

  -- The loop over the names of the directory.
  unfoldable pub collect_loop : Text → List Text → os.State → List GitExtensionInfo
  unfolding parse_origin_url_from_git_config
  collect_loop extensions_path [] s = []
  collect_loop extensions_path (name ∷ names) s =
      let path = join_path extensions_path name in
      let config = join_path (join_path path (codes ".git")) (codes "config") in
      if is_dot_name name || not (is_directory os s path)
      then collect_loop extensions_path names s
      else with_url name (parse_origin_url_from_git_config (read_lines s config))
          (collect_loop extensions_path names s)

  -- `*git_extensions`, sorted; `*git_extension_names` are their names.
  unfoldable pub collect_git_extension_info : Text → os.State → Result (List GitExtensionInfo)
  unfolding collect_loop sort_by_name
  collect_git_extension_info extensions_path s = elim (fs.list_directory s extensions_path) [
    | not_listed errno ↦ fail io_error (codes "Unable to read extensions directory")
    | listed names ↦ ok (sort_by_name (collect_loop extensions_path names s))
  ]

unfoldable pub extension_items : List GitExtensionInfo → Items
extension_items [] = end
extension_items (x ∷ rest) =
    item
      (object (
        member (codes "extension_name") (string x.extension_name)
          (member (codes "remote_url") (string x.remote_url) none_left)))
      (extension_items rest)

unfoldable pub git_manifest_json : List GitExtensionInfo → Json
unfolding extension_items
git_manifest_json extensions =
    object (member (codes "extensions") (array (extension_items extensions)) none_left)

abbrev printed_manifest : JsonLibrary → Json → Option Text → Result Text
printed_manifest lib j none = threw (lib.what (dump_error j))
printed_manifest lib j (some text) = ok (text ++ codes "\n")

unfoldable pub build_git_manifest_json : JsonLibrary → List GitExtensionInfo → Result Text
unfolding git_manifest_json
build_git_manifest_json lib extensions =
    printed_manifest lib (git_manifest_json extensions)
      (lib.dump_indented (git_manifest_json extensions))

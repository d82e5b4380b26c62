-- ===== src/Archive/Temp.antt =====
-- src/archive_stream.cpp: `create_temp_archive_file_path` and `copy_file_to_output_stream`.
use stmanager.Prelude.{
  ℕ, zero, suc, Text, Bool, false, codes, is_empty, text_eq, length, ltb, Option, none, some, List,
  [], ◌∷◌, ◌++◌, ◌==◌, ◌||◌, if◌then◌else◌,
}
use stmanager.Status.{Result, ok, looping, fail, Exec, pure, io_error}
use stmanager.PathSafety.Disk.{Disk}
use stmanager.PathSafety.Paths.{join_path}
use stmanager.PathSafety.Ensure.{ensure_directory_tree}
use stmanager.Server.Requests.{settle}
use stmanager.Files.Calls.{
  opened, not_opened, bytes_read, read_failed, made, not_made, FileCalls, make_io_error,
}

-- `parent_path`: what stands in front of the last separator, `/` or `\`, and the separator itself
-- for a file in the root; empty if there is none.
unfoldable pub before_separator : Text → Option Text
before_separator [] = none
before_separator (c ∷ rest) = elim (before_separator rest) [
  | some parent ↦ some (c ∷ parent)
  | none ↦ if c == b'/' || c == b'\\' then some [] else none
]

abbrev parent_or_root : Text → Option Text → Text
parent_or_root path none = []
parent_or_root [] (some parent) = []
parent_or_root (c ∷ rest) (some []) = c ∷ []
parent_or_root path (some (c ∷ parent)) = c ∷ parent

unfoldable pub parent_path : Text → Text
unfolding before_separator
parent_path path = parent_or_root path (before_separator path)

abbrev pub max_temp_path_candidate_length : ℕ
max_temp_path_candidate_length = 1024

unfoldable pub is_listed : Text → List Text → Bool
is_listed value [] = false
is_listed value (x ∷ rest) = text_eq x value || is_listed value rest

-- `none` and the empty text are left out, and so are long and repeated ones.
unfoldable pub append_temp_directory_candidate : Option Text → List Text → List Text
unfolding is_listed
append_temp_directory_candidate none candidates = candidates
append_temp_directory_candidate (some value) candidates =
    if is_empty value
      || ltb max_temp_path_candidate_length (length value)
      || is_listed value candidates
    then candidates
    else candidates ++ value ∷ []

-- What the environment names: TMPDIR, TEMP and TMP, and the macro P_tmpdir.
pub record TempNames : Type 0 where
  pub tmpdir : Option Text
  pub temp : Option Text
  pub tmp : Option Text
  pub p_tmpdir : Option Text

unfoldable pub temp_candidates : TempNames → Text → List Text
unfolding append_temp_directory_candidate
temp_candidates env preferred = append_temp_directory_candidate (some (codes ".")) (
    append_temp_directory_candidate (some (codes "/tmp")) (
      append_temp_directory_candidate env.p_tmpdir (
        append_temp_directory_candidate env.tmp (
          append_temp_directory_candidate env.temp (
            append_temp_directory_candidate env.tmpdir
              (append_temp_directory_candidate (some preferred) []))))))

-- The details with `; ` between any two.
unfoldable pub joined_details : List Text → Text
joined_details [] = []
joined_details (x ∷ []) = x
joined_details (x ∷ y ∷ rest) = x ++ (codes "; " ++ joined_details (y ∷ rest))

unfoldable pub no_temp_path : List Text → Result Text
unfolding joined_details
no_temp_path failure_details = fail io_error (
    codes "stage=archive.backup.temp_file.create; "
    ++ (codes "Failed to create temporary backup file in any candidate temp directory"
        ++ (if is_empty failure_details
            then []
            else codes ". Attempts: " ++ joined_details failure_details)))

module _ {os : Disk} (fs : FileCalls os) (number_text : ℕ → Text) where
  abbrev ensured : Text → Exec os.State (Unit {0})
  ensured directory =
      if text_eq directory (codes ".") then pure tt else ensure_directory_tree os directory 493

  -- The loop over the candidates, with the failures so far.
  unfoldable pub candidate_loop : List Text → List Text → Exec os.State Text
  unfolding no_temp_path
  candidate_loop [] failures s = (no_temp_path failures, s)
  candidate_loop (directory ∷ rest) failures s =
      let go_on : Text → Exec os.State Text =
        λ detail. candidate_loop rest (failures ++ detail ∷ []) in
      if ltb max_temp_path_candidate_length (length directory)
      then go_on (directory ++ codes " -> skipped (candidate path is too long)") s
      else (let (r, s') = ensured directory s in
          settle r (λ e. go_on (directory ++ (codes " -> " ++ e.message)))
            (λ _ u.
              let template = join_path directory (codes "stmanager-backup-XXXXXX") in
              let (p, u') = fs.mkstemp template u in
              elim p [
                | made path ↦ (ok path, u')
                | not_made errno ↦
                    go_on
                      (template
                        ++ (codes " -> "
                            ++ (os.strerror errno
                                ++ (codes " (" ++ (number_text errno ++ codes ")")))))
                      u'
              ])
            s')

  unfoldable pub create_temp_archive_file_path : TempNames → Text → Exec os.State Text
  unfolding candidate_loop temp_candidates
  create_temp_archive_file_path env preferred = candidate_loop (temp_candidates env preferred) []

  abbrev stream_buffer_size : ℕ
  stream_buffer_size = 65536

  -- The loop of `read`, with what was written to the stream so far; `takes` says whether the stream
  -- is good after these bytes.
  unfoldable pub copy_out_loop : (Text → Bool) → ℕ → ℕ → Text → Text → Exec os.State Text
  copy_out_loop takes zero fd path sent s = (looping, s)
  copy_out_loop takes (suc rounds) fd path sent s =
      let (r, s') = fs.read_fd fd stream_buffer_size s in
      elim r [
        | read_failed errno ↦ (make_io_error os (codes "read") path errno, s')
        | bytes_read [] ↦ (ok sent, s')
        | bytes_read (b ∷ bytes) ↦ elim (takes (sent ++ b ∷ bytes)) [
          | Bool.false ↦
              (fail io_error (codes "Output stream write failed while copying backup archive"), s')
          | Bool.true ↦ copy_out_loop takes rounds fd path (sent ++ b ∷ bytes) s'
        ]
      ]

  unfoldable pub copy_file_to_output_stream : (Text → Bool) → ℕ → Text → Exec os.State Text
  unfolding copy_out_loop
  copy_file_to_output_stream takes rounds file_path s =
      let (f, s') = fs.open_read file_path s in
      elim f [
        | not_opened errno ↦ (make_io_error os (codes "open") file_path errno, s')
        | opened fd ↦
            let (r, s'') = copy_out_loop takes rounds fd file_path [] s' in (r, fs.close_fd fd s'')
      ]

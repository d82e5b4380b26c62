-- ===== src/Tests/Backups.antt =====
-- The theorems of the backup, the git manifest and a device that is not remembered, at small inputs.
use stmanager.Prelude.{
  min, take, ℕ, zero, suc, Text, true, false, codes, text_eq, is_prefix, length, none, some, List,
  [], ◌∷◌, ◌++◌, ◌≡◌, ◌≢◌, refl, arith,
}
use stmanager.Status.{ok}
use stmanager.PathSafety.Paths.{join_path, split_path}
use stmanager.PathSafety.Ensure.{
  ensure_directory_tree, ensure_directory_tree_impl, tree_loop, ensure_component,
}
use stmanager.TrustedDevices.Store.{TrustStore}
use stmanager.Client.Branches.{returns_status}
use stmanager.GitManifest.Config.{parse_origin_url_from_git_config, trim_copy, classify}
use stmanager.GitManifest.OriginUrl.{InOrigin, parse_origin_url_from_git_config-InOrigin}
use stmanager.Archive.Temp.{
  create_temp_archive_file_path, temp_candidates, candidate_loop, parent_path,
  copy_file_to_output_stream,
}
use stmanager.Archive.Write.{ArchiveWriter}
use stmanager.Archive.Backup.{
  BackupSetup, preferred_temp_directory, write_backup_archive, write_to_temp, write_contents,
  finish_backup,
}
use stmanager.Archive.Cleared.{Unlinked, write_backup_archive-Unlinked}
use stmanager.Files.Calls.{bytes_read, Writing, bytes_written, write_failed}
use stmanager.FdStream.Buffers.{eintr, FdCalls, new_output, xsputn}
use stmanager.FdStream.Accounts.{FdView, IsGoodWrite, Account, xsputn-Account}
use stmanager.Manager.PairSync.{PairSyncOptions, PairSyncResult, pair_sync}
use stmanager.Manager.Unremembered.{pair_sync-unremembered}
use stmanager.Tests.Memory.{memory_json}
use stmanager.Tests.Sessions.{
  full_disk, line, welcoming_json, trusting, listing, ready_manager, plain, peer,
}
use stmanager.Manager.Counting.{StreamBuf, new_counting}
use stmanager.Manager.Counted.{
  Put, write, put, flush, given_by, Honest, Counted, after_puts, after_puts-Counted,
}
use stmanager.Tests.Extractions.{logging_calls}

abbrev config : List Text
config =
    codes "[core]"
    ∷ codes "url = a"
    ∷ codes " [remote \"origin\"] "
    ∷ codes "# url = b"
    ∷ codes "url = c"
    ∷ []

config_url : parse_origin_url_from_git_config (some config) ≡ some (codes "c")
unfolding parse_origin_url_from_git_config trim_copy classify text_eq is_prefix codes
config_url = refl

parse_origin_url_from_git_config-InOrigin_example : InOrigin config (codes "c")
parse_origin_url_from_git_config-InOrigin_example =
    parse_origin_url_from_git_config-InOrigin config (codes "c") config_url

-- A writer that never fails.
abbrev willing : ArchiveWriter full_disk
willing = record {
  Writer = ℕ;
  new_writer = 0;
  set_options = λ w. (true, w);
  add_zstd = λ w. (true, w);
  open_filename = λ path s. (true, s);
  write_header = λ path type permissions modified size s. (true, s);
  write_data = λ bytes s. (length bytes, s);
  finish_entry = λ s. (true, s);
  close_writer = λ s. (true, s);
  error_string = λ w. [];
}

abbrev backup_setup : BackupSetup logging_calls
backup_setup = record {
  lib = memory_json;
  takes = λ sent. true;
  read_lines = λ s path. none;
  env = record { tmpdir = none; temp = none; tmp = none; p_tmpdir = none };
  number_text = λ n. [];
  now = 0;
  rounds = 5;
  depth = 3;
}

abbrev temp_archive : Text
temp_archive = codes "/r/.stmanager/tmp/stmanager-backup-XXXXXX"

temp_made :
    (create_temp_archive_file_path logging_calls backup_setup.number_text backup_setup.env
      (preferred_temp_directory logging_calls willing backup_setup (codes "/r/data"))
      []).0
    ≡ ok temp_archive
unfolding create_temp_archive_file_path temp_candidates candidate_loop parent_path join_path
    ensure_directory_tree ensure_directory_tree_impl tree_loop split_path ensure_component text_eq
    codes
temp_made = refl

backup_returns :
    returns_status
      (write_backup_archive logging_calls willing backup_setup
        (codes "/r/data")
        (codes "/r/e")
        false
        []).0
    ≡ true
unfolding write_backup_archive write_to_temp write_contents finish_backup
    create_temp_archive_file_path temp_candidates candidate_loop parent_path join_path
    ensure_directory_tree ensure_directory_tree_impl tree_loop split_path ensure_component
    copy_file_to_output_stream text_eq codes
backup_returns = refl

write_backup_archive-Unlinked_example :
    Unlinked logging_calls willing backup_setup
      (codes "/r/data")
      (codes "/r/e")
      false
      temp_archive
      (write_backup_archive logging_calls willing backup_setup
        (codes "/r/data")
        (codes "/r/e")
        false
        []).1
write_backup_archive-Unlinked_example =
    write_backup_archive-Unlinked logging_calls willing backup_setup (codes "/r/data")
      (codes "/r/e") false temp_archive [] temp_made refl refl backup_returns

abbrev forgetful : TrustStore
forgetful = record trusting { is_trusted = λ s id. false }

abbrev forgetting : PairSyncOptions
forgetting = record {
  pairing_options = record { pairing_code = codes "7"; remember_device = false };
  sync_options = plain;
  device_name = [];
}

abbrev some_result : PairSyncResult
some_result = record { selected_device = peer; paired_this_time = true }

pair_sync-unremembered_example :
    (pair_sync welcoming_json line forgetful listing ready_manager forgetting peer (0, [], [])).0
    ≢ ok some_result
pair_sync-unremembered_example =
    pair_sync-unremembered welcoming_json line forgetful listing ready_manager forgetting peer refl
      [] refl refl 0 [] some_result

abbrev slow_write : ℕ → Text → Text → Writing × (ℕ × Text)
slow_write (suc n) chunk got = (write_failed eintr, (n, got))
slow_write zero [] got = (bytes_written 0, (0, got ++ []))
slow_write zero (x ∷ []) got = (bytes_written 1, (0, got ++ x ∷ []))
slow_write zero (x ∷ (y ∷ rest)) got = (bytes_written 2, (0, got ++ x ∷ y ∷ []))

-- A descriptor that takes two bytes a call; the first call is interrupted.
abbrev slow_descriptor : FdCalls
slow_descriptor = record {
  State = ℕ × Text;
  read_chunk = λ fd n s. (bytes_read [], s);
  write_chunk = λ fd chunk s. slow_write s.0 chunk s.1;
}

abbrev slow_view : FdView slow_descriptor
slow_view = record { contents = λ s. s.1; interrupts = λ s. s.0 }

slow_write-IsGoodWrite :
    (s : ℕ × Text) (chunk : Text)
    → IsGoodWrite slow_view s chunk (slow_write s.0 chunk s.1).0 (slow_write s.0 chunk s.1).1
slow_write-IsGoodWrite (zero, got) [] = (omega arith, refl, omega arith)
slow_write-IsGoodWrite (zero, got) (x ∷ []) = (omega arith, refl, omega arith)
slow_write-IsGoodWrite (zero, got) (x ∷ (y ∷ rest)) = (omega arith, refl, omega arith)
slow_write-IsGoodWrite (suc n, got) chunk = (refl, λ e. omega arith)

xsputn-Account_example :
    Account slow_view 0
      (codes "abc")
      (new_output (some 7))
      (1, [])
      (xsputn slow_descriptor 4 (codes "abc") (new_output (some 7), (1, [])))
unfolding codes
xsputn-Account_example =
    xsputn-Account slow_view 7 slow_write-IsGoodWrite 4 (codes "abc") (new_output (some 7)) (1, [])
      refl (omega arith) (omega arith)

-- A stream buffer in memory that takes two bytes a call.
abbrev narrow_buffer : StreamBuf
narrow_buffer = record {
  State = Text;
  sputn = λ input got. (min 2 (length input), got ++ take (min 2 (length input)) input);
  sputc = λ byte got. (some byte, got ++ (byte ∷ []));
  pubsync = λ got. (true, got);
}

narrow_honest : Honest narrow_buffer
narrow_honest = record {
  contents = λ got. got;
  takes = λ input got. (omega arith, refl);
  puts = λ byte got. refl;
  syncs = λ got. refl;
}

abbrev some_puts : List Put
some_puts = put (some 65) ∷ write (66 ∷ 67 ∷ []) ∷ flush ∷ write (68 ∷ 69 ∷ 70 ∷ []) ∷ []

after_puts-Counted_example :
    Counted narrow_honest
      (given_by some_puts)
      (new_counting true, [])
      (after_puts narrow_buffer some_puts (new_counting true, []))
after_puts-Counted_example =
    after_puts-Counted narrow_honest some_puts (new_counting true, []) (omega arith)

-- ===== src/CommandLine/Args.antt =====
-- cli/cli_args.h: the structs of the arguments and their defaults.
use stmanager.Prelude.{ℕ, Text, Bool, true, false, codes, []}

pub data CommandType : Type 0 where
  unknown help serve_backup pair_restore export_backup restore_backup : CommandType
  update_silly_tavern : CommandType

abbrev pub default_sync_port : ℕ
default_sync_port = 38591

abbrev pub default_backup_file_path : Text
default_backup_file_path = codes "st-backup.tar.zst"

pub record ServeBackupArgs : Type 0 where
  pub root_path : Text
  pub bind_host : Text
  pub port : ℕ
  pub pairing_code : Text
  pub device_name : Text
  pub advertise : Bool

abbrev pub default_serve_backup_args : ServeBackupArgs
default_serve_backup_args = record {
  root_path = [];
  bind_host = codes "0.0.0.0";
  port = default_sync_port;
  pairing_code = [];
  device_name = [];
  advertise = true;
}

pub record PairRestoreArgs : Type 0 where
  pub root_path : Text
  pub host : Text
  pub port : ℕ
  pub device_id : Text
  pub pairing_code : Text
  pub device_name : Text
  pub destination_root : Text

abbrev pub default_pair_restore_args : PairRestoreArgs
default_pair_restore_args = record {
  root_path = [];
  host = [];
  port = 0;
  device_id = [];
  pairing_code = [];
  device_name = [];
  destination_root = [];
}

pub record ExportBackupArgs : Type 0 where
  pub root_path : Text
  pub file_path : Text
  pub git_mode : Bool

abbrev pub default_export_backup_args : ExportBackupArgs
default_export_backup_args = record {
  root_path = [];
  file_path = default_backup_file_path;
  git_mode = false;
}

pub record RestoreBackupArgs : Type 0 where
  pub root_path : Text
  pub file_path : Text

abbrev pub default_restore_backup_args : RestoreBackupArgs
default_restore_backup_args = record { root_path = []; file_path = default_backup_file_path }

pub record UpdateSillyTavernArgs : Type 0 where
  pub root_path : Text
  pub repository : Text
  pub cache_dir : Text

abbrev pub default_update_sillytavern_args : UpdateSillyTavernArgs
default_update_sillytavern_args = record { root_path = []; repository = []; cache_dir = [] }

pub record ParsedArgs : Type 0 where
  pub command_type : CommandType
  pub serve_backup_args : ServeBackupArgs
  pub pair_restore_args : PairRestoreArgs
  pub export_backup_args : ExportBackupArgs
  pub restore_backup_args : RestoreBackupArgs
  pub update_sillytavern_args : UpdateSillyTavernArgs

abbrev pub no_args : ParsedArgs
no_args = record {
  command_type = unknown;
  serve_backup_args = default_serve_backup_args;
  pair_restore_args = default_pair_restore_args;
  export_backup_args = default_export_backup_args;
  restore_backup_args = default_restore_backup_args;
  update_sillytavern_args = default_update_sillytavern_args;
}

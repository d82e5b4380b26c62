-- ===== src/CommandLine/Parser.antt =====
-- cli/cli_args.cpp: `parse_cli_args` and the loop of each command. `strtol` is a parameter: the
-- number that it reads at the beginning of a text, and how many characters it reads.
use stmanager.Prelude.{
  ℕ, Text, Bool, true, false, codes, text_eq, is_empty, ltb, length, Option, none, some, List, [],
  ◌∷◌, ◌++◌, ◌==◌, ◌||◌, not, if◌then◌else◌,
}
use stmanager.Prelude.Int.{ℤ, pos, negsuc}
use stmanager.CommandLine.Args.{
  help, serve_backup, pair_restore, export_backup, restore_backup, update_silly_tavern,
  ServeBackupArgs, PairRestoreArgs, ExportBackupArgs, RestoreBackupArgs, UpdateSillyTavernArgs,
  ParsedArgs, default_serve_backup_args, default_pair_restore_args, default_export_backup_args,
  default_restore_backup_args, default_update_sillytavern_args,
}

unfoldable pub is_help_token : Text → Bool
is_help_token token =
    text_eq token (codes "--help") || text_eq token (codes "-h") || text_eq token (codes "help")

abbrev pub in_range : ℤ → Option ℕ
in_range (pos n) = if n == 0 || ltb 65535 n then none else some n
in_range (negsuc n) = none

unfoldable pub parse_int_value : (Text → ℤ × ℕ) → Text → Option ℕ
parse_int_value strtol value =
    let (parsed_value, read) = strtol value in
    if is_empty value || read == 0 || not (read == length value)
    then none
    else in_range parsed_value

unfoldable pub parse_bool_value : Text → Option Bool
parse_bool_value value =
    if text_eq value (codes "true") || text_eq value (codes "1") || text_eq value (codes "yes")
    then some true
    else if text_eq value (codes "false") || text_eq value (codes "0") || text_eq value (codes "no")
    then some false
    else none

-- What a flag with a value does to the arguments: it sets them, its value is refused, or it is no
-- flag with a value.
pub data FlagResult (A : Type 0) : Type 0 where
  set_to : A → FlagResult A
  refused : Text → FlagResult A
  no_such_flag : FlagResult A

-- How the loop of a command ends: with `return true` at a help flag, after the last argument, or
-- with an error message.
pub data LoopResult (A : Type 0) : Type 0 where
  helped : LoopResult A
  finished : A → LoopResult A
  failed : Text → LoopResult A

module _ {A : Type 0} where
  abbrev pub set_checked : {V : Type 0} → Text → (V → A) → Option V → FlagResult A
  set_checked message set none = refused message
  set_checked message set (some v) = set_to (set v)

  module _ (with_value : Text → Text → A → FlagResult A) (without_value : Text → A → Option A)
      (unknown_argument : Text) where
    -- The loop that every command has, over the arguments that are left.
    unfoldable pub argument_loop : A → List Text → LoopResult A
    argument_loop args [] = finished args
    argument_loop args (flag ∷ []) =
        elim (text_eq flag (codes "--help") || text_eq flag (codes "-h")) [
          | true ↦ helped
          | false ↦ elim (without_value flag args) [
            | some args' ↦ finished args'
            | none ↦ failed (unknown_argument ++ flag)
          ]
        ]
    argument_loop args (flag ∷ value ∷ rest) =
        elim (text_eq flag (codes "--help") || text_eq flag (codes "-h")) [
          | true ↦ helped
          | false ↦ elim (with_value flag value args) [
            | set_to args' ↦ argument_loop args' rest
            | refused message ↦ failed message
            | no_such_flag ↦ elim (without_value flag args) [
              | some args' ↦ argument_loop args' (value ∷ rest)
              | none ↦ failed (unknown_argument ++ flag)
            ]
          ]
        ]

abbrev pub no_switch : {A : Type 0} → Text → A → Option A
no_switch flag args = none

module _ (strtol : Text → ℤ × ℕ) where
  unfoldable pub serve_backup_flag : Text → Text → ServeBackupArgs → FlagResult ServeBackupArgs
  unfolding parse_int_value parse_bool_value
  serve_backup_flag flag value args =
      if text_eq flag (codes "--root")
      then set_to (record args { root_path = value })
      else if text_eq flag (codes "--bind")
      then set_to (record args { bind_host = value })
      else if text_eq flag (codes "--port")
      then set_checked (codes "Invalid --port value") (λ (n : ℕ). record args { port = n })
          (parse_int_value strtol value)
      else if text_eq flag (codes "--pairing-code")
      then set_to (record args { pairing_code = value })
      else if text_eq flag (codes "--device-name")
      then set_to (record args { device_name = value })
      else if text_eq flag (codes "--advertise")
      then set_checked (codes "Invalid --advertise value. Use true or false")
          (λ (b : Bool). record args { advertise = b }) (parse_bool_value value)
      else no_such_flag

  unfoldable pub pair_restore_flag : Text → Text → PairRestoreArgs → FlagResult PairRestoreArgs
  unfolding parse_int_value
  pair_restore_flag flag value args =
      if text_eq flag (codes "--root")
      then set_to (record args { root_path = value })
      else if text_eq flag (codes "--host")
      then set_to (record args { host = value })
      else if text_eq flag (codes "--port")
      then set_checked (codes "Invalid --port value") (λ (n : ℕ). record args { port = n })
          (parse_int_value strtol value)
      else if text_eq flag (codes "--device-id")
      then set_to (record args { device_id = value })
      else if text_eq flag (codes "--pairing-code")
      then set_to (record args { pairing_code = value })
      else if text_eq flag (codes "--device-name")
      then set_to (record args { device_name = value })
      else if text_eq flag (codes "--dest-root")
      then set_to (record args { destination_root = value })
      else no_such_flag

unfoldable pub export_backup_flag : Text → Text → ExportBackupArgs → FlagResult ExportBackupArgs
export_backup_flag flag value args =
    if text_eq flag (codes "--root")
    then set_to (record args { root_path = value })
    else if text_eq flag (codes "--file")
    then set_to (record args { file_path = value })
    else no_such_flag

unfoldable pub export_backup_switch : Text → ExportBackupArgs → Option ExportBackupArgs
export_backup_switch flag args =
    if text_eq flag (codes "--git-mode") then some (record args { git_mode = true }) else none

unfoldable pub restore_backup_flag : Text → Text → RestoreBackupArgs → FlagResult RestoreBackupArgs
restore_backup_flag flag value args =
    if text_eq flag (codes "--root")
    then set_to (record args { root_path = value })
    else if text_eq flag (codes "--file")
    then set_to (record args { file_path = value })
    else no_such_flag

unfoldable pub update_sillytavern_flag :
    Text → Text → UpdateSillyTavernArgs → FlagResult UpdateSillyTavernArgs
update_sillytavern_flag flag value args =
    if text_eq flag (codes "--root")
    then set_to (record args { root_path = value })
    else if text_eq flag (codes "--repo")
    then set_to (record args { repository = value })
    else if text_eq flag (codes "--cache-dir")
    then set_to (record args { cache_dir = value })
    else no_such_flag

-- The result of `parse_cli_args`: true with `*parsed_args`, or false with `*error_message`.
pub data CliResult : Type 0 where
  accepted : ParsedArgs → CliResult
  rejected : Text → CliResult

abbrev pub command_parsed : {A : Type 0} → ParsedArgs → (A → ParsedArgs) → LoopResult A → CliResult
command_parsed before store helped = accepted (record before { command_type = help })
command_parsed before store (finished args) = accepted (store args)
command_parsed before store (failed message) = rejected message

-- The functions of the commands, from `ParsedArgs` as it was and the arguments that follow.
module _ (strtol : Text → ℤ × ℕ) (before : ParsedArgs) where
  unfoldable pub parse_serve_backup_args : List Text → CliResult
  unfolding argument_loop serve_backup_flag
  parse_serve_backup_args argv =
      command_parsed before
        (λ (a : ServeBackupArgs). record before {
          command_type = serve_backup;
          serve_backup_args = a;
        })
        (argument_loop (serve_backup_flag strtol) no_switch
          (codes "Unknown serve backup argument: ") default_serve_backup_args argv)

  unfoldable pub parse_pair_restore_args : List Text → CliResult
  unfolding argument_loop pair_restore_flag
  parse_pair_restore_args argv =
      command_parsed before
        (λ (a : PairRestoreArgs). record before {
          command_type = pair_restore;
          pair_restore_args = a;
        })
        (argument_loop (pair_restore_flag strtol) no_switch
          (codes "Unknown pair restore argument: ") default_pair_restore_args argv)

  unfoldable pub parse_export_backup_args : List Text → CliResult
  unfolding argument_loop export_backup_flag export_backup_switch
  parse_export_backup_args argv =
      command_parsed before
        (λ (a : ExportBackupArgs). record before {
          command_type = export_backup;
          export_backup_args = a;
        })
        (argument_loop export_backup_flag export_backup_switch
          (codes "Unknown export backup argument: ") default_export_backup_args argv)

  unfoldable pub parse_restore_backup_args : List Text → CliResult
  unfolding argument_loop restore_backup_flag
  parse_restore_backup_args argv =
      command_parsed before
        (λ (a : RestoreBackupArgs). record before {
          command_type = restore_backup;
          restore_backup_args = a;
        })
        (argument_loop restore_backup_flag no_switch (codes "Unknown restore backup argument: ")
          default_restore_backup_args argv)

  unfoldable pub parse_update_sillytavern_args : List Text → CliResult
  unfolding argument_loop update_sillytavern_flag
  parse_update_sillytavern_args argv =
      command_parsed before
        (λ (a : UpdateSillyTavernArgs). record before {
          command_type = update_silly_tavern;
          update_sillytavern_args = a;
        })
        (argument_loop update_sillytavern_flag no_switch (codes "Unknown update argument: ")
          default_update_sillytavern_args argv)

  -- The one action that a command has.
  abbrev only_action : Text → Text → Text → (List Text → CliResult) → List Text → CliResult
  only_action action message given parse argv =
      if text_eq given action then parse argv else rejected (message ++ given)

  -- The command is not `update`; its action comes first.
  unfoldable pub parse_action : Text → List Text → CliResult
  unfolding parse_serve_backup_args parse_pair_restore_args parse_export_backup_args
      parse_restore_backup_args
  parse_action command [] = rejected (codes "Missing action")
  parse_action command (action ∷ argv) =
      if text_eq command (codes "serve")
      then only_action (codes "backup") (codes "Unknown serve action: ") action
          parse_serve_backup_args argv
      else if text_eq command (codes "pair")
      then only_action (codes "restore") (codes "Unknown pair action: ") action
          parse_pair_restore_args argv
      else if text_eq command (codes "export")
      then only_action (codes "backup") (codes "Unknown export action: ") action
          parse_export_backup_args argv
      else only_action (codes "backup") (codes "Unknown restore action: ") action
          parse_restore_backup_args argv

  unfoldable pub is_command : Text → Bool
  is_command command =
      text_eq command (codes "serve")
      || text_eq command (codes "pair")
      || text_eq command (codes "export")
      || text_eq command (codes "restore")
      || text_eq command (codes "update")

  -- `argv` begins with the name of the program.
  unfoldable pub parse_cli_args : List Text → CliResult
  unfolding is_help_token is_command parse_update_sillytavern_args parse_action
  parse_cli_args [] = rejected (codes "Missing command")
  parse_cli_args (program ∷ []) = rejected (codes "Missing command")
  parse_cli_args (program ∷ command ∷ argv) =
      if is_help_token command
      then accepted (record before { command_type = help })
      else if not (is_command command)
      then rejected (codes "Unknown command: " ++ command)
      else if text_eq command (codes "update")
      then parse_update_sillytavern_args argv
      else parse_action command argv

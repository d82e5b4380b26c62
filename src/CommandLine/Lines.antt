-- ===== src/CommandLine/Lines.antt =====
-- Command lines that spell out all the arguments of a command, and what cli/cli_args.cpp reads.
use stmanager.Prelude.{ℕ, Text, Bool, true, false, codes, text_eq, some, List, [], ◌∷◌, ◌≡◌, refl}
use stmanager.Prelude.Int.{ℤ}
use stmanager.CommandLine.Args.{CommandType, ServeBackupArgs, PairRestoreArgs, ParsedArgs}
use stmanager.CommandLine.Parser.{
  parse_int_value, parse_bool_value, argument_loop, serve_backup_flag, pair_restore_flag,
  is_help_token, is_command, accepted, parse_action, parse_serve_backup_args,
  parse_pair_restore_args, parse_cli_args,
}

abbrev pub bool_text : Bool → Text
bool_text true = codes "true"
bool_text false = codes "no"

-- The command line of `serve backup` with all its flags, the port as a given text.
abbrev pub serve_line : Text → ServeBackupArgs → List Text
serve_line port_text args =
    codes "--root"
    ∷ args.root_path
    ∷ codes "--bind"
    ∷ args.bind_host
    ∷ codes "--port"
    ∷ port_text
    ∷ codes "--pairing-code"
    ∷ args.pairing_code
    ∷ codes "--device-name"
    ∷ args.device_name
    ∷ codes "--advertise"
    ∷ bool_text args.advertise
    ∷ []

abbrev pub pair_line : Text → PairRestoreArgs → List Text
pair_line port_text args =
    codes "--root"
    ∷ args.root_path
    ∷ codes "--host"
    ∷ args.host
    ∷ codes "--port"
    ∷ port_text
    ∷ codes "--device-id"
    ∷ args.device_id
    ∷ codes "--pairing-code"
    ∷ args.pairing_code
    ∷ codes "--device-name"
    ∷ args.device_name
    ∷ codes "--dest-root"
    ∷ args.destination_root
    ∷ []

module _ (strtol : Text → ℤ × ℕ) (before : ParsedArgs) (program port_text : Text) where
  -- A command line of `serve backup` that gives every argument, whatever texts they are, is read
  -- as these arguments, if the text of the port is read as the port.
  pub parse_cli_args-serve_line :
      (args : ServeBackupArgs)
      → parse_int_value strtol port_text ≡ some args.port
      → parse_cli_args strtol before
          (program ∷ codes "serve" ∷ codes "backup" ∷ serve_line port_text args)
        ≡ accepted
            (record before { command_type = CommandType.serve_backup; serve_backup_args = args })
  unfolding parse_cli_args is_help_token is_command parse_action parse_serve_backup_args
      argument_loop serve_backup_flag parse_bool_value codes text_eq
  parse_cli_args-serve_line args h = go args.advertise refl
    where
      go :
          (b : Bool)
          → args.advertise ≡ b
          → parse_cli_args strtol before
              (program ∷ codes "serve" ∷ codes "backup" ∷ serve_line port_text args)
            ≡ accepted (record before {
              command_type = CommandType.serve_backup;
              serve_backup_args = args;
            })
      go true e = rw (h, argument_loop) (rw (e, argument_loop) refl)
      go false e = rw (h, argument_loop) (rw (e, argument_loop) refl)

  -- A command line of `pair restore` that gives every argument, whatever texts they are, is read as
  -- these arguments, if the text of the port is read as the port.
  pub parse_cli_args-pair_line :
      (args : PairRestoreArgs)
      → parse_int_value strtol port_text ≡ some args.port
      → parse_cli_args strtol before
          (program ∷ codes "pair" ∷ codes "restore" ∷ pair_line port_text args)
        ≡ accepted
            (record before { command_type = CommandType.pair_restore; pair_restore_args = args })
  unfolding parse_cli_args is_help_token is_command parse_action parse_pair_restore_args
      argument_loop pair_restore_flag codes text_eq
  parse_cli_args-pair_line args h = rw (h, argument_loop) refl

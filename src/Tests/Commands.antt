-- ===== src/Tests/Commands.antt =====
-- The theorems of the command line at concrete arguments.
use stmanager.Prelude.{ℕ, Text, codes, false, some, [], ◌∷◌, ◌≡◌, refl}
use stmanager.Prelude.Int.{ℤ, pos}
use stmanager.CommandLine.Args.{CommandType, ServeBackupArgs, PairRestoreArgs, no_args}
use stmanager.CommandLine.Parser.{parse_int_value, accepted, parse_cli_args}
use stmanager.CommandLine.Laws.{GoodPorts, parse_cli_args-GoodPorts}
use stmanager.CommandLine.Lines.{serve_line, parse_cli_args-serve_line}

-- It knows one number, of two digits.
abbrev strtol : Text → ℤ × ℕ
strtol value = (pos 80, 2)

abbrev eighty : Text
eighty = b'8' ∷ b'0' ∷ []

eighty_read : parse_int_value strtol eighty ≡ some 80
unfolding parse_int_value
eighty_read = refl

abbrev serve_args : ServeBackupArgs
serve_args = record {
  root_path = b'r' ∷ [];
  bind_host = b'h' ∷ [];
  port = 80;
  pairing_code = b'c' ∷ [];
  device_name = codes "--help";
  advertise = false;
}

parse_cli_args-serve_line_example :
    parse_cli_args strtol no_args
      (codes "stmanager" ∷ codes "serve" ∷ codes "backup" ∷ serve_line eighty serve_args)
    ≡ accepted
        (record no_args { command_type = CommandType.serve_backup; serve_backup_args = serve_args })
parse_cli_args-serve_line_example =
    parse_cli_args-serve_line strtol no_args (codes "stmanager") eighty serve_args eighty_read

abbrev pair_args : PairRestoreArgs
pair_args = record {
  root_path = b'r' ∷ [];
  host = b'h' ∷ [];
  port = 80;
  device_id = b'd' ∷ [];
  pairing_code = b'c' ∷ [];
  device_name = codes "--help";
  destination_root = [];
}

parse_cli_args-GoodPorts_example : GoodPorts (
    parse_cli_args strtol no_args
      (codes "stmanager" ∷ codes "serve" ∷ codes "backup" ∷ codes "--port" ∷ eighty ∷ []))
parse_cli_args-GoodPorts_example =
    parse_cli_args-GoodPorts strtol
      (codes "stmanager" ∷ codes "serve" ∷ codes "backup" ∷ codes "--port" ∷ eighty ∷ [])

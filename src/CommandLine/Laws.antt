-- ===== src/CommandLine/Laws.antt =====
-- The ports that cli/cli_args.cpp accepts.
use stmanager.Prelude.{
  ℕ, ◌≤◌, ◌<◌, Text, Bool, true, false, codes, text_eq, not, ◌||◌, Option, none, some, List, [],
  ◌∷◌, ◌≡◌, refl, arith, Bool-cases, inl, inr, if◌then◌else◌,
}
use stmanager.Prelude.Int.{ℤ, pos, negsuc}
use stmanager.CommandLine.Args.{
  CommandType, ServeBackupArgs, PairRestoreArgs, ParsedArgs, no_args, default_serve_backup_args,
  default_pair_restore_args,
}
use stmanager.CommandLine.Parser.{
  in_range, parse_int_value, parse_bool_value, FlagResult, set_to, refused, no_such_flag,
  LoopResult, helped, finished, failed, argument_loop, set_checked, no_switch, serve_backup_flag,
  pair_restore_flag, CliResult, accepted, rejected, command_parsed, parse_serve_backup_args,
  parse_pair_restore_args, parse_export_backup_args, parse_restore_backup_args,
  parse_update_sillytavern_args, parse_action, parse_cli_args, is_help_token, is_command,
}

abbrev pub IsPort : ℕ → Type 0
IsPort n = (0 < n) × (n ≤ 65535)

in_range-IsPort : (z : ℤ) (n : ℕ) → in_range z ≡ some n → IsPort n
in_range-IsPort (pos m) n h = (ground arith, ground arith)
in_range-IsPort (negsuc m) n h = cc

parse_int_value-IsPort :
    (strtol : Text → ℤ × ℕ) (value : Text) (n : ℕ)
    → parse_int_value strtol value ≡ some n
    → IsPort n
unfolding parse_int_value
parse_int_value-IsPort strtol value n h = in_range-IsPort (strtol value).0 n (if_some _ _ h)
  where
    if_some : (b : Bool) (o : Option ℕ) → (if b then none else o) ≡ some n → o ≡ some n
    if_some true o e = cc
    if_some false o e = e

-- The arguments that a flag sets have it.
abbrev pub Keeps : {A : Type 0} → (A → Type 0) → FlagResult A → Type 0
Keeps P (set_to a) = P a
Keeps P (refused message) = Unit
Keeps P no_such_flag = Unit

module _ {A : Type 0} (P : A → Type 0) where
  if-Keeps : (b : Bool) (x y : FlagResult A) → Keeps P x → Keeps P y → Keeps P (if b then x else y)
  if-Keeps true x y p q = p
  if-Keeps false x y p q = q

  set_checked-Keeps :
      {V : Type 0} (message : Text) (set : V → A) (o : Option V)
      → ((v : V) → o ≡ some v → P (set v))
      → Keeps P (set_checked message set o)
  set_checked-Keeps message set none h = tt
  set_checked-Keeps message set (some v) h = h v refl

-- What every flag keeps, the loop of a command keeps.
module _ {A : Type 0} (P : A → Type 0) (with_value : Text → Text → A → FlagResult A)
    (unknown_argument : Text)
    (keeps : (flag value : Text) (a : A) → P a → Keeps P (with_value flag value a)) where
  abbrev Ends : LoopResult A → Type 0
  Ends helped = Unit
  Ends (finished a) = P a
  Ends (failed message) = Unit

  argument_loop-Ends :
      (args : A) (argv : List Text)
      → P args
      → Ends (argument_loop with_value no_switch unknown_argument args argv)
  unfolding argument_loop
  argument_loop-Ends args [] p = p
  argument_loop-Ends args (flag ∷ []) p =
      elim (Bool-cases (text_eq flag (codes "--help") || text_eq flag (codes "-h"))) [
        | inl e ↦ rw (e, argument_loop) tt
        | inr e ↦ rw (e, argument_loop) tt
      ]
  argument_loop-Ends args (flag ∷ value ∷ rest) p =
      elim (Bool-cases (text_eq flag (codes "--help") || text_eq flag (codes "-h"))) [
        | inl e ↦ rw (e, argument_loop) tt
        | inr e ↦
            go e (λ a. argument_loop-Ends a rest) (with_value flag value args) refl
              (keeps flag value args p)
      ]
    where
      go :
          (text_eq flag (codes "--help") || text_eq flag (codes "-h")) ≡ false
          → ((a : A) → P a → Ends (argument_loop with_value no_switch unknown_argument a rest))
          → (r : FlagResult A) → with_value flag value args ≡ r
          → Keeps P r
          → Ends (argument_loop with_value no_switch unknown_argument args (flag ∷ value ∷ rest))
      go e again (set_to a) f k = rw (e, f, argument_loop) (again a k)
      go e again (refused message) f k = rw (e, f, argument_loop) tt
      go e again no_such_flag f k = rw (e, f, argument_loop) tt

serve_backup_flag-Keeps :
    (strtol : Text → ℤ × ℕ) (flag value : Text) (a : ServeBackupArgs)
    → IsPort a.port
    → Keeps (λ (b : ServeBackupArgs). IsPort b.port) (serve_backup_flag strtol flag value a)
unfolding serve_backup_flag
serve_backup_flag-Keeps strtol flag value a p =
    let P : ServeBackupArgs → Type 0 = λ b. IsPort b.port in
    if-Keeps P (text_eq flag (codes "--root")) _ _ p (
      if-Keeps P (text_eq flag (codes "--bind")) _ _ p (
        if-Keeps P (text_eq flag (codes "--port")) _ _
          (set_checked-Keeps P _ _ (parse_int_value strtol value)
            (λ n e. parse_int_value-IsPort strtol value n e))
          (if-Keeps P (text_eq flag (codes "--pairing-code")) _ _ p (
            if-Keeps P (text_eq flag (codes "--device-name")) _ _ p (
              if-Keeps P (text_eq flag (codes "--advertise")) _ _
                (set_checked-Keeps P _ _ (parse_bool_value value) (λ b e. p)) tt)))))

pair_restore_flag-Keeps :
    (strtol : Text → ℤ × ℕ) (flag value : Text) (a : PairRestoreArgs)
    → a.port ≤ 65535
    → Keeps (λ (b : PairRestoreArgs). b.port ≤ 65535) (pair_restore_flag strtol flag value a)
unfolding pair_restore_flag
pair_restore_flag-Keeps strtol flag value a p =
    let P : PairRestoreArgs → Type 0 = λ b. b.port ≤ 65535 in
    if-Keeps P (text_eq flag (codes "--root")) _ _ p (
      if-Keeps P (text_eq flag (codes "--host")) _ _ p (
        if-Keeps P (text_eq flag (codes "--port")) _ _
          (set_checked-Keeps P _ _ (parse_int_value strtol value)
            (λ n e. (parse_int_value-IsPort strtol value n e).1))
          (if-Keeps P (text_eq flag (codes "--device-id")) _ _ p (
            if-Keeps P (text_eq flag (codes "--pairing-code")) _ _ p (
              if-Keeps P (text_eq flag (codes "--device-name")) _ _ p
                (if-Keeps P (text_eq flag (codes "--dest-root")) _ _ p tt))))))

-- The ports of a command line that was accepted.
abbrev pub GoodPorts : CliResult → Type 0
GoodPorts (accepted p) = IsPort p.serve_backup_args.port × (p.pair_restore_args.port ≤ 65535)
GoodPorts (rejected message) = Unit

if-GoodPorts :
    (b : Bool) (x y : CliResult) → GoodPorts x → GoodPorts y → GoodPorts (if b then x else y)
if-GoodPorts true x y p q = p
if-GoodPorts false x y p q = q

default-IsPort : IsPort 38591
default-IsPort = (omega arith, omega arith)

-- A command that sets none of the ports.
command_parsed-GoodPorts :
    {A : Type 0} (store : A → ParsedArgs) (r : LoopResult A)
    → ((a : A) → GoodPorts (accepted (store a)))
    → GoodPorts (command_parsed no_args store r)
command_parsed-GoodPorts store helped h = (default-IsPort, omega arith)
command_parsed-GoodPorts store (finished a) h = h a
command_parsed-GoodPorts store (failed message) h = tt

module _ (strtol : Text → ℤ × ℕ) where
  serve-GoodPorts : (argv : List Text) → GoodPorts (parse_serve_backup_args strtol no_args argv)
  unfolding parse_serve_backup_args
  serve-GoodPorts argv =
      go
        (argument_loop (serve_backup_flag strtol) no_switch
          (codes "Unknown serve backup argument: ") default_serve_backup_args argv)
        (argument_loop-Ends (λ (b : ServeBackupArgs). IsPort b.port) (serve_backup_flag strtol)
          (codes "Unknown serve backup argument: ") (serve_backup_flag-Keeps strtol)
          default_serve_backup_args argv default-IsPort)
    where
      go :
          (r : LoopResult ServeBackupArgs)
          → Ends
              (λ (b : ServeBackupArgs). IsPort b.port)
              (serve_backup_flag strtol)
              (codes "Unknown serve backup argument: ")
              (serve_backup_flag-Keeps strtol)
              r
          → GoodPorts (
              command_parsed no_args
                (λ (a : ServeBackupArgs). record no_args {
                  command_type = CommandType.serve_backup;
                  serve_backup_args = a;
                })
                r)
      go helped e = (default-IsPort, omega arith)
      go (finished a) e = (e, omega arith)
      go (failed message) e = tt

  pair-GoodPorts : (argv : List Text) → GoodPorts (parse_pair_restore_args strtol no_args argv)
  unfolding parse_pair_restore_args
  pair-GoodPorts argv =
      go
        (argument_loop (pair_restore_flag strtol) no_switch
          (codes "Unknown pair restore argument: ") default_pair_restore_args argv)
        (argument_loop-Ends (λ (b : PairRestoreArgs). b.port ≤ 65535) (pair_restore_flag strtol)
          (codes "Unknown pair restore argument: ") (pair_restore_flag-Keeps strtol)
          default_pair_restore_args argv (omega arith))
    where
      go :
          (r : LoopResult PairRestoreArgs)
          → Ends
              (λ (b : PairRestoreArgs). b.port ≤ 65535)
              (pair_restore_flag strtol)
              (codes "Unknown pair restore argument: ")
              (pair_restore_flag-Keeps strtol)
              r
          → GoodPorts (
              command_parsed no_args
                (λ (a : PairRestoreArgs). record no_args {
                  command_type = CommandType.pair_restore;
                  pair_restore_args = a;
                })
                r)
      go helped e = (default-IsPort, omega arith)
      go (finished a) e = (default-IsPort, e)
      go (failed message) e = tt

  action-GoodPorts :
      (command : Text) (argv : List Text) → GoodPorts (parse_action strtol no_args command argv)
  unfolding parse_action parse_export_backup_args parse_restore_backup_args
  action-GoodPorts command [] = tt
  action-GoodPorts command (action ∷ argv) =
      if-GoodPorts (text_eq command (codes "serve")) _ _
        (if-GoodPorts (text_eq action (codes "backup")) _ _ (serve-GoodPorts argv) tt)
        (if-GoodPorts (text_eq command (codes "pair")) _ _
          (if-GoodPorts (text_eq action (codes "restore")) _ _ (pair-GoodPorts argv) tt)
          (if-GoodPorts (text_eq command (codes "export")) _ _
            (if-GoodPorts (text_eq action (codes "backup")) _ _
              (command_parsed-GoodPorts _ _ (λ a. (default-IsPort, omega arith))) tt)
            (if-GoodPorts (text_eq action (codes "backup")) _ _
              (command_parsed-GoodPorts _ _ (λ a. (default-IsPort, omega arith))) tt)))

  -- Of every command line that is accepted, the port to serve at is between 1 and 65535, and the
  -- port to pair with is at most 65535 (0 if none was given).
  pub parse_cli_args-GoodPorts : (argv : List Text) → GoodPorts (parse_cli_args strtol no_args argv)
  unfolding parse_cli_args parse_update_sillytavern_args
  parse_cli_args-GoodPorts [] = tt
  parse_cli_args-GoodPorts (program ∷ []) = tt
  parse_cli_args-GoodPorts (program ∷ command ∷ argv) =
      if-GoodPorts (is_help_token command) _ _ (default-IsPort, omega arith)
        (if-GoodPorts (not (is_command strtol no_args command)) _ _ tt (
          if-GoodPorts (text_eq command (codes "update")) _ _
            (command_parsed-GoodPorts _ _ (λ a. (default-IsPort, omega arith)))
            (action-GoodPorts command argv)))

-- ===== src/Application/Arguments.antt =====
-- The command line of src/apps/pulseport-service/main.cpp.
-- What the loop over the arguments decides: to run, with the two settings, or to print something and leave.
pub mod Options
use pulseport.Prelude.{Bool, List, String, [], if◌then◌else◌, str_eq, true, ◌||◌, ◌∷◌}

pub data Invocation : Type 0 where
  run_program : (console_mode : Bool) → (config_path : String) → Invocation
  show_version show_help : Invocation

-- The loop over the arguments after the program's name.
unfoldable pub parse_arguments :
    List String → (console_mode : Bool) → (config_path : String) → Invocation
parse_arguments [] console_mode config_path = Invocation.run_program console_mode config_path
parse_arguments (arg ∷ []) console_mode config_path =
    if str_eq arg "--console" || str_eq arg "-c"
    then Invocation.run_program true config_path
    else if str_eq arg "--version" || str_eq arg "-v"
    then Invocation.show_version
    else if str_eq arg "--help" || str_eq arg "-h"
    then Invocation.show_help
    else Invocation.run_program console_mode config_path
parse_arguments (arg ∷ next ∷ args) console_mode config_path =
    let in_console = parse_arguments (next ∷ args) true config_path in
    let with_config = parse_arguments args console_mode next in
    let skipped = parse_arguments (next ∷ args) console_mode config_path in
    if str_eq arg "--console" || str_eq arg "-c"
    then in_console
    else if str_eq arg "--config"
    then with_config
    else if str_eq arg "--version" || str_eq arg "-v"
    then Invocation.show_version
    else if str_eq arg "--help" || str_eq arg "-h"
    then Invocation.show_help
    else skipped

-- How main runs the program: in the console, or as a service with the console as fallback. `run_as_service` tells
-- whether the service manager took the program.
unfoldable pub main_runs {ℓ} :
    {W : Type ℓ} (run_as_service : W → Bool × W)
    → (run_as_console : W → W) → (console_mode : Bool) → W
    → W
main_runs run_as_service run_as_console console_mode w =
    let served = run_as_service w in
    if console_mode
    then run_as_console w
    else (if served.0 then served.1 else run_as_console served.1)

-- The file that the configuration is loaded from.
abbrev pub config_file : String → String
config_file config_path = if str_eq config_path "" then "config.json" else config_path

-- ===== src/Application/Entry.antt =====
-- `main` and `setup_logging` of src/apps/pulseport-service/main.cpp. The sinks are the loggers' of spdlog, which
-- writes to them; the text that --version and --help print is left out.
pub mod Launch
use pulseport.Application.Arguments.{Invocation, config_file, main_runs, parse_arguments}
use pulseport.Config.{Config, Value}
use pulseport.Config.Files.{load_config, resolve_paths}
use pulseport.Service.{ConsoleEvent, Dispatcher, Process, run_as_console, run_as_service}
use pulseport.Prelude.{
  Bool, List, Option, String, [], false, if◌then◌else◌, none, some, str_eq, ℕ, ◌*◌, ◌++◌, ◌||◌, ◌∷◌,
}
use pulseport.Prelude.Int.{ℤ}
use pulseport.Prelude.Double.{Double}
use pulseport.Prelude.Dict.{Dict}

pub data Level : Type 0 where
  trace debug info warn err critical : Level

pub data Sink : Type 0 where
  rotating_file : (path : String) → (max_size max_files : ℕ) → Sink
  console : Sink
  event_log : Level → Sink

pub record Logger : Type 0 where
  pub sinks : List Sink
  pub level : Level
  pub flush_on : Level

unfoldable pub level_of : String → Level
level_of log_level =
    if str_eq log_level "trace"
    then Level.trace
    else if str_eq log_level "debug"
    then Level.debug
    else if str_eq log_level "warn"
    then Level.warn
    else if str_eq log_level "error"
    then Level.err
    else Level.info

-- The logger of a Windows build; `none` is the exception where the folder of the log cannot be made or the file not
-- opened in it, of which `log_opens` tells whether both can.
unfoldable pub setup_logging {ℓ} :
    {D : Type ℓ} (join : String → String → String) (log_opens : String → Bool)
    → Config D
    → (console_mode : Bool) → Option Logger
unfolding level_of
setup_logging join log_opens cfg console_mode =
    let file =
      if str_eq cfg.log_dir ""
      then []
      else Sink.rotating_file (join cfg.log_dir "pulseport.log") (5 * 1024 * 1024) 3 ∷ [] in
    let terminal = if console_mode then Sink.console ∷ [] else [] in
    if str_eq cfg.log_dir "" || log_opens cfg.log_dir
    then some (record {
      sinks = file ++ terminal ++ Sink.event_log Level.critical ∷ [];
      level = level_of cfg.log_level;
      flush_on = Level.warn;
    })
    else none

-- How the process ends: it printed something, an exception that nothing catches ended it, or it ran.
pub data Ended {ℓ} (W : Type ℓ) : Type ℓ where
  printed_version printed_help terminated : Ended W
  ran : Logger → (service_mode : String) → Process W → Ended W

module _ {ℓ} {D T W : Type ℓ} ⦃d : Double D⦄ where
  -- `files` are the files on disk, `exe_dir` and `program_data` the folders of the system; `run_application` gets the
  -- configuration.
  unfoldable pub main :
      (parse : T → Option (Dict (Value D))) (truncate : D → ℤ) (join : String → String → String)
      (program_data : Option String) (exe_dir : String) (log_opens : String → Bool)
      (files : String → Option T) (dispatcher : Dispatcher) (events : List ConsoleEvent)
      (run_application : Config D → W → W)
      → List String
      → Process W
      → Ended W
  unfolding parse_arguments main_runs load_config resolve_paths run_as_service run_as_console
      setup_logging
  main parse truncate join program_data exe_dir log_opens files dispatcher events run_application
        args p =
      elim (parse_arguments args false "") [
        | Invocation.show_version ↦ Ended.printed_version
        | Invocation.show_help ↦ Ended.printed_help
        | Invocation.run_program console_mode config_path ↦
            let loaded = load_config parse truncate (files (config_file config_path)) in
            let cfg = resolve_paths join program_data exe_dir loaded in
            let main_fn : W → W = run_application cfg in
            elim (setup_logging join log_opens cfg console_mode) [
              | none ↦ Ended.terminated
              | some logger ↦ Ended.ran logger (if console_mode then "console" else "service") (
                  main_runs (run_as_service dispatcher main_fn) (run_as_console events main_fn)
                    console_mode p)
            ]
      ]

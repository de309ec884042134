-- ===== src/Config/Files.antt =====
-- src/config/config_manager.cpp: the file of the configuration and the paths in it. The texts `T` that nlohmann/json
-- parses and prints, the join of two paths and the folders of the system are parameters.
pub mod Settled
use pulseport.Config.{Config, Value, default_config, from_json, to_json}
use pulseport.Prelude.{Option, String, if◌then◌else◌, none, some, str_eq, ◌||◌}
use pulseport.Prelude.Int.{ℤ}
use pulseport.Prelude.Double.{Double}
use pulseport.Prelude.Dict.{Dict}

-- A file that is missing, not readable as JSON, or of the wrong shape gives the defaults.
unfoldable pub load_config {ℓ} :
    {D T : Type ℓ} ⦃d : Double D⦄ (parse : T → Option (Dict (Value D))) (truncate : D → ℤ)
    → Option T
    → Config D
unfolding default_config
load_config parse truncate none = default_config
load_config parse truncate (some text) = elim (parse text) [
  | none ↦ default_config
  | some j ↦ elim (from_json truncate j default_config) [ none ↦ default_config | some cfg ↦ cfg ]
]

-- How a write of a file goes: the folder cannot be made or the file not opened, all is written, or something fails
-- after std::ofstream emptied the file, which leaves `left` in it.
pub data Write {ℓ} (T : Type ℓ) : Type ℓ where
  not_opened : Write T
  complete : Write T
  cut_off : (left : T) → Write T

-- The file after saving.
unfoldable pub save_config {ℓ} :
    {D T : Type ℓ} ⦃d : Double D⦄ (dump : Dict (Value D) → T) (write : Write T)
    → Config D
    → Option T
    → Option T
save_config dump write cfg file = elim write [
  | Write.not_opened ↦ file
  | Write.complete ↦ some (dump (to_json cfg))
  | Write.cut_off left ↦ some left
]

-- `if (path.empty()) path = other`
abbrev pub or_else : String → String → String
or_else path other = if str_eq path "" then other else path

-- `program_data` is the folder of SHGetFolderPath, none where it fails.
unfoldable pub resolve_paths {ℓ} :
    {D : Type ℓ} (join : String → String → String) (program_data : Option String) (exe_dir : String)
    → Config D
    → Config D
resolve_paths {D = D} join program_data exe_dir cfg =
    let based : Config D = elim program_data [
      | none ↦ cfg
      | some pdata ↦
          let base = join pdata "PulsePort" in
          record cfg {
            db_path = or_else cfg.db_path (join base "pulseport.db");
            log_dir = or_else cfg.log_dir (join base "logs");
          }
    ] in
    if str_eq based.web_dir "" || str_eq based.migrations_dir ""
    then record based {
      web_dir = or_else based.web_dir (join exe_dir "web");
      migrations_dir = or_else based.migrations_dir (join (join exe_dir "db") "migrations");
    }
    else based

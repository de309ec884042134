-- ===== src/Application/Settings.antt =====
-- src/apps/pulseport-service/main.cpp and src/server/http_server.cpp: the running program, whose configuration
-- requests change between the ticks. A request is handled while no tick runs.
pub mod Preserved
use pulseport.Config.Files.{Write}
use pulseport.Sampler.{Collector}
use pulseport.Storage.Engine.{Sqlite}
use pulseport.Config.{Value, Config}
use pulseport.Server.Routes.{Answer, Settings, config_route, set_config}
use pulseport.Application.{Moment, World, run_ticks}
use pulseport.Prelude.{Bool, List, Option, String, [], if◌then◌else◌, none, some, str_eq, ℕ, ◌∷◌}
use pulseport.Prelude.Int.{ℤ}
use pulseport.Prelude.Double.{Double}
use pulseport.Prelude.Dict.{Dict}

-- What a request of POST /api/v1/config brings, and how a write of the file goes then.
pub record ConfigRequest {ℓ} (D T : Type ℓ) : Type ℓ where
  pub origin : String
  pub body : Option (Dict (Value D))
  pub write : Write T

pub data Happening {ℓ} (D : Type ℓ) (H : Type 0) (T : Type ℓ) : Type ℓ where
  ticked : Moment D H → Happening D H T
  posted : ConfigRequest D T → Happening D H T

-- The sampler's collectors, what their callbacks share, and the file that settings are saved to.
pub record Program {ℓ} (D : Type ℓ) (H : Type 0) (Db T : Type ℓ) : Type ℓ where
  pub sampler : List (Collector (World D H Db))
  pub world : World D H Db
  pub config_path : String
  pub file : Option T

-- The file beside the database; `parent` and `join` are std::filesystem's.
unfoldable pub config_file_path :
    (parent : String → String) → (join : String → String → String) → (db_path : String) → String
config_file_path parent join db_path =
    if str_eq db_path "" then "" else join (parent db_path) "config.json"

-- What a pointer that was set to the program's configuration shows.
abbrev pub pointed {ℓ} : {D : Type ℓ} → Config D → Option (Config D) → Config D
pointed old none = old
pointed old (some cfg) = cfg

module _ {ℓ} {D : Type ℓ} ⦃d : Double D⦄ {H : Type 0} {Db T : Type ℓ} where
  -- The server's view of the configuration: a pointer to the program's.
  unfoldable pub settings_of : Program D H Db T → Settings D T
  unfolding set_config
  settings_of p =
      set_config p.world.runtime_cfg p.config_path
        (record { config_ptr = none; config_path = ""; file = p.file })

  -- The program once the server changed the configuration through its pointer.
  unfoldable pub with_settings : Program D H Db T → Settings D T → Program D H Db T
  with_settings p s = record p {
    world = record p.world { runtime_cfg = pointed p.world.runtime_cfg s.config_ptr };
    file = s.file;
  }

  -- `truncate` cuts a number off to an `int`, `contains` is std::string::find.
  unfoldable pub post_config :
      (dump : Dict (Value D) → T) (truncate : D → ℤ) (contains : String → String → Bool)
      → ConfigRequest D T
      → Program D H Db T
      → Answer (Dict (Value D)) × Program D H Db T
  unfolding settings_of with_settings
  post_config dump truncate contains r p =
      let (answer, s) =
        config_route dump truncate contains r.write r.origin r.body (settings_of p) in
      (answer, with_settings p s)

  module _ (e : Sqlite D Db) (decimal : ℕ → String) (hash : String → D)
      (format : String → D → String) (dump : Dict (Value D) → T) (truncate : D → ℤ)
      (contains : String → String → Bool) where
    unfoldable pub happen : Happening D H T → Program D H Db T → Program D H Db T
    unfolding post_config
    happen (Happening.ticked m) p =
        let (cs, w) = run_ticks e decimal hash format (m ∷ []) (p.sampler, p.world) in
        record p { sampler = cs; world = w }
    happen (Happening.posted r) p = (post_config dump truncate contains r p).1

    unfoldable pub happen_all : List (Happening D H T) → Program D H Db T → Program D H Db T
    unfolding happen
    happen_all [] p = p
    happen_all (h ∷ hs) p = happen_all hs (happen h p)

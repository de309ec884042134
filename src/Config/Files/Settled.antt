-- ===== src/Config/Files/Settled.antt =====
-- src/config/config_manager.cpp: what loading gives back.
use pulseport.Config.Ints.{HasInts}
use pulseport.Config.Json.{from_json-to_json}
use pulseport.Config.Files.{load_config, save_config, Write}
use pulseport.Config.{Config, Value, default_config, to_json}
use pulseport.Prelude.{Option, refl, some, ◌≡◌}
use pulseport.Prelude.Int.{ℤ}
use pulseport.Prelude.Double.{Double}
use pulseport.Prelude.Dict.{Dict}

module _ {ℓ} {D : Type ℓ} where
  -- The configuration with no paths in it, as it is before they are resolved.
  abbrev pub unresolved : Config D → Config D
  unresolved cfg = record cfg { db_path = ""; web_dir = ""; migrations_dir = ""; log_dir = "" }

module _ {ℓ} {D T : Type ℓ} ⦃d : Double D⦄ where
  pub load_config-save_config :
      (parse : T → Option (Dict (Value D))) (dump : Dict (Value D) → T)
      → ((j : Dict (Value D)) → parse (dump j) ≡ some j)
      → (truncate : D → ℤ) (cfg : Config D) (file : Option T) → HasInts cfg
      → load_config parse truncate (save_config dump Write.complete cfg file) ≡ unresolved cfg
  unfolding load_config save_config default_config
  load_config-save_config parse dump back truncate cfg file ints =
      rw (back (to_json cfg), from_json-to_json truncate cfg default_config ints) refl

-- ===== src/Config/Json.antt =====
-- to_json and from_json of src/config/config_manager.cpp.
use pulseport.Config.Ints.{HasInts}
use pulseport.Config.{Config, from_json, get_double, get_int, get_text, to_json}
use pulseport.Prelude.{refl, some, ◌≡◌}
use pulseport.Prelude.Int.{ℤ}
use pulseport.Prelude.Double.{Double}
use pulseport.Prelude.Dict.{lookup}

module _ {ℓ} {D : Type ℓ} ⦃d : Double D⦄ where
  -- Reading the JSON of a configuration into another one gives every field that is saved; the four paths,
  -- which are resolved at run time, stay those of the other one.
  pub from_json-to_json :
      (truncate : D → ℤ) (c other : Config D)
      → HasInts c
      → from_json truncate (to_json c) other
        ≡ some (record c {
          db_path = other.db_path;
          web_dir = other.web_dir;
          migrations_dir = other.migrations_dir;
          log_dir = other.log_dir;
        })
  unfolding from_json to_json get_text get_int get_double lookup
  from_json-to_json truncate c other h =
      rw (h.0, h.1, h.2, h.3, h.4, h.5, h.6, h.7, h.8, h.9, h.10, h.11) refl

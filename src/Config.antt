-- ===== src/Config.antt =====
-- include/pulseport/config.h, the JSON of src/config/config_manager.cpp and the changes that
-- POST /api/v1/config of src/server/http_server.cpp makes. A JSON object is an association list from keys
-- to values, of which null, arrays and objects are `other`; parsing and printing it is the work of nlohmann/json.
pub mod Limits
pub mod Json
pub mod Ints
pub mod Files
use pulseport.Prelude.{
  Bool, List, Option, String, [], false, if◌then◌else◌, ltb, none, some, true, ◌%◌, ◌&&◌, ◌-◌,
  ◌>>=◌, ◌^◌, ◌∷◌,
}
use pulseport.Prelude.Int.{leb_ℤ, negsuc, pos, ℤ}
use pulseport.Prelude.Double.{Double}
use pulseport.Prelude.Dict.{Dict, lookup}

pub record Config {ℓ} (D : Type ℓ) : Type ℓ where
  pub host : String
  pub port : ℤ
  pub log_level : String
  pub db_path : String
  pub web_dir : String
  pub migrations_dir : String
  pub log_dir : String
  pub retention_1m_days : ℤ
  pub retention_15m_days : ℤ
  pub retention_daily_days : ℤ
  pub retention_events_days : ℤ
  pub sample_interval_ms : ℤ
  pub process_interval_ms : ℤ
  pub thermal_interval_ms : ℤ
  pub aggregation_interval_s : ℤ
  pub alert_cpu_high_pct : D
  pub alert_cpu_sustained_min : ℤ
  pub alert_mem_high_pct : D
  pub alert_mem_sustained_min : ℤ
  pub alert_battery_low_pct : D
  pub alert_power_high_w : D
  pub alert_cooldown_minutes : ℤ

pub data Value {ℓ} (D : Type ℓ) : Type ℓ where
  text : String → Value D
  whole : ℤ → Value D
  number : D → Value D
  truth : Bool → Value D
  other : Value D

-- The conversion to a 32-bit `int`.
unfoldable pub int32_of : ℤ → ℤ
int32_of (pos n) = let r = n % 2 ^ 32 in if ltb r (2 ^ 31) then pos r else negsuc (2 ^ 32 - 1 - r)
int32_of (negsuc n) =
    let r = n % 2 ^ 32 in if ltb r (2 ^ 31) then negsuc r else pos (2 ^ 32 - 1 - r)

unfoldable pub accept_int : (low high target : ℤ) → Option ℤ → Option ℤ
accept_int low high target none = none
accept_int low high target (some v) = some (if leb_ℤ low v && leb_ℤ v high then v else target)

-- `body.contains(key)`
abbrev pub is_some {ℓ} : {A : Type ℓ} → Option A → Bool
is_some none = false
is_some (some a) = true

module _ {ℓ} {D : Type ℓ} ⦃d : Double D⦄ where
  unfoldable pub default_config : Config D
  default_config = record {
    host = "127.0.0.1";
    port = pos 9770;
    log_level = "info";
    db_path = "";
    web_dir = "";
    migrations_dir = "";
    log_dir = "";
    retention_1m_days = pos 90;
    retention_15m_days = pos 365;
    retention_daily_days = pos 365;
    retention_events_days = pos 365;
    sample_interval_ms = pos 1000;
    process_interval_ms = pos 5000;
    thermal_interval_ms = pos 5000;
    aggregation_interval_s = pos 60;
    alert_cpu_high_pct = d.from_int (pos 90);
    alert_cpu_sustained_min = pos 5;
    alert_mem_high_pct = d.from_int (pos 90);
    alert_mem_sustained_min = pos 5;
    alert_battery_low_pct = d.from_int (pos 15);
    alert_power_high_w = d.from_int (pos 100);
    alert_cooldown_minutes = pos 30;
  }

  unfoldable pub to_json : Config D → Dict (Value D)
  to_json c =
      ("host", Value.text c.host)
      ∷ ("port", Value.whole c.port)
      ∷ ("log_level", Value.text c.log_level)
      ∷ ("retention_1m_days", Value.whole c.retention_1m_days)
      ∷ ("retention_15m_days", Value.whole c.retention_15m_days)
      ∷ ("retention_daily_days", Value.whole c.retention_daily_days)
      ∷ ("retention_events_days", Value.whole c.retention_events_days)
      ∷ ("sample_interval_ms", Value.whole c.sample_interval_ms)
      ∷ ("process_interval_ms", Value.whole c.process_interval_ms)
      ∷ ("thermal_interval_ms", Value.whole c.thermal_interval_ms)
      ∷ ("aggregation_interval_s", Value.whole c.aggregation_interval_s)
      ∷ ("alert_cpu_high_pct", Value.number c.alert_cpu_high_pct)
      ∷ ("alert_cpu_sustained_min", Value.whole c.alert_cpu_sustained_min)
      ∷ ("alert_mem_high_pct", Value.number c.alert_mem_high_pct)
      ∷ ("alert_mem_sustained_min", Value.whole c.alert_mem_sustained_min)
      ∷ ("alert_battery_low_pct", Value.number c.alert_battery_low_pct)
      ∷ ("alert_power_high_w", Value.number c.alert_power_high_w)
      ∷ ("alert_cooldown_minutes", Value.whole c.alert_cooldown_minutes)
      ∷ []

  -- `if (j.contains(key)) j.at(key).get_to(field)`, where JSON that is no object has no key; `none` is the exception of a value of another type.
  unfoldable pub get_text : Dict (Value D) → String → String → Option String
  get_text j key old = elim (lookup key j) [
    | none ↦ some old
    | some (Value.text s) ↦ some s
    | some _ ↦ none
  ]

  -- A whole number, which nlohmann/json holds in 64 bits, keeps its lowest 32. A number with a fraction is cut off,
  -- which `truncate` does. A Boolean counts as 0 or 1.
  unfoldable pub get_int : (truncate : D → ℤ) → Dict (Value D) → String → ℤ → Option ℤ
  unfolding int32_of
  get_int truncate j key old = elim (lookup key j) [
    | none ↦ some old
    | some (Value.whole k) ↦ some (int32_of k)
    | some (Value.number x) ↦ some (truncate x)
    | some (Value.truth b) ↦ some (if b then pos 1 else pos 0)
    | some _ ↦ none
  ]

  unfoldable pub get_double : Dict (Value D) → String → D → Option D
  get_double j key old = elim (lookup key j) [
    | none ↦ some old
    | some (Value.number x) ↦ some x
    | some (Value.whole k) ↦ some (d.from_int k)
    | some _ ↦ none
  ]

  -- apply_double and apply_int: a value out of its range is not taken over. `none` is the exception.
  unfoldable pub accept_double : (low high : ℤ) (target : D) → Option D → Option D
  accept_double low high target none = none
  accept_double low high target (some v) =
      some (if d.le (d.from_int low) v && d.le v (d.from_int high) then v else target)

  unfoldable pub apply_double : Dict (Value D) → String → (low high : ℤ) → D → Option D
  unfolding get_double accept_double
  apply_double body key low high target =
      if is_some (lookup key body)
      then accept_double low high target (get_double body key target)
      else some target

  unfoldable pub apply_int :
      (truncate : D → ℤ) → Dict (Value D) → String → (low high : ℤ) → ℤ → Option ℤ
  unfolding get_int accept_int
  apply_int truncate body key low high target =
      if is_some (lookup key body)
      then accept_int low high target (get_int truncate body key target)
      else some target

  unfoldable pub from_json : (truncate : D → ℤ) → Dict (Value D) → Config D → Option (Config D)
  unfolding get_text get_int get_double
  from_json truncate j c = do
    host ← get_text j "host" c.host
    port ← get_int truncate j "port" c.port
    log_level ← get_text j "log_level" c.log_level
    retention_1m_days ← get_int truncate j "retention_1m_days" c.retention_1m_days
    retention_15m_days ← get_int truncate j "retention_15m_days" c.retention_15m_days
    retention_daily_days ← get_int truncate j "retention_daily_days" c.retention_daily_days
    retention_events_days ← get_int truncate j "retention_events_days" c.retention_events_days
    sample_interval_ms ← get_int truncate j "sample_interval_ms" c.sample_interval_ms
    process_interval_ms ← get_int truncate j "process_interval_ms" c.process_interval_ms
    thermal_interval_ms ← get_int truncate j "thermal_interval_ms" c.thermal_interval_ms
    aggregation_interval_s ← get_int truncate j "aggregation_interval_s" c.aggregation_interval_s
    alert_cpu_high_pct ← get_double j "alert_cpu_high_pct" c.alert_cpu_high_pct
    alert_cpu_sustained_min ← get_int truncate j "alert_cpu_sustained_min" c.alert_cpu_sustained_min
    alert_mem_high_pct ← get_double j "alert_mem_high_pct" c.alert_mem_high_pct
    alert_mem_sustained_min ← get_int truncate j "alert_mem_sustained_min" c.alert_mem_sustained_min
    alert_battery_low_pct ← get_double j "alert_battery_low_pct" c.alert_battery_low_pct
    alert_power_high_w ← get_double j "alert_power_high_w" c.alert_power_high_w
    alert_cooldown_minutes ← get_int truncate j "alert_cooldown_minutes" c.alert_cooldown_minutes
    some (record c {
      host = host;
      port = port;
      log_level = log_level;
      retention_1m_days = retention_1m_days;
      retention_15m_days = retention_15m_days;
      retention_daily_days = retention_daily_days;
      retention_events_days = retention_events_days;
      sample_interval_ms = sample_interval_ms;
      process_interval_ms = process_interval_ms;
      thermal_interval_ms = thermal_interval_ms;
      aggregation_interval_s = aggregation_interval_s;
      alert_cpu_high_pct = alert_cpu_high_pct;
      alert_cpu_sustained_min = alert_cpu_sustained_min;
      alert_mem_high_pct = alert_mem_high_pct;
      alert_mem_sustained_min = alert_mem_sustained_min;
      alert_battery_low_pct = alert_battery_low_pct;
      alert_power_high_w = alert_power_high_w;
      alert_cooldown_minutes = alert_cooldown_minutes;
    })

  -- The changes of POST /api/v1/config in their order, each on the configuration that those before it left.
  unfoldable pub changes : (truncate : D → ℤ) → Dict (Value D) → List (Config D → Option (Config D))
  unfolding apply_double apply_int
  changes truncate body =
      (λ c. do
        v ← apply_double body "alert_cpu_high_pct" (pos 1) (pos 100) c.alert_cpu_high_pct
        some (record c { alert_cpu_high_pct = v }))
      ∷ (λ c. do
        v ←
            apply_int truncate body "alert_cpu_sustained_min" (pos 1) (pos 60)
              c.alert_cpu_sustained_min
        some (record c { alert_cpu_sustained_min = v }))
      ∷ (λ c. do
        v ← apply_double body "alert_mem_high_pct" (pos 1) (pos 100) c.alert_mem_high_pct
        some (record c { alert_mem_high_pct = v }))
      ∷ (λ c. do
        v ←
            apply_int truncate body "alert_mem_sustained_min" (pos 1) (pos 60)
              c.alert_mem_sustained_min
        some (record c { alert_mem_sustained_min = v }))
      ∷ (λ c. do
        v ← apply_double body "alert_battery_low_pct" (pos 1) (pos 50) c.alert_battery_low_pct
        some (record c { alert_battery_low_pct = v }))
      ∷ (λ c. do
        v ← apply_double body "alert_power_high_w" (pos 1) (pos 1000) c.alert_power_high_w
        some (record c { alert_power_high_w = v }))
      ∷ (λ c. do
        v ←
            apply_int truncate body "alert_cooldown_minutes" (pos 1) (pos 1440)
              c.alert_cooldown_minutes
        some (record c { alert_cooldown_minutes = v }))
      ∷ (λ c. do
        v ← apply_int truncate body "retention_1m_days" (pos 1) (pos 3650) c.retention_1m_days
        some (record c { retention_1m_days = v }))
      ∷ (λ c. do
        v ← apply_int truncate body "retention_15m_days" (pos 1) (pos 3650) c.retention_15m_days
        some (record c { retention_15m_days = v }))
      ∷ (λ c. do
        v ← apply_int truncate body "retention_daily_days" (pos 1) (pos 3650) c.retention_daily_days
        some (record c { retention_daily_days = v }))
      ∷ (λ c. do
        v ←
            apply_int truncate body "retention_events_days" (pos 1) (pos 3650)
              c.retention_events_days
        some (record c { retention_events_days = v }))
      ∷ []

  -- An exception leaves the changes made before it.
  unfoldable pub change_all : List (Config D → Option (Config D)) → Config D → Bool × Config D
  change_all [] c = (true, c)
  change_all (f ∷ fs) c = elim (f c) [ none ↦ (false, c) | some after ↦ change_all fs after ]

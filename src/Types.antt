-- ===== src/Types.antt =====
-- include/pulseport/types.h: the quality levels, samples, aggregates and metric metadata that all
-- parts share. `int64_t` epoch seconds are integers; the clock itself is an argument where the
-- program reads it.
pub mod Roundtrip
use pulseport.Prelude.{ℕ, String, Bool, ltb, str_eq, if◌then◌else◌}
use pulseport.Prelude.Int.{ℤ, pos}
use pulseport.Prelude.Double.{Double}

pub data Quality : Type 0 where
  measured derived estimated unknown : Quality

unfoldable pub quality_to_string : Quality → String
quality_to_string Quality.measured = "measured"
quality_to_string Quality.derived = "derived"
quality_to_string Quality.estimated = "estimated"
quality_to_string Quality.unknown = "unknown"

unfoldable pub quality_from_string : String → Quality
quality_from_string s =
    if str_eq s "measured"
    then Quality.measured
    else if str_eq s "derived"
    then Quality.derived
    else if str_eq s "estimated"
    then Quality.estimated
    else Quality.unknown

-- `static_cast<uint8_t>(q)`: the position in the enumeration.
abbrev pub rank : Quality → ℕ
rank Quality.measured = 0
rank Quality.derived = 1
rank Quality.estimated = 2
rank Quality.unknown = 3

-- `if (rank(q) > rank(worst)) worst = q;`
abbrev pub worse : Quality → Quality → Quality
worse worst q = if ltb (rank worst) (rank q) then q else worst

pub record MetricSample {ℓ} (D : Type ℓ) : Type ℓ where
  pub key : String
  pub value : D
  pub unit : String
  pub quality : Quality
  pub ts : ℤ

pub record MetricAggregate {ℓ} (D : Type ℓ) : Type ℓ where
  pub key : String
  pub bucket_ts : ℤ
  pub min_value : D
  pub max_value : D
  pub avg_value : D
  pub sample_count : ℕ
  pub quality : Quality

pub record MetricInfo : Type 0 where
  pub key : String
  pub display_name : String
  pub unit : String
  pub source : String
  pub category : String

-- `MetricSample{}`: the members' default initialisers.
abbrev pub empty_sample {ℓ} : {D : Type ℓ} ⦃d : Double D⦄ → MetricSample D
empty_sample ⦃d⦄ = record {
  key = "";
  value = d.from_int (pos 0);
  unit = "";
  quality = Quality.unknown;
  ts = pos 0;
}

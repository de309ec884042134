-- ===== src/Collectors.antt =====
-- include/pulseport/collectors.h: the collectors that read the Windows API and push samples to the registry.
-- What the API answers in one collection is an argument; a collection is the list of the samples that it
-- pushes, in their order, and its effect is to push them.
pub mod Recorded
pub mod Battery
pub mod Pdh
pub mod Thermal
pub mod Process
use pulseport.Registry.{Registry, register_metric}
use pulseport.Prelude.{Bool, List, String, [], if◌then◌else◌, ◌∷◌}
use pulseport.Prelude.Int.{ℤ}
use pulseport.Prelude.Double.{Double}
use pulseport.Types.{MetricInfo, MetricSample, Quality}

-- `{key, display_name, unit, source, category}`
abbrev pub metric : (key display_name unit source category : String) → MetricInfo
metric key display_name unit source category = record {
  key = key;
  display_name = display_name;
  unit = unit;
  source = source;
  category = category;
}

module _ {ℓ} {D : Type ℓ} ⦃d : Double D⦄ where
  -- `{key, value, unit, quality, ts}`
  abbrev pub sample : (key : String) → D → (unit : String) → Quality → ℤ → MetricSample D
  sample key value unit quality ts = record {
    key = key;
    value = value;
    unit = unit;
    quality = quality;
    ts = ts;
  }

  -- Metrics registered one after the other.
  unfoldable pub register_all : Registry D → List MetricInfo → Registry D
  register_all r [] = r
  register_all r (info ∷ infos) = register_all (register_metric r info) infos

  -- A push under an `if`.
  unfoldable pub push_if : Bool → MetricSample D → List (MetricSample D)
  push_if b s = if b then s ∷ [] else []

-- ===== src/Collectors/Thermal.antt =====
-- src/windows/thermal_collector.cpp: the temperature of the thermal zone, over WMI.
-- What COM answers while the collector starts: CoInitializeEx (or RPC_E_CHANGED_MODE), the locator, the
-- connection, and the test query with an object.
pub mod Zone
use pulseport.Registry.{Registry}
use pulseport.Registry.Feed.{push_all}
use pulseport.Collectors.{metric, register_all, sample}
use pulseport.Prelude.{
  Bool, List, Option, [], false, if◌then◌else◌, none, not, some, true, ℕ, ◌&&◌, ◌||◌, ◌∷◌,
}
use pulseport.Prelude.Int.{negsuc, pos, ℤ}
use pulseport.Prelude.Double.{Double}
use pulseport.Types.{MetricInfo, MetricSample, Quality}

pub record ComStart : Type 0 where
  pub initialized : Bool
  pub changed_mode : Bool
  pub locator : Bool
  pub connected : Bool
  pub enumerated : Bool
  pub object_returned : Bool

-- s_thermal_available, s_wbem_locator and s_wbem_services
pub record ThermalState : Type 0 where
  pub available : Bool
  pub has_locator : Bool
  pub has_services : Bool

abbrev pub thermal_off : ThermalState
thermal_off = record { available = false; has_locator = false; has_services = false }

unfoldable pub start_thermal : ComStart → ThermalState
start_thermal api =
    if not api.initialized && not api.changed_mode
    then thermal_off
    else if not api.locator
    then thermal_off
    else if not api.connected
    then thermal_off
    else record {
      available = api.enumerated && api.object_returned;
      has_locator = true;
      has_services = true;
    }

abbrev pub thermal_metrics : List MetricInfo
thermal_metrics = metric "temp.zone_c" "Thermal Zone" "°C" "wmi_acpi" "temperature" ∷ []

module _ {ℓ} {D : Type ℓ} ⦃d : Double D⦄ where
  unfoldable pub register_thermal_collectors : ComStart → Registry D → ThermalState × Registry D
  unfolding start_thermal register_all
  register_thermal_collectors api r = (start_thermal api, register_all r thermal_metrics)

  -- WMI gives tenths of Kelvin. A difference is a sum with a negated term; 273.15 is 27315 / 100.
  unfoldable pub celsius : ℕ → D
  celsius tenths =
      d.add (d.div (d.from_int (pos tenths)) (d.from_int (pos 10)))
        (d.div (d.from_int (negsuc 27314)) (d.from_int (pos 100)))

  -- The query, the first object, and its property CurrentTemperature; none where a step fails.
  unfoldable pub thermal_samples : Option (Option (Option ℕ)) → ℤ → List (MetricSample D)
  unfolding celsius
  thermal_samples none ts = []
  thermal_samples (some none) ts = []
  thermal_samples (some (some none)) ts = []
  thermal_samples (some (some (some tenths))) ts =
      sample "temp.zone_c" (celsius tenths) "°C" Quality.measured ts ∷ []

  unfoldable pub collect_thermal :
      ThermalState → Option (Option (Option ℕ)) → ℤ → Registry D → Registry D
  unfolding thermal_samples push_all
  collect_thermal state answer ts r =
      if not state.available || not state.has_services
      then r
      else push_all r (thermal_samples answer ts)

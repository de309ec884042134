-- ===== src/Collectors/Battery.antt =====
-- src/windows/battery_collector.cpp: the state of the battery and the power draw.
-- What SetupAPI and DeviceIoControl answer. `query_status` takes the battery's tag and returns the rate in
-- milliwatts, none where the call fails.
pub mod Draw
use pulseport.Registry.Feed.{push_all}
use pulseport.Registry.{Registry}
use pulseport.Collectors.{metric, push_if, register_all, sample}
use pulseport.Prelude.{
  Bool, List, Option, [], bit_and, if◌then◌else◌, ltb, none, not, some, ℕ, ◌&&◌, ◌++◌, ◌+◌, ◌-◌,
  ◌==◌, ◌^◌, ◌||◌, ◌∷◌,
}
use pulseport.Prelude.Int.{eqb_ℤ, neg_part, negsuc, pos, pos_part, ℤ}
use pulseport.Prelude.Double.{Double}
use pulseport.Types.{MetricInfo, MetricSample, Quality}

pub record BatteryApi : Type 0 where
  pub devices_open : Bool
  pub interface_found : Bool
  pub required_size : ℕ
  pub detail_read : Bool
  pub battery_open : Bool
  pub query_tag : Option ℕ
  pub query_status : ℕ → Option ℤ

-- SYSTEM_POWER_STATUS
pub record PowerStatus : Type 0 where
  pub ac_line_status : ℕ
  pub battery_flag : ℕ
  pub battery_life_percent : ℕ
  pub battery_life_time : ℕ

-- BATTERY_UNKNOWN_RATE as a LONG
abbrev pub unknown_rate : ℤ
unknown_rate = negsuc (2 ^ 31 - 1)

-- `static_cast<DWORD>(-1)`
abbrev pub unknown_life_time : ℕ
unknown_life_time = 2 ^ 32 - 1

abbrev pub magnitude : ℤ → ℕ
magnitude k = pos_part k + neg_part k

abbrev pub battery_metrics : List MetricInfo
battery_metrics =
    metric "battery.level_pct" "Battery Level" "%" "system" "battery"
    ∷ metric "battery.charging" "Charging" "bool" "system" "battery"
    ∷ metric "battery.ac_online" "AC Power" "bool" "system" "battery"
    ∷ metric "power.current_w" "Power Draw" "W" "battery_rate" "power"
    ∷ metric "battery.remaining_min" "Time Remaining" "min" "system" "battery"
    ∷ []

module _ {ℓ} {D : Type ℓ} ⦃d : Double D⦄ where
  abbrev pub failed_rate : D
  failed_rate = d.from_int (negsuc 0)

  unfoldable pub rate_watts : Option ℤ → D
  rate_watts none = failed_rate
  rate_watts (some rate) =
      if eqb_ℤ rate unknown_rate || eqb_ℤ rate (pos 0)
      then failed_rate
      else d.div (d.from_int (pos (magnitude rate))) (d.from_int (pos 1000))

  unfoldable pub query_battery_rate_ioctl : BatteryApi → D
  unfolding rate_watts
  query_battery_rate_ioctl api =
      if not api.devices_open
      then failed_rate
      else if not api.interface_found
      then failed_rate
      else if api.required_size == 0
      then failed_rate
      else if not api.detail_read
      then failed_rate
      else if not api.battery_open
      then failed_rate
      else elim api.query_tag [
        | none ↦ failed_rate
        | some battery_tag ↦
            if battery_tag == 0 then failed_rate else rate_watts (api.query_status battery_tag)
      ]

  unfoldable pub register_battery_collectors : Registry D → Registry D
  unfolding register_all
  register_battery_collectors r = register_all r battery_metrics

  abbrev pub truth : Bool → D
  truth b = if b then d.from_int (pos 1) else d.from_int (pos 0)

  -- 50 Wh are taken for the capacity of a battery.
  unfoldable pub estimated_watts : (percent life_time : ℕ) → D
  estimated_watts percent life_time =
      let hours_remaining = d.div (d.from_int (pos life_time)) (d.from_int (pos 3600)) in
      let pct = d.div (d.from_int (pos percent)) (d.from_int (pos 100)) in
      d.div (d.mul (d.from_int (pos 50)) pct) hours_remaining

  unfoldable pub power_sample : BatteryApi → PowerStatus → ℤ → MetricSample D
  unfolding query_battery_rate_ioctl estimated_watts
  power_sample api sps ts =
      let watts = query_battery_rate_ioctl api in
      if d.le (d.from_int (pos 0)) watts
      then sample "power.current_w" watts "W" Quality.measured ts
      else if not (sps.ac_line_status == 1)
          && not (sps.battery_life_percent == 255)
          && not (sps.battery_life_time == unknown_life_time)
          && ltb 0 sps.battery_life_time
      then sample "power.current_w" (estimated_watts sps.battery_life_percent sps.battery_life_time)
          "W" Quality.estimated ts
      else sample "power.current_w" (d.from_int (pos 0)) "W" Quality.unknown ts

  -- The samples of one collection.
  unfoldable pub battery_samples : BatteryApi → PowerStatus → ℤ → List (MetricSample D)
  unfolding power_sample push_if
  battery_samples api sps ts =
      let ac_online = sps.ac_line_status == 1 in
      let level = d.from_int (pos sps.battery_life_percent) in
      let charging = not (bit_and sps.battery_flag 8 == 0) in
      let remaining_min = d.div (d.from_int (pos sps.battery_life_time)) (d.from_int (pos 60)) in
      sample "battery.ac_online" (truth ac_online) "bool" Quality.measured ts
      ∷ (push_if (not (sps.battery_life_percent == 255))
            (sample "battery.level_pct" level "%" Quality.measured ts)
          ++ sample "battery.charging" (truth charging) "bool" Quality.measured ts
            ∷ (push_if (not ac_online && not (sps.battery_life_time == unknown_life_time))
                  (sample "battery.remaining_min" remaining_min "min" Quality.derived ts)
                ++ power_sample api sps ts ∷ []))

  -- `sps` is none where GetSystemPowerStatus fails.
  unfoldable pub collect_battery : BatteryApi → Option PowerStatus → ℤ → Registry D → Registry D
  unfolding battery_samples push_all
  collect_battery api none ts r = r
  collect_battery api (some sps) ts r = push_all r (battery_samples api sps ts)

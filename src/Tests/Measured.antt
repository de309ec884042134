-- ===== src/Tests/Measured.antt =====
-- The collectors at concrete answers of the Windows API.
-- Integers as a `double` with negative values.
use pulseport.Collectors.Pdh.Table.{shown}
use pulseport.Collectors.Pdh.Shown.{latest-collect_pdh, shown_counters}
use pulseport.Collectors.Pdh.Opening.{PdhQuery, open_counters}
use pulseport.Registry.{latest}
use pulseport.Collectors.{sample}
use pulseport.Collectors.Battery.{
  BatteryApi, PowerStatus, collect_battery, register_battery_collectors,
}
use pulseport.Collectors.Pdh.{PdhReadings, collect_pdh, register_pdh_collectors}
use pulseport.Collectors.Battery.Draw.{HasSigns, latest-collect_battery}
use pulseport.Collectors.Thermal.{ComStart, ThermalState, register_thermal_collectors}
use pulseport.Registry.{latest, Registry}
use pulseport.Prelude.{
  All, List, Option, String, [], arith, false, if◌then◌else◌, none, refl, some, str_eq, true, ℕ,
  ◌/◌, ◌==◌, ◌∷◌, ◌≡◌,
}
use pulseport.Prelude.Int.{leb_ℤ, ltb_ℤ, negsuc, pos, pos_part, ℤ, ◌*ℤ◌, ◌+ℤ◌}
use pulseport.Prelude.Double.{Approx, Double, approx_double}
use pulseport.Types.{Quality}

instance abbrev pub whole_double : Double ℤ
whole_double = record {
  from_int = λ k. k;
  add = λ a b. a +ℤ b;
  mul = λ a b. a *ℤ b;
  div = λ a b. pos (pos_part a / pos_part b);
  lt = ltb_ℤ;
  le = leb_ℤ;
}

pub whole-HasSigns : HasSigns ℤ
whole-HasSigns = record { minus_one = refl; thousandth = λ n. ground arith }

abbrev pub discharging : BatteryApi
discharging = record {
  devices_open = true;
  interface_found = true;
  required_size = 40;
  detail_read = true;
  battery_open = true;
  query_tag = some 3;
  query_status = λ tag. some (negsuc 8999);
}

abbrev pub on_battery : PowerStatus
on_battery = record {
  ac_line_status = 0;
  battery_flag = 1;
  battery_life_percent = 80;
  battery_life_time = 7200;
}

latest-collect_battery_example :
    latest
      (collect_battery discharging (some on_battery) (pos 5) (register_battery_collectors []))
      "power.current_w"
    ≡ some (sample {D = ℤ} "power.current_w" (pos 9) "W" Quality.measured (pos 5))
latest-collect_battery_example =
    latest-collect_battery whole-HasSigns [] discharging on_battery (pos 5) refl

abbrev wmi_works : ComStart
wmi_works = record {
  initialized = true;
  changed_mode = false;
  locator = true;
  connected = true;
  enumerated = true;
  object_returned = true;
}

abbrev thermal_started : ThermalState × Registry ℤ
thermal_started = register_thermal_collectors wmi_works []

abbrev digit : ℕ → String
digit n = if n == 0 then "0" else "1"

abbrev two_processes : List (String × Approx)
two_processes = ("Idle", some 90) ∷ ("a", some 3) ∷ ("b", some 8) ∷ []

-- The counter of the commit limit is refused.
abbrev one_refused : PdhQuery String
one_refused = record {
  opens = true;
  add_counter = λ path. if str_eq path "\\Memory\\Commit Limit" then none else some path;
}

-- The counter of the processor time is at 12, the others at 3.
abbrev readings : PdhReadings ℤ String
readings = record {
  collects = true;
  formatted =
      λ path. some (if str_eq path "\\Processor(_Total)\\% Processor Time" then pos 12 else pos 3);
  memory_load = some 40;
}

latest-collect_pdh_example :
    let registered = register_pdh_collectors {D = ℤ} (λ i. "0") 2 [] in
    let opened = open_counters (λ i. "0") one_refused 2 in
    let after = collect_pdh (λ i. "0") readings (pos 7) opened registered in
    All
      (λ (x : Option String × String × String).
        latest after x.1 ≡ shown (λ i. "0") readings (pos 7) x.0 x.1 x.2)
      (shown_counters (λ i. "0") readings (pos 7) one_refused)
latest-collect_pdh_example =
    let same : (i : ℕ) → false ≡ false = λ i. refl in
    latest-collect_pdh (λ i. "0") readings (pos 7) one_refused 2 refl refl refl
      (same, (same, (same, (same, (same, (same, (same, (same, (same, (same, tt))))))))))

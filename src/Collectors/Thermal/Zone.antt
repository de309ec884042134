-- ===== src/Collectors/Thermal/Zone.antt =====
-- src/windows/thermal_collector.cpp: the temperature that the registry has after a collection.
-- Every call that the collector needs succeeded while it started.
use pulseport.Registry.Feed.{push_all}
use pulseport.Collectors.Recorded.{
  IsRegistered, latest-push_all-reported, register_all-IsListed, reported_single,
}
use pulseport.Collectors.Thermal.{
  ComStart, celsius, collect_thermal, register_thermal_collectors, start_thermal, thermal_metrics,
  thermal_samples,
}
use pulseport.Collectors.{register_all, sample}
use pulseport.Registry.{latest, Registry}
use pulseport.Prelude.{
  Bool, Bool-cases, Option, [], arith, false, if◌then◌else◌, inl, inr, none, refl, some, true, ℕ,
  ◌&&◌, ◌||◌, ◌∷◌, ◌≡◌,
}
use pulseport.Prelude.Int.{eqb_ℤ, pos, ℤ}
use pulseport.Prelude.Double.{Double}
use pulseport.Types.{Quality}

abbrev pub is_working : ComStart → Bool
is_working api =
    (api.initialized || api.changed_mode)
    && api.locator
    && api.connected
    && api.enumerated
    && api.object_returned

abbrev pub reading : Option (Option (Option ℕ)) → Option ℕ
reading (some (some answer)) = answer
reading _ = none

module _ {ℓ} {D : Type ℓ} ⦃d : Double D⦄ where
  collect_thermal_off :
      (api : ComStart) (answer : Option (Option (Option ℕ))) (ts : ℤ) (r : Registry D)
      → is_working api ≡ false
      → collect_thermal (start_thermal api) answer ts r ≡ r
  unfolding collect_thermal start_thermal
  collect_thermal_off api answer ts r h = ground arith

  collect_thermal_on :
      (api : ComStart) (answer : Option (Option (Option ℕ))) (ts : ℤ) (r : Registry D)
      → is_working api ≡ true
      → collect_thermal (start_thermal api) answer ts r ≡ push_all r (thermal_samples answer ts)
  unfolding collect_thermal start_thermal
  collect_thermal_on api answer ts r h = ground arith

  latest-push_all-thermal_samples :
      (answer : Option (Option (Option ℕ))) (ts : ℤ) (r : Registry D)
      → IsRegistered r "temp.zone_c"
      → eqb_ℤ ts (pos 0) ≡ false
      → latest (push_all r (thermal_samples answer ts)) "temp.zone_c" ≡ elim (reading answer) [
        | none ↦ latest r "temp.zone_c"
        | some tenths ↦ some (sample "temp.zone_c" (celsius tenths) "°C" Quality.measured ts)
      ]
  unfolding thermal_samples push_all
  latest-push_all-thermal_samples none ts r reg ne = refl
  latest-push_all-thermal_samples (some none) ts r reg ne = refl
  latest-push_all-thermal_samples (some (some none)) ts r reg ne = refl
  latest-push_all-thermal_samples (some (some (some tenths))) ts r reg ne =
      let s = sample "temp.zone_c" (celsius tenths) "°C" Quality.measured ts in
      latest-push_all-reported (s ∷ []) r "temp.zone_c" s reg (reported_single "temp.zone_c" s refl)
        ne

  -- After the collector is registered, a collection at a time stamp other than 0 makes the latest temperature the one
  -- that WMI gives, in degrees Celsius, if every call succeeded while it started and now; else it leaves the
  -- temperature as it was.
  pub latest-collect_thermal :
      (api : ComStart) (answer : Option (Option (Option ℕ))) (ts : ℤ) (r : Registry D)
      → eqb_ℤ ts (pos 0) ≡ false
      → let registered = register_thermal_collectors api r in
        latest (collect_thermal registered.0 answer ts registered.1) "temp.zone_c"
        ≡ elim (if is_working api then reading answer else none) [
          | none ↦ latest registered.1 "temp.zone_c"
          | some tenths ↦ some (sample "temp.zone_c" (celsius tenths) "°C" Quality.measured ts)
        ]
  unfolding register_thermal_collectors
  latest-collect_thermal api answer ts r ne =
      let now : Registry D = register_all r thermal_metrics in
      elim (Bool-cases (is_working api)) [
        | inl on ↦
            rw (collect_thermal_on api answer ts now on, on)
              (latest-push_all-thermal_samples answer ts now
                (register_all-IsListed thermal_metrics r "temp.zone_c" "°C" (inl (refl, refl))) ne)
        | inr off ↦ rw (collect_thermal_off api answer ts now off, off) refl
      ]

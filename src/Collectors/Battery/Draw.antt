-- ===== src/Collectors/Battery/Draw.antt =====
-- src/windows/battery_collector.cpp: the power draw that the registry has after a collection.
-- The rate in milliwatts that the battery reports, none where a call fails or the rate is unknown or 0.
use pulseport.Registry.Feed.{push_all}
use pulseport.Collectors.Recorded.{
  latest-push_all-reported, register_all-IsListed, reported, reported-append, reported_single,
  All-register_all, IsRegistered, IsListed, push_if-All,
}
use pulseport.Registry.{latest, Registry}
use pulseport.Collectors.{sample, push_if, register_all}
use pulseport.Collectors.Battery.{
  BatteryApi, PowerStatus, estimated_watts, failed_rate, magnitude, power_sample,
  query_battery_rate_ioctl, rate_watts, unknown_life_time, unknown_rate, battery_metrics,
  battery_samples, collect_battery, register_battery_collectors, truth,
}
use pulseport.Prelude.{
  All, Bool, Option, Option-cases, String, [], ap, arith, bit_and, false, if◌then◌else◌, inl, inr,
  ltb, none, not, refl, some, sym, ℕ, ◌&&◌, ◌++◌, ◌==◌, ◌||◌, ◌∙◌, ◌∷◌, ◌≡◌,
}
use pulseport.Prelude.Int.{eqb_ℤ, negsuc, pos, ℤ}
use pulseport.Prelude.Double.{Double, ◌≼◌}
use pulseport.Types.{MetricSample, Quality}

abbrev pub known_rate : Option ℤ → Option ℤ
known_rate none = none
known_rate (some rate) = if eqb_ℤ rate unknown_rate || eqb_ℤ rate (pos 0) then none else some rate

abbrev pub reported_rate : BatteryApi → Option ℤ
reported_rate api =
    if api.devices_open
      && api.interface_found
      && not (api.required_size == 0)
      && api.detail_read
      && api.battery_open
    then elim api.query_tag [
      | none ↦ none
      | some tag ↦ if tag == 0 then none else known_rate (api.query_status tag)
    ]
    else none

-- The battery discharges, and its charge and the time it lasts are known.
abbrev pub is_estimable : PowerStatus → Bool
is_estimable sps =
    not (sps.ac_line_status == 1)
    && not (sps.battery_life_percent == 255)
    && not (sps.battery_life_time == unknown_life_time)
    && ltb 0 sps.battery_life_time

-- The `double` -1.0 is below 0.0, and a thousandth of a natural is not.
pub record HasSigns {ℓ} (D : Type ℓ) ⦃d : Double D⦄ : Type ℓ where
  pub minus_one : d.le (d.from_int (pos 0)) (d.from_int (negsuc 0)) ≡ false
  pub thousandth : (n : ℕ) → d.from_int (pos 0) ≼ d.div (d.from_int (pos n)) (d.from_int (pos 1000))

module _ {ℓ} {D : Type ℓ} ⦃d : Double D⦄ where
  -- The power draw and its quality, from the rate if there is one.
  abbrev pub draw : Option ℤ → PowerStatus → D × Quality
  draw (some rate) sps =
      (d.div (d.from_int (pos (magnitude rate))) (d.from_int (pos 1000)), Quality.measured)
  draw none sps =
      if is_estimable sps
      then (estimated_watts sps.battery_life_percent sps.battery_life_time, Quality.estimated)
      else (d.from_int (pos 0), Quality.unknown)

  abbrev pub rate_or_failed : Option ℤ → D
  rate_or_failed none = failed_rate
  rate_or_failed (some k) = d.div (d.from_int (pos (magnitude k))) (d.from_int (pos 1000))

  rate_watts_lem :
      (rate : Option ℤ) → ◌≡◌ {A = D} (rate_watts rate) (rate_or_failed (known_rate rate))
  unfolding rate_watts
  rate_watts_lem none = refl
  rate_watts_lem (some rate) = ground arith

  query_battery_rate_ioctl_lem :
      (api : BatteryApi)
      → ◌≡◌ {A = D} (query_battery_rate_ioctl api) (rate_or_failed (reported_rate api))
  unfolding query_battery_rate_ioctl
  query_battery_rate_ioctl_lem api = elim (Option-cases api.query_tag) [
    | inl h ↦ rw h (ground arith)
    | inr (tag, h) ↦ rw h (ground (arith, rate_watts_lem (api.query_status tag)))
  ]

  power_sample_lem :
      HasSigns D
      → (api : BatteryApi) (sps : PowerStatus) (ts : ℤ)
      → let reading = draw (reported_rate api) sps in
        power_sample api sps ts ≡ sample "power.current_w" reading.0 "W" reading.1 ts
  unfolding power_sample
  power_sample_lem signs api sps ts =
      rw (query_battery_rate_ioctl_lem api) (elim (Option-cases (reported_rate api)) [
        | inl h ↦ rw (h, signs.minus_one) (ground arith)
        | inr (k, h) ↦ rw (h, signs.thousandth (magnitude k)) refl
      ])

  power_sample-key :
      (api : BatteryApi) (sps : PowerStatus) (ts : ℤ) (s : MetricSample D)
      → s ≡ power_sample api sps ts
      → (s.key ≡ "power.current_w") × (s.unit ≡ "W")
  unfolding power_sample
  power_sample-key api sps ts s h = rw h (ground arith)

  battery_samples_last :
      (api : BatteryApi) (sps : PowerStatus) (ts : ℤ)
      → reported {D = D} "power.current_w" (battery_samples api sps ts)
        ≡ some (power_sample api sps ts)
  unfolding battery_samples
  battery_samples_last api sps ts =
      let ac_online = sps.ac_line_status == 1 in
      let key : String = "power.current_w" in
      let p : MetricSample D = power_sample api sps ts in
      let at_end = reported_single key p (power_sample-key api sps ts p refl).0 in
      let timed =
        reported-append key
          (push_if (not ac_online && not (sps.battery_life_time == unknown_life_time)) _) (p ∷ []) p
          at_end in
      let charged = reported-append key (_ ∷ []) _ p timed in
      let levelled =
        reported-append key (push_if (not (sps.battery_life_percent == 255)) _) _ p charged in
      reported-append key (_ ∷ []) _ p levelled

  pub latest-push_all-battery_samples :
      HasSigns D
      → (r : Registry D) (api : BatteryApi) (sps : PowerStatus) (ts : ℤ)
      → IsRegistered r "power.current_w"
      → eqb_ℤ ts (pos 0) ≡ false
      → let reading = draw (reported_rate api) sps in
        latest (push_all r (battery_samples api sps ts)) "power.current_w"
        ≡ some (sample "power.current_w" reading.0 "W" reading.1 ts)
  latest-push_all-battery_samples signs r api sps ts registered ne =
      let reading = draw (reported_rate api) sps in
      latest-push_all-reported (battery_samples api sps ts) r "power.current_w"
        (sample "power.current_w" reading.0 "W" reading.1 ts) registered
        (battery_samples_last api sps ts ∙ ap some (power_sample_lem signs api sps ts)) ne

  -- After the battery's metrics are registered and a collection is made in which GetSystemPowerStatus succeeds, at a
  -- time stamp other than 0, the latest power draw is the reported rate as a measured value; without one, an estimate
  -- from the charge and the remaining time while these are known and the battery discharges; and else 0 of unknown quality.
  pub latest-collect_battery :
      HasSigns D
      → (r : Registry D) (api : BatteryApi) (sps : PowerStatus) (ts : ℤ) → eqb_ℤ ts (pos 0) ≡ false
      → let reading = draw (reported_rate api) sps in
        latest (collect_battery api (some sps) ts (register_battery_collectors r)) "power.current_w"
        ≡ some (sample "power.current_w" reading.0 "W" reading.1 ts)
  unfolding collect_battery register_battery_collectors
  latest-collect_battery signs r api sps ts ne =
      latest-push_all-battery_samples signs (register_all r battery_metrics) api sps ts
        (register_all-IsListed battery_metrics r "power.current_w" "W"
          (inr (inr (inr (inl (refl, refl))))))
        ne

  -- Every sample of a collection, whatever the API answers, is of a metric that is registered, so none is dropped.
  pub battery_samples-IsRegistered :
      (r : Registry D) (api : BatteryApi) (sps : PowerStatus) (ts : ℤ)
      → All
          (λ (s : MetricSample D). IsRegistered (register_battery_collectors r) s.key)
          (battery_samples api sps ts)
  unfolding battery_samples register_battery_collectors
  battery_samples-IsRegistered r api sps ts =
      let p : MetricSample D = power_sample api sps ts in
      let power = power_sample-key api sps ts p refl in
      let level_known = not (sps.battery_life_percent == 255) in
      let time_known =
        not (sps.ac_line_status == 1) && not (sps.battery_life_time == unknown_life_time) in
      let P : MetricSample D → Type 0 = λ s. IsListed s.key s.unit battery_metrics in
      let remaining_min = d.div (d.from_int (pos sps.battery_life_time)) (d.from_int (pos 60)) in
      let timed = sample "battery.remaining_min" remaining_min "min" Quality.derived ts in
      let level =
        sample "battery.level_pct" (d.from_int (pos sps.battery_life_percent)) "%" Quality.measured
          ts in
      let charging : MetricSample D =
        sample "battery.charging" (truth (not (bit_and sps.battery_flag 8 == 0))) "bool"
          Quality.measured ts in
      let last : All P (p ∷ []) = (inr (inr (inr (inl (sym power.0, sym power.1)))), tt) in
      let end =
        push_if-All P time_known timed (p ∷ []) (inr (inr (inr (inr (inl (refl, refl)))))) last in
      let middle : All P (charging ∷ (push_if time_known timed ++ p ∷ [])) =
        (inr (inl (refl, refl)), end) in
      All-register_all battery_metrics r (battery_samples api sps ts)
        (inr (inr (inl (refl, refl))), push_if-All P level_known level _ (inl (refl, refl)) middle)

-- ===== src/Power.antt =====
-- include/pulseport/power_pipeline.h and src/metrics/power_pipeline.cpp: the current power draw, the energy of
-- the day and the rolling window of 900 readings. One thread updates it.
use pulseport.Prelude.{
  List, get_or, if◌then◌else◌, ltb, replicate, set, suc, zero, ℕ, ◌%◌, ◌&&◌, ◌+◌, ◌-◌, ◌==◌,
}
use pulseport.Prelude.Int.{ltb_ℤ, pos, ℤ, ◌-ℤ◌}
use pulseport.Prelude.Double.{Double}
use pulseport.Types.{Quality}
pub mod Window

pub record PowerSample {ℓ} (D : Type ℓ) : Type ℓ where
  pub watts : D
  pub ts : ℤ

pub record PowerPipeline {ℓ} (D : Type ℓ) : Type ℓ where
  pub current_watts : D
  pub current_quality : Quality
  pub energy_today_wh : D
  pub window : List (PowerSample D)
  pub window_head : ℕ
  pub window_count : ℕ
  pub last_ts : ℤ

abbrev pub max_window : ℕ
max_window = 900

module _ {ℓ} {D : Type ℓ} ⦃d : Double D⦄ where
  abbrev pub blank_power : PowerSample D
  blank_power = record { watts = d.from_int (pos 0); ts = pos 0 }

  unfoldable pub new_pipeline : PowerPipeline D
  new_pipeline = record {
    current_watts = d.from_int (pos 0);
    current_quality = Quality.unknown;
    energy_today_wh = d.from_int (pos 0);
    window = replicate max_window blank_power;
    window_head = 0;
    window_count = 0;
    last_ts = pos 0;
  }

  -- The energy after a reading: watts times hours since the last one, unless that one is missing, not
  -- older, or more than ten seconds back.
  unfoldable pub accrue : PowerPipeline D → D → ℤ → D
  accrue p watts ts =
      let delta_s = d.from_int (ts -ℤ p.last_ts) in
      if ltb_ℤ (pos 0) p.last_ts && ltb_ℤ p.last_ts ts && d.le delta_s (d.from_int (pos 10))
      then d.add p.energy_today_wh (d.mul watts (d.div delta_s (d.from_int (pos 3600))))
      else p.energy_today_wh

  unfoldable pub update : PowerPipeline D → D → Quality → ℤ → PowerPipeline D
  update p watts quality ts = record {
    current_watts = watts;
    current_quality = quality;
    energy_today_wh = accrue p watts ts;
    window = set p.window p.window_head (record { watts = watts; ts = ts });
    window_head = (p.window_head + 1) % max_window;
    window_count = if ltb p.window_count max_window then p.window_count + 1 else p.window_count;
    last_ts = ts;
  }

  -- The loop of avg_watts, `n` rounds before its end, with the sum and the count so far. The index
  -- `head - 1 - i + 900` is not negative, as `i` stays below 900.
  unfoldable pub avg_loop : PowerPipeline D → ℤ → (n i : ℕ) → D → ℕ → D × ℕ
  avg_loop p cutoff zero i sum count = (sum, count)
  avg_loop p cutoff (suc n) i sum count =
      let s = get_or p.window ((p.window_head + max_window - 1 - i) % max_window) blank_power in
      let rest = avg_loop p cutoff n (i + 1) (d.add sum s.watts) (count + 1) in
      if ltb_ℤ s.ts cutoff then (sum, count) else rest

  unfoldable pub mean : D × ℕ → D
  mean (sum, count) = if ltb 0 count then d.div sum (d.from_int (pos count)) else d.from_int (pos 0)

  unfoldable pub avg_watts : PowerPipeline D → ℤ → D
  unfolding avg_loop mean
  avg_watts p window_seconds =
      if p.window_count == 0
      then d.from_int (pos 0)
      else mean (avg_loop p (p.last_ts -ℤ window_seconds) p.window_count 0 (d.from_int (pos 0)) 0)

  unfoldable pub reset_daily : PowerPipeline D → PowerPipeline D
  reset_daily p = record p { energy_today_wh = d.from_int (pos 0) }

  unfoldable pub accumulated_wh : PowerPipeline D → D
  accumulated_wh p = p.energy_today_wh

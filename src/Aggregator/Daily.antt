-- ===== src/Aggregator/Daily.antt =====
-- finalize_daily of src/metrics/aggregator.cpp: the row of a day in energy_daily.
use pulseport.Storage.Retention.{exec_lem}
use pulseport.Storage.Ranges.{length-query_history, rows_between, rows_between-adjacent}
use pulseport.Storage.Reader.{query_history}
use pulseport.Storage.Engine.{IsHealthy, IsSqlite, Sqlite}
use pulseport.Storage.Writer.{write_energy_daily}
use pulseport.Aggregator.{fold_day, is_empty_list, finalize_daily}
use mathlib.Core.List.{foldl}
use pulseport.Storage.Tables.{run, EnergyRow, replace_row, Rollup}
use pulseport.Prelude.{
  Bool, List, Option, String, [], ap, arith, if◌then◌else◌, length, max, min, none, some, str_eq,
  suc, true, ℕ, ◌*◌, ◌+◌, ◌∙◌, ◌∷◌, ◌≡◌, ◌≤◌,
}
use pulseport.Prelude.Int.{+ℤ_parts, int_laws, pos, ℤ, ◌+ℤ◌}
use pulseport.Prelude.Double.{Double, fmax}
use pulseport.Types.{MetricAggregate, Quality, quality_to_string, worse}

-- Rows of the same day.
abbrev pub same_day {ℓ} : {D : Type ℓ} → EnergyRow D → EnergyRow D → Bool
same_day a b = str_eq a.day_local b.day_local

module _ {ℓ} {D : Type ℓ} ⦃d : Double D⦄ where
  abbrev pub zero_d : D
  zero_d = d.from_int (pos 0)

  -- Values added up from the left, in the order of the rows.
  abbrev pub sum_of : (MetricAggregate D → D) → List (MetricAggregate D) → D
  sum_of f = foldl (λ acc a. d.add acc (f a)) zero_d

  abbrev pub worst_of : List (MetricAggregate D) → Quality
  worst_of = foldl (λ q (a : MetricAggregate D). worse q a.quality) Quality.measured

  -- The row of a day with these one-minute values of the power draw.
  abbrev pub day_row : String → List (MetricAggregate D) → EnergyRow D
  day_row day minutes = record {
    day_local = day;
    energy_wh =
        sum_of (λ a. d.mul a.avg_value (d.div (d.from_int (pos 60)) (d.from_int (pos 3600))))
          minutes;
    avg_power_w =
        if is_empty_list minutes
        then zero_d
        else d.div (sum_of (λ a. d.mul a.avg_value (d.from_int (pos a.sample_count))) minutes)
            (d.from_int (pos (max 1 (60 * length minutes))));
    peak_power_w = foldl (λ peak (a : MetricAggregate D). fmax peak a.max_value) zero_d minutes;
    charge_wh = zero_d;
    discharge_wh = zero_d;
    active_seconds = 60 * length minutes;
    quality = quality_to_string (worst_of minutes);
    finalized = true;
  }

  -- The loop keeps five sums at once.
  fold_day_lem :
      (minutes : List (MetricAggregate D)) (wh peak w : D) (active : ℕ) (worst : Quality)
      → fold_day
          (record {
            total_wh = wh;
            peak_w = peak;
            sum_w = w;
            active_seconds = active;
            worst = worst;
          })
          minutes
        ≡ record {
          total_wh =
              foldl
                (λ acc a.
                  d.add acc
                    (d.mul a.avg_value (d.div (d.from_int (pos 60)) (d.from_int (pos 3600)))))
                wh
                minutes;
          peak_w = foldl (λ p (a : MetricAggregate D). fmax p a.max_value) peak minutes;
          sum_w =
              foldl
                (λ acc a. d.add acc (d.mul a.avg_value (d.from_int (pos a.sample_count))))
                w
                minutes;
          active_seconds = active + 60 * length minutes;
          worst = foldl (λ q (a : MetricAggregate D). worse q a.quality) worst minutes;
        }
  unfolding fold_day
  fold_day_lem [] wh peak w active worst = let same : active ≡ active + 0 = omega arith in cc
  fold_day_lem (a ∷ minutes) wh peak w active worst =
      let same : active + 60 + 60 * length minutes ≡ active + 60 * suc (length minutes) =
        omega arith in
      fold_day_lem minutes _ _ _ (active + 60) (worse worst a.quality) ∙ cc same

  -- The sums that finalize_daily makes.
  day_sum :
      (minutes : List (MetricAggregate D))
      → fold_day
          (record {
            total_wh = zero_d;
            peak_w = zero_d;
            sum_w = zero_d;
            active_seconds = 0;
            worst = Quality.measured;
          })
          minutes
        ≡ record {
          total_wh =
              sum_of
                (λ a. d.mul a.avg_value (d.div (d.from_int (pos 60)) (d.from_int (pos 3600))))
                minutes;
          peak_w = foldl (λ p (a : MetricAggregate D). fmax p a.max_value) zero_d minutes;
          sum_w = sum_of (λ a. d.mul a.avg_value (d.from_int (pos a.sample_count))) minutes;
          active_seconds = 60 * length minutes;
          worst = worst_of minutes;
        }
  day_sum minutes =
      let same : 0 + 60 * length minutes ≡ 60 * length minutes = omega arith in
      fold_day_lem minutes zero_d zero_d zero_d 0 Quality.measured ∙ cc same

module _ {ℓ} {D Db : Type ℓ} ⦃d : Double D⦄ (e : Sqlite D Db) (q : IsSqlite e)
    (h : IsHealthy e) where
  open q use {contents}

  -- The power draw of the minutes from one time stamp to another, as finalize_daily reads it.
  abbrev pub minutes_of : ℤ → Db → List (MetricAggregate D)
  minutes_of start db =
      query_history e "metric_1m" "power.current_w" start (start +ℤ pos 86400) 10000 db

  finalize_daily-row :
      (day_start : String → Option ℤ) (day : String) (start : ℤ) (db : Db)
      → day_start day ≡ some start
      → contents (finalize_daily e day_start day db) ≡ record (contents db) {
        energy = replace_row same_day (day_row day (minutes_of start db)) (contents db).energy;
      }
  unfolding finalize_daily write_energy_daily run
  finalize_daily-row day_start day start db found =
      rw (found, finalize_daily, day_sum (minutes_of start db)) (exec_lem e q h _ db)

  finalize_daily-unreadable :
      (day_start : String → Option ℤ) (day : String) (db : Db)
      → day_start day ≡ none
      → finalize_daily e day_start day db ≡ db
  unfolding finalize_daily
  finalize_daily-unreadable day_start day db bad = rw (bad, finalize_daily)

  -- Finalizing a day writes one row for it, in place of an earlier one, and nothing else; a day that sscanf or mktime
  -- refuses writes nothing. Over the one-minute values of the power draw from the day's start to 86400 seconds
  -- later, both included, the row has the energy as the sum of average times 60 / 3600, the largest maximum (at least
  -- 0), the average as the sum of average times samples over the active seconds, 60 active seconds for each
  -- value, and the worst quality. At most 10000 values are read, and every statement succeeds.
  pub finalize_daily_lem :
      (day_start : String → Option ℤ) (day : String) (start : ℤ) (db : Db)
      → let t = contents db in
        let seconds =
          60 * min 10000 (rows_between "power.current_w" start (start +ℤ pos 86400) t.one_minute) in
        let row = day_row day (minutes_of start db) in
        (day_start day ≡ none → finalize_daily e day_start day db ≡ db)
        × (day_start day ≡ some start
            → (contents (finalize_daily e day_start day db)
                ≡ record t { energy = replace_row same_day row t.energy })
              × (row.active_seconds ≡ seconds))
  finalize_daily_lem day_start day start db = (
    finalize_daily-unreadable day_start day db,
    λ found. (
      finalize_daily-row day_start day start db found,
      ap (λ n. 60 * n)
          (length-query_history e q h Rollup.metric_1m "power.current_w" start (start +ℤ pos 86400)
            10000 db),
    ),
  )

  -- Two days of which the second starts 86400 seconds after the first, each finalized: together they count every minute
  -- of both, and the minute that begins where they meet twice. No more than 10000 values are in a day, and every statement
  -- succeeds.
  pub finalize_daily-twice :
      (day_start : String → Option ℤ) (day next : String) (start : ℤ) (db : Db)
      → let midnight = start +ℤ pos 86400 in
        let end = midnight +ℤ pos 86400 in
        let t = contents db in
        let power = λ (a b : ℤ). rows_between "power.current_w" a b t.one_minute in
        day_start day ≡ some start
        → day_start next ≡ some midnight
        → power start midnight ≤ 10000
        → power midnight end ≤ 10000
        → let db1 = finalize_daily e day_start day db in
          let first = day_row day (minutes_of start db) in
          let second = day_row next (minutes_of midnight db1) in
          (contents (finalize_daily e day_start next db1) ≡ record t {
            energy = replace_row same_day second (replace_row same_day first t.energy);
          })
          × (first.active_seconds + second.active_seconds
              ≡ 60 * power start end + 60 * power midnight midnight)
  finalize_daily-twice day_start day next start db found found_next few few_next =
      let midnight = start +ℤ pos 86400 in
      let end = midnight +ℤ pos 86400 in
      let db1 = finalize_daily e day_start day db in
      let (stored, seconds) = (finalize_daily_lem day_start day start db).1 found in
      let (stored_next, seconds_next) =
        (finalize_daily_lem day_start next midnight db1).1 found_next in
      let same = rw stored at seconds_next in
      let both =
        rows_between-adjacent "power.current_w" start midnight end (contents db).one_minute
          (omega (int_laws, +ℤ_parts start (pos 86400)))
          (omega (int_laws, +ℤ_parts midnight (pos 86400))) in
      (rw stored at stored_next, omega (arith, seconds, same, both, few, few_next))

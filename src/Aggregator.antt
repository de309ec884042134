-- ===== src/Aggregator.antt =====
-- include/pulseport/aggregator.h and src/metrics/aggregator.cpp: the working buckets of the current minute, and
-- the rollups. The aggregator's mutex makes `accumulate` one step. The current time, and the C library's reading
-- of a local date, are arguments.
use pulseport.Prelude.{
  Bool, List, Option, String, [], false, if◌then◌else◌, ltb, max, none, not, some, true, ℕ, ◌&&◌,
  ◌+◌, ◌∷◌,
}
use pulseport.Prelude.Int.{eqb_ℤ, pos, ℤ, ◌%ℤ◌, ◌+ℤ◌, ◌-ℤ◌}
use pulseport.Prelude.Double.{Double, fmax, fmin}
use pulseport.Prelude.Dict.{Dict, insert, lookup_or}
use pulseport.Types.{MetricAggregate, MetricInfo, MetricSample, Quality, worse}
pub mod Bucket
pub mod Extremes
pub mod Batch
pub mod Minute
pub mod Daily
pub mod Quarter
pub mod Rollups
use pulseport.Aggregator.Bucket.{WorkingBucket, add_value, to_aggregate, reset}
use pulseport.Storage.Engine.{Sqlite}
use pulseport.Storage.Reader.{query_history}
use pulseport.Storage.Writer.{write_1m, write_15m, write_energy_daily}

-- `ts - (ts % 60)` and `ts - (ts % 900)`
unfoldable pub bucket_1m : ℤ → ℤ
bucket_1m ts = ts -ℤ ts %ℤ 60

unfoldable pub bucket_15m : ℤ → ℤ
bucket_15m ts = ts -ℤ ts %ℤ 900

pub record Aggregator {ℓ} (D : Type ℓ) : Type ℓ where
  pub buckets : Dict (WorkingBucket D)
  pub current_bucket_ts : ℤ

unfoldable pub is_empty_list {ℓ} : {A : Type ℓ} → List A → Bool
is_empty_list [] = true
is_empty_list (x ∷ xs) = false

-- min, max, sum, samples and worst quality of the rows that flush_15m folds.
pub record RollupSum {ℓ} (D : Type ℓ) : Type ℓ where
  pub min_value : D
  pub max_value : D
  pub sum : D
  pub total_samples : ℕ
  pub worst : Quality

-- What finalize_daily sums up over the day's one-minute rows.
pub record DaySum {ℓ} (D : Type ℓ) : Type ℓ where
  pub total_wh : D
  pub peak_w : D
  pub sum_w : D
  pub active_seconds : ℕ
  pub worst : Quality

module _ {ℓ} {D : Type ℓ} ⦃d : Double D⦄ where
  unfoldable pub new_aggregator : Aggregator D
  new_aggregator = record { buckets = []; current_bucket_ts = pos 0 }

  -- The first loop of flush_1m: the aggregates of the buckets that have samples.
  unfoldable pub collect : ℤ → Dict (WorkingBucket D) → List (MetricAggregate D)
  collect ts [] = []
  collect ts ((key, b) ∷ m) =
      if ltb 0 b.count then to_aggregate b key ts ∷ collect ts m else collect ts m

  -- The second loop.
  unfoldable pub reset_all : Dict (WorkingBucket D) → Dict (WorkingBucket D)
  reset_all [] = []
  reset_all ((key, b) ∷ m) = (key, reset) ∷ reset_all m

  unfoldable pub fold_rollup : RollupSum D → List (MetricAggregate D) → RollupSum D
  fold_rollup acc [] = acc
  fold_rollup acc (a ∷ rest) =
      fold_rollup
        (record {
          min_value = fmin acc.min_value a.min_value;
          max_value = fmax acc.max_value a.max_value;
          sum = d.add acc.sum (d.mul a.avg_value (d.from_int (pos a.sample_count)));
          total_samples = acc.total_samples + a.sample_count;
          worst = worse acc.worst a.quality;
        })
        rest

  -- The aggregate that flush_15m makes of the one-minute rows of a metric; none for no rows.
  unfoldable pub rollup_15m : String → ℤ → List (MetricAggregate D) → Option (MetricAggregate D)
  unfolding fold_rollup
  rollup_15m key bucket_start [] = none
  rollup_15m key bucket_start (first ∷ rest) =
      let start : RollupSum D = record {
        min_value = first.min_value;
        max_value = first.max_value;
        sum = d.from_int (pos 0);
        total_samples = 0;
        worst = Quality.measured;
      } in
      let s = fold_rollup start (first ∷ rest) in
      some (record {
        key = key;
        bucket_ts = bucket_start;
        min_value = s.min_value;
        max_value = s.max_value;
        avg_value =
            if ltb 0 s.total_samples
            then d.div s.sum (d.from_int (pos s.total_samples))
            else d.from_int (pos 0);
        sample_count = s.total_samples;
        quality = s.worst;
      })

  unfoldable pub fold_day : DaySum D → List (MetricAggregate D) → DaySum D
  fold_day acc [] = acc
  fold_day acc (a ∷ rest) =
      let watts = a.avg_value in
      let hours = d.div (d.from_int (pos 60)) (d.from_int (pos 3600)) in
      fold_day
        (record {
          total_wh = d.add acc.total_wh (d.mul watts hours);
          peak_w = fmax acc.peak_w a.max_value;
          sum_w = d.add acc.sum_w (d.mul watts (d.from_int (pos a.sample_count)));
          active_seconds = acc.active_seconds + 60;
          worst = worse acc.worst a.quality;
        })
        rest

  module _ {Db : Type ℓ} (e : Sqlite D Db) where
    unfoldable pub flush_1m : Aggregator D → Db → Aggregator D × Db
    unfolding collect reset_all is_empty_list
    flush_1m agg db =
        let aggregates = collect agg.current_bucket_ts agg.buckets in
        (
          record agg { buckets = reset_all agg.buckets },
          (if is_empty_list aggregates then db else write_1m e aggregates db),
        )

    -- The flush that a new minute causes.
    unfoldable pub roll_over : ℤ → Aggregator D → Db → Aggregator D × Db
    unfolding flush_1m
    roll_over bts agg db =
        if not (eqb_ℤ agg.current_bucket_ts (pos 0)) && not (eqb_ℤ bts agg.current_bucket_ts)
        then flush_1m agg db
        else (agg, db)

    -- `buckets_[sample.key].add(sample.value, sample.quality)`, in the minute `bts`.
    unfoldable pub add_sample : MetricSample D → ℤ → Aggregator D → Aggregator D
    add_sample sample bts agg =
        let b = lookup_or sample.key reset agg.buckets in
        record {
          buckets = insert sample.key (add_value b sample.value sample.quality) agg.buckets;
          current_bucket_ts = bts;
        }

    unfoldable pub accumulate : MetricSample D → Aggregator D → Db → Aggregator D × Db
    accumulate sample agg db =
        let bts = bucket_1m sample.ts in
        let rolled = roll_over bts agg db in (add_sample sample bts rolled.0, rolled.1)

    -- The loop of flush_15m over the registered metrics.
    unfoldable pub collect_15m : List MetricInfo → ℤ → ℤ → Db → List (MetricAggregate D)
    unfolding rollup_15m
    collect_15m [] bucket_start bucket_end db = []
    collect_15m (info ∷ metrics) bucket_start bucket_end db =
        let data_rows = query_history e "metric_1m" info.key bucket_start bucket_end 10000 db in
        let rest = collect_15m metrics bucket_start bucket_end db in
        elim (rollup_15m info.key bucket_start data_rows) [ none ↦ rest | some a ↦ a ∷ rest ]

    unfoldable pub flush_15m : List MetricInfo → ℤ → Db → Db
    unfolding collect_15m bucket_15m is_empty_list
    flush_15m metrics now db =
        let bucket_end = bucket_15m now in
        let aggregates = collect_15m metrics (bucket_end -ℤ pos 900) bucket_end db in
        if is_empty_list aggregates then db else write_15m e aggregates db

    -- `day_start` is sscanf and mktime: the time stamp of the local midnight, or none for a text that they refuse.
    unfoldable pub finalize_daily : (String → Option ℤ) → String → Db → Db
    unfolding fold_day is_empty_list
    finalize_daily day_start day_local db = elim (day_start day_local) [
      | none ↦ db
      | some start_ts ↦
          let end_ts = start_ts +ℤ pos 86400 in
          let power_data = query_history e "metric_1m" "power.current_w" start_ts end_ts 10000 db in
          let s =
            fold_day
              (record {
                total_wh = d.from_int (pos 0);
                peak_w = d.from_int (pos 0);
                sum_w = d.from_int (pos 0);
                active_seconds = 0;
                worst = Quality.measured;
              })
              power_data in
          let avg_w =
            if is_empty_list power_data
            then d.from_int (pos 0)
            else d.div s.sum_w (d.from_int (pos (max 1 s.active_seconds))) in
          write_energy_daily e day_local s.total_wh avg_w s.peak_w (d.from_int (pos 0))
            (d.from_int (pos 0)) s.active_seconds s.worst true db
    ]

-- ===== src/Aggregator/Bucket.antt =====
-- `Aggregator::WorkingBucket` of src/metrics/aggregator.cpp.
use pulseport.Prelude.{String, if◌then◌else◌, ltb, ℕ, ◌+◌, ◌==◌}
use pulseport.Prelude.Int.{pos, ℤ}
use pulseport.Prelude.Double.{Double, fmax, fmin}
use pulseport.Types.{MetricAggregate, Quality, worse}

pub record WorkingBucket {ℓ} (D : Type ℓ) : Type ℓ where
  pub min_val : D
  pub max_val : D
  pub sum : D
  pub count : ℕ
  pub worst_quality : Quality

module _ {ℓ} {D : Type ℓ} ⦃d : Double D⦄ where
  -- The members' default initialisers, and what `reset` sets.
  unfoldable pub reset : WorkingBucket D
  reset = record {
    min_val = d.from_int (pos 0);
    max_val = d.from_int (pos 0);
    sum = d.from_int (pos 0);
    count = 0;
    worst_quality = Quality.measured;
  }

  unfoldable pub add_value : WorkingBucket D → D → Quality → WorkingBucket D
  add_value b value q =
      let first = b.count == 0 in
      record {
        min_val = if first then value else fmin b.min_val value;
        max_val = if first then value else fmax b.max_val value;
        sum = if first then value else d.add b.sum value;
        count = b.count + 1;
        worst_quality = worse b.worst_quality q;
      }

  unfoldable pub to_aggregate : WorkingBucket D → String → ℤ → MetricAggregate D
  to_aggregate b key bucket_ts = record {
    key = key;
    bucket_ts = bucket_ts;
    min_value = b.min_val;
    max_value = b.max_val;
    avg_value =
        if ltb 0 b.count then d.div b.sum (d.from_int (pos b.count)) else d.from_int (pos 0);
    sample_count = b.count;
    quality = b.worst_quality;
  }

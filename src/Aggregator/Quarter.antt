-- ===== src/Aggregator/Quarter.antt =====
-- flush_15m of src/metrics/aggregator.cpp: the aggregate of fifteen minutes.
use pulseport.Aggregator.Extremes.{fmin-le, le-fmax, rank-worse}
use pulseport.Aggregator.{RollupSum, fold_rollup, rollup_15m}
use mathlib.Core.List.{foldl}
use pulseport.Prelude.{
  All, List, String, [], arith, if◌then◌else◌, ltb, refl, some, ℕ, ◌+◌, ◌∷◌, ◌≡◌, ◌≤◌,
}
use pulseport.Prelude.Int.{pos, ℤ}
use pulseport.Prelude.Double.{Double, IsOrdered, fmax, fmin, ◌≼◌}
use pulseport.Types.{MetricAggregate, Quality, rank, worse}

module _ {ℓ} {D : Type ℓ} ⦃d : Double D⦄ where
  -- The samples of some aggregates together.
  abbrev pub total_of : List (MetricAggregate D) → ℕ
  total_of [] = 0
  total_of (r ∷ rows) = r.sample_count + total_of rows

  -- Averages times samples, added up from the left.
  abbrev pub weighted_from : D → List (MetricAggregate D) → D
  weighted_from = foldl (λ acc (r : MetricAggregate D).
      d.add acc (d.mul r.avg_value (d.from_int (pos r.sample_count))))

  -- What an aggregate says of the aggregates that it is made of.
  pub record Covers (a : MetricAggregate D) (rows : List (MetricAggregate D)) : Type ℓ where
    pub count_eq : a.sample_count ≡ total_of rows
    pub average : a.avg_value ≡ (
        if ltb 0 (total_of rows)
        then d.div (weighted_from (d.from_int (pos 0)) rows) (d.from_int (pos (total_of rows)))
        else d.from_int (pos 0))
    pub above_min : All (λ (r : MetricAggregate D). a.min_value ≼ r.min_value) rows
    pub below_max : All (λ (r : MetricAggregate D). r.max_value ≼ a.max_value) rows
    pub worst_of : All (λ (r : MetricAggregate D). rank r.quality ≤ rank a.quality) rows

  -- The sums with one row more.
  abbrev folded : RollupSum D → MetricAggregate D → RollupSum D
  folded acc r = record {
    min_value = fmin acc.min_value r.min_value;
    max_value = fmax acc.max_value r.max_value;
    sum = d.add acc.sum (d.mul r.avg_value (d.from_int (pos r.sample_count)));
    total_samples = acc.total_samples + r.sample_count;
    worst = worse acc.worst r.quality;
  }

  fold_rollup-sums :
      (rows : List (MetricAggregate D)) (acc : RollupSum D)
      → let c = fold_rollup acc rows in
        (c.total_samples ≡ acc.total_samples + total_of rows) × (c.sum ≡ weighted_from acc.sum rows)
  unfolding fold_rollup
  fold_rollup-sums [] acc = (omega arith, refl)
  fold_rollup-sums (r ∷ rows) acc =
      let rest = fold_rollup-sums rows (folded acc r) in (omega (arith, rest.0), rest.1)

  module _ (laws : IsOrdered D) where
    open laws use {refl_of_le, le_trans}

    -- The minimum and the maximum of an aggregate are numbers.
    abbrev pub HasNumbers : MetricAggregate D → Type 0
    HasNumbers r = (r.min_value ≼ r.min_value) × (r.max_value ≼ r.max_value)

    record Bounds (acc c : RollupSum D) (rows : List (MetricAggregate D)) : Type ℓ where
      lower : c.min_value ≼ acc.min_value
      upper : acc.max_value ≼ c.max_value
      worst_ge : rank acc.worst ≤ rank c.worst
      above_min : All (λ (r : MetricAggregate D). c.min_value ≼ r.min_value) rows
      below_max : All (λ (r : MetricAggregate D). r.max_value ≼ c.max_value) rows
      worst_of : All (λ (r : MetricAggregate D). rank r.quality ≤ rank c.worst) rows

    fold_rollup-Bounds :
        (rows : List (MetricAggregate D)) (acc : RollupSum D)
        → acc.min_value ≼ acc.min_value
        → acc.max_value ≼ acc.max_value
        → All HasNumbers rows
        → Bounds acc (fold_rollup acc rows) rows
    unfolding fold_rollup
    fold_rollup-Bounds [] acc lo hi nums = record {
      lower = lo;
      upper = hi;
      worst_ge = omega arith;
      above_min = tt;
      below_max = tt;
      worst_of = tt;
    }
    fold_rollup-Bounds (r ∷ rows) acc lo hi ((low, high), nums) =
        let (least, least') = fmin-le laws acc.min_value r.min_value lo low in
        let (most, most') = le-fmax laws acc.max_value r.max_value hi high in
        let (worse_old, worse_new) = rank-worse acc.worst r.quality in
        let b =
          fold_rollup-Bounds rows (folded acc r) (refl_of_le _ _ least).0 (refl_of_le _ _ most).1
            nums in
        record {
          lower = le_trans _ _ _ b.lower least;
          upper = le_trans _ _ _ most b.upper;
          worst_ge = omega (arith, worse_old, b.worst_ge);
          above_min = (le_trans _ _ _ b.lower least', b.above_min);
          below_max = (le_trans _ _ _ most' b.upper, b.below_max);
          worst_of = (omega (arith, worse_new, b.worst_ge), b.worst_of);
        }

    -- The aggregate that flush_15m makes of a metric's rows.
    pub rollup_15m-Covers :
        (key : String) (start : ℤ) (first : MetricAggregate D) (rest : List (MetricAggregate D))
        → All HasNumbers (first ∷ rest)
        → (a : MetricAggregate D) × (rollup_15m key start (first ∷ rest) ≡ some a)
          × (a.key ≡ key)
          × (a.bucket_ts ≡ start)
          × Covers a (first ∷ rest)
    unfolding rollup_15m
    rollup_15m-Covers key start first rest nums =
        let acc : RollupSum D = record {
          min_value = first.min_value;
          max_value = first.max_value;
          sum = d.from_int (pos 0);
          total_samples = 0;
          worst = Quality.measured;
        } in
        let rows = first ∷ rest in
        let (total, weighted) = fold_rollup-sums rows acc in
        let b = fold_rollup-Bounds rows acc nums.0.0 nums.0.1 nums in
        let count : (fold_rollup acc rows).total_samples ≡ total_of rows = omega (arith, total) in
        (
          _,
          refl,
          refl,
          refl,
          record {
            count_eq = count;
            average = rw (count, weighted) refl;
            above_min = b.above_min;
            below_max = b.below_max;
            worst_of = b.worst_of;
          },
        )

-- ===== src/Aggregator/Rollups.antt =====
-- flush_15m of src/metrics/aggregator.cpp, from the one-minute rows to the query for fifteen minutes.
use mathlib.Core.Path.{subst}
use pulseport.Aggregator.Quarter.{Covers, HasNumbers, rollup_15m-Covers}
use pulseport.Storage.History.{AllNumbers, query_history-write_rollup}
use pulseport.Aggregator.Batch.{is_empty_list-append}
use pulseport.Storage.Reader.{query_history}
use pulseport.Storage.Engine.{Sqlite, IsHealthy, IsSqlite}
use pulseport.Storage.Writer.{row_of, write_15m}
use pulseport.Storage.Tables.{HistoryRow, same_bucket, Rollup}
use mathlib.Core.Option.{some-injective}
use pulseport.Aggregator.{collect_15m, rollup_15m, bucket_15m, flush_15m}
use pulseport.Prelude.{
  All, List, Option-cases, String, [], ap, arith, eq_iff, false, inl, inr, map, refl, some, str_eq,
  sym, ℕ, ◌++◌, ◌<◌, ◌∙◌, ◌∷◌, ◌≡◌,
}
use pulseport.Prelude.Int.{pos, ℤ, ◌-ℤ◌}
use pulseport.Prelude.Double.{Double, IsOrdered, ◌≼◌}
use pulseport.Types.{MetricAggregate, MetricInfo}

module _ {ℓ} {D : Type ℓ} ⦃d : Double D⦄ where
  rollup_15m-key :
      (key : String) (start : ℤ) (rows : List (MetricAggregate D)) (a : MetricAggregate D)
      → rollup_15m key start rows ≡ some a
      → (a.key ≡ key) × (a.bucket_ts ≡ start)
  unfolding rollup_15m
  rollup_15m-key key start [] a h = absurd cc
  rollup_15m-key key start (first ∷ rest) a h = (
    ap (λ (r : MetricAggregate D). r.key) (sym (some-injective _ _ h)),
    ap (λ (r : MetricAggregate D). r.bucket_ts) (sym (some-injective _ _ h)),
  )

  module _ {Db : Type ℓ} (e : Sqlite D Db) where
    -- The rows that are folded for a metric.
    abbrev pub minutes : String → (start end : ℤ) → Db → List (MetricAggregate D)
    minutes key start end = query_history e "metric_1m" key start end 10000

    collect_15m-append :
        (xs ys : List MetricInfo) (start end : ℤ) (db : Db)
        → collect_15m e (xs ++ ys) start end db
          ≡ collect_15m e xs start end db ++ collect_15m e ys start end db
    unfolding collect_15m
    collect_15m-append [] ys start end db = refl
    collect_15m-append (x ∷ xs) ys start end db =
        elim (Option-cases (rollup_15m x.key start (minutes x.key start end db))) [
          | inl empty ↦ rw (empty, collect_15m) (collect_15m-append xs ys start end db)
          | inr (a, made) ↦
              rw (made, collect_15m) (ap (λ l. a ∷ l) (collect_15m-append xs ys start end db))
        ]

    -- The aggregates of other metrics are for other buckets.
    collect_15m-others :
        (a : MetricAggregate D) (ms : List MetricInfo) (start end : ℤ) (db : Db)
        → All (λ (m : MetricInfo). str_eq m.key a.key ≡ false) ms
        → All
            (λ (s : HistoryRow D). same_bucket (row_of a) s ≡ false)
            (map row_of (collect_15m e ms start end db))
    unfolding collect_15m row_of
    collect_15m-others a [] start end db h = tt
    collect_15m-others a (m ∷ ms) start end db (ne, h) =
        elim (Option-cases (rollup_15m m.key start (minutes m.key start end db))) [
          | inl empty ↦ rw (empty, collect_15m) (collect_15m-others a ms start end db h)
          | inr (b, made) ↦
              let key = (rollup_15m-key m.key start (minutes m.key start end db) b made).0 in
              rw (made, collect_15m)
                (
                  ground (arith, key, eq_iff m.key a.key, eq_iff a.key b.key),
                  collect_15m-others a ms start end db h,
                )
        ]

module _ {ℓ} {D Db : Type ℓ} ⦃d : Double D⦄ (laws : IsOrdered D) (e : Sqlite D Db) (q : IsSqlite e)
    (h : IsHealthy e) where
  open laws use {refl_of_le}

  flush_15m-query :
      (before after : List MetricInfo) (info : MetricInfo) (now : ℤ) (limit : ℕ) (db : Db)
      (a : MetricAggregate D)
      → let end = bucket_15m now in
        let start = end -ℤ pos 900 in
        rollup_15m info.key start (minutes e info.key start end db) ≡ some a
        → All (λ (m : MetricInfo). str_eq m.key a.key ≡ false) after
        → a.key ≡ info.key
        → a.bucket_ts ≡ start
        → AllNumbers e q h a
        → 0 < limit
        → query_history e "metric_15m" info.key start start limit
            (flush_15m e (before ++ info ∷ after) now db)
          ≡ a ∷ []
  unfolding flush_15m collect_15m write_15m
  flush_15m-query before after info now limit db a made later key bucket numbers pos_limit =
      let end = bucket_15m now in
      let start = end -ℤ pos 900 in
      let ahead = collect_15m e before start end db in
      let behind = collect_15m e after start end db in
      let split : collect_15m e (before ++ info ∷ after) start end db ≡ ahead ++ a ∷ behind =
        collect_15m-append e before (info ∷ after) start end db ∙ rw (made, collect_15m) in
      let written = write_15m e (ahead ++ a ∷ behind) db in
      let read =
        query_history-write_rollup e q h Rollup.metric_15m ahead behind a limit db
          (collect_15m-others e a after start end db later) numbers pos_limit in
      rw (split, flush_15m, is_empty_list-append ahead a behind)
        (subst (λ k. query_history e "metric_15m" k start start limit written ≡ a ∷ []) key
          (subst (λ t. query_history e "metric_15m" a.key t t limit written ≡ a ∷ []) bucket read))

  -- flush_15m folds a metric's one-minute rows from the start of the quarter of an hour before the current one to
  -- its end, both included, into one aggregate, which the history query for that start then returns alone: its
  -- samples are those of the rows together, its average weighs each row's by its samples, its minimum and
  -- maximum bound all of theirs and no row has a worse quality. The metric has such rows and its key is
  -- registered once; no minimum, maximum or average is NaN, the limit is not 0, every statement succeeds.
  pub query_history-flush_15m :
      (before after : List MetricInfo) (info : MetricInfo) (now : ℤ) (limit : ℕ) (db : Db)
      (first : MetricAggregate D) (rest : List (MetricAggregate D))
      → let end = bucket_15m now in
        let start = end -ℤ pos 900 in
        minutes e info.key start end db ≡ first ∷ rest
        → All (λ (m : MetricInfo). str_eq m.key info.key ≡ false) after
        → All (HasNumbers laws) (first ∷ rest)
        → ((a : MetricAggregate D) → Covers a (first ∷ rest) → a.avg_value ≼ a.avg_value)
        → 0 < limit
        → (a : MetricAggregate D) × (query_history e "metric_15m" info.key start start limit
              (flush_15m e (before ++ info ∷ after) now db)
            ≡ a ∷ [])
          × Covers a (first ∷ rest)
  query_history-flush_15m before after info now limit db first rest read later nums average
        pos_limit =
      let end = bucket_15m now in
      let start = end -ℤ pos 900 in
      let (a, made, key, bucket, covers) = rollup_15m-Covers laws info.key start first rest nums in
      (
        a,
        flush_15m-query before after info now limit db a (rw read made) (rw key later) key bucket
            (
              (refl_of_le _ _ covers.above_min.0).0,
              (refl_of_le _ _ covers.below_max.0).1,
              average a covers,
            )
            pos_limit,
        covers,
      )

-- ===== src/Aggregator/Minute.antt =====
-- A minute of samples, from `accumulate` through `flush_1m` to the history query.
use pulseport.Power.Window.{fresh}
use pulseport.Aggregator.Batch.{collect-InBatch, is_empty_list-append, lookup_of_count}
use pulseport.Storage.History.{AllNumbers, query_history-write_rollup}
use pulseport.Storage.Reader.{query_history}
use pulseport.Storage.Tables.{Rollup}
use pulseport.Storage.Writer.{write_1m}
use pulseport.Aggregator.Extremes.{add_all, readings, count-add_all}
use pulseport.Registry.Feed.{of_key, length-of_key}
use pulseport.Storage.Engine.{Sqlite, IsHealthy, IsSqlite}
use pulseport.Aggregator.{Aggregator, accumulate, roll_over, bucket_1m, add_sample, flush_1m}
use pulseport.Aggregator.Bucket.{add_value, reset, to_aggregate}
use pulseport.Prelude.{
  All, Bool-cases, List, String, [], arith, eq_iff, if◌then◌else◌, inl, inr, length, length-map,
  refl, str_eq, ℕ, ◌<◌, ◌∙◌, ◌∷◌, ◌≡◌, ◌⊎◌,
}
use pulseport.Prelude.Int.{eqb_ℤ, pos, ℤ}
use pulseport.Prelude.Double.{Double}
use pulseport.Prelude.Dict.{IsMap, insert, insert-IsMap, lookup_or, lookup_or-insert}
use pulseport.Types.{MetricSample, Quality}

module _ {ℓ} {D Db : Type ℓ} ⦃d : Double D⦄ (e : Sqlite D Db) where
  unfoldable pub accumulate_all : List (MetricSample D) → Aggregator D × Db → Aggregator D × Db
  accumulate_all [] st = st
  accumulate_all (s ∷ ss) (agg, db) = accumulate_all ss (accumulate e s agg db)

  -- The aggregator is new, or in the minute `b`.
  abbrev pub IsWithin : ℤ → Aggregator D → Type 0
  IsWithin b agg = (agg.current_bucket_ts ≡ pos 0) ⊎ (agg.current_bucket_ts ≡ b)

  roll_over-within :
      (b : ℤ) (agg : Aggregator D) (db : Db) → IsWithin b agg → roll_over e b agg db ≡ (agg, db)
  unfolding roll_over
  roll_over-within b agg db w = elim (Bool-cases (eqb_ℤ agg.current_bucket_ts (pos 0))) [
    | inl zero_ts ↦ rw zero_ts
    | inr ne ↦ rw ne (ground arith)
  ]

  -- One sample in the current minute goes to the bucket of its key, and nothing is written.
  record Accumulated (s : MetricSample D) (agg : Aggregator D) (db : Db) (st : Aggregator D × Db)
      : Type ℓ where
    same_db : st.1 ≡ db
    minute : st.0.current_bucket_ts ≡ bucket_1m s.ts
    is_map : IsMap st.0.buckets
    bucket :
        (key : String)
        → lookup_or key reset st.0.buckets ≡ (
            if str_eq s.key key
            then add_value (lookup_or key reset agg.buckets) s.value s.quality
            else lookup_or key reset agg.buckets)

  lookup_or-insert_bucket :
      (s : MetricSample D) (agg : Aggregator D) (key : String)
      → let b = add_value (lookup_or s.key reset agg.buckets) s.value s.quality in
        lookup_or key reset (insert s.key b agg.buckets) ≡ (
          if str_eq s.key key
          then add_value (lookup_or key reset agg.buckets) s.value s.quality
          else lookup_or key reset agg.buckets)
  lookup_or-insert_bucket s agg key = elim (Bool-cases (str_eq s.key key)) [
    | inl same ↦
        let k : s.key ≡ key = (eq_iff s.key key).0 same in
        rw (lookup_or-insert s.key key _ reset agg.buckets, same, k)
    | inr other ↦ rw (lookup_or-insert s.key key _ reset agg.buckets, other)
  ]

  accumulate-Accumulated :
      (s : MetricSample D) (agg : Aggregator D) (db : Db)
      → IsWithin (bucket_1m s.ts) agg
      → IsMap agg.buckets
      → Accumulated s agg db (accumulate e s agg db)
  unfolding accumulate add_sample
  accumulate-Accumulated s agg db w m =
      rw (roll_over-within (bucket_1m s.ts) agg db w, accumulate)
        (record {
          same_db = refl;
          minute = refl;
          is_map = insert-IsMap s.key _ agg.buckets m;
          bucket = λ key. lookup_or-insert_bucket s agg key;
        })

  -- The aggregator after samples of one minute: every key has the readings of its own samples.
  record Gathered (b : ℤ) (ss : List (MetricSample D)) (agg : Aggregator D) (db : Db)
      (st : Aggregator D × Db) : Type ℓ where
    same_db : st.1 ≡ db
    within : IsWithin b st.0
    is_map : IsMap st.0.buckets
    bucket :
        (key : String)
        → lookup_or key reset st.0.buckets
          ≡ add_all (lookup_or key reset agg.buckets) (readings (of_key key ss))

  accumulate_all-Gathered :
      (b : ℤ) (ss : List (MetricSample D)) (agg : Aggregator D) (db : Db)
      → All (λ s. bucket_1m s.ts ≡ b) ss
      → IsWithin b agg
      → IsMap agg.buckets
      → Gathered b ss agg db (accumulate_all ss (agg, db))
  unfolding accumulate_all of_key add_all
  accumulate_all-Gathered b [] agg db all w m = record {
    same_db = refl;
    within = w;
    is_map = m;
    bucket = λ key. refl;
  }
  accumulate_all-Gathered b (s ∷ ss) agg db (eb, all) w m =
      let a = accumulate-Accumulated s agg db (rw eb w) m in
      let st = accumulate e s agg db in
      let g = accumulate_all-Gathered b ss st.0 st.1 all (inr (a.minute ∙ eb)) a.is_map in
      record {
        same_db = g.same_db ∙ a.same_db;
        within = g.within;
        is_map = g.is_map;
        bucket = λ key. g.bucket key ∙ elim (Bool-cases (str_eq s.key key)) [
          | inl same ↦ rw (a.bucket key, same)
          | inr other ↦ rw (a.bucket key, other)
        ];
      }

  current-accumulate_all :
      (b : ℤ) (ss : List (MetricSample D)) (agg : Aggregator D) (db : Db)
      → All (λ s. bucket_1m s.ts ≡ b) ss
      → IsMap agg.buckets
      → agg.current_bucket_ts ≡ b
      → (accumulate_all ss (agg, db)).0.current_bucket_ts ≡ b
  unfolding accumulate_all
  current-accumulate_all b [] agg db all m now = now
  current-accumulate_all b (s ∷ ss) agg db (eb, all) m now =
      let a = accumulate-Accumulated s agg db (rw eb (inr now)) m in
      let st = accumulate e s agg db in
      current-accumulate_all b ss st.0 st.1 all a.is_map (a.minute ∙ eb)

  -- With at least one sample the aggregator is in their minute.
  minute-accumulate_all :
      (b : ℤ) (ss : List (MetricSample D)) (agg : Aggregator D) (db : Db)
      → All (λ s. bucket_1m s.ts ≡ b) ss
      → IsWithin b agg
      → IsMap agg.buckets
      → 0 < length ss
      → (accumulate_all ss (agg, db)).0.current_bucket_ts ≡ b
  unfolding accumulate_all
  minute-accumulate_all b [] agg db all w m p = absurd (omega arith)
  minute-accumulate_all b (s ∷ ss) agg db (eb, all) w m p =
      let a = accumulate-Accumulated s agg db (rw eb w) m in
      let st = accumulate e s agg db in
      current-accumulate_all b ss st.0 st.1 all a.is_map (a.minute ∙ eb)

module _ {ℓ} {D Db : Type ℓ} ⦃d : Double D⦄ (e : Sqlite D Db) (q : IsSqlite e)
    (h : IsHealthy e) where
  flush_1m-query :
      (agg : Aggregator D) (db : Db) (key : String) (limit : ℕ)
      → let b = lookup_or key reset agg.buckets in
        let a = to_aggregate b key agg.current_bucket_ts in
        IsMap agg.buckets
        → 0 < b.count
        → AllNumbers e q h a
        → 0 < limit
        → query_history e "metric_1m" key agg.current_bucket_ts agg.current_bucket_ts limit
            (flush_1m e agg db).1
          ≡ a ∷ []
  unfolding flush_1m write_1m to_aggregate
  flush_1m-query agg db key limit m p numbers pl =
      let b = lookup_or key reset agg.buckets in
      let ts = agg.current_bucket_ts in
      let a = to_aggregate b key ts in
      let r = collect-InBatch ts key b agg.buckets m (lookup_of_count key agg.buckets p) p in
      let full = is_empty_list-append r.before a r.after in
      rw (r.split, full)
        (query_history-write_rollup e q h Rollup.metric_1m r.before r.after a limit db r.others
          numbers pl)

  -- From a new minute (every bucket reset, no minute begun or the minute `b` flushed before) let samples
  -- of the minute `b` be accumulated and flushed. Nothing is written before the flush. For every metric with
  -- samples among them, the history query for the minute then returns one aggregate: that of exactly these
  -- samples of this metric, whatever the table held for the minute before, so that what an earlier flush
  -- in the same minute wrote is lost. Its minimum, maximum and average must not be NaN, the limit not 0, and
  -- every statement succeed.
  pub query_history-flush_1m :
      (b : ℤ) (ss : List (MetricSample D)) (agg : Aggregator D) (db : Db) (key : String) (limit : ℕ)
      → All (λ s. bucket_1m s.ts ≡ b) ss
      → IsWithin e b agg
      → IsMap agg.buckets
      → ((k : String) → lookup_or k reset agg.buckets ≡ reset)
      → 0 < length (of_key key ss)
      → let a = to_aggregate (add_all reset (readings (of_key key ss))) key b in
        AllNumbers e q h a
        → 0 < limit
        → let (agg1, db1) = accumulate_all e ss (agg, db) in
          (db1 ≡ db) × (query_history e "metric_1m" key b b limit (flush_1m e agg1 db1).1 ≡ a ∷ [])
  query_history-flush_1m b ss agg db key limit all w m fresh some_of numbers pl =
      let g = accumulate_all-Gathered e b ss agg db all w m in
      let st = accumulate_all e ss (agg, db) in
      let now : st.0.current_bucket_ts ≡ b =
        minute-accumulate_all e b ss agg db all w m (omega (arith, length-of_key key ss)) in
      let gathered : lookup_or key reset st.0.buckets ≡ add_all reset (readings (of_key key ss)) =
        rw (g.bucket key, fresh key) in
      let used : 0 < (lookup_or key reset st.0.buckets).count = rw gathered (
        omega (
          arith,
          count-add_all (reset {D = D}) (readings (of_key key ss)),
          length-map {B = D × Quality} (λ (s : MetricSample D). (s.value, s.quality))
              (of_key key ss),
        )) in
      let flushed =
        flush_1m-query st.0 st.1 key limit g.is_map used (rw (gathered, now) numbers) pl in
      (g.same_db, rw (gathered, now) at flushed)

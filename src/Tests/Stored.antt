-- ===== src/Tests/Stored.antt =====
-- The aggregates, the storage layer and the migrations, on a database in memory.
use pulseport.Config.{Value}
use pulseport.Server.Routes.Refusal.{delete_route-refused}
use pulseport.Server.Routes.{delete_route, is_refused, DeletionBody}
use pulseport.Registry.Feed.{of_key}
use pulseport.Aggregator.{new_aggregator, Aggregator, bucket_1m, flush_1m}
use pulseport.Aggregator.Minute.{query_history-flush_1m, accumulate_all}
use pulseport.Migration.{Connection, Script}
use pulseport.Storage.Tables.{run}
use pulseport.Storage.History.{query_history-write_rollup, table_name}
use pulseport.Storage.Reader.{
  RetentionConfig, query_history, audit_cleanup, cleanup_expired, cutoff_of, delete_history,
  deletion_of, deletion_table, purge, purge_all, purge_if,
}
use pulseport.Storage.Retention.{contents-cleanup_expired, cleaned, limited_rows}
use pulseport.Aggregator.Bucket.{reset, add_value, to_aggregate}
use pulseport.Storage.Deletion.{delete_history_lem}
use pulseport.Aggregator.Extremes.{Summarises, add_all, add_all-reset-Summarises}
use pulseport.Storage.Writer.{write_rollup}
use pulseport.Storage.Tables.{
  HistoryRow, Rollup, Tables, affected, count_of, in_range, rollup, with_rollup, without,
}
use pulseport.Storage.Engine.{in_memory, in_memory-IsHealthy, in_memory-IsSqlite}
use pulseport.Prelude.{
  List, String, [], arith, false, inl, none, refl, some, true, ℕ, ◌++◌, ◌+◌, ◌∷◌, ◌≡◌, ◌⊎◌,
}
use pulseport.Prelude.Int.{pos, ◌%ℤ◌, ◌*ℤ◌, ◌-ℤ◌}
use pulseport.Prelude.Double.{Approx, Approx-IsOrdered, approx_double}
use pulseport.Prelude.Dict.{Dict, lookup, lookup_or}
use pulseport.Types.{MetricAggregate, MetricSample, Quality}

abbrev no_rows : Tables Approx
no_rows = record {
  one_minute = [];
  fifteen_minutes = [];
  current = [];
  energy = [];
  events = [];
  next_event_id = 1;
  registry = [];
  audit = [];
}

abbrev cpu_row : ℕ → HistoryRow Approx
cpu_row ts = record {
  bucket_ts = pos ts;
  metric_key = "cpu";
  min_value = some 1;
  max_value = some 3;
  avg_value = some 2;
  sample_count = 2;
  quality = "measured";
}

abbrev old_and_new : Tables Approx
old_and_new = record no_rows { one_minute = cpu_row 60 ∷ cpu_row 172860 ∷ [] }

abbrev cpu_aggregate : MetricAggregate Approx
cpu_aggregate = record {
  key = "cpu";
  bucket_ts = pos 60;
  min_value = some 1;
  max_value = some 5;
  avg_value = some 3;
  sample_count = 3;
  quality = Quality.derived;
}

query_history-write_rollup_example :
    query_history in_memory "metric_1m" "cpu"
      (pos 60)
      (pos 60)
      10
      (write_rollup in_memory Rollup.metric_1m (cpu_aggregate ∷ []) (old_and_new, 0))
    ≡ cpu_aggregate ∷ []
unfolding table_name
query_history-write_rollup_example =
    query_history-write_rollup in_memory in_memory-IsSqlite in_memory-IsHealthy Rollup.metric_1m []
      [] cpu_aggregate 10 (old_and_new, 0) tt (refl, refl, refl) (omega arith)

abbrev one_day : RetentionConfig
one_day = record {
  retention_1m_days = pos 1;
  retention_15m_days = pos 1;
  retention_daily_days = pos 1;
  retention_events_days = pos 1;
}

contents-cleanup_expired_example :
    let (total, db) =
      cleanup_expired in_memory (λ t. "2026-01-01") (pos 172900) one_day (old_and_new, 0) in
    (db.0 ≡ record no_rows {
      one_minute = cpu_row 172860 ∷ [];
      audit = (record { scope = "retention_cleanup"; range = none; deleted = 1 }) ∷ [];
    })
    × (total + 1 ≡ 2)
unfolding in_memory-IsSqlite cleanup_expired audit_cleanup purge_all purge_if purge cutoff_of
    cleaned limited_rows run affected without count_of rollup with_rollup ◌-ℤ◌ ◌*ℤ◌
contents-cleanup_expired_example =
    contents-cleanup_expired in_memory in_memory-IsSqlite in_memory-IsHealthy (λ t. "2026-01-01")
      (pos 172900) one_day (old_and_new, 0)

delete_history_lem_example :
    let (result, db) = delete_history in_memory "metric_1m" (pos 0) (pos 60) (old_and_new, 0) in
    (deletion_table "other" ≡ none
      → delete_history in_memory "other" (pos 0) (pos 60) (old_and_new, 0)
        ≡ (none, (old_and_new, 0)))
    × (result ≡ some 1)
    × (db.0 ≡ record no_rows {
      one_minute = cpu_row 172860 ∷ [];
      audit = (record { scope = "metric_1m"; range = some (pos 0, pos 60); deleted = 1 }) ∷ [];
    })
unfolding in_memory-IsSqlite deletion_table delete_history deletion_of table_name in_range count_of
    without rollup with_rollup run affected
delete_history_lem_example =
    delete_history_lem in_memory in_memory-IsSqlite in_memory-IsHealthy Rollup.metric_1m "other"
      (pos 0) (pos 60) (old_and_new, 0)

add_all-reset-Summarises_example :
    Summarises {D = Approx}
      (add_all reset ((some 4, Quality.measured) ∷ (some 2, Quality.derived) ∷ []))
      ((some 4, Quality.measured) ∷ (some 2, Quality.derived) ∷ [])
add_all-reset-Summarises_example =
    add_all-reset-Summarises Approx-IsOrdered (some 4, Quality.measured)
      ((some 2, Quality.derived) ∷ []) (refl, (refl, tt))

abbrev cpu_sample : ℕ → ℕ → MetricSample Approx
cpu_sample value ts = record {
  key = "cpu";
  value = some value;
  unit = "%";
  quality = Quality.measured;
  ts = pos ts;
}

query_history-flush_1m_example :
    let start : Aggregator Approx × (Tables Approx × ℕ) = (new_aggregator, (old_and_new, 0)) in
    let (agg, db) = accumulate_all in_memory (cpu_sample 10 61 ∷ cpu_sample 20 62 ∷ []) start in
    (db ≡ (old_and_new, 0))
    × (query_history in_memory "metric_1m" "cpu" (pos 60) (pos 60) 10 (flush_1m in_memory agg db).1
        ≡ record cpu_aggregate {
          min_value = some 10;
          max_value = some 20;
          avg_value = some 15;
          sample_count = 2;
          quality = Quality.measured;
        }
          ∷ [])
unfolding to_aggregate add_all add_value reset of_key bucket_1m new_aggregator lookup_or
    pulseport.Prelude.Dict.lookup ◌-ℤ◌ ◌%ℤ◌
query_history-flush_1m_example =
    query_history-flush_1m in_memory in_memory-IsSqlite in_memory-IsHealthy (pos 60)
      (cpu_sample 10 61 ∷ cpu_sample 20 62 ∷ []) new_aggregator (old_and_new, 0) "cpu" 10
      (refl, (refl, tt)) (inl refl) tt (λ k. refl) (omega arith) (refl, refl, refl) (omega arith)

-- A connection that logs its statements, at version 1.
abbrev logging : Connection (List Script)
logging = record {
  exec = λ s log. (true, log ++ (s ∷ []));
  count_versions = λ log. some 1;
  select_version = λ log. some 1;
}

-- A body in which the table is a number.
abbrev odd_body : DeletionBody Approx
odd_body = DeletionBody.members (("table", Value.whole (pos 1)) ∷ [])

delete_route-refused_example :
    let result =
      delete_route in_memory
        (λ x. pos 0)
        (λ text part. true)
        "http://localhost"
        odd_body
        (no_rows, 0) in
    (is_refused result.0 ≡ true → result.1 ≡ (no_rows, 0))
    × (is_refused result.0 ≡ false
        → (◌≡◌ {A = String} "http://localhost" "") ⊎ ((true ≡ true) ⊎ (true ≡ true)))
delete_route-refused_example =
    delete_route-refused in_memory (λ x. pos 0) (λ text part. true) "http://localhost" odd_body
      (no_rows, 0)

-- ===== src/Tests/Rolled.antt =====
-- The row of a day and the aggregate of fifteen minutes, on a database in memory.
use pulseport.Aggregator.Quarter.{Covers}
use pulseport.Aggregator.Rollups.{query_history-flush_15m, minutes}
use pulseport.Storage.Engine.{
  in_memory, in_memory-IsHealthy, in_memory-IsSqlite, insert_by_ts, matching, sort_by_ts,
}
use pulseport.Aggregator.{bucket_15m, finalize_daily, flush_15m}
use pulseport.Storage.Reader.{query_history, aggregate_of, history_table}
use pulseport.Aggregator.Daily.{
  day_row, finalize_daily-twice, finalize_daily_lem, minutes_of, same_day,
}
use pulseport.Tests.Started.{no_rows}
use pulseport.Storage.Tables.{without, rollup, HistoryRow, Tables, replace_row, count_of}
use pulseport.Prelude.{
  List, Option, String, [], arith, if◌then◌else◌, none, refl, some, str_eq, ℕ, ◌+◌, ◌∷◌, ◌≡◌,
}
use pulseport.Prelude.Int.{pos, ℤ, ◌%ℤ◌, ◌+ℤ◌, ◌-ℤ◌}
use pulseport.Prelude.Double.{Approx, Approx-IsOrdered, approx_double}
use pulseport.Types.{MetricAggregate, MetricInfo, Quality, quality_from_string}

abbrev power_row : ℕ → HistoryRow Approx
power_row ts = record {
  bucket_ts = pos ts;
  metric_key = "power.current_w";
  min_value = some 10;
  max_value = some 30;
  avg_value = some 20;
  sample_count = 60;
  quality = "estimated";
}

-- A minute of the first day, and the one that begins at the midnight after it.
abbrev around_midnight : Tables Approx × ℕ
around_midnight = (record no_rows { one_minute = power_row 60 ∷ power_row 86400 ∷ [] }, 0)

abbrev midnights : String → Option ℤ
midnights day =
    if str_eq day "2024-05-01"
    then some (pos 0)
    else if str_eq day "2024-05-02"
    then some (pos 86400)
    else none

abbrev first_day : Tables Approx × ℕ
first_day = finalize_daily in_memory midnights "2024-05-01" around_midnight

abbrev first_minutes : List (MetricAggregate Approx)
first_minutes = minutes_of in_memory in_memory-IsSqlite in_memory-IsHealthy (pos 0) around_midnight

abbrev second_minutes : List (MetricAggregate Approx)
second_minutes = minutes_of in_memory in_memory-IsSqlite in_memory-IsHealthy (pos 86400) first_day

finalize_daily_lem_example :
    (midnights "2024-05-01" ≡ none → first_day ≡ around_midnight)
    × (midnights "2024-05-01" ≡ some (pos 0)
        → (first_day.0 ≡ record around_midnight.0 {
          energy = replace_row same_day (day_row "2024-05-01" first_minutes) [];
        })
          × ((day_row "2024-05-01" first_minutes).active_seconds ≡ 120))
unfolding in_memory-IsSqlite count_of ◌+ℤ◌
finalize_daily_lem_example =
    finalize_daily_lem in_memory in_memory-IsSqlite in_memory-IsHealthy midnights "2024-05-01"
      (pos 0) around_midnight

finalize_daily-twice_example :
    let first = day_row "2024-05-01" first_minutes in
    let second = day_row "2024-05-02" second_minutes in
    ((finalize_daily in_memory midnights "2024-05-02" first_day).0 ≡ record around_midnight.0 {
      energy = replace_row same_day second (replace_row same_day first []);
    })
    × (first.active_seconds + second.active_seconds ≡ 180)
unfolding in_memory-IsSqlite count_of ◌+ℤ◌
finalize_daily-twice_example =
    finalize_daily-twice in_memory in_memory-IsSqlite in_memory-IsHealthy midnights "2024-05-01"
      "2024-05-02" (pos 0) around_midnight refl refl (omega arith) (omega arith)

abbrev power_info : MetricInfo
power_info = record {
  key = "power.current_w";
  display_name = "Power";
  unit = "W";
  source = "battery";
  category = "power";
}

abbrev power_minute : MetricAggregate Approx
power_minute = record {
  key = "power.current_w";
  bucket_ts = pos 60;
  min_value = some 10;
  max_value = some 30;
  avg_value = some 20;
  sample_count = 60;
  quality = Quality.estimated;
}

read_minute :
    minutes in_memory "power.current_w"
      (bucket_15m (pos 1000) -ℤ pos 900)
      (bucket_15m (pos 1000))
      around_midnight
    ≡ power_minute ∷ []
unfolding query_history history_table aggregate_of sort_by_ts insert_by_ts matching without rollup
    bucket_15m quality_from_string ◌-ℤ◌ ◌%ℤ◌
read_minute = refl

query_history-flush_15m_example :
    (a : MetricAggregate Approx) × (query_history in_memory "metric_15m" "power.current_w"
        (bucket_15m (pos 1000) -ℤ pos 900)
        (bucket_15m (pos 1000) -ℤ pos 900)
        10
        (flush_15m in_memory (power_info ∷ []) (pos 1000) around_midnight)
      ≡ a ∷ [])
    × Covers a (power_minute ∷ [])
query_history-flush_15m_example =
    query_history-flush_15m Approx-IsOrdered in_memory in_memory-IsSqlite in_memory-IsHealthy [] []
      power_info (pos 1000) 10 around_midnight power_minute [] read_minute tt ((refl, refl), tt)
      (λ a c. rw c.average refl) (omega arith)

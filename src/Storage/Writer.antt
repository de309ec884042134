-- ===== src/Storage/Writer.antt =====
-- `StorageWriter` of src/storage/writer.cpp: every operation holds the writer's mutex, so each is one step. The
-- writer ignores what its statements report.
use pulseport.Prelude.{Bool, List, String, [], if◌then◌else◌, map, none, some, str_eq, ℕ, ◌++◌, ◌∷◌}
use pulseport.Prelude.Int.{ℤ}
use pulseport.Types.{MetricAggregate, MetricInfo, MetricSample, Quality, quality_to_string}
use pulseport.Storage.Tables.{Rollup, HistoryRow, Stmt}
use pulseport.Storage.Engine.{Sqlite}

module _ {ℓ} {D : Type ℓ} where
  -- The columns bound by write_1m and write_15m.
  unfoldable pub row_of : MetricAggregate D → HistoryRow D
  row_of a = record {
    bucket_ts = a.bucket_ts;
    metric_key = a.key;
    min_value = a.min_value;
    max_value = a.max_value;
    avg_value = a.avg_value;
    sample_count = a.sample_count;
    quality = quality_to_string a.quality;
  }

  module _ {Db : Type ℓ} (e : Sqlite D Db) where
    -- A statement whose outcome nobody looks at.
    abbrev pub step : Stmt D → Db → Db
    step s db = (e.exec s db).1

    -- The statements one after the other.
    unfoldable pub steps : List (Stmt D) → Db → Db
    steps [] db = db
    steps (s ∷ ss) db = steps ss (step s db)

    unfoldable pub write_current : List (MetricSample D) → Db → Db
    unfolding steps
    write_current samples db =
        steps
          (Stmt.begin_transaction
            ∷ (map
                  (λ (s : MetricSample D). Stmt.replace_current (record {
                    metric_key = s.key;
                    ts = s.ts;
                    value_real = s.value;
                    unit = s.unit;
                    quality = quality_to_string s.quality;
                  }))
                  samples
                ++ (Stmt.commit ∷ [])))
          db

    -- write_1m and write_15m, which differ in the table alone.
    unfoldable pub write_rollup : Rollup → List (MetricAggregate D) → Db → Db
    unfolding steps row_of
    write_rollup which aggregates db =
        steps
          (Stmt.begin_transaction
            ∷ (map (λ (a : MetricAggregate D). Stmt.replace_rollup which (row_of a)) aggregates
                ++ (Stmt.commit ∷ [])))
          db

    unfoldable pub write_1m : List (MetricAggregate D) → Db → Db
    unfolding write_rollup
    write_1m = write_rollup Rollup.metric_1m

    unfoldable pub write_15m : List (MetricAggregate D) → Db → Db
    unfolding write_rollup
    write_15m = write_rollup Rollup.metric_15m

    unfoldable pub write_energy_daily :
        String
        → (energy_wh avg_power_w peak_power_w charge_wh discharge_wh : D) → ℕ
        → Quality
        → Bool
        → Db
        → Db
    write_energy_daily day energy_wh avg_w peak_w charge_wh discharge_wh active_seconds quality
          fin =
        step (
          Stmt.replace_energy (record {
            day_local = day;
            energy_wh = energy_wh;
            avg_power_w = avg_w;
            peak_power_w = peak_w;
            charge_wh = charge_wh;
            discharge_wh = discharge_wh;
            active_seconds = active_seconds;
            quality = quality_to_string quality;
            finalized = fin;
          }))

    -- An empty payload is bound as NULL.
    unfoldable pub write_event : ℤ → (severity category title payload_json : String) → Db → Db
    write_event ts severity category title payload_json =
        let payload = if str_eq payload_json "" then none else some payload_json in
        step (Stmt.insert_event ts severity category title payload)

    unfoldable pub write_metric_info : MetricInfo → Db → Db
    write_metric_info info = step (Stmt.replace_info info)

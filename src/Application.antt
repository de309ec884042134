-- ===== src/Application.antt =====
-- src/apps/pulseport-service/main.cpp: the program's parts put together. What the operating system answers in
-- one tick is a `Moment`; each reading of the clock in a tick is its own value.
pub mod Opening
pub mod Arguments
pub mod Unrecorded
pub mod Blank
pub mod Following
pub mod PowerFeed
pub mod Settings
pub mod Entry
use pulseport.Sampler
use pulseport.Storage.Engine.{Sqlite}
use pulseport.Aggregator.{Aggregator, finalize_daily, flush_1m, new_aggregator}
use pulseport.Registry.{Registry, snapshot, all_metrics}
use pulseport.Alerts.{AlertEvaluator, Thresholds, evaluate}
use pulseport.Collectors.Process.{ProcessReadings, collect_processes, register_process_collectors}
use pulseport.Power.{PowerPipeline, reset_daily, update, new_pipeline}
use pulseport.Storage.Writer.{write_metric_info, write_event}
use pulseport.Sampler.{Collector, add_collector}
use pulseport.Storage.Reader.{RetentionConfig, cleanup_expired}
use pulseport.Config.{Config}
use pulseport.Collectors.Battery.{
  BatteryApi, PowerStatus, collect_battery, register_battery_collectors,
}
use pulseport.Collectors.Pdh.{Counters, PdhReadings, collect_pdh, register_pdh_collectors}
use pulseport.Collectors.Thermal.{
  ThermalState, collect_thermal, ComStart, register_thermal_collectors,
}
use pulseport.Prelude.{
  Bool, List, Option, String, [], if◌then◌else◌, none, some, str_eq, ℕ, ◌%◌, ◌*◌, ◌-◌, ◌^◌, ◌∷◌,
}
use pulseport.Prelude.Int.{negsuc, pos, ℤ, ◌*ℤ◌}
use pulseport.Prelude.Double.{Double}
use pulseport.Types.{MetricInfo, MetricSample}

-- The readings of the devices and of the clock during one tick. `today` is strftime of the local date, `clocks`
-- what the alert checks read, `local_day` the local date of a time stamp, `day_start` that of a date's midnight.
pub record Moment {ℓ} (D : Type ℓ) (H : Type 0) : Type ℓ where
  pub pdh_ts : ℤ
  pub battery_ts : ℤ
  pub thermal_ts : ℤ
  pub process_ts : ℤ
  pub maintenance_ts : ℤ
  pub pdh : PdhReadings D H
  pub battery : BatteryApi
  pub power_status : Option PowerStatus
  pub thermal : Option (Option (Option ℕ))
  pub processes : ProcessReadings D
  pub today : String
  pub clocks : String → ℤ
  pub local_day : ℤ → String
  pub day_start : String → Option ℤ

-- What the callbacks share. The statics of the collectors are the counters, the thermal state and whether the
-- query for processes is open. `runtime_cfg` is the configuration that requests change.
pub record World {ℓ} (D : Type ℓ) (H : Type 0) (Db : Type ℓ) : Type ℓ where
  pub runtime_cfg : Config D
  pub registry : Registry D
  pub counters : Option (Counters H)
  pub thermal_state : ThermalState
  pub processes_open : Bool
  pub power_pipeline : PowerPipeline D
  pub aggregator : Aggregator D
  pub alert_evaluator : AlertEvaluator D
  pub last_day : String
  pub database : Db
  pub moment : Moment D H

-- `int` converted to `uint32_t`.
unfoldable pub uint32_of : ℤ → ℕ
uint32_of (pos n) = n % 2 ^ 32
uint32_of (negsuc n) = 2 ^ 32 - 1 - n % 2 ^ 32

module _ {ℓ} {D : Type ℓ} where
  unfoldable pub thresholds_of : Config D → Thresholds D
  thresholds_of cfg = record {
    cpu_high_pct = cfg.alert_cpu_high_pct;
    cpu_sustained_min = cfg.alert_cpu_sustained_min;
    mem_high_pct = cfg.alert_mem_high_pct;
    mem_sustained_min = cfg.alert_mem_sustained_min;
    battery_low_pct = cfg.alert_battery_low_pct;
    power_high_w = cfg.alert_power_high_w;
    cooldown_minutes = cfg.alert_cooldown_minutes;
  }

  unfoldable pub retention_of : Config D → RetentionConfig
  retention_of cfg = record {
    retention_1m_days = cfg.retention_1m_days;
    retention_15m_days = cfg.retention_15m_days;
    retention_daily_days = cfg.retention_daily_days;
    retention_events_days = cfg.retention_events_days;
  }

  -- The loop over the snapshot, which ends at the first sample of the power draw.
  unfoldable pub first_power : List (MetricSample D) → Option (MetricSample D)
  first_power [] = none
  first_power (s ∷ snap) = if str_eq s.key "power.current_w" then some s else first_power snap

module _ {ℓ} {D Db : Type ℓ} (e : Sqlite D Db) where
  -- The loop over the registered metrics.
  unfoldable pub write_infos : List MetricInfo → Db → Db
  write_infos [] db = db
  write_infos (info ∷ infos) db = write_infos infos (write_metric_info e info db)

-- The pipeline after the loop over the snapshot.
unfoldable pub feed_power {ℓ} :
    {D : Type ℓ} ⦃d : Double D⦄ → PowerPipeline D → Option (MetricSample D) → PowerPipeline D
feed_power p none = p
feed_power p (some s) = update p s.value s.quality s.ts

-- `decimal` is std::to_string, `hash` std::hash as a `double`, and `format` fmt::format.
module _ {ℓ} {D : Type ℓ} ⦃d : Double D⦄ {H : Type 0} {Db : Type ℓ} (e : Sqlite D Db)
    (decimal : ℕ → String) (hash : String → D) (format : String → D → String) where
  unfoldable pub pdh_callback : World D H Db → World D H Db
  pdh_callback w = record w {
    registry = collect_pdh decimal w.moment.pdh w.moment.pdh_ts w.counters w.registry;
  }

  unfoldable pub battery_callback : World D H Db → World D H Db
  unfolding first_power feed_power
  battery_callback w =
      let r =
        collect_battery w.moment.battery w.moment.power_status w.moment.battery_ts w.registry in
      record w {
        registry = r;
        power_pipeline = feed_power w.power_pipeline (first_power (snapshot r));
      }

  unfoldable pub thermal_callback : World D H Db → World D H Db
  thermal_callback w = record w {
    registry = collect_thermal w.thermal_state w.moment.thermal w.moment.thermal_ts w.registry;
  }

  unfoldable pub process_callback : World D H Db → World D H Db
  process_callback w = record w {
    registry =
        collect_processes decimal hash w.processes_open w.moment.processes w.moment.process_ts
          w.registry;
  }

  -- The change of the local date.
  unfoldable pub day_boundary : World D H Db → World D H Db
  day_boundary w = if str_eq w.moment.today w.last_day then w else record w {
    database = finalize_daily e w.moment.day_start w.last_day w.database;
    power_pipeline = reset_daily w.power_pipeline;
    last_day = w.moment.today;
  }

  unfoldable pub flush_step : World D H Db → World D H Db
  flush_step w =
      let flushed = flush_1m e w.aggregator w.database in
      record w { aggregator = flushed.0; database = flushed.1 }

  unfoldable pub evaluate_step : World D H Db → World D H Db
  evaluate_step w =
      let evaluated = evaluate e format w.moment.clocks w.alert_evaluator w.registry w.database in
      record w { alert_evaluator = evaluated.0; database = evaluated.1 }

  unfoldable pub flush_callback : World D H Db → World D H Db
  unfolding day_boundary flush_step evaluate_step
  flush_callback w = evaluate_step (day_boundary (flush_step w))

  -- `checkpoint` is the database's, whose result is not looked at.
  unfoldable pub maintenance_callback : (checkpoint : Db → Db) → World D H Db → World D H Db
  maintenance_callback checkpoint w =
      let cleaned =
        cleanup_expired e w.moment.local_day w.moment.maintenance_ts (retention_of w.runtime_cfg)
          w.database in
      record w { database = checkpoint cleaned.1 }

  -- The collectors, in the order in which they are added. The `int` product of the aggregation interval is that of
  -- a configuration whose interval times 1000 fits an `int`.
  unfoldable pub collectors : (checkpoint : Db → Db) → Config D → List (Collector (World D H Db))
  unfolding uint32_of
  collectors checkpoint cfg =
      let pdh = add_collector "pdh" (uint32_of cfg.sample_interval_ms) pdh_callback [] in
      let battery =
        add_collector "battery" (uint32_of cfg.sample_interval_ms) battery_callback pdh in
      let thermal =
        add_collector "thermal" (uint32_of cfg.thermal_interval_ms) thermal_callback battery in
      let processes =
        add_collector "processes" (uint32_of cfg.process_interval_ms) process_callback thermal in
      let flush =
        add_collector "aggregator_flush" (uint32_of (cfg.aggregation_interval_s *ℤ pos 1000))
          flush_callback processes in
      add_collector "maintenance" (3600 * 1000) (maintenance_callback checkpoint) flush

  -- run_application up to the start of the sampler, with the opened database. `counters`, `com` and `opened` are
  -- what the registrations got from the operating system; `today` and `start_ts` are readings of the clock.
  unfoldable pub start_application :
      Config D
      → (cores : ℕ) → Option (Counters H)
      → ComStart
      → (opened : Bool) → (start_ts : ℤ) → Moment D H
      → Db
      → World D H Db
  unfolding thresholds_of write_infos
  start_application cfg cores counters start opened start_ts moment db =
      let r1 = register_pdh_collectors decimal cores [] in
      let thermal = register_thermal_collectors start (register_battery_collectors r1) in
      let processes = register_process_collectors decimal hash opened thermal.1 in
      let infos_written = write_infos e (all_metrics processes.1) db in
      record {
        runtime_cfg = cfg;
        registry = processes.1;
        counters = counters;
        thermal_state = thermal.0;
        processes_open = processes.0;
        power_pipeline = new_pipeline;
        aggregator = new_aggregator;
        alert_evaluator = record { thresholds = thresholds_of cfg; state = [] };
        last_day = moment.today;
        database =
            write_event e start_ts "info" "lifecycle" "PulsePort service started" "" infos_written;
        moment = moment;
      }

  -- The ticks of the sampler, each with what the system answers in it. The callback after a tick only sends.
  unfoldable pub run_ticks :
      List (Moment D H)
      → List (Collector (World D H Db)) × World D H Db
      → List (Collector (World D H Db)) × World D H Db
  run_ticks [] s = s
  run_ticks (m ∷ ms) (cs, w) = run_ticks ms (Sampler.tick none (cs, record w { moment = m }))

  -- run_application from the signal to stop on, up to the closing of the database.
  unfoldable pub shut_down : (stop_ts : ℤ) → Moment D H → World D H Db → Db
  unfolding flush_step
  shut_down stop_ts m w =
      let flushed = flush_step w in
      let finalized = finalize_daily e m.day_start m.today flushed.database in
      write_event e stop_ts "info" "lifecycle" "PulsePort service stopped" "" finalized

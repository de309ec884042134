-- ===== src/Application/Unrecorded.antt =====
-- src/apps/pulseport-service/main.cpp: what the callbacks leave in the table of one-minute values.
use pulseport.Storage.Database.Handle.{opened}
use pulseport.Registry.{all_metrics, snapshot}
use pulseport.Config.{Config}
use pulseport.Collectors.Thermal.{ComStart}
use pulseport.Sampler.Invariant.{Keep, tick_collectors-Keep}
use pulseport.Aggregator.{collect, flush_1m, is_empty_list, new_aggregator, reset_all}
use pulseport.Sampler.{Collector, add_collector, started}
use pulseport.Storage.Writer.{write_event}
use pulseport.Alerts.{evaluate}
use pulseport.Storage.Engine.{IsSqlite, Sqlite}
use pulseport.Storage.Reader.{cleanup_expired}
use pulseport.Application.{
  Moment, World, battery_callback, collectors, day_boundary, evaluate_step, flush_callback,
  flush_step, maintenance_callback, pdh_callback, process_callback, retention_of, run_ticks,
  shut_down, start_application, thermal_callback,
}
use pulseport.Collectors.Pdh.{Counters}
use pulseport.Application.Blank.{
  IsBlank, cleanup_expired-IsBlank, evaluate_all-IsBlank, exec-IsBlank, finalize_daily-IsBlank,
  write_infos-IsBlank,
}
use pulseport.Sampler
use pulseport.Prelude.{
  Bool, Bool-cases, List, Option, String, [], inl, inr, refl, str_eq, ℕ, ◌∷◌, ◌≡◌,
}
use pulseport.Prelude.Int.{ℤ}
use pulseport.Prelude.Double.{Double}

module _ {ℓ} {D : Type ℓ} ⦃d : Double D⦄ {H : Type 0} {Db : Type ℓ} (e : Sqlite D Db)
    (q : IsSqlite e) (decimal : ℕ → String) (hash : String → D) (format : String → D → String) where
  -- A world whose aggregator has no bucket and whose database has no one-minute values.
  abbrev pub IsUnrecorded : World D H Db → Type ℓ
  IsUnrecorded w = (w.aggregator.buckets ≡ []) × IsBlank e q w.database

  flush_step-IsUnrecorded :
      (w : World D H Db) → IsUnrecorded w → IsUnrecorded (flush_step e decimal hash format w)
  unfolding flush_step flush_1m collect reset_all is_empty_list
  flush_step-IsUnrecorded w (no_buckets, blank) = rw no_buckets (refl, blank)

  day_boundary-IsUnrecorded :
      (w : World D H Db) → IsUnrecorded w → IsUnrecorded (day_boundary e decimal hash format w)
  unfolding day_boundary
  day_boundary-IsUnrecorded w (no_buckets, blank) =
      elim (Bool-cases (str_eq w.moment.today w.last_day)) [
        | inl same ↦ rw same (no_buckets, blank)
        | inr other ↦
            rw other (
              no_buckets,
              finalize_daily-IsBlank e q w.moment.day_start w.last_day w.database blank,
            )
      ]

  evaluate_step-IsUnrecorded :
      (w : World D H Db) → IsUnrecorded w → IsUnrecorded (evaluate_step e decimal hash format w)
  unfolding evaluate_step evaluate
  evaluate_step-IsUnrecorded w (no_buckets, blank) = (
    no_buckets,
    evaluate_all-IsBlank e q format w.moment.clocks w.alert_evaluator (snapshot w.registry)
        w.database blank,
  )

  flush_callback-IsUnrecorded :
      (w : World D H Db) → IsUnrecorded w → IsUnrecorded (flush_callback e decimal hash format w)
  unfolding flush_callback
  flush_callback-IsUnrecorded w h =
      let flushed : World D H Db = flush_step e decimal hash format w in
      evaluate_step-IsUnrecorded (day_boundary e decimal hash format flushed)
        (day_boundary-IsUnrecorded flushed (flush_step-IsUnrecorded w h))

  module _ (checkpoint : Db → Db)
      (same : (db : Db)
        → (q.contents (checkpoint db) ≡ q.contents db)
          × (q.saved (checkpoint db) ≡ q.saved db)) where
    maintenance_callback-IsUnrecorded :
        (w : World D H Db)
        → IsUnrecorded w
        → IsUnrecorded (maintenance_callback e decimal hash format checkpoint w)
    unfolding maintenance_callback
    maintenance_callback-IsUnrecorded w (no_buckets, blank) =
        let m = w.moment in
        let rc = retention_of w.runtime_cfg in
        let cleaned = cleanup_expired e m.local_day m.maintenance_ts rc w.database in
        (
          no_buckets,
          rw ((same cleaned.1).0, (same cleaned.1).1)
              (cleanup_expired-IsBlank e q m.local_day m.maintenance_ts rc w.database blank),
        )

    collectors-Keep :
        (cfg : Config D) (cs : List (Collector (World D H Db)))
        → cs ≡ collectors e decimal hash format checkpoint cfg
        → Keep IsUnrecorded cs
    unfolding collectors add_collector pdh_callback battery_callback thermal_callback
        process_callback
    collectors-Keep cfg cs same_list = rw same_list (
      (λ w h. h),
      (
        (λ w h. h),
        (
          (λ w h. h),
          ((λ w h. h), (flush_callback-IsUnrecorded, (maintenance_callback-IsUnrecorded, tt))),
        ),
      ),
    )

    run_ticks-IsUnrecorded :
        (ms : List (Moment D H)) (cs : List (Collector (World D H Db))) (w : World D H Db)
        → Keep IsUnrecorded cs
        → IsUnrecorded w
        → IsUnrecorded (run_ticks e decimal hash format ms (cs, w)).1
    unfolding run_ticks Sampler.tick
    run_ticks-IsUnrecorded [] cs w keeps h = h
    run_ticks-IsUnrecorded (m ∷ ms) cs w keeps h =
        let now : World D H Db = record w { moment = m } in
        let ticked = tick_collectors-Keep IsUnrecorded cs now keeps h in
        run_ticks-IsUnrecorded ms _ _ ticked.0 ticked.1

    -- However long the program runs after it started on a database without one-minute values, whatever it measures
    -- and whatever statements fail, it stores no one-minute value: no callback of the program hands a sample to
    -- the aggregator. No transaction is open at the start, and checkpoints leave the contents alone.
    pub run_application-one_minute :
        (cfg : Config D) (cores : ℕ) (counters : Option (Counters H)) (start : ComStart)
        (opened : Bool) (start_ts stop_ts : ℤ) (first last : Moment D H) (ms : List (Moment D H))
        (db : Db)
        → (q.contents db).one_minute ≡ []
        → q.saved db ≡ q.contents db
        → let w =
            start_application e decimal hash format cfg cores counters start opened start_ts first
              db in
          let ran =
            run_ticks e decimal hash format ms
              (collectors e decimal hash format checkpoint cfg, w) in
          (q.contents (shut_down e decimal hash format stop_ts last ran.1)).one_minute ≡ []
    unfolding start_application shut_down write_event new_aggregator
    run_application-one_minute cfg cores counters start opened start_ts stop_ts first last ms db
          empty closed =
        let w =
          start_application e decimal hash format cfg cores counters start opened start_ts first
            db in
        let cs = collectors e decimal hash format checkpoint cfg in
        let blank : IsBlank e q db = (empty, rw closed empty) in
        let started =
          exec-IsBlank e q _ _ refl (write_infos-IsBlank e q (all_metrics w.registry) db blank) in
        let ran = run_ticks-IsUnrecorded ms cs w (collectors-Keep cfg cs refl) (refl, started) in
        let flushed = flush_step-IsUnrecorded (run_ticks e decimal hash format ms (cs, w)).1 ran in
        (exec-IsBlank e q _ _ refl
          (finalize_daily-IsBlank e q last.day_start last.today _ flushed.1)).0

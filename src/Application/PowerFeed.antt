-- ===== src/Application/PowerFeed.antt =====
-- src/apps/pulseport-service/main.cpp: how the power draw gets from the battery to the power pipeline.
use pulseport.Registry.Keys.{register_all-KeysMatch}
use pulseport.Power.{update}
use pulseport.Collectors.Recorded.{register_all-IsListed, register_all-IsRegistered}
use pulseport.Collectors.{register_all}
use pulseport.Sampler.Invariant.{Keep, tick_collectors-Keep}
use pulseport.Registry.Feed.{push_all}
use pulseport.Registry.{snapshot}
use pulseport.Collectors.Battery.Draw.{
  HasSigns, draw, latest-push_all-battery_samples, reported_rate,
}
use pulseport.Application.Following.{IsFollowing, first_power-snapshot, push_all-IsFollowing}
use pulseport.Storage.Engine.{Sqlite}
use pulseport.Storage.Database.{checkpoint}
use pulseport.Storage.Database.Handle.{opened}
use pulseport.Sampler.{Collector, add_collector}
use pulseport.Collectors.Process.{
  collect_processes, process_metrics, process_samples, register_process_collectors, top_count,
}
use pulseport.Application.{
  Moment, World, battery_callback, collectors, day_boundary, evaluate_step, feed_power, first_power,
  flush_callback, flush_step, maintenance_callback, pdh_callback, process_callback, run_ticks,
  start_application, thermal_callback,
}
use pulseport.Collectors.Thermal.{
  ComStart, collect_thermal, register_thermal_collectors, thermal_metrics, thermal_samples,
}
use pulseport.Collectors.Pdh.{
  Counters, collect_pdh, core_metrics, pdh_metrics, pdh_samples, register_pdh_collectors,
}
use pulseport.Collectors.Battery.{
  PowerStatus, battery_metrics, battery_samples, collect_battery, register_battery_collectors,
}
use pulseport.Config.{Config}
use pulseport.Sampler
use pulseport.Prelude.{
  Bool, Bool-cases, List, Option, Option-cases, String, [], ap, false, inl, inr, not, refl, some,
  str_eq, ℕ, ◌==◌, ◌||◌, ◌∙◌, ◌∷◌, ◌≡◌,
}
use pulseport.Prelude.Int.{eqb_ℤ, pos, ℤ}
use pulseport.Prelude.Double.{Double}

module _ {ℓ} {D : Type ℓ} ⦃d : Double D⦄ {H : Type 0} {Db : Type ℓ} (e : Sqlite D Db)
    (decimal : ℕ → String) (hash : String → D) (format : String → D → String) where
  abbrev pub IsFed : World D H Db → Type ℓ
  IsFed w = IsFollowing w.registry

  pdh_callback-IsFed : (w : World D H Db) → IsFed w → IsFed (pdh_callback e decimal hash format w)
  unfolding pdh_callback collect_pdh
  pdh_callback-IsFed w h = elim (Option-cases w.counters) [
    | inl closed ↦ rw (closed, collect_pdh) h
    | inr (c, open_query) ↦ elim (Bool-cases w.moment.pdh.collects) [
      | inl yes_data ↦
          rw (open_query, collect_pdh, yes_data)
            (push_all-IsFollowing (pdh_samples decimal w.moment.pdh w.moment.pdh_ts c) w.registry h)
      | inr no_data ↦ rw (open_query, collect_pdh, no_data) h
    ]
  ]

  battery_callback-IsFed :
      (w : World D H Db) → IsFed w → IsFed (battery_callback e decimal hash format w)
  unfolding battery_callback collect_battery
  battery_callback-IsFed w h = elim (Option-cases w.moment.power_status) [
    | inl failed ↦ rw (failed, collect_battery) h
    | inr (sps, read) ↦
        rw (read, collect_battery)
          (push_all-IsFollowing (battery_samples w.moment.battery sps w.moment.battery_ts)
            w.registry h)
  ]

  thermal_callback-IsFed :
      (w : World D H Db) → IsFed w → IsFed (thermal_callback e decimal hash format w)
  unfolding thermal_callback collect_thermal
  thermal_callback-IsFed w h =
      elim (Bool-cases (not w.thermal_state.available || not w.thermal_state.has_services)) [
        | inl off ↦ rw off h
        | inr on ↦ rw on (
            push_all-IsFollowing (thermal_samples w.moment.thermal w.moment.thermal_ts) w.registry
              h)
      ]

  process_callback-IsFed :
      (w : World D H Db) → IsFed w → IsFed (process_callback e decimal hash format w)
  unfolding process_callback collect_processes
  process_callback-IsFed w h =
      let now = w.moment.processes in
      elim (Bool-cases (not w.processes_open || not now.counter_added)) [
        | inl off ↦ rw off h
        | inr on ↦ elim (Bool-cases (not now.more_data || now.buf_size == 0)) [
          | inl empty ↦ rw (on, empty) h
          | inr full ↦ elim (Option-cases now.items) [
            | inl failed ↦ rw (on, full, failed) h
            | inr (items, read) ↦
                rw (on, full, read)
                  (push_all-IsFollowing (process_samples decimal hash items w.moment.process_ts)
                    w.registry h)
          ]
        ]
      ]

  flush_callback-IsFed :
      (w : World D H Db) → IsFed w → IsFed (flush_callback e decimal hash format w)
  unfolding flush_callback day_boundary flush_step evaluate_step
  flush_callback-IsFed w h = elim (Bool-cases (str_eq w.moment.today w.last_day)) [
    | inl same ↦ rw same h
    | inr other ↦ rw other h
  ]

  collectors-Keep :
      (checkpoint : Db → Db) (cfg : Config D) (cs : List (Collector (World D H Db)))
      → cs ≡ collectors e decimal hash format checkpoint cfg
      → Keep IsFed cs
  unfolding collectors add_collector maintenance_callback
  collectors-Keep checkpoint cfg cs same_list = rw same_list (
    pdh_callback-IsFed,
    (
      battery_callback-IsFed,
      (thermal_callback-IsFed, (process_callback-IsFed, (flush_callback-IsFed, ((λ w h. h), tt)))),
    ),
  )

  run_ticks-IsFed :
      (ms : List (Moment D H)) (cs : List (Collector (World D H Db))) (w : World D H Db)
      → Keep IsFed cs
      → IsFed w
      → IsFed (run_ticks e decimal hash format ms (cs, w)).1
  unfolding run_ticks Sampler.tick
  run_ticks-IsFed [] cs w keeps h = h
  run_ticks-IsFed (m ∷ ms) cs w keeps h =
      let now : World D H Db = record w { moment = m } in
      let ticked = tick_collectors-Keep IsFed cs now keeps h in
      run_ticks-IsFed ms _ _ ticked.0 ticked.1

  battery_callback-power :
      HasSigns D
      → (w : World D H Db) (sps : PowerStatus) → IsFed w
      → w.moment.power_status ≡ some sps
      → eqb_ℤ w.moment.battery_ts (pos 0) ≡ false
      → let reading = draw {D = D} (reported_rate w.moment.battery) sps in
        let fed = (battery_callback e decimal hash format w).power_pipeline in
        (fed.current_watts ≡ reading.0) × (fed.current_quality ≡ reading.1)
  unfolding battery_callback collect_battery feed_power update
  battery_callback-power signs w sps (registered, keys) read ne =
      let m = w.moment in
      let samples = battery_samples m.battery sps m.battery_ts in
      let pushed = push_all w.registry samples in
      let now =
        latest-push_all-battery_samples signs w.registry m.battery sps m.battery_ts registered ne in
      let kept = push_all-IsFollowing samples w.registry (registered, keys) in
      let found =
        ap (λ o. first_power (snapshot (collect_battery m.battery o m.battery_ts w.registry))) read
        ∙ first_power-snapshot pushed _ kept.1 now in
      (
        ap (λ o. (feed_power w.power_pipeline o).current_watts) found,
        ap (λ o. (feed_power w.power_pipeline o).current_quality) found,
      )

  start_application-IsFed :
      (cfg : Config D) (cores : ℕ) (counters : Option (Counters H)) (start : ComStart)
      (opened : Bool) (start_ts : ℤ) (first : Moment D H) (db : Db)
      → IsFed (
          start_application e decimal hash format cfg cores counters start opened start_ts first db)
  unfolding start_application register_pdh_collectors register_battery_collectors
      register_thermal_collectors register_process_collectors
  start_application-IsFed cfg cores counters start opened start_ts first db =
      let cpus = register_all (register_all [] pdh_metrics) (core_metrics decimal cores 0) in
      let with_battery = register_all cpus battery_metrics in
      let with_thermal = register_all with_battery thermal_metrics in
      let processes = process_metrics decimal top_count 0 in
      let battery =
        register_all-IsListed battery_metrics cpus "power.current_w" "W"
          (inr (inr (inr (inl (refl, refl))))) in
      let listed =
        register_all-IsRegistered processes with_thermal "power.current_w"
          (register_all-IsRegistered thermal_metrics with_battery "power.current_w" battery) in
      let cpu_keys =
        register_all-KeysMatch (core_metrics decimal cores 0) (register_all [] pdh_metrics)
          (register_all-KeysMatch pdh_metrics [] tt) in
      let battery_keys = register_all-KeysMatch battery_metrics cpus cpu_keys in
      let thermal_keys = register_all-KeysMatch thermal_metrics with_battery battery_keys in
      (listed, register_all-KeysMatch processes with_thermal thermal_keys)

  -- At any time after the program started, whatever was measured before, the battery collector sets the power
  -- pipeline's current power and quality to the battery's draw of that moment: the reported rate as a measured
  -- value, else an estimate while one is possible, else 0 of unknown quality. GetSystemPowerStatus succeeds and
  -- the time stamp is not 0.
  pub battery_callback-run_ticks :
      HasSigns D
      → (checkpoint : Db → Db) (cfg : Config D) (cores : ℕ) (counters : Option (Counters H))
        (start : ComStart) (opened : Bool) (start_ts : ℤ) (first : Moment D H)
        (ms : List (Moment D H)) (now : Moment D H) (sps : PowerStatus) (db : Db)
      → now.power_status ≡ some sps
      → eqb_ℤ now.battery_ts (pos 0) ≡ false
      → let w0 =
          start_application e decimal hash format cfg cores counters start opened start_ts first
            db in
        let cs = collectors e decimal hash format checkpoint cfg in
        let w = (run_ticks e decimal hash format ms (cs, w0)).1 in
        let fed =
          (battery_callback e decimal hash format (record w { moment = now })).power_pipeline in
        let reading = draw {D = D} (reported_rate now.battery) sps in
        (fed.current_watts ≡ reading.0) × (fed.current_quality ≡ reading.1)
  battery_callback-run_ticks signs checkpoint cfg cores counters start opened start_ts first ms now
        sps db read ne =
      let w0 =
        start_application e decimal hash format cfg cores counters start opened start_ts first db in
      let cs = collectors e decimal hash format checkpoint cfg in
      let w = (run_ticks e decimal hash format ms (cs, w0)).1 in
      battery_callback-power signs (record w { moment = now }) sps
        (run_ticks-IsFed ms cs w0 (collectors-Keep checkpoint cfg cs refl)
          (start_application-IsFed cfg cores counters start opened start_ts first db))
        read ne

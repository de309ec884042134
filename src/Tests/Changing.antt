-- ===== src/Tests/Changing.antt =====
-- Requests between ticks, the wait for the stop, the start of the program, the sampler's loop and the JSON of answers.
use pulseport.Server.Json.{Json, printed}
use pulseport.Config.Files.{Write}
use pulseport.Registry.Feed.{push_all}
use pulseport.Collectors.{register_all}
use pulseport.Alerts.Evaluation.{evaluate-judged}
use pulseport.Alerts.{AlertEvaluator, evaluate, judge, state_of}
use pulseport.Sampler.Loop.{Round, run_thread, run_thread_lem}
use pulseport.Storage.Engine.{in_memory}
use pulseport.Config.Limits.{WithinLimits}
use pulseport.Config.{Value, default_config, is_some}
use pulseport.Application.{collectors, start_application, thresholds_of}
use pulseport.Application.Settings.Preserved.{SavedOr, happen_all-thresholds, CutOff}
use pulseport.Application.Settings.{Happening, Program, happen_all}
use pulseport.Server.Json.Reading.{read_history, read_history-history_body, read_metrics}
use pulseport.Server.Json.{delta_message, history_body, snapshot_body}
use pulseport.Sampler.{Collector}
use pulseport.Server.Routes.{Settings}
use pulseport.Tests.Started.{blank_hash, moment, name_of, no_api, no_rows, plain}
use pulseport.Service.Waiting.Wakeups.{
  CanReturn, is_asleep, is_awake, is_quiet, is_returned, lost_request, overslept, wait_for_stop_lem,
}
use pulseport.Service.Waiting.{Action, Step, Steps, StopFlag, Waiter, at_start}
use pulseport.Storage.Tables.{Tables}
use pulseport.Sampler
use pulseport.Registry.{latest, new_entry, push_sample, record_sample, register_metric}
use pulseport.Prelude.{List, Option, [], false, none, refl, some, suc, true, ℕ, ◌>>=◌, ◌∷◌, ◌≡◌}
use pulseport.Prelude.Int.{pos, ◌*ℤ◌, ◌-ℤ◌}
use pulseport.Prelude.Double.{Approx, approx_double}
use pulseport.Prelude.Dict.{Dict, insert, lookup, lookup_or}
use pulseport.Types.{MetricAggregate, MetricInfo, MetricSample, Quality}

abbrev low_cooldown : Option (Dict (Value Approx))
low_cooldown = some (("alert_cooldown_minutes", Value.whole (pos 20)) ∷ [])

abbrev happenings : List (Happening Approx ℕ (Dict (Value Approx)))
happenings =
    Happening.posted (record { origin = ""; body = low_cooldown; write = Write.complete })
    ∷ Happening.ticked moment
    ∷ Happening.posted (record { origin = ""; body = low_cooldown; write = Write.cut_off [] })
    ∷ []

abbrev fresh_program : Program Approx ℕ (Tables Approx × ℕ) (Dict (Value Approx))
fresh_program = record {
  sampler = collectors in_memory name_of blank_hash plain (λ db. db) default_config;
  world =
      start_application in_memory name_of blank_hash plain default_config 1 none no_api false
        (pos 900) moment (no_rows, 0);
  config_path = "config.json";
  file = none;
}

abbrev later_program : Program Approx ℕ (Tables Approx × ℕ) (Dict (Value Approx))
later_program =
    happen_all in_memory name_of blank_hash plain (λ j. j) (λ x. pos 0) (λ a b. false) happenings
      fresh_program

happen_all-thresholds_example :
    (later_program.world.alert_evaluator.thresholds ≡ thresholds_of default_config)
    × WithinLimits later_program.world.runtime_cfg
    × SavedOr (λ j. j) (CutOff happenings) none later_program.file
happen_all-thresholds_example =
    happen_all-thresholds in_memory name_of blank_hash plain (λ j. j) (λ x. pos 0) (λ a b. false)
      (λ db. db) default_config 1 none no_api false (pos 900) moment (no_rows, 0) "config.json" none
      happenings
      (unfold default_config in (refl, refl, refl, refl, refl, refl, refl, refl, refl, refl, refl))

abbrev stored_settings : Settings Approx (Dict (Value Approx))
stored_settings = record {
  config_ptr = some default_config;
  config_path = "config.json";
  file = none;
}

-- The waiting thread saw the flag unset.
abbrev past_test : StopFlag
past_test = record { requested = false; waiter = Waiter.unset_seen; notifying = 0 }

abbrev entered : StopFlag
entered = record { requested = false; waiter = Waiter.testing; notifying = 0 }

past_test-reached : Steps (Action.enter ∷ Action.test ∷ []) at_start past_test
past_test-reached =
    Steps.move (Step.enter at_start refl)
      (Steps.move (Step.test_unset entered refl refl) Steps.stay)

lost_request_example :
    Steps (Action.store ∷ Action.notify ∷ Action.fall_asleep ∷ []) past_test overslept
    × ((a : Action) (t : StopFlag) → is_quiet a ≡ true → ¬ (Step a overslept t))
lost_request_example = lost_request past_test refl refl

-- A request before the wait.
abbrev asked : StopFlag
asked = record { requested = true; waiter = Waiter.outside; notifying = 1 }

wait_for_stop_lem_example :
    (is_returned asked.waiter ≡ true → asked.requested ≡ true)
    × (asked.requested ≡ true
        → is_awake asked.waiter ≡ true
        → (is_asleep asked.waiter ≡ false) × CanReturn asked)
    × ((u v : StopFlag) (more : List Action)
        → asked.requested ≡ true
        → is_asleep asked.waiter ≡ true
        → Step Action.notify asked u
        → Steps more u v
        → (is_asleep v.waiter ≡ false) × CanReturn v)
wait_for_stop_lem_example =
    wait_for_stop_lem (Action.store ∷ []) [] asked asked
      (Steps.move (Step.store at_start) Steps.stay) Steps.stay

abbrev good_round : Round
good_round = record { running_before = true; timer_signalled = true; running_after = true }

abbrev late_round : Round
late_round = record { running_before = true; timer_signalled = false; running_after = true }

abbrev counted_once : List (Collector ℕ) × ℕ
counted_once = Sampler.run 1 none (Sampler.started "n" 1000 suc ∷ [], 0)

run_thread_lem_example :
    (run_thread true (good_round ∷ []) none (Sampler.started "n" 1000 suc ∷ [], 0)
      ≡ (false, counted_once))
    × (run_thread true
          (good_round ∷ late_round ∷ good_round ∷ [])
          none
          (Sampler.started "n" 1000 suc ∷ [], 0)
        ≡ (true, counted_once))
    × (run_thread false (good_round ∷ []) none (Sampler.started "n" 1000 suc ∷ [], 0)
        ≡ (true, (Sampler.started "n" 1000 suc ∷ [], 0)))
run_thread_lem_example =
    run_thread_lem (good_round ∷ []) (good_round ∷ []) late_round none
      (Sampler.started "n" 1000 suc ∷ [], 0) (refl, tt) refl

abbrev draw_sample : MetricSample Approx
draw_sample = record {
  key = "power.current_w";
  value = some 12;
  unit = "W";
  quality = Quality.estimated;
  ts = pos 100;
}

abbrev finite_row : MetricAggregate Approx
finite_row = record {
  key = "cpu.total_pct";
  bucket_ts = pos 60;
  min_value = some 1;
  max_value = some 3;
  avg_value = some 2;
  sample_count = 2;
  quality = Quality.measured;
}

-- The text is the value that it shows.
abbrev shown_json : Json Approx → Json Approx
shown_json = printed is_some

read_history-history_body_example :
    (some (shown_json (history_body (finite_row ∷ []))) >>= read_history
      ≡ some (finite_row ∷ [], 1))
    × (some (shown_json (snapshot_body (pos 100) (draw_sample ∷ []))) >>= read_metrics
        ≡ some ("snapshot", draw_sample ∷ []))
    × (some (shown_json (delta_message (draw_sample ∷ []))) >>= read_metrics
        ≡ some ("delta", draw_sample ∷ []))
read_history-history_body_example =
    read_history-history_body is_some shown_json some (λ j. refl) (finite_row ∷ [])
      (draw_sample ∷ []) (pos 100) ((refl, refl, refl), tt) (refl, tt)

abbrev evaluator : AlertEvaluator Approx
evaluator = record {
  thresholds = record {
    cpu_high_pct = some 90;
    cpu_sustained_min = pos 5;
    mem_high_pct = some 90;
    mem_sustained_min = pos 5;
    battery_low_pct = some 15;
    power_high_w = some 100;
    cooldown_minutes = pos 30;
  };
  state = [];
}

abbrev battery_info : MetricInfo
battery_info = record {
  key = "battery.level_pct";
  display_name = "Battery Level";
  unit = "%";
  source = "battery";
  category = "battery";
}

abbrev low_battery : MetricSample Approx
low_battery = record {
  key = "battery.level_pct";
  value = some 10;
  unit = "%";
  quality = Quality.measured;
  ts = pos 100;
}

evaluate-judged_example :
    let r = push_all (register_all [] (battery_info ∷ [])) (low_battery ∷ []) in
    let after = (evaluate in_memory plain (λ key. pos 1000) evaluator r (no_rows, 0)).0 in
    (state_of after "battery.level_pct" ≡ record { violation_count = 0; last_alert_ts = pos 1000 })
    × (after.thresholds ≡ evaluator.thresholds)
unfolding judge lookup_or lookup latest push_all register_all register_metric push_sample new_entry
    record_sample insert ◌*ℤ◌ ◌-ℤ◌
evaluate-judged_example =
    evaluate-judged in_memory plain (λ key. pos 1000) (battery_info ∷ []) (low_battery ∷ [])
      "battery.level_pct" evaluator (no_rows, 0)

-- ===== src/Tests/Live.antt =====
-- The live data: rings, the registry, the power window, the alerts and the sampler.
use pulseport.Alerts.{calm}
use pulseport.Registry.Feed.{of_key, push_all, recent-push_all}
use pulseport.RingBuffer.{RingBuffer}
use pulseport.Registry.{Registry}
use pulseport.Sampler.Cadence.{counting, period, run-period}
use pulseport.Alerts.Check.{counted, violations, watch-sustained}
use pulseport.RingBuffer.History.{Holds, empty_ring-Holds, push-Holds}
use pulseport.Power.{PowerSample, avg_watts, mean, new_pipeline}
use pulseport.Power.Window.{after_readings, avg_watts-after_readings, fresh, total_watts}
use pulseport.RingBuffer.Reads.{peek_last-drop}
use pulseport.Alerts.Spacing.{Spaced, watch, watch-Spaced}
use pulseport.RingBuffer
use pulseport.Registry
use pulseport.Sampler
use pulseport.Prelude.{List, String, [], arith, none, refl, some, true, ℕ, ◌∷◌, ◌≡◌}
use pulseport.Prelude.Int.{pos, ◌-ℤ◌}
use pulseport.Prelude.Double.{Approx, approx_double}
use pulseport.Prelude.Dict.{Dict, lookup}
use pulseport.Types.{MetricInfo, MetricSample, Quality}

abbrev two : RingBuffer ℕ
two = record { buffer = 1 ∷ 2 ∷ []; write_pos = 2; read_pos = 0 }

abbrev three : RingBuffer ℕ
three = record { buffer = 3 ∷ 2 ∷ []; write_pos = 3; read_pos = 0 }

two-Holds : Holds 1 0 two (1 ∷ 2 ∷ [])
unfolding RingBuffer.push RingBuffer.empty_ring RingBuffer.slot
two-Holds =
    push-Holds 1 0 (RingBuffer.push 1 0 (RingBuffer.empty_ring 1 0) 1) (1 ∷ []) 2
      (push-Holds 1 0 (RingBuffer.empty_ring 1 0) [] 1 (empty_ring-Holds 1 0) (omega arith))
      (omega arith)

three-Holds : Holds 1 0 three (1 ∷ 2 ∷ 3 ∷ [])
unfolding RingBuffer.push RingBuffer.slot
three-Holds = push-Holds 1 0 two (1 ∷ 2 ∷ []) 3 two-Holds (omega arith)

push-Holds_example : Holds 1 0 (RingBuffer.push 1 0 two 3) (1 ∷ 2 ∷ 3 ∷ [])
push-Holds_example = push-Holds 1 0 two (1 ∷ 2 ∷ []) 3 two-Holds (omega arith)

peek_last-drop_example : RingBuffer.peek_last 1 0 three 5 ≡ 2 ∷ 3 ∷ []
peek_last-drop_example = peek_last-drop 1 0 three (1 ∷ 2 ∷ 3 ∷ []) 5 three-Holds

abbrev load_info : MetricInfo
load_info = record {
  key = "cpu";
  display_name = "CPU";
  unit = "%";
  source = "pdh";
  category = "cpu";
}

abbrev sample : String → ℕ → ℕ → MetricSample Approx
sample key value ts = record {
  key = key;
  value = some value;
  unit = "%";
  quality = Quality.measured;
  ts = pos ts;
}

abbrev pushed : List (MetricSample Approx)
pushed = sample "cpu" 10 100 ∷ sample "mem" 50 100 ∷ sample "cpu" 20 101 ∷ []

recent-push_all_example :
    Registry.recent (push_all (Registry.register_metric [] load_info) pushed) "cpu" 1
    ≡ sample "cpu" 20 101 ∷ []
unfolding of_key pulseport.Prelude.Dict.lookup
recent-push_all_example = recent-push_all [] load_info pushed 1 refl (omega arith)

abbrev watts : ℕ → ℕ → PowerSample Approx
watts w ts = record { watts = some w; ts = pos ts }

avg_watts-after_readings_example :
    (avg_watts {D = Approx} new_pipeline (pos 60) ≡ some 0)
    × (avg_watts
          (after_readings
            ((watts 30 1000, Quality.measured) ∷ (watts 10 990, Quality.measured) ∷ []))
          (pos 60)
        ≡ some 20)
unfolding fresh total_watts mean ◌-ℤ◌
avg_watts-after_readings_example =
    avg_watts-after_readings (watts 30 1000) Quality.measured
      ((watts 10 990, Quality.measured) ∷ []) (pos 60)

watch-Spaced_example :
    Spaced
      (pos 60)
      (watch (pos 60) (pos 1) calm ((pos 170, true) ∷ (pos 110, true) ∷ (pos 100, true) ∷ [])).1
watch-Spaced_example =
    watch-Spaced (pos 60) (pos 1) ((pos 170, true) ∷ (pos 110, true) ∷ (pos 100, true) ∷ [])
      (omega arith, (omega arith, (omega arith, tt)))

watch-sustained_example :
    (watch (pos 60) (pos 3) (counted 0 (pos 0)) (violations (pos 110 ∷ pos 100 ∷ []))
      ≡ (counted 2 (pos 0), []))
    × (watch (pos 60) (pos 3) (counted 0 (pos 0)) (violations (pos 120 ∷ pos 110 ∷ pos 100 ∷ []))
        ≡ (counted 0 (pos 120), pos 120 ∷ []))
watch-sustained_example =
    watch-sustained (pos 60) (pos 120) 3 (pos 0) (pos 110 ∷ pos 100 ∷ []) refl refl

run-period_example :
    Sampler.run 7 none (counting "thermal" 5000 ∷ [], 0)
    ≡ (record (counting "thermal" 5000) { elapsed_ms = 2000 } ∷ [], 1)
unfolding period
run-period_example = run-period 7 "thermal" 5000 (omega arith)

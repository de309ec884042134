-- ===== src/Alerts.antt =====
-- include/pulseport/alert_evaluator.h and src/metrics/alert_evaluator.cpp: sustained violations of the
-- thresholds become events. The evaluator runs on the flush thread alone. fmt::format is a parameter, and
-- so is the clock that a check reads.
use pulseport.Prelude.{
  Bool, List, String, [], false, if◌then◌else◌, not, str_eq, true, ℕ, ◌&&◌, ◌+◌, ◌==◌, ◌∷◌,
}
use pulseport.Prelude.Int.{ltb_ℤ, pos, ℤ, ◌*ℤ◌, ◌-ℤ◌}
use pulseport.Prelude.Double.{Double}
use pulseport.Prelude.Dict.{Dict, insert, lookup_or}
use pulseport.Types.{MetricSample, Quality, rank}
pub mod Spacing
pub mod Check
pub mod Evaluation
use pulseport.Storage.Writer.{write_event}
use pulseport.Storage.Engine.{Sqlite}
use pulseport.Registry.{Registry, snapshot}

pub record Thresholds {ℓ} (D : Type ℓ) : Type ℓ where
  pub cpu_high_pct : D
  pub cpu_sustained_min : ℤ
  pub mem_high_pct : D
  pub mem_sustained_min : ℤ
  pub battery_low_pct : D
  pub power_high_w : D
  pub cooldown_minutes : ℤ

pub record AlertState : Type 0 where
  pub violation_count : ℕ
  pub last_alert_ts : ℤ

pub record AlertEvaluator {ℓ} (D : Type ℓ) : Type ℓ where
  pub thresholds : Thresholds D
  pub state : Dict AlertState

abbrev pub calm : AlertState
calm = record { violation_count = 0; last_alert_ts = pos 0 }

-- What a check makes of the state of its key, and whether it fires.
unfoldable pub judge : (cooldown_s sustained now : ℤ) → Bool → AlertState → AlertState × Bool
judge cooldown_s sustained now violated st =
    let counted : AlertState = record st { violation_count = st.violation_count + 1 } in
    if not violated
    then (record st { violation_count = 0 }, false)
    else if ltb_ℤ (pos counted.violation_count) sustained
    then (counted, false)
    else if ltb_ℤ (pos 0) st.last_alert_ts && ltb_ℤ (now -ℤ st.last_alert_ts) cooldown_s
    then (counted, false)
    else (record { violation_count = 0; last_alert_ts = now }, true)

module _ {ℓ} {D : Type ℓ} ⦃d : Double D⦄ where
  -- `state_[key]`, which adds a missing key with a blank state.
  abbrev pub state_of : AlertEvaluator D → String → AlertState
  state_of a key = lookup_or key calm a.state

  unfoldable pub set_thresholds : AlertEvaluator D → Thresholds D → AlertEvaluator D
  set_thresholds a t = record a { thresholds = t }

  module _ {Db : Type ℓ} (e : Sqlite D Db) (format : String → D → String) where
    unfoldable pub check_threshold :
        (now : ℤ)
        → AlertEvaluator D
        → (metric_key : String) → (value threshold : D) → (above : Bool) → (sustained_minutes : ℤ)
        → (alert_category alert_title_fmt : String) → Db
        → AlertEvaluator D × Db
    unfolding judge
    check_threshold now a key value threshold above sustained category title_fmt db =
        let violated = if above then d.le threshold value else d.le value threshold in
        let after =
          judge (a.thresholds.cooldown_minutes *ℤ pos 60) sustained now violated (state_of a key) in
        let event = write_event e now "warn" category (format title_fmt value) "" in
        (record a { state = insert key after.0 a.state }, if after.1 then event db else db)

    -- One sample of the snapshot; `clock key` is the time that the check of that key reads.
    unfoldable pub evaluate_sample :
        (clock : String → ℤ) → AlertEvaluator D → MetricSample D → Db → AlertEvaluator D × Db
    unfolding check_threshold
    evaluate_sample clock a s db =
        let t = a.thresholds in
        if str_eq s.key "cpu.total_pct"
        then check_threshold (clock s.key) a s.key s.value t.cpu_high_pct true t.cpu_sustained_min
            "cpu_high" "CPU usage sustained at {:.0f}%" db
        else if str_eq s.key "mem.used_pct"
        then check_threshold (clock s.key) a s.key s.value t.mem_high_pct true t.mem_sustained_min
            "mem_high" "Memory usage sustained at {:.0f}%" db
        else if str_eq s.key "battery.level_pct"
        then check_threshold (clock s.key) a s.key s.value t.battery_low_pct false (pos 1)
            "battery_low" "Battery level critically low at {:.0f}%" db
        else if str_eq s.key "power.current_w" && not (rank s.quality == rank Quality.unknown)
        then check_threshold (clock s.key) a s.key s.value t.power_high_w true t.cpu_sustained_min
            "power_high" "Power draw elevated at {:.1f} W" db
        else (a, db)

    unfoldable pub evaluate_all :
        (clock : String → ℤ) → AlertEvaluator D → List (MetricSample D) → Db → AlertEvaluator D × Db
    unfolding evaluate_sample
    evaluate_all clock a [] db = (a, db)
    evaluate_all clock a (s ∷ snap) db =
        let one = evaluate_sample clock a s db in evaluate_all clock one.0 snap one.1

    unfoldable pub evaluate :
        (clock : String → ℤ) → AlertEvaluator D → Registry D → Db → AlertEvaluator D × Db
    unfolding evaluate_all
    evaluate clock a registry db = evaluate_all clock a (snapshot registry) db

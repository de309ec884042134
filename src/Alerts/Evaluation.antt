-- ===== src/Alerts/Evaluation.antt =====
-- `evaluate` of src/metrics/alert_evaluator.cpp on a registry: which metric is judged by which rule.
use pulseport.Registry.Feed.{push_all}
use pulseport.Collectors.{register_all}
use pulseport.Registry.Keys.{
  KeysMatch, push_all-IsMap, push_all-KeysMatch, register_all-IsMap, register_all-KeysMatch,
}
use pulseport.Registry.{latest, Registry, sampled, snapshot}
use pulseport.Alerts.Check.{check_threshold-judge}
use pulseport.Storage.Engine.{Sqlite}
use mathlib.Core.Path.{subst}
use pulseport.Alerts.{
  AlertEvaluator, AlertState, Thresholds, check_threshold, evaluate_sample, judge, state_of,
  evaluate_all, evaluate,
}
use pulseport.Prelude.{
  Bool, Bool-cases, List, Option, Option-cases, String, [], ap, eq_iff, false, if◌then◌else◌, inl,
  inr, none, refl, some, str_eq, true, ◌&&◌, ◌==◌, ◌∙◌, ◌∷◌, ◌≡◌,
}
use pulseport.Prelude.Int.{eqb_ℤ, pos, ℤ, ◌*ℤ◌}
use pulseport.Prelude.Double.{Double}
use pulseport.Prelude.Dict.{IsMap, Lacks, lookup, values}
use pulseport.Types.{MetricInfo, MetricSample, Quality, rank}

-- A metric, its threshold and the side of it that violates, the violations that it takes, and its event.
pub record Rule {ℓ} (D : Type ℓ) : Type ℓ where
  pub key : String
  pub threshold : D
  pub above : Bool
  pub sustained : ℤ
  pub known_only : Bool
  pub category : String
  pub title_fmt : String

module _ {ℓ} {D : Type ℓ} where
  abbrev pub rules : Thresholds D → List (Rule D)
  rules t =
      (record {
        key = "cpu.total_pct";
        threshold = t.cpu_high_pct;
        above = true;
        sustained = t.cpu_sustained_min;
        known_only = false;
        category = "cpu_high";
        title_fmt = "CPU usage sustained at {:.0f}%";
      })
      ∷ (record {
        key = "mem.used_pct";
        threshold = t.mem_high_pct;
        above = true;
        sustained = t.mem_sustained_min;
        known_only = false;
        category = "mem_high";
        title_fmt = "Memory usage sustained at {:.0f}%";
      })
      ∷ (record {
        key = "battery.level_pct";
        threshold = t.battery_low_pct;
        above = false;
        sustained = pos 1;
        known_only = false;
        category = "battery_low";
        title_fmt = "Battery level critically low at {:.0f}%";
      })
      ∷ (record {
        key = "power.current_w";
        threshold = t.power_high_w;
        above = true;
        sustained = t.cpu_sustained_min;
        known_only = true;
        category = "power_high";
        title_fmt = "Power draw elevated at {:.1f} W";
      })
      ∷ []

  -- The rule of a metric.
  abbrev pub rule_in : String → List (Rule D) → Option (Rule D)
  rule_in key [] = none
  rule_in key (r ∷ rs) = if str_eq key r.key then some r else rule_in key rs

  -- The rule is for values that are known, and this one is not.
  abbrev pub is_exempt : Rule D → MetricSample D → Bool
  is_exempt r s = r.known_only && rank s.quality == rank Quality.unknown

module _ {ℓ} {D : Type ℓ} ⦃d : Double D⦄ where
  abbrev pub violates : Rule D → D → Bool
  violates r value = if r.above then d.le r.threshold value else d.le value r.threshold

  -- What the rules make of the state of a metric, given its latest sample.
  abbrev pub judged : Thresholds D → (now : ℤ) → Option (MetricSample D) → AlertState → AlertState
  judged t now none st = st
  judged t now (some s) st = elim (rule_in s.key (rules t)) [
    | none ↦ st
    | some r ↦
        if is_exempt r s
        then st
        else (judge (t.cooldown_minutes *ℤ pos 60) r.sustained now (violates r s.value) st).0
  ]

  module _ {Db : Type ℓ} (e : Sqlite D Db) (format : String → D → String) (clock : String → ℤ) where
    evaluate_sample-rule :
        (a : AlertEvaluator D) (s : MetricSample D) (db : Db)
        → evaluate_sample e format clock a s db ≡ elim (rule_in s.key (rules a.thresholds)) [
          | none ↦ (a, db)
          | some r ↦
              if is_exempt r s
              then (a, db)
              else check_threshold e format
                  (clock s.key)
                  a
                  s.key
                  s.value
                  r.threshold
                  r.above
                  r.sustained
                  r.category
                  r.title_fmt
                  db
        ]
    unfolding evaluate_sample
    evaluate_sample-rule a s db = elim (Bool-cases (str_eq s.key "cpu.total_pct")) [
      | inl cpu ↦ rw (cpu, evaluate_sample)
      | inr c ↦ elim (Bool-cases (str_eq s.key "mem.used_pct")) [
        | inl mem ↦ rw (c, mem, evaluate_sample)
        | inr m ↦ elim (Bool-cases (str_eq s.key "battery.level_pct")) [
          | inl battery ↦ rw (c, m, battery, evaluate_sample)
          | inr b ↦ elim (Bool-cases (str_eq s.key "power.current_w")) [
            | inr p ↦ rw (c, m, b, p, evaluate_sample)
            | inl power ↦ elim (Bool-cases (rank s.quality == rank Quality.unknown)) [
              | inl unknown ↦ rw (c, m, b, power, unknown, evaluate_sample)
              | inr known ↦ rw (c, m, b, power, known, evaluate_sample)
            ]
          ]
        ]
      ]
    ]

    -- What one sample changes: the state of its metric, by the rule of the metric.
    evaluate_sample-states :
        (a : AlertEvaluator D) (s : MetricSample D) (db : Db)
        → let one = (evaluate_sample e format clock a s db).0 in
          (state_of one s.key ≡ judged a.thresholds (clock s.key) (some s) (state_of a s.key))
          × ((other : String) → str_eq s.key other ≡ false → state_of one other ≡ state_of a other)
          × (one.thresholds ≡ a.thresholds)
    evaluate_sample-states a s db = elim (Option-cases (rule_in s.key (rules a.thresholds))) [
      | inl free ↦ rw (evaluate_sample-rule a s db, judged, free) (refl, λ other ne. refl, refl)
      | inr (r, ruled) ↦ elim (Bool-cases (is_exempt r s)) [
        | inl exempt ↦
            rw (evaluate_sample-rule a s db, judged, ruled, exempt) (refl, λ other ne. refl, refl)
        | inr held ↦
            let checked =
              check_threshold-judge e format (clock s.key) a s.key s.value r.threshold r.above
                r.sustained r.category r.title_fmt db in
            rw (evaluate_sample-rule a s db, judged, ruled, held) (checked.0, checked.1, checked.2)
      ]
    ]

    evaluate_all-thresholds :
        (snap : List (MetricSample D)) (a : AlertEvaluator D) (db : Db)
        → (evaluate_all e format clock a snap db).0.thresholds ≡ a.thresholds
    unfolding evaluate_all
    evaluate_all-thresholds [] a db = refl
    evaluate_all-thresholds (s ∷ snap) a db =
        let one = evaluate_sample e format clock a s db in
        evaluate_all-thresholds snap one.0 one.1 ∙ (evaluate_sample-states a s db).2

    -- A metric that the registry lacks keeps its state.
    evaluate_all-Lacks :
        (r : Registry D) (key : String) (a : AlertEvaluator D) (db : Db)
        → KeysMatch r
        → Lacks key r
        → state_of (evaluate_all e format clock a (snapshot r) db).0 key ≡ state_of a key
    unfolding evaluate_all snapshot sampled values
    evaluate_all-Lacks [] key a db m l = refl
    evaluate_all-Lacks ((j, entry) ∷ r) key a db (same, m) (ne, l) =
        elim (Bool-cases (eqb_ℤ entry.last_sample.ts (pos 0))) [
          | inl never ↦ rw never (evaluate_all-Lacks r key a db m l)
          | inr taken ↦
              let s = entry.last_sample in
              let one = evaluate_sample e format clock a s db in
              let other : str_eq s.key key ≡ false = ap (λ k. str_eq k key) same ∙ ne in
              rw taken (
                evaluate_all-Lacks r key one.0 one.1 m l
                ∙ (evaluate_sample-states a s db).1 key other)
        ]

    evaluate_all-judged :
        (r : Registry D) (key : String) (a : AlertEvaluator D) (db : Db)
        → KeysMatch r
        → IsMap r
        → state_of (evaluate_all e format clock a (snapshot r) db).0 key
          ≡ judged a.thresholds (clock key) (latest r key) (state_of a key)
    unfolding evaluate_all snapshot sampled values latest lookup
    evaluate_all-judged [] key a db m u = refl
    evaluate_all-judged ((j, entry) ∷ r) key a db (same, m) (lacks, u) =
        let s = entry.last_sample in
        let one = evaluate_sample e format clock a s db in
        let states = evaluate_sample-states a s db in
        elim (Bool-cases (str_eq j key)) [
          | inl here ↦
              let k : j ≡ key = (eq_iff j key).0 here in
              let gone : Lacks key r = subst (λ x. Lacks x r) k lacks in
              elim (Bool-cases (eqb_ℤ entry.last_sample.ts (pos 0))) [
                | inl never ↦ rw (here, latest, never) (evaluate_all-Lacks r key a db m gone)
                | inr taken ↦
                    rw (here, latest, taken)
                      (evaluate_all-Lacks r key one.0 one.1 m gone
                        ∙ subst
                            (λ x.
                              state_of one.0 x
                              ≡ judged a.thresholds (clock x) (some s) (state_of a x))
                            (same ∙ k) states.0)
              ]
          | inr elsewhere ↦ elim (Bool-cases (eqb_ℤ entry.last_sample.ts (pos 0))) [
            | inl never ↦ rw (elsewhere, latest, never) (evaluate_all-judged r key a db m u)
            | inr taken ↦
                let other : str_eq s.key key ≡ false = ap (λ x. str_eq x key) same ∙ elsewhere in
                rw (elsewhere, latest, taken)
                  (evaluate_all-judged r key one.0 one.1 m u
                    ∙ ap (λ t. judged t (clock key) (latest r key) (state_of one.0 key)) states.2
                    ∙ ap (judged a.thresholds (clock key) (latest r key)) (states.1 key other))
          ]
        ]

    -- One evaluation of the alerts, on any registry that registrations and samples made: for every metric that has a
    -- rule and a sample, the state moves by one judgement of its latest sample by this rule (the power draw only
    -- where its quality is known); every other state and the thresholds stay.
    pub evaluate-judged :
        (infos : List MetricInfo) (samples : List (MetricSample D)) (key : String)
        (a : AlertEvaluator D) (db : Db)
        → let r = push_all (register_all [] infos) samples in
          let after = (evaluate e format clock a r db).0 in
          (state_of after key ≡ judged a.thresholds (clock key) (latest r key) (state_of a key))
          × (after.thresholds ≡ a.thresholds)
    unfolding evaluate
    evaluate-judged infos samples key a db =
        let r = push_all (register_all [] infos) samples in
        (
          evaluate_all-judged r key a db
              (push_all-KeysMatch samples (register_all [] infos)
                (register_all-KeysMatch infos [] tt))
              (push_all-IsMap samples (register_all [] infos) (register_all-IsMap infos [] tt)),
          evaluate_all-thresholds (snapshot r) a db,
        )

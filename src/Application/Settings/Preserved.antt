-- ===== src/Application/Settings/Preserved.antt =====
-- src/apps/pulseport-service/main.cpp and src/server/http_server.cpp: what ticks and requests keep.
use pulseport.Collectors.Pdh.{Counters}
use pulseport.Storage.Database.Handle.{opened}
use pulseport.Collectors.Thermal.{ComStart}
use mathlib.Core.Logic.{Lift}
use mathlib.Core.Path.{subst}
use pulseport.Sampler
use pulseport.Application.Settings.{
  Happening, Program, happen, post_config, settings_of, with_settings, happen_all, pointed,
}
use pulseport.Config.Files.{save_config, Write}
use pulseport.Server.Routes.{
  Settings, change_settings, is_empty_text, save_settings, config_route, foreign_origin, set_config,
}
use pulseport.Registry.{snapshot}
use pulseport.Storage.Engine.{Sqlite}
use pulseport.Storage.Database.{checkpoint}
use pulseport.Aggregator.{finalize_daily, flush_1m}
use pulseport.Sampler.Invariant.{Keep, tick_collectors-Keep}
use pulseport.Sampler.{add_collector, Collector, started}
use pulseport.Config.{Config, Value, change_all, changes, to_json}
use pulseport.Application.{
  World, battery_callback, collectors, day_boundary, evaluate_step, flush_callback, flush_step,
  maintenance_callback, pdh_callback, process_callback, thermal_callback, run_ticks, Moment,
  start_application, thresholds_of,
}
use pulseport.Config.Limits.{WithinLimits, Kept, change_all-WithinLimits}
use pulseport.Alerts.{
  AlertEvaluator, Thresholds, check_threshold, evaluate, evaluate_all, evaluate_sample,
}
use pulseport.Prelude.{
  Bool, Bool-cases, List, Option, Option-cases, String, [], arith, inl, inr, none, refl, some,
  str_eq, ℕ, ◌∙◌, ◌∷◌, ◌≡◌, ◌⊎◌,
}
use pulseport.Prelude.Int.{ℤ}
use pulseport.Prelude.Double.{Double}
use pulseport.Prelude.Dict.{Dict}
use pulseport.Types.{MetricSample}

module _ {ℓ} {D Db : Type ℓ} ⦃d : Double D⦄ (e : Sqlite D Db) (format : String → D → String) where
  evaluate_sample-thresholds :
      (clock : String → ℤ) (a : AlertEvaluator D) (s : MetricSample D) (db : Db)
      → (evaluate_sample e format clock a s db).0.thresholds ≡ a.thresholds
  unfolding evaluate_sample check_threshold
  evaluate_sample-thresholds clock a s db = ground arith

  evaluate_all-thresholds :
      (clock : String → ℤ) (a : AlertEvaluator D) (snap : List (MetricSample D)) (db : Db)
      → (evaluate_all e format clock a snap db).0.thresholds ≡ a.thresholds
  unfolding evaluate_all
  evaluate_all-thresholds clock a [] db = refl
  evaluate_all-thresholds clock a (s ∷ snap) db =
      let one = evaluate_sample e format clock a s db in
      evaluate_all-thresholds clock one.0 snap one.1 ∙ evaluate_sample-thresholds clock a s db

module _ {ℓ} {D : Type ℓ} ⦃d : Double D⦄ {H : Type 0} {Db : Type ℓ} (e : Sqlite D Db)
    (decimal : ℕ → String) (hash : String → D) (format : String → D → String) where
  -- The evaluator has given thresholds, and the configuration is within the ranges of the settings.
  abbrev pub IsSteady : Thresholds D → World D H Db → Type ℓ
  IsSteady t w = (w.alert_evaluator.thresholds ≡ t) × WithinLimits w.runtime_cfg

  flush_callback-IsSteady :
      (t : Thresholds D) (w : World D H Db)
      → IsSteady t w
      → IsSteady t (flush_callback e decimal hash format w)
  unfolding flush_callback flush_step day_boundary evaluate_step evaluate
  flush_callback-IsSteady t w (same, fits) = elim (Bool-cases (str_eq w.moment.today w.last_day)) [
    | inl today ↦ rw today (
      evaluate_all-thresholds e format w.moment.clocks w.alert_evaluator (snapshot w.registry)
            (flush_1m e w.aggregator w.database).1
          ∙ same,
      fits,
    )
    | inr other ↦ rw other (
      evaluate_all-thresholds e format w.moment.clocks w.alert_evaluator (snapshot w.registry)
            (finalize_daily e w.moment.day_start w.last_day (flush_1m e w.aggregator w.database).1)
          ∙ same,
      fits,
    )
  ]

  collectors-Keep :
      (t : Thresholds D) (checkpoint : Db → Db) (cfg : Config D)
      (cs : List (Collector (World D H Db)))
      → cs ≡ collectors e decimal hash format checkpoint cfg
      → Keep (IsSteady t) cs
  unfolding collectors add_collector pdh_callback battery_callback thermal_callback process_callback
      maintenance_callback
  collectors-Keep t checkpoint cfg cs same_list = rw same_list (
    (λ w h. h),
    ((λ w h. h), ((λ w h. h), ((λ w h. h), (flush_callback-IsSteady t, ((λ w h. h), tt))))),
  )

module _ {ℓ} {D : Type ℓ} ⦃d : Double D⦄ where
  pointed-WithinLimits :
      (old : Config D) (o : Option (Config D))
      → WithinLimits old
      → Kept WithinLimits o
      → WithinLimits (pointed old o)
  pointed-WithinLimits old none fits k = fits
  pointed-WithinLimits old (some cfg) fits k = k

module _ {ℓ} {D : Type ℓ} {H : Type 0} {T : Type ℓ} where
  -- One of the requests left this of a write that failed.
  abbrev pub CutOff : List (Happening D H T) → T → Type ℓ
  CutOff [] left = Lift ⊥
  CutOff (Happening.ticked m ∷ hs) left = CutOff hs left
  CutOff (Happening.posted r ∷ hs) left = (r.write ≡ Write.cut_off left) ⊎ CutOff hs left

  CutOff-later :
      (h : Happening D H T) (hs : List (Happening D H T)) (left : T)
      → CutOff hs left
      → CutOff (h ∷ hs) left
  CutOff-later (Happening.ticked m) hs left k = k
  CutOff-later (Happening.posted r) hs left k = inr k

  CutOff-now :
      (h : Happening D H T) (hs : List (Happening D H T)) (left : T)
      → CutOff (h ∷ []) left
      → CutOff (h ∷ hs) left
  CutOff-now (Happening.ticked m) hs left k = absurd k.lower
  CutOff-now (Happening.posted r) hs left (inl k) = inl k
  CutOff-now (Happening.posted r) hs left (inr k) = absurd k.lower

module _ {ℓ} {D T : Type ℓ} ⦃d : Double D⦄ (dump : Dict (Value D) → T) where
  -- A file is another one, or what saving a configuration within the ranges writes, or what a write left that failed.
  abbrev pub SavedOr : (Left : T → Type ℓ) → Option T → Option T → Type ℓ
  SavedOr Left old new =
      (new ≡ old)
      ⊎ (((c : Config D) × WithinLimits c × (new ≡ some (dump (to_json c))))
          ⊎ ((left : T) × Left left × (new ≡ some left)))

  SavedOr-trans :
      (Left : T → Type ℓ) (a b c : Option T)
      → SavedOr Left a b
      → SavedOr Left b c
      → SavedOr Left a c
  SavedOr-trans Left a b c h (inl same) = rw same h
  SavedOr-trans Left a b c h (inr saved) = inr saved

  save_config-SavedOr :
      (Left : T → Type ℓ) (write : Write T) (cfg : Config D) (file : Option T)
      → WithinLimits cfg
      → ((left : T) → write ≡ Write.cut_off left → Left left)
      → SavedOr Left file (save_config dump write cfg file)
  unfolding save_config
  save_config-SavedOr Left Write.not_opened cfg file fits cut = inl refl
  save_config-SavedOr Left Write.complete cfg file fits cut = inr (inl (cfg, fits, refl))
  save_config-SavedOr Left (Write.cut_off left) cfg file fits cut =
      inr (inr (left, cut left refl, refl))

  save_settings-SavedOr :
      (Left : T → Type ℓ) (write : Write T) (cfg : Config D) (s : Settings D T)
      → WithinLimits cfg
      → ((left : T) → write ≡ Write.cut_off left → Left left)
      → SavedOr Left s.file (save_settings dump write cfg s).file
  unfolding save_settings
  save_settings-SavedOr Left write cfg s fits cut =
      elim (Bool-cases (is_empty_text s.config_path)) [
        | inl nowhere ↦ rw nowhere (inl refl)
        | inr somewhere ↦ rw somewhere (save_config-SavedOr Left write cfg s.file fits cut)
      ]

  module _ (truncate : D → ℤ) (contains : String → String → Bool) where
    change_settings-Kept :
        (Left : T → Type ℓ) (write : Write T) (body : Dict (Value D)) (cfg : Config D)
        (s : Settings D T)
        → WithinLimits cfg
        → ((left : T) → write ≡ Write.cut_off left → Left left)
        → let s' = (change_settings dump truncate write body cfg s).1 in
          Kept WithinLimits s'.config_ptr × SavedOr Left s.file s'.file
    unfolding change_settings
    change_settings-Kept Left write body cfg s fits cut =
        let after = (change_all (changes truncate body) cfg).1 in
        let ok = change_all-WithinLimits truncate body cfg fits in
        elim (Bool-cases (change_all (changes truncate body) cfg).0) [
          | inl all_made ↦ rw all_made (ok, save_settings-SavedOr Left write after s ok cut)
          | inr threw ↦ rw threw (ok, inl refl)
        ]

    config_route-Kept :
        (Left : T → Type ℓ) (write : Write T) (origin : String) (body : Option (Dict (Value D)))
        (s : Settings D T)
        → Kept WithinLimits s.config_ptr
        → ((left : T) → write ≡ Write.cut_off left → Left left)
        → let s' = (config_route dump truncate contains write origin body s).1 in
          Kept WithinLimits s'.config_ptr × SavedOr Left s.file s'.file
    unfolding config_route
    config_route-Kept Left write origin body s fits cut =
        let moved : (cfg : Config D) → s.config_ptr ≡ some cfg → WithinLimits cfg =
          λ cfg there. subst (λ (o : Option (Config D)). Kept WithinLimits o) there fits in
        elim (Bool-cases (foreign_origin contains origin)) [
          | inl foreign ↦ rw foreign (fits, inl refl)
          | inr near ↦ elim (Option-cases s.config_ptr) [
            | inl absent ↦ rw (near, config_route, absent) (fits, inl refl)
            | inr (cfg, there) ↦ elim (Option-cases body) [
              | inl unreadable ↦ rw (near, config_route, there, unreadable) (fits, inl refl)
              | inr (j, parsed) ↦
                  rw (near, config_route, there, parsed)
                    (change_settings-Kept Left write j cfg s (moved cfg there) cut)
            ]
          ]
        ]

module _ {ℓ} {D : Type ℓ} ⦃d : Double D⦄ {H : Type 0} {Db T : Type ℓ} (e : Sqlite D Db)
    (decimal : ℕ → String) (hash : String → D) (format : String → D → String)
    (dump : Dict (Value D) → T) (truncate : D → ℤ) (contains : String → String → Bool) where
  record IsPreserved (Left : T → Type ℓ) (t : Thresholds D) (file : Option T) (p : Program D H Db T)
      : Type ℓ where
    keeps : Keep (IsSteady e decimal hash format t) p.sampler
    steady : IsSteady e decimal hash format t p.world
    saved : SavedOr dump Left file p.file

  happen-IsPreserved :
      (Left : T → Type ℓ) (t : Thresholds D) (file : Option T) (h : Happening D H T)
      (p : Program D H Db T)
      → ((left : T) → CutOff (h ∷ []) left → Left left)
      → IsPreserved Left t file p
      → IsPreserved Left t file (happen e decimal hash format dump truncate contains h p)
  unfolding happen run_ticks Sampler.tick post_config settings_of set_config with_settings
  happen-IsPreserved Left t file (Happening.ticked m) p cut k =
      let now : World D H Db = record p.world { moment = m } in
      let ticked =
        tick_collectors-Keep (IsSteady e decimal hash format t) p.sampler now k.keeps k.steady in
      record { keeps = ticked.0; steady = ticked.1; saved = k.saved }
  happen-IsPreserved Left t file (Happening.posted r) p cut k =
      let kept =
        config_route-Kept dump truncate contains Left r.write r.origin r.body (settings_of p)
          k.steady.1 (λ left same. cut left (inl same)) in
      let s = (config_route dump truncate contains r.write r.origin r.body (settings_of p)).1 in
      record {
        keeps = k.keeps;
        steady =
            (k.steady.0, pointed-WithinLimits p.world.runtime_cfg s.config_ptr k.steady.1 kept.0);
        saved = SavedOr-trans dump Left file p.file s.file k.saved kept.1;
      }

  happen_all-IsPreserved :
      (Left : T → Type ℓ) (t : Thresholds D) (file : Option T) (hs : List (Happening D H T))
      (p : Program D H Db T)
      → ((left : T) → CutOff hs left → Left left)
      → IsPreserved Left t file p
      → IsPreserved Left t file (happen_all e decimal hash format dump truncate contains hs p)
  unfolding happen_all
  happen_all-IsPreserved Left t file [] p cut k = k
  happen_all-IsPreserved Left t file (h ∷ hs) p cut k =
      happen_all-IsPreserved Left t file hs
        (happen e decimal hash format dump truncate contains h p)
        (λ left later. cut left (CutOff-later h hs left later))
        (happen-IsPreserved Left t file h p (λ left now. cut left (CutOff-now h hs left now)) k)

  -- Whatever ticks and configuration requests follow the start of the program with a configuration whose settings
  -- are in their ranges, the settings stay in their ranges and the file of the configuration holds what it held
  -- before, what saving settings in their ranges writes, or what one of the requests left of a write that failed; the alert evaluator keeps the thresholds of the start,
  -- which no request changes.
  pub happen_all-thresholds :
      (checkpoint : Db → Db) (cfg : Config D) (cores : ℕ) (counters : Option (Counters H))
      (start : ComStart) (opened : Bool) (start_ts : ℤ) (first : Moment D H) (db : Db)
      (config_path : String) (file : Option T) (hs : List (Happening D H T))
      → WithinLimits cfg
      → let started : Program D H Db T = record {
        sampler = collectors e decimal hash format checkpoint cfg;
        world =
            start_application e decimal hash format cfg cores counters start opened start_ts first
              db;
        config_path = config_path;
        file = file;
      } in
        let p = happen_all e decimal hash format dump truncate contains hs started in
        (p.world.alert_evaluator.thresholds ≡ thresholds_of cfg)
        × WithinLimits p.world.runtime_cfg
        × SavedOr dump (CutOff hs) file p.file
  unfolding start_application
  happen_all-thresholds checkpoint cfg cores counters start opened start_ts first db config_path
        file hs fits =
      let started : Program D H Db T = record {
        sampler = collectors e decimal hash format checkpoint cfg;
        world =
            start_application e decimal hash format cfg cores counters start opened start_ts first
              db;
        config_path = config_path;
        file = file;
      } in
      let kept =
        happen_all-IsPreserved (CutOff hs) (thresholds_of cfg) file hs started (λ left h. h)
          (record {
            keeps = collectors-Keep e decimal hash format (thresholds_of cfg) checkpoint cfg _ refl;
            steady = (refl, fits);
            saved = inl refl;
          }) in
      (kept.steady.0, kept.steady.1, kept.saved)

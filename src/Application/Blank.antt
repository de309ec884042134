-- ===== src/Application/Blank.antt =====
-- src/apps/pulseport-service/main.cpp: the database operations of the callbacks, on a table metric_1m without rows.
-- The statement adds rows to metric_1m.
use pulseport.Storage.Tables.{run}
use pulseport.Application.{write_infos}
use pulseport.Aggregator.{finalize_daily}
use pulseport.Alerts.{
  AlertEvaluator, check_threshold, evaluate_all, evaluate_sample, judge, state_of,
}
use pulseport.Storage.Writer.{write_energy_daily, write_event, write_metric_info}
use pulseport.Storage.Tables.{Rollup, Stmt, Tables, without}
use pulseport.Storage.Reader.{
  RetentionConfig, audit_cleanup, cleanup_expired, purge, purge_all, purge_if,
}
use pulseport.Storage.Engine.{IsSqlite, Outcome, Sqlite}
use pulseport.Prelude.{
  Bool, Bool-cases, List, Option, Option-cases, String, [], arith, false, if◌then◌else◌, inl, inr,
  ltb, not, refl, str_eq, true, ℕ, ◌&&◌, ◌==◌, ◌∷◌, ◌≡◌, ◌≢◌, ◌⊎◌,
}
use pulseport.Prelude.Int.{leb_ℤ, pos, ℤ, ◌*ℤ◌}
use pulseport.Prelude.Double.{Double}
use pulseport.Types.{MetricInfo, MetricSample, Quality, rank}

abbrev pub is_recording {ℓ} : {D : Type ℓ} → Stmt D → Bool
is_recording (Stmt.replace_rollup Rollup.metric_1m r) = true
is_recording _ = false

Outcome-cases : (o : Outcome) → (o ≡ Outcome.done) ⊎ (o ≢ Outcome.done)
Outcome-cases Outcome.done = inl refl
Outcome-cases Outcome.failed = inr (λ h. cc)
Outcome-cases Outcome.unprepared = inr (λ h. cc)

one_minute-run {ℓ} :
    {D : Type ℓ} (text_lt : String → String → Bool) (s : Stmt D) (t : Tables D)
    → is_recording s ≡ false
    → t.one_minute ≡ []
    → (run text_lt s t).one_minute ≡ []
unfolding run without
one_minute-run lt Stmt.begin_transaction t n h = h
one_minute-run lt Stmt.commit t n h = h
one_minute-run lt (Stmt.replace_current r) t n h = h
one_minute-run lt (Stmt.replace_rollup Rollup.metric_1m r) t n h = ground arith
one_minute-run lt (Stmt.replace_rollup Rollup.metric_15m r) t n h = h
one_minute-run lt (Stmt.replace_energy r) t n h = h
one_minute-run lt (Stmt.insert_event ts s c ti p) t n h = h
one_minute-run lt (Stmt.replace_info i) t n h = h
one_minute-run lt (Stmt.delete_rollup_range Rollup.metric_1m a b) t n h = rw h refl
one_minute-run lt (Stmt.delete_rollup_range Rollup.metric_15m a b) t n h = h
one_minute-run lt (Stmt.delete_events_range a b) t n h = h
one_minute-run lt (Stmt.delete_rollup_before Rollup.metric_1m c) t n h = rw h refl
one_minute-run lt (Stmt.delete_rollup_before Rollup.metric_15m c) t n h = h
one_minute-run lt (Stmt.delete_events_before c) t n h = h
one_minute-run lt (Stmt.delete_days_before d) t n h = h
one_minute-run lt (Stmt.delete_rollup_all Rollup.metric_1m) t n h = refl
one_minute-run lt (Stmt.delete_rollup_all Rollup.metric_15m) t n h = h
one_minute-run lt Stmt.delete_current_all t n h = h
one_minute-run lt Stmt.delete_energy_all t n h = h
one_minute-run lt Stmt.delete_events_all t n h = h
one_minute-run lt (Stmt.insert_audit a) t n h = h

module _ {ℓ} {D : Type ℓ} ⦃d : Double D⦄ {Db : Type ℓ} (e : Sqlite D Db) (q : IsSqlite e) where
  open q use {contents, saved, exec_done, exec_failed, exec_saved}

  -- The table metric_1m has no rows, nor had it any when the open transaction began.
  abbrev pub IsBlank : Db → Type ℓ
  IsBlank db = ((contents db).one_minute ≡ []) × ((saved db).one_minute ≡ [])

  exec-contents :
      (s : Stmt D) (db : Db)
      → is_recording s ≡ false
      → IsBlank db
      → (contents (e.exec s db).1).one_minute ≡ []
  exec-contents s db n h = elim (Outcome-cases (e.exec s db).0) [
    | inl done ↦ rw (exec_done s db done) (one_minute-run e.text_lt s (contents db) n h.0)
    | inr failed ↦ elim (exec_failed s db failed) [
      | inl undone ↦ rw undone h.0
      | inr rolled_back ↦ rw rolled_back h.1
    ]
  ]

  pub exec-IsBlank :
      (s : Stmt D) (db : Db) → is_recording s ≡ false → IsBlank db → IsBlank (e.exec s db).1
  exec-IsBlank s db n h =
      let now = exec-contents s db n h in
      (
        now,
        elim (exec_saved s db) [
          | inl same ↦ rw same h.1
          | inr (inl begun) ↦ rw begun h.0
          | inr (inr ended) ↦ rw ended now
        ],
      )

  pub purge_if-IsBlank :
      (days : ℤ) (s : Stmt D) (acc : ℕ × Db)
      → is_recording s ≡ false
      → IsBlank acc.1
      → IsBlank (purge_if e days s acc).1
  unfolding purge_if purge
  purge_if-IsBlank days s acc n h = elim (Bool-cases (leb_ℤ days (pos 0))) [
    | inl off ↦ rw off h
    | inr on ↦ rw on (exec-IsBlank s acc.1 n h)
  ]

  pub cleanup_expired-IsBlank :
      (local_day : ℤ → String) (now : ℤ) (rc : RetentionConfig) (db : Db)
      → IsBlank db
      → IsBlank (cleanup_expired e local_day now rc db).1
  unfolding cleanup_expired purge_all audit_cleanup
  cleanup_expired-IsBlank local_day now rc db h =
      let h0 = exec-IsBlank Stmt.begin_transaction db refl h in
      let h1 =
        purge_if-IsBlank rc.retention_1m_days _ (0, (e.exec Stmt.begin_transaction db).1) refl h0 in
      let h2 = purge_if-IsBlank rc.retention_15m_days _ _ refl h1 in
      let h3 = purge_if-IsBlank rc.retention_events_days _ _ refl h2 in
      let h4 = purge_if-IsBlank rc.retention_daily_days _ _ refl h3 in
      let s = purge_all e local_day now rc (0, (e.exec Stmt.begin_transaction db).1) in
      exec-IsBlank Stmt.commit (audit_cleanup e s) refl (elim (Bool-cases (ltb 0 s.0)) [
        | inl some_deleted ↦ rw some_deleted (exec-IsBlank _ s.1 refl h4)
        | inr none_deleted ↦ rw none_deleted h4
      ])

  pub finalize_daily-IsBlank :
      (day_start : String → Option ℤ) (day : String) (db : Db)
      → IsBlank db
      → IsBlank (finalize_daily e day_start day db)
  unfolding finalize_daily write_energy_daily
  finalize_daily-IsBlank day_start day db h = elim (Option-cases (day_start day)) [
    | inl bad ↦ rw (bad, finalize_daily) h
    | inr (t, good) ↦ rw (good, finalize_daily) (exec-IsBlank _ db refl h)
  ]

  pub check_threshold-IsBlank :
      (format : String → D → String) (now : ℤ) (a : AlertEvaluator D) (key : String)
      (value threshold : D) (above : Bool) (sustained : ℤ) (category title : String) (db : Db)
      → IsBlank db
      → IsBlank
          (check_threshold e format now a key value threshold above sustained category title db).1
  unfolding check_threshold write_event
  check_threshold-IsBlank format now a key value threshold above sustained category title db h =
      let violated = if above then d.le threshold value else d.le value threshold in
      let after =
        judge (a.thresholds.cooldown_minutes *ℤ pos 60) sustained now violated (state_of a key) in
      elim (Bool-cases after.1) [
        | inl alert ↦ rw alert (exec-IsBlank _ db refl h)
        | inr quiet ↦ rw quiet h
      ]

  pub if-IsBlank :
      (b : Bool) (x y : AlertEvaluator D × Db)
      → IsBlank x.1
      → IsBlank y.1
      → IsBlank (if b then x else y).1
  if-IsBlank true x y hx hy = hx
  if-IsBlank false x y hx hy = hy

  pub evaluate_sample-IsBlank :
      (format : String → D → String) (clock : String → ℤ) (a : AlertEvaluator D)
      (s : MetricSample D) (db : Db)
      → IsBlank db
      → IsBlank (evaluate_sample e format clock a s db).1
  unfolding evaluate_sample
  evaluate_sample-IsBlank format clock a s db h =
      let t = a.thresholds in
      let cpu =
        check_threshold-IsBlank format (clock s.key) a s.key s.value t.cpu_high_pct true
          t.cpu_sustained_min "cpu_high" "CPU usage sustained at {:.0f}%" db h in
      let mem =
        check_threshold-IsBlank format (clock s.key) a s.key s.value t.mem_high_pct true
          t.mem_sustained_min "mem_high" "Memory usage sustained at {:.0f}%" db h in
      let battery =
        check_threshold-IsBlank format (clock s.key) a s.key s.value t.battery_low_pct false (pos 1)
          "battery_low" "Battery level critically low at {:.0f}%" db h in
      let power =
        check_threshold-IsBlank format (clock s.key) a s.key s.value t.power_high_w true
          t.cpu_sustained_min "power_high" "Power draw elevated at {:.1f} W" db h in
      if-IsBlank (str_eq s.key "cpu.total_pct") _ _ cpu (
        if-IsBlank (str_eq s.key "mem.used_pct") _ _ mem (
          if-IsBlank (str_eq s.key "battery.level_pct") _ _ battery (
            if-IsBlank
              (str_eq s.key "power.current_w" && not (rank s.quality == rank Quality.unknown)) _ _
              power h)))

  pub evaluate_all-IsBlank :
      (format : String → D → String) (clock : String → ℤ) (a : AlertEvaluator D)
      (snap : List (MetricSample D)) (db : Db)
      → IsBlank db
      → IsBlank (evaluate_all e format clock a snap db).1
  unfolding evaluate_all
  evaluate_all-IsBlank format clock a [] db h = h
  evaluate_all-IsBlank format clock a (s ∷ snap) db h =
      let one = evaluate_sample e format clock a s db in
      evaluate_all-IsBlank format clock one.0 snap one.1
        (evaluate_sample-IsBlank format clock a s db h)

  pub write_infos-IsBlank :
      (infos : List MetricInfo) (db : Db) → IsBlank db → IsBlank (write_infos e infos db)
  unfolding write_infos write_metric_info
  write_infos-IsBlank [] db h = h
  write_infos-IsBlank (info ∷ infos) db h =
      write_infos-IsBlank infos (write_metric_info e info db) (exec-IsBlank _ db refl h)

-- ===== src/Storage/Retention.antt =====
-- What `cleanup_expired` leaves in the database and what it reports.
use pulseport.Storage.Tables.{
  Rollup, HistoryRow, EnergyRow, EventRow, Stmt, run, affected, is_delete, without, count_of,
  rollup, with_rollup, Tables, AuditRow,
}
use pulseport.Storage.Engine.{Sqlite, IsSqlite, IsHealthy}
use pulseport.Storage.Reader.{
  purge_if, RetentionConfig, cutoff_of, purge_all, audit_cleanup, cleanup_expired,
}
use pulseport.Prelude.{
  Bool, Bool-cases, List, String, [], arith, if◌then◌else◌, inl, inr, length, ltb, none, refl, sym,
  true, ℕ, ◌++◌, ◌+◌, ◌∙◌, ◌∷◌, ◌≡◌,
}
use pulseport.Prelude.Int.{leb_ℤ, ltb_ℤ, pos, ℤ}
use pulseport.Prelude.Double.{Double}

pub count_of-without {ℓ} :
    {A : Type ℓ} (p : A → Bool) (xs : List A) → count_of p xs + length (without p xs) ≡ length xs
unfolding count_of without
count_of-without p [] = omega arith
count_of-without p (x ∷ xs) = ground (arith, count_of-without p xs)

-- The rows that a limit of `days` lets stay: all of them if it is not positive.
abbrev pub unexpired {ℓ} : {A : Type ℓ} → ℤ → (A → Bool) → List A → List A
unexpired days p xs = if leb_ℤ days (pos 0) then xs else without p xs

pub with_rollup-rollup {ℓ} :
    {D : Type ℓ} (which : Rollup) (t : Tables D) → with_rollup which (rollup which t) t ≡ t
with_rollup-rollup Rollup.metric_1m t = refl
with_rollup-rollup Rollup.metric_15m t = refl

module _ {ℓ} {D Db : Type ℓ} ⦃d : Double D⦄ (e : Sqlite D Db) (q : IsSqlite e)
    (h : IsHealthy e) where
  open q use {contents, exec_done, changes_done}
  open h use {exec_succeeds}

  pub exec_lem : (s : Stmt D) (db : Db) → contents (e.exec s db).1 ≡ run e.text_lt s (contents db)
  exec_lem s db = exec_done s db (exec_succeeds s db)

  pub changes_lem :
      (s : Stmt D) (db : Db)
      → is_delete s ≡ true
      → e.changes (e.exec s db).1 ≡ affected e.text_lt s (contents db)
  changes_lem s db del = changes_done s db del (exec_succeeds s db)

  -- The tables after `purge_if`, and the total.
  contents-purge_if :
      (days : ℤ) (s : Stmt D) (acc : ℕ × Db)
      → contents (purge_if e days s acc).1
        ≡ (if leb_ℤ days (pos 0) then contents acc.1 else run e.text_lt s (contents acc.1))
  unfolding purge_if
  contents-purge_if days s acc = elim (Bool-cases (leb_ℤ days (pos 0))) [
    | inl off ↦ rw off
    | inr on ↦ rw on (exec_lem s acc.1)
  ]

  total-purge_if :
      (days : ℤ) (s : Stmt D) (acc : ℕ × Db)
      → is_delete s ≡ true
      → (purge_if e days s acc).0
        ≡ acc.0 + (if leb_ℤ days (pos 0) then 0 else affected e.text_lt s (contents acc.1))
  unfolding purge_if
  total-purge_if days s (total, db) del = elim (Bool-cases (leb_ℤ days (pos 0))) [
    | inl off ↦ rw off (omega arith)
    | inr on ↦ rw (on, exec_succeeds s db, changes_lem s db del)
  ]

  -- One stage: the table it purges, and its share of the total.
  contents-purge_rollup :
      (which : Rollup) (days cutoff : ℤ) (acc : ℕ × Db)
      → let after = purge_if e days (Stmt.delete_rollup_before which cutoff) acc in
        let old = λ (r : HistoryRow D). ltb_ℤ r.bucket_ts cutoff in
        let t = contents acc.1 in
        (contents after.1 ≡ with_rollup which (unexpired days old (rollup which t)) t)
        × (after.0 + length (unexpired days old (rollup which t)) ≡ acc.0 + length (rollup which t))
  unfolding run affected
  contents-purge_rollup which days cutoff acc =
      let s : Stmt D = Stmt.delete_rollup_before which cutoff in
      let now = contents-purge_if days s acc in
      let total = total-purge_if days s acc refl in
      let rows =
        count_of-without (λ (r : HistoryRow D). ltb_ℤ r.bucket_ts cutoff)
          (rollup which (contents acc.1)) in
      elim (Bool-cases (leb_ℤ days (pos 0))) [
        | inl off ↦ rw off (
          rw off at now ∙ sym (with_rollup-rollup which (contents acc.1)),
          omega (arith, rw off at total),
        )
        | inr on ↦ rw on (rw on at now, omega (arith, rw on at total, rows))
      ]

  contents-purge_events :
      (days cutoff : ℤ) (acc : ℕ × Db)
      → let after = purge_if e days (Stmt.delete_events_before cutoff) acc in
        let old = λ (r : EventRow). ltb_ℤ r.event_ts cutoff in
        let t = contents acc.1 in
        (contents after.1 ≡ record t { events = unexpired days old t.events })
        × (after.0 + length (unexpired days old t.events) ≡ acc.0 + length t.events)
  unfolding run affected
  contents-purge_events days cutoff acc =
      let s : Stmt D = Stmt.delete_events_before cutoff in
      let now = contents-purge_if days s acc in
      let total = total-purge_if days s acc refl in
      let rows =
        count_of-without (λ (r : EventRow). ltb_ℤ r.event_ts cutoff) (contents acc.1).events in
      elim (Bool-cases (leb_ℤ days (pos 0))) [
        | inl off ↦ rw off (rw off at now, omega (arith, rw off at total))
        | inr on ↦ rw on (rw on at now, omega (arith, rw on at total, rows))
      ]

  contents-purge_days :
      (days : ℤ) (day : String) (acc : ℕ × Db)
      → let after = purge_if e days (Stmt.delete_days_before day) acc in
        let old = λ (r : EnergyRow D). e.text_lt r.day_local day in
        let t = contents acc.1 in
        (contents after.1 ≡ record t { energy = unexpired days old t.energy })
        × (after.0 + length (unexpired days old t.energy) ≡ acc.0 + length t.energy)
  unfolding run affected
  contents-purge_days days day acc =
      let s : Stmt D = Stmt.delete_days_before day in
      let now = contents-purge_if days s acc in
      let total = total-purge_if days s acc refl in
      let rows =
        count_of-without (λ (r : EnergyRow D). e.text_lt r.day_local day) (contents acc.1).energy in
      elim (Bool-cases (leb_ℤ days (pos 0))) [
        | inl off ↦ rw off (rw off at now, omega (arith, rw off at total))
        | inr on ↦ rw on (rw on at now, omega (arith, rw on at total, rows))
      ]

  -- What is left of the tables by the four purges, but for the audit.
  abbrev pub cleaned : (ℤ → String) → ℤ → RetentionConfig → Tables D → Tables D
  cleaned local_day now rc t =
      let old = λ (days : ℤ) (r : HistoryRow D). ltb_ℤ r.bucket_ts (cutoff_of now days) in
      record t {
        one_minute = unexpired rc.retention_1m_days (old rc.retention_1m_days) t.one_minute;
        fifteen_minutes =
            unexpired rc.retention_15m_days (old rc.retention_15m_days) t.fifteen_minutes;
        events =
            unexpired rc.retention_events_days
              (λ (r : EventRow). ltb_ℤ r.event_ts (cutoff_of now rc.retention_events_days))
              t.events;
        energy =
            unexpired rc.retention_daily_days
              (λ (r : EnergyRow D).
                e.text_lt r.day_local (local_day (cutoff_of now rc.retention_daily_days)))
              t.energy;
      }

  -- The rows of the tables that have a retention limit.
  abbrev pub limited_rows : Tables D → ℕ
  limited_rows t =
      length t.one_minute + length t.fifteen_minutes + length t.events + length t.energy

  contents-purge_all :
      (local_day : ℤ → String) (now : ℤ) (rc : RetentionConfig) (acc : ℕ × Db)
      → let after = purge_all e local_day now rc acc in
        let t = contents acc.1 in
        (contents after.1 ≡ cleaned local_day now rc t)
        × (after.0 + limited_rows (cleaned local_day now rc t) ≡ acc.0 + limited_rows t)
  unfolding purge_all
  contents-purge_all local_day now rc s0 =
      let c1 = cutoff_of now rc.retention_1m_days in
      let c2 = cutoff_of now rc.retention_15m_days in
      let c3 = cutoff_of now rc.retention_events_days in
      let day = local_day (cutoff_of now rc.retention_daily_days) in
      let d1 : Stmt D = Stmt.delete_rollup_before Rollup.metric_1m c1 in
      let d2 : Stmt D = Stmt.delete_rollup_before Rollup.metric_15m c2 in
      let d3 : Stmt D = Stmt.delete_events_before c3 in
      let s1 = purge_if e rc.retention_1m_days d1 s0 in
      let s2 = purge_if e rc.retention_15m_days d2 s1 in
      let s3 = purge_if e rc.retention_events_days d3 s2 in
      let p1 = contents-purge_rollup Rollup.metric_1m rc.retention_1m_days c1 s0 in
      let p2 = contents-purge_rollup Rollup.metric_15m rc.retention_15m_days c2 s1 in
      let p3 = contents-purge_events rc.retention_events_days c3 s2 in
      let p4 = contents-purge_days rc.retention_daily_days day s3 in
      let q2 = rw p1.0 at p2 in
      let q3 = rw q2.0 at p3 in
      let q4 = rw q3.0 at p4 in (q4.0, omega (arith, p1.1, q2.1, q3.1, q4.1))

  contents-audit_cleanup :
      (acc : ℕ × Db)
      → let note : AuditRow = record {
        scope = "retention_cleanup";
        range = none;
        deleted = acc.0;
      } in
        let t = contents acc.1 in
        contents (audit_cleanup e acc)
        ≡ record t { audit = if ltb 0 acc.0 then t.audit ++ (note ∷ []) else t.audit }
  unfolding audit_cleanup run
  contents-audit_cleanup (total, db) = elim (Bool-cases (ltb 0 total)) [
    | inl some_rows ↦ rw some_rows (exec_lem _ db)
    | inr no_rows ↦ rw no_rows
  ]

  -- If every statement succeeds, `cleanup_expired` drops exactly the rows older than the cutoff of their table
  -- from the two rollup tables, the events and the daily energy, and none from a table whose limit is not
  -- positive; the result is the number of rows dropped. Nothing else changes, but for one audit row that
  -- reports that number if it is not 0.
  pub contents-cleanup_expired :
      (local_day : ℤ → String) (now : ℤ) (rc : RetentionConfig) (db : Db)
      → let t = contents db in
        let (total, db') = cleanup_expired e local_day now rc db in
        let note : AuditRow = record {
          scope = "retention_cleanup";
          range = none;
          deleted = total;
        } in
        (contents db' ≡ record (cleaned local_day now rc t) {
          audit = if ltb 0 total then t.audit ++ (note ∷ []) else t.audit;
        })
        × (total + limited_rows (cleaned local_day now rc t) ≡ limited_rows t)
  unfolding cleanup_expired run
  contents-cleanup_expired local_day now rc db =
      let begun = exec_lem Stmt.begin_transaction db in
      let s = purge_all e local_day now rc (0, (e.exec Stmt.begin_transaction db).1) in
      let purged =
        rw begun at
          (contents-purge_all local_day now rc (0, (e.exec Stmt.begin_transaction db).1)) in
      let audited = rw purged.0 at (contents-audit_cleanup s) in
      (exec_lem Stmt.commit (audit_cleanup e s) ∙ audited, omega (arith, purged.1))

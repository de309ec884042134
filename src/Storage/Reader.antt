-- ===== src/Storage/Reader.antt =====
-- `StorageReader` of src/storage/reader.cpp. The local date of a time stamp, which the C library computes from
-- the time zone, and the current time are arguments.
use pulseport.Prelude.{
  List, Option, String, [], if◌then◌else◌, ltb, map, none, some, str_eq, ℕ, ◌+◌, ◌∷◌,
}
use pulseport.Prelude.Int.{leb_ℤ, pos, ℤ, ◌*ℤ◌, ◌-ℤ◌}
use pulseport.Types.{MetricAggregate, quality_from_string}
use pulseport.Storage.Tables.{Rollup, HistoryRow, EnergyRow, EventRow, AuditRow, Stmt}
use pulseport.Storage.Engine.{Sqlite, Outcome}

-- The whitelists of table names.
unfoldable pub history_table : String → Option Rollup
history_table table =
    if str_eq table "metric_1m"
    then some Rollup.metric_1m
    else if str_eq table "metric_15m"
    then some Rollup.metric_15m
    else none

pub data Erasable : Type 0 where
  of_rollup : Rollup → Erasable
  of_events : Erasable

unfoldable pub deletion_table : String → Option Erasable
unfolding history_table
deletion_table table = elim (history_table table) [
  | some which ↦ some (Erasable.of_rollup which)
  | none ↦ if str_eq table "events" then some Erasable.of_events else none
]

pub record RetentionConfig : Type 0 where
  pub retention_1m_days : ℤ
  pub retention_15m_days : ℤ
  pub retention_daily_days : ℤ
  pub retention_events_days : ℤ

-- `now - static_cast<int64_t>(days) * 86400`
unfoldable pub cutoff_of : ℤ → ℤ → ℤ
cutoff_of now days = now -ℤ days *ℤ pos 86400

module _ {ℓ} {D Db : Type ℓ} (e : Sqlite D Db) where
  -- The loop of query_history over the result rows.
  unfoldable pub aggregate_of : HistoryRow D → MetricAggregate D
  aggregate_of r = record {
    key = r.metric_key;
    bucket_ts = r.bucket_ts;
    min_value = e.column_double r.min_value;
    max_value = e.column_double r.max_value;
    avg_value = e.column_double r.avg_value;
    sample_count = r.sample_count;
    quality = quality_from_string r.quality;
  }

  unfoldable pub query_history : String → String → ℤ → ℤ → ℕ → Db → List (MetricAggregate D)
  unfolding aggregate_of
  query_history table metric_key start_ts end_ts limit db = elim (history_table table) [
    | none ↦ []
    | some which ↦ elim (e.select_history which metric_key start_ts end_ts limit db) [
      | none ↦ []
      | some rows ↦ map aggregate_of rows
    ]
  ]

  -- With no statement prepared the loop of the source ends at once.
  unfoldable pub query_energy_daily : String → String → Db → List (EnergyRow D)
  query_energy_daily start_day end_day db = elim (e.select_energy start_day end_day db) [
    | none ↦ []
    | some rows ↦ rows
  ]

  unfoldable pub query_events : ℤ → ℤ → String → ℕ → Db → List EventRow
  query_events start_ts end_ts category limit db =
      let filter = if str_eq category "" then none else some category in
      elim (e.select_events start_ts end_ts filter limit db) [ none ↦ [] | some rows ↦ rows ]

  unfoldable pub deletion_of : Erasable → ℤ → ℤ → Stmt D
  deletion_of (Erasable.of_rollup which) start_ts end_ts =
      Stmt.delete_rollup_range which start_ts end_ts
  deletion_of Erasable.of_events start_ts end_ts = Stmt.delete_events_range start_ts end_ts

  -- `none` is the result -1.
  unfoldable pub delete_history : String → ℤ → ℤ → Db → Option ℕ × Db
  unfolding deletion_of
  delete_history table start_ts end_ts db = elim (deletion_table table) [
    | none ↦ (none, db)
    | some which ↦
        let db1 = (e.exec (deletion_of which start_ts end_ts) db).1 in
        let deleted = e.changes db1 in
        let note : AuditRow = record {
          scope = table;
          range = some (start_ts, end_ts);
          deleted = deleted;
        } in
        (some deleted, (e.exec (Stmt.insert_audit note) db1).1)
  ]

  -- The loop over the table names: a DELETE for each, with the changes summed up.
  unfoldable pub delete_each : List (Stmt D) → ℕ → Db → ℕ × Db
  delete_each [] total db = (total, db)
  delete_each (s ∷ ss) total db =
      let db1 = (e.exec s db).1 in delete_each ss (total + e.changes db1) db1

  abbrev pub all_tables : List (Stmt D)
  all_tables =
      Stmt.delete_rollup_all Rollup.metric_1m
      ∷ Stmt.delete_rollup_all Rollup.metric_15m
      ∷ Stmt.delete_current_all
      ∷ Stmt.delete_energy_all
      ∷ Stmt.delete_events_all
      ∷ []

  unfoldable pub delete_all_history : Db → ℕ × Db
  unfolding delete_each
  delete_all_history db =
      let (total, db1) = delete_each all_tables 0 (e.exec Stmt.begin_transaction db).1 in
      let note : AuditRow = record { scope = "all_history"; range = none; deleted = total } in
      (total, (e.exec Stmt.commit (e.exec (Stmt.insert_audit note) db1).1).1)

  -- A DELETE of `purge_table`, and of the block for energy_daily, with the total so far. A statement that cannot
  -- be prepared, and one that deletes nothing, add nothing.
  unfoldable pub purge : Stmt D → ℕ × Db → ℕ × Db
  purge s (total, db) =
      let (outcome, db1) = e.exec s db in
      (elim outcome [ Outcome.unprepared ↦ total | _ ↦ total + e.changes db1 ], db1)

  -- `if (days <= 0) return;`
  unfoldable pub purge_if : ℤ → Stmt D → ℕ × Db → ℕ × Db
  unfolding purge
  purge_if days s acc = if leb_ℤ days (pos 0) then acc else purge s acc

  -- The four purges, in the order of the source.
  unfoldable pub purge_all : (ℤ → String) → ℤ → RetentionConfig → ℕ × Db → ℕ × Db
  purge_all local_day now rc s0 =
      let s1 =
        purge_if rc.retention_1m_days
          (Stmt.delete_rollup_before Rollup.metric_1m (cutoff_of now rc.retention_1m_days)) s0 in
      let s2 =
        purge_if rc.retention_15m_days
          (Stmt.delete_rollup_before Rollup.metric_15m (cutoff_of now rc.retention_15m_days)) s1 in
      let s3 =
        purge_if rc.retention_events_days
          (Stmt.delete_events_before (cutoff_of now rc.retention_events_days)) s2 in
      purge_if rc.retention_daily_days
        (Stmt.delete_days_before (local_day (cutoff_of now rc.retention_daily_days))) s3

  -- The audit row is written only if something was deleted.
  unfoldable pub audit_cleanup : ℕ × Db → Db
  audit_cleanup (total, db) =
      let note : AuditRow = record { scope = "retention_cleanup"; range = none; deleted = total } in
      if ltb 0 total then (e.exec (Stmt.insert_audit note) db).1 else db

  unfoldable pub cleanup_expired : (ℤ → String) → ℤ → RetentionConfig → Db → ℕ × Db
  unfolding purge_all purge_if audit_cleanup
  cleanup_expired local_day now rc db =
      let s = purge_all local_day now rc (0, (e.exec Stmt.begin_transaction db).1) in
      (s.0, (e.exec Stmt.commit (audit_cleanup s)).1)

-- ===== src/Storage/Tables.antt =====
-- The tables of db/migrations/001_initial.sql that the storage layer touches, and what each SQL statement
-- in src/storage/writer.cpp and src/storage/reader.cpp says to do with them. Columns that only SQLite fills
-- with its own clock are left out.
use pulseport.Prelude.{
  Bool, List, Option, String, [], false, if◌then◌else◌, length, str_eq, true, ℕ, ◌&&◌, ◌++◌, ◌+◌,
  ◌∷◌,
}
use pulseport.Prelude.Int.{eqb_ℤ, leb_ℤ, ltb_ℤ, ℤ}
use pulseport.Types.{MetricInfo}

-- The two rollup tables, which have the same columns.
pub data Rollup : Type 0 where
  metric_1m metric_15m : Rollup

pub record HistoryRow {ℓ} (D : Type ℓ) : Type ℓ where
  pub bucket_ts : ℤ
  pub metric_key : String
  pub min_value : D
  pub max_value : D
  pub avg_value : D
  pub sample_count : ℕ
  pub quality : String

pub record CurrentRow {ℓ} (D : Type ℓ) : Type ℓ where
  pub metric_key : String
  pub ts : ℤ
  pub value_real : D
  pub unit : String
  pub quality : String

pub record EnergyRow {ℓ} (D : Type ℓ) : Type ℓ where
  pub day_local : String
  pub energy_wh : D
  pub avg_power_w : D
  pub peak_power_w : D
  pub charge_wh : D
  pub discharge_wh : D
  pub active_seconds : ℕ
  pub quality : String
  pub finalized : Bool

pub record EventRow : Type 0 where
  pub id : ℕ
  pub event_ts : ℤ
  pub severity : String
  pub category : String
  pub title : String
  pub payload : Option String

-- `note` is kept as the number of rows that its text reports.
pub record AuditRow : Type 0 where
  pub scope : String
  pub range : Option (ℤ × ℤ)
  pub deleted : ℕ

pub record Tables {ℓ} (D : Type ℓ) : Type ℓ where
  pub one_minute : List (HistoryRow D)
  pub fifteen_minutes : List (HistoryRow D)
  pub current : List (CurrentRow D)
  pub energy : List (EnergyRow D)
  pub events : List EventRow
  pub next_event_id : ℕ
  pub registry : List MetricInfo
  pub audit : List AuditRow

-- The statements that change the database, with their bound values.
pub data Stmt {ℓ} (D : Type ℓ) : Type ℓ where
  begin_transaction commit : Stmt D
  replace_current : CurrentRow D → Stmt D
  replace_rollup : Rollup → HistoryRow D → Stmt D
  replace_energy : EnergyRow D → Stmt D
  insert_event : ℤ → String → String → String → Option String → Stmt D
  replace_info : MetricInfo → Stmt D
  delete_rollup_range : Rollup → ℤ → ℤ → Stmt D
  delete_events_range : ℤ → ℤ → Stmt D
  delete_rollup_before : Rollup → ℤ → Stmt D
  delete_events_before : ℤ → Stmt D
  delete_days_before : String → Stmt D
  delete_rollup_all : Rollup → Stmt D
  delete_current_all delete_energy_all delete_events_all : Stmt D
  insert_audit : AuditRow → Stmt D

-- The rows that a WHERE clause does not select, and how many it does.
module _ {ℓ} {A : Type ℓ} where
  unfoldable pub without : (A → Bool) → List A → List A
  without p [] = []
  without p (x ∷ xs) = if p x then without p xs else x ∷ without p xs

  unfoldable pub count_of : (A → Bool) → List A → ℕ
  count_of p [] = 0
  count_of p (x ∷ xs) = (if p x then 1 else 0) + count_of p xs

  -- INSERT OR REPLACE: rows with the new row's primary key give way to it.
  unfoldable pub replace_row : (A → A → Bool) → A → List A → List A
  unfolding without
  replace_row same row rows = without (same row) rows ++ (row ∷ [])

abbrev pub in_range : ℤ → ℤ → ℤ → Bool
in_range start end t = leb_ℤ start t && leb_ℤ t end

module _ {ℓ} {D : Type ℓ} where
  abbrev pub rollup : Rollup → Tables D → List (HistoryRow D)
  rollup Rollup.metric_1m t = t.one_minute
  rollup Rollup.metric_15m t = t.fifteen_minutes

  abbrev pub with_rollup : Rollup → List (HistoryRow D) → Tables D → Tables D
  with_rollup Rollup.metric_1m rows t = record t { one_minute = rows }
  with_rollup Rollup.metric_15m rows t = record t { fifteen_minutes = rows }

  -- PRIMARY KEY (bucket_ts, metric_key)
  abbrev pub same_bucket : HistoryRow D → HistoryRow D → Bool
  same_bucket a b = eqb_ℤ a.bucket_ts b.bucket_ts && str_eq a.metric_key b.metric_key

  -- What a statement does to the tables. `text_lt` is the collation.
  module _ (text_lt : String → String → Bool) where
    unfoldable pub run : Stmt D → Tables D → Tables D
    run (Stmt.replace_current r) t = record t {
      current = replace_row (λ (a b : CurrentRow D). str_eq a.metric_key b.metric_key) r t.current;
    }
    run (Stmt.replace_rollup which r) t =
        with_rollup which (replace_row same_bucket r (rollup which t)) t
    run (Stmt.replace_energy r) t = record t {
      energy = replace_row (λ (a b : EnergyRow D). str_eq a.day_local b.day_local) r t.energy;
    }
    run (Stmt.insert_event ts severity category title payload) t = record t {
      events =
          t.events
          ++ (record {
            id = t.next_event_id;
            event_ts = ts;
            severity = severity;
            category = category;
            title = title;
            payload = payload;
          }
              ∷ []);
      next_event_id = t.next_event_id + 1;
    }
    run (Stmt.replace_info i) t = record t {
      registry = replace_row (λ (a b : MetricInfo). str_eq a.key b.key) i t.registry;
    }
    run (Stmt.delete_rollup_range which start end) t =
        with_rollup which
          (without (λ (r : HistoryRow D). in_range start end r.bucket_ts) (rollup which t)) t
    run (Stmt.delete_events_range start end) t = record t {
      events = without (λ (e : EventRow). in_range start end e.event_ts) t.events;
    }
    run (Stmt.delete_rollup_before which cutoff) t =
        with_rollup which
          (without (λ (r : HistoryRow D). ltb_ℤ r.bucket_ts cutoff) (rollup which t)) t
    run (Stmt.delete_events_before cutoff) t = record t {
      events = without (λ (e : EventRow). ltb_ℤ e.event_ts cutoff) t.events;
    }
    run (Stmt.delete_days_before day) t = record t {
      energy = without (λ (r : EnergyRow D). text_lt r.day_local day) t.energy;
    }
    run (Stmt.delete_rollup_all which) t = with_rollup which [] t
    run Stmt.delete_current_all t = record t { current = [] }
    run Stmt.delete_energy_all t = record t { energy = [] }
    run Stmt.delete_events_all t = record t { events = [] }
    run (Stmt.insert_audit a) t = record t { audit = t.audit ++ (a ∷ []) }
    run _ t = t

    -- The rows that a DELETE removes.
    unfoldable pub affected : Stmt D → Tables D → ℕ
    affected (Stmt.delete_rollup_range which start end) t =
        count_of (λ (r : HistoryRow D). in_range start end r.bucket_ts) (rollup which t)
    affected (Stmt.delete_events_range start end) t =
        count_of (λ (e : EventRow). in_range start end e.event_ts) t.events
    affected (Stmt.delete_rollup_before which cutoff) t =
        count_of (λ (r : HistoryRow D). ltb_ℤ r.bucket_ts cutoff) (rollup which t)
    affected (Stmt.delete_events_before cutoff) t =
        count_of (λ (e : EventRow). ltb_ℤ e.event_ts cutoff) t.events
    affected (Stmt.delete_days_before day) t =
        count_of (λ (r : EnergyRow D). text_lt r.day_local day) t.energy
    affected (Stmt.delete_rollup_all which) t = length (rollup which t)
    affected Stmt.delete_current_all t = length t.current
    affected Stmt.delete_energy_all t = length t.energy
    affected Stmt.delete_events_all t = length t.events
    affected _ t = 0

-- The statements of which `sqlite3_changes` is asked.
abbrev pub is_delete {ℓ} : {D : Type ℓ} → Stmt D → Bool
is_delete (Stmt.delete_rollup_range _ _ _) = true
is_delete (Stmt.delete_events_range _ _) = true
is_delete (Stmt.delete_rollup_before _ _) = true
is_delete (Stmt.delete_events_before _) = true
is_delete (Stmt.delete_days_before _) = true
is_delete (Stmt.delete_rollup_all _) = true
is_delete Stmt.delete_current_all = true
is_delete Stmt.delete_energy_all = true
is_delete Stmt.delete_events_all = true
is_delete _ = false

-- ===== src/Storage/Engine.antt =====
-- SQLite, which the program links and does not contain: the operations that the storage layer calls, as an
-- interface over an abstract database, and what its documentation promises of them.
use mathlib.Core.Option.{some-injective}
use pulseport.Storage.Tables.{
  Rollup, HistoryRow, EnergyRow, EventRow, Tables, Stmt, run, affected, is_delete, rollup, in_range,
  without,
}
use pulseport.Prelude.{
  Bool, List, Option, String, [], false, if◌then◌else◌, inr, none, not, refl, some, str_eq, sym,
  take, true, ℕ, ◌&&◌, ◌∷◌, ◌≡◌, ◌≢◌, ◌⊎◌,
}
use pulseport.Prelude.Int.{ltb_ℤ, ℤ}
use pulseport.Prelude.Double.{Double, ◌≼◌}

-- How a statement ended: it ran, a step reported an error, or it could not be prepared.
pub data Outcome : Type 0 where
  done failed unprepared : Outcome

pub record Sqlite {ℓ} (D : Type ℓ) (Db : Type ℓ) : Type ℓ where
  -- A statement prepared, bound and stepped.
  pub exec : Stmt D → Db → Outcome × Db
  -- sqlite3_changes
  pub changes : Db → ℕ
  -- The SELECT statements; `none` where preparing fails.
  pub select_history : Rollup → String → ℤ → ℤ → ℕ → Db → Option (List (HistoryRow D))
  pub select_energy : String → String → Db → Option (List (EnergyRow D))
  pub select_events : ℤ → ℤ → Option String → ℕ → Db → Option (List EventRow)
  -- A `double` bound to a column and read back: NaN is stored as NULL, which reads as 0.0.
  pub column_double : D → D
  -- The BINARY collation.
  pub text_lt : String → String → Bool

module _ {ℓ} {D : Type ℓ} where
  -- ORDER BY bucket_ts ASC
  unfoldable pub insert_by_ts : HistoryRow D → List (HistoryRow D) → List (HistoryRow D)
  insert_by_ts r [] = r ∷ []
  insert_by_ts r (s ∷ rows) =
      if ltb_ℤ s.bucket_ts r.bucket_ts then s ∷ insert_by_ts r rows else r ∷ s ∷ rows

  unfoldable pub sort_by_ts : List (HistoryRow D) → List (HistoryRow D)
  unfolding insert_by_ts
  sort_by_ts [] = []
  sort_by_ts (r ∷ rows) = insert_by_ts r (sort_by_ts rows)

  -- WHERE metric_key = ? AND bucket_ts >= ? AND bucket_ts <= ?
  unfoldable pub matching : String → ℤ → ℤ → List (HistoryRow D) → List (HistoryRow D)
  unfolding without
  matching key start end =
      without
        (λ (r : HistoryRow D). not (str_eq r.metric_key key && in_range start end r.bucket_ts))

-- What the documentation promises. `saved` is what the tables were when the open transaction began, and what they
-- are where none is open. A statement that fails is undone, or the whole transaction is rolled back.
pub record IsSqlite {ℓ} {D Db : Type ℓ} ⦃d : Double D⦄ (e : Sqlite D Db) : Type ℓ where
  pub contents : Db → Tables D
  pub saved : Db → Tables D
  pub exec_done :
      (s : Stmt D) (db : Db)
      → (e.exec s db).0 ≡ Outcome.done
      → contents (e.exec s db).1 ≡ run e.text_lt s (contents db)
  pub exec_failed :
      (s : Stmt D) (db : Db)
      → (e.exec s db).0 ≢ Outcome.done
      → (contents (e.exec s db).1 ≡ contents db) ⊎ (contents (e.exec s db).1 ≡ saved db)
  pub exec_saved :
      (s : Stmt D) (db : Db)
      → (saved (e.exec s db).1 ≡ saved db)
        ⊎ ((saved (e.exec s db).1 ≡ contents db)
            ⊎ (saved (e.exec s db).1 ≡ contents (e.exec s db).1))
  pub changes_done :
      (s : Stmt D) (db : Db)
      → is_delete s ≡ true
      → (e.exec s db).0 ≡ Outcome.done
      → e.changes (e.exec s db).1 ≡ affected e.text_lt s (contents db)
  pub history_done :
      (which : Rollup) (key : String) (start end : ℤ) (limit : ℕ) (db : Db)
      {rows : List (HistoryRow D)}
      → e.select_history which key start end limit db ≡ some rows
      → rows ≡ take limit (sort_by_ts (matching key start end (rollup which (contents db))))
  pub column_number : (x : D) → x ≼ x → e.column_double x ≡ x

-- Every statement succeeds: no lock is held by another process, the disk is not full.
pub record IsHealthy {ℓ} {D Db : Type ℓ} (e : Sqlite D Db) : Type ℓ where
  pub exec_succeeds : (s : Stmt D) (db : Db) → (e.exec s db).0 ≡ Outcome.done
  pub select_succeeds :
      (which : Rollup) (key : String) (start end : ℤ) (limit : ℕ) (db : Db)
      → e.select_history which key start end limit db ≢ none

-- A database in memory that keeps the promises, and in which every statement succeeds.
module _ {ℓ} {D : Type ℓ} where
  abbrev pub in_memory : Sqlite D (Tables D × ℕ)
  in_memory = record {
    exec = λ s db. (Outcome.done, (run (λ a b. false) s db.0, affected (λ a b. false) s db.0));
    changes = λ db. db.1;
    select_history = λ which key start end limit db.
        some (take limit (sort_by_ts (matching key start end (rollup which db.0))));
    select_energy = λ start end db. some db.0.energy;
    select_events = λ start end category limit db. some db.0.events;
    column_double = λ x. x;
    text_lt = λ a b. false;
  }

  pub in_memory-IsHealthy : IsHealthy in_memory
  in_memory-IsHealthy = record {
    exec_succeeds = λ s db. refl;
    select_succeeds = λ which key start end limit db h. cc;
  }

  unfoldable pub in_memory-IsSqlite : ⦃d : Double D⦄ → IsSqlite in_memory
  in_memory-IsSqlite = record {
    contents = λ db. db.0;
    saved = λ db. db.0;
    exec_done = λ s db h. refl;
    exec_failed = λ s db h. absurd (h refl);
    exec_saved = λ s db. inr (inr refl);
    changes_done = λ s db is_del h. refl;
    history_done = λ which key start end limit db h. sym (some-injective _ _ h);
    column_number = λ x h. refl;
  }

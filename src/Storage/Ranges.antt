-- ===== src/Storage/Ranges.antt =====
-- The history query of src/storage/reader.cpp over a range of time stamps, and how many rows it finds.
use pulseport.Storage.Tables.{count_of, HistoryRow, Rollup, in_range, rollup, without}
use pulseport.Storage.Reader.{aggregate_of, query_history}
use pulseport.Storage.Engine.{IsHealthy, IsSqlite, Sqlite, insert_by_ts, matching, sort_by_ts}
use pulseport.Storage.History.{history_table-table_name, table_name}
use pulseport.Prelude.{
  List, Option-cases, String, [], ap, arith, inl, inr, length, length-map, length-take, map, min,
  refl, str_eq, suc, take, ℕ, ◌&&◌, ◌+◌, ◌∙◌, ◌∷◌, ◌≡◌,
}
use pulseport.Prelude.Int.{ℤ, ◌≤ℤ◌}
use pulseport.Prelude.Double.{Double}

module _ {ℓ} {D : Type ℓ} where
  length-insert_by_ts :
      (r : HistoryRow D) (rows : List (HistoryRow D))
      → length (insert_by_ts r rows) ≡ suc (length rows)
  unfolding insert_by_ts
  length-insert_by_ts r [] = refl
  length-insert_by_ts r (s ∷ rows) = ground (arith, length-insert_by_ts r rows)

  length-sort_by_ts : (rows : List (HistoryRow D)) → length (sort_by_ts rows) ≡ length rows
  unfolding sort_by_ts
  length-sort_by_ts [] = refl
  length-sort_by_ts (r ∷ rows) =
      length-insert_by_ts r (sort_by_ts rows) ∙ ap suc (length-sort_by_ts rows)

  -- How many rows of a metric have a time stamp between two, both included.
  abbrev pub rows_between : String → ℤ → ℤ → List (HistoryRow D) → ℕ
  rows_between key start end =
      count_of (λ (r : HistoryRow D). str_eq r.metric_key key && in_range start end r.bucket_ts)

  length-matching :
      (key : String) (start end : ℤ) (rows : List (HistoryRow D))
      → length (matching key start end rows) ≡ rows_between key start end rows
  unfolding matching without count_of
  length-matching key start end [] = refl
  length-matching key start end (r ∷ rows) = ground (arith, length-matching key start end rows)

  -- Two ranges that share an end count its rows twice.
  pub rows_between-adjacent :
      (key : String) (a b c : ℤ) (rows : List (HistoryRow D))
      → a ≤ℤ b
      → b ≤ℤ c
      → rows_between key a b rows + rows_between key b c rows
        ≡ rows_between key a c rows + rows_between key b b rows
  unfolding count_of
  rows_between-adjacent key a b c [] h k = refl
  rows_between-adjacent key a b c (r ∷ rows) h k =
      ground (arith, rows_between-adjacent key a b c rows h k)

module _ {ℓ} {D Db : Type ℓ} ⦃d : Double D⦄ (e : Sqlite D Db) (q : IsSqlite e)
    (h : IsHealthy e) where
  open q use {contents, history_done}
  open h use {select_succeeds}

  -- The rows that the query returns.
  abbrev pub found_rows : Rollup → String → (start end : ℤ) → ℕ → Db → List (HistoryRow D)
  found_rows which key start end limit db =
      take limit (sort_by_ts (matching key start end (rollup which (contents db))))

  pub query_history-found_rows :
      (which : Rollup) (key : String) (start end : ℤ) (limit : ℕ) (db : Db)
      → query_history e (table_name which) key start end limit db
        ≡ map (aggregate_of e) (found_rows which key start end limit db)
  unfolding query_history
  query_history-found_rows which key start end limit db =
      elim (Option-cases (e.select_history which key start end limit db)) [
        | inl failed ↦ absurd (select_succeeds which key start end limit db failed)
        | inr (rows, found) ↦
            rw (history_table-table_name which, query_history, found)
              (ap (map (aggregate_of e)) (history_done which key start end limit db found))
      ]

  pub length-query_history :
      (which : Rollup) (key : String) (start end : ℤ) (limit : ℕ) (db : Db)
      → length (query_history e (table_name which) key start end limit db)
        ≡ min limit (rows_between key start end (rollup which (contents db)))
  length-query_history which key start end limit db =
      let rows = rollup which (contents db) in
      ap length (query_history-found_rows which key start end limit db)
      ∙ length-map (aggregate_of e) (found_rows which key start end limit db)
      ∙ length-take limit (sort_by_ts (matching key start end rows))
      ∙ ap (min limit)
          (length-sort_by_ts (matching key start end rows) ∙ length-matching key start end rows)

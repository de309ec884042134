-- ===== src/Storage/History.antt =====
-- The rollup tables of src/storage/writer.cpp and src/storage/reader.cpp: a batch, and the query for one of its rows.
use pulseport.Storage.Upsert.{at_bucket, at_bucket-upsert_all, sort_by_ts_singleton, upsert_all}
use pulseport.Types.Roundtrip.{quality_from_string-quality_to_string}
use pulseport.Storage.Reader.{aggregate_of, history_table, query_history}
use pulseport.Storage.Writer.{row_of, steps, write_rollup}
use pulseport.Storage.Retention.{exec_lem, with_rollup-rollup}
use pulseport.Storage.Engine.{IsHealthy, IsSqlite, Sqlite, sort_by_ts}
use mathlib.Core.List.{map-append}
use pulseport.Storage.Tables.{
  replace_row, same_bucket, HistoryRow, Rollup, Stmt, rollup, run, with_rollup, Tables,
}
use pulseport.Prelude.{
  All, List, Option-cases, String, [], ap, false, inl, inr, map, refl, some, suc, sym, take,
  take_singleton, zero, ℕ, ◌++◌, ◌<◌, ◌∙◌, ◌∷◌, ◌≡◌,
}
use pulseport.Prelude.Double.{Double, ◌≼◌}
use pulseport.Types.{MetricAggregate}

with_rollup_twice {ℓ} :
    {D : Type ℓ} (which : Rollup) (batch rows : List (HistoryRow D)) (t : Tables D)
    → with_rollup which
        (upsert_all batch (rollup which (with_rollup which rows t)))
        (with_rollup which rows t)
      ≡ with_rollup which (upsert_all batch rows) t
with_rollup_twice Rollup.metric_1m batch rows t = refl
with_rollup_twice Rollup.metric_15m batch rows t = refl

rollup-with_rollup {ℓ} :
    {D : Type ℓ} (which : Rollup) (rows : List (HistoryRow D)) (t : Tables D)
    → rollup which (with_rollup which rows t) ≡ rows
rollup-with_rollup Rollup.metric_1m rows t = refl
rollup-with_rollup Rollup.metric_15m rows t = refl

-- The name by which the HTTP API asks for a rollup table.
abbrev pub table_name : Rollup → String
table_name Rollup.metric_1m = "metric_1m"
table_name Rollup.metric_15m = "metric_15m"

pub history_table-table_name : (which : Rollup) → history_table (table_name which) ≡ some which
unfolding history_table
history_table-table_name Rollup.metric_1m = refl
history_table-table_name Rollup.metric_15m = refl

module _ {ℓ} {D Db : Type ℓ} ⦃d : Double D⦄ (e : Sqlite D Db) (q : IsSqlite e)
    (h : IsHealthy e) where
  open q use {contents, history_done, column_number}
  open h use {select_succeeds}

  contents-upserts :
      (which : Rollup) (aggregates : List (MetricAggregate D)) (db : Db)
      → contents (
          steps e
            (map (λ (a : MetricAggregate D). Stmt.replace_rollup which (row_of a)) aggregates
              ++ (Stmt.commit ∷ []))
            db)
        ≡ with_rollup which
            (upsert_all (map row_of aggregates) (rollup which (contents db)))
            (contents db)
  unfolding steps upsert_all run
  contents-upserts which [] db =
      exec_lem e q h Stmt.commit db ∙ sym (with_rollup-rollup which (contents db))
  contents-upserts which (a ∷ aggregates) db =
      let s : Stmt D = Stmt.replace_rollup which (row_of a) in
      contents-upserts which aggregates (e.exec s db).1
      ∙ rw (exec_lem e q h s db) (
          with_rollup_twice which (map row_of aggregates)
            (replace_row same_bucket (row_of a) (rollup which (contents db))) (contents db))

  pub contents-write_rollup :
      (which : Rollup) (aggregates : List (MetricAggregate D)) (db : Db)
      → contents (write_rollup e which aggregates db)
        ≡ with_rollup which
            (upsert_all (map row_of aggregates) (rollup which (contents db)))
            (contents db)
  unfolding write_rollup run
  contents-write_rollup which aggregates db =
      rw (← exec_lem e q h Stmt.begin_transaction db)
        (contents-upserts which aggregates (e.exec Stmt.begin_transaction db).1)

  -- The values of an aggregate are numbers, not NaN.
  abbrev pub AllNumbers : MetricAggregate D → Type 0
  AllNumbers a =
      (a.min_value ≼ a.min_value) × (a.max_value ≼ a.max_value) × (a.avg_value ≼ a.avg_value)

  aggregate_of-row_of : (a : MetricAggregate D) → AllNumbers a → aggregate_of e (row_of a) ≡ a
  unfolding aggregate_of row_of
  aggregate_of-row_of a (lo, hi, av) = cc (
    column_number a.min_value lo,
    column_number a.max_value hi,
    column_number a.avg_value av,
    (quality_from_string-quality_to_string a.quality "").0,
  )

  -- Any row that the table holds alone for a bucket is what a query for that bucket returns.
  query_history_alone :
      (which : Rollup) (r : HistoryRow D) (limit : ℕ) (db : Db)
      → at_bucket r (rollup which (contents db)) ≡ r ∷ []
      → 0 < limit
      → query_history e (table_name which) r.metric_key r.bucket_ts r.bucket_ts limit db
        ≡ aggregate_of e r ∷ []
  unfolding query_history
  query_history_alone which r zero db alone pos_limit = elim pos_limit [ ]
  query_history_alone which r (suc n) db alone pos_limit =
      elim (Option-cases (e.select_history which r.metric_key r.bucket_ts r.bucket_ts (suc n) db)) [
        | inl failed ↦
            absurd (select_succeeds which r.metric_key r.bucket_ts r.bucket_ts (suc n) db failed)
        | inr (rows, found) ↦
            let one : rows ≡ r ∷ [] =
              history_done which r.metric_key r.bucket_ts r.bucket_ts (suc n) db found
              ∙ ap (λ l. take (suc n) (sort_by_ts l)) alone
              ∙ ap (take (suc n)) (sort_by_ts_singleton r)
              ∙ take_singleton n r in
            rw (history_table-table_name which, query_history, found, one)
      ]

  -- What a batch writes to a rollup table is read back: the query for an aggregate's bucket and key
  -- returns this aggregate alone, with every value and the quality, provided that no later aggregate of the
  -- batch has the same bucket and key, that its values are not NaN, that the limit is not 0, and that
  -- every statement succeeds. Whatever the table held for the bucket before is gone.
  pub query_history-write_rollup :
      (which : Rollup) (before after : List (MetricAggregate D)) (a : MetricAggregate D) (limit : ℕ)
      (db : Db)
      → All (λ (s : HistoryRow D). same_bucket (row_of a) s ≡ false) (map row_of after)
      → AllNumbers a
      → 0 < limit
      → query_history e
          (table_name which)
          a.key
          a.bucket_ts
          a.bucket_ts
          limit
          (write_rollup e which (before ++ (a ∷ after)) db)
        ≡ a ∷ []
  unfolding row_of
  query_history-write_rollup which before after a limit db later numbers pos_limit =
      let r = row_of a in
      let batch : map row_of (before ++ (a ∷ after)) ≡ map row_of before ++ (r ∷ map row_of after) =
        map-append row_of before (a ∷ after) in
      let stored = contents-write_rollup which (before ++ (a ∷ after)) db in
      let alone : at_bucket r
            (rollup which (contents (write_rollup e which (before ++ (a ∷ after)) db)))
          ≡ r ∷ [] =
        rw
          (
            stored,
            rollup-with_rollup which
                (upsert_all (map row_of (before ++ (a ∷ after))) (rollup which (contents db)))
                (contents db),
            batch,
          )
          (at_bucket-upsert_all (map row_of before) (map row_of after) r
            (rollup which (contents db)) later) in
      query_history_alone which r limit (write_rollup e which (before ++ (a ∷ after)) db) alone
        pos_limit
      ∙ ap (λ b. b ∷ []) (aggregate_of-row_of a numbers)

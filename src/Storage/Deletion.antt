-- ===== src/Storage/Deletion.antt =====
-- What the two deletions requested by the user remove and report.
use pulseport.Storage.Retention.{changes_lem, exec_lem}
use pulseport.Storage.Reader.{
  delete_all_history, delete_history, deletion_table, Erasable, all_tables, delete_each,
  deletion_of, history_table,
}
use pulseport.Storage.Engine.{IsHealthy, IsSqlite, Sqlite}
use pulseport.Storage.History.{table_name}
use pulseport.Storage.Tables.{
  AuditRow, HistoryRow, Rollup, Tables, affected, count_of, in_range, rollup, run, with_rollup,
  without, Stmt, is_delete,
}
use pulseport.Prelude.{
  All, Bool, List, String, [], arith, length, none, refl, some, true, ℕ, ◌++◌, ◌+◌, ◌∙◌, ◌∷◌, ◌≡◌,
}
use pulseport.Prelude.Int.{ℤ}
use pulseport.Prelude.Double.{Double}

-- The rows that `delete_all_history` removes.
abbrev pub history_rows {ℓ} : {D : Type ℓ} → Tables D → ℕ
history_rows t =
    length t.one_minute
    + length t.fifteen_minutes
    + length t.current
    + length t.energy
    + length t.events

deletion_table-table_name :
    (which : Rollup) → deletion_table (table_name which) ≡ some (Erasable.of_rollup which)
unfolding deletion_table history_table
deletion_table-table_name Rollup.metric_1m = refl
deletion_table-table_name Rollup.metric_15m = refl

audit-with_rollup {ℓ} :
    {D : Type ℓ} (which : Rollup) (rows : List (HistoryRow D)) (t : Tables D)
    → (with_rollup which rows t).audit ≡ t.audit
audit-with_rollup Rollup.metric_1m rows t = refl
audit-with_rollup Rollup.metric_15m rows t = refl

module _ {ℓ} {D : Type ℓ} (text_lt : String → String → Bool) where
  -- Deletions one after the other, and the rows that they remove.
  run_all : List (Stmt D) → Tables D → Tables D
  run_all [] t = t
  run_all (s ∷ ss) t = run_all ss (run text_lt s t)

  affected_all : List (Stmt D) → Tables D → ℕ
  affected_all [] t = 0
  affected_all (s ∷ ss) t = affected text_lt s t + affected_all ss (run text_lt s t)

module _ {ℓ} {D Db : Type ℓ} ⦃d : Double D⦄ (e : Sqlite D Db) (q : IsSqlite e)
    (h : IsHealthy e) where
  open q use {contents}

  delete_each_lem :
      (ss : List (Stmt D)) (total : ℕ) (db : Db)
      → All (λ s. is_delete s ≡ true) ss
      → (contents (delete_each e ss total db).1 ≡ run_all e.text_lt ss (contents db))
        × ((delete_each e ss total db).0 ≡ total + affected_all e.text_lt ss (contents db))
  unfolding delete_each run_all affected_all
  delete_each_lem [] total db all = (refl, omega arith)
  delete_each_lem (s ∷ ss) total db (del, all) =
      let db1 = (e.exec s db).1 in
      let rest = delete_each_lem ss (total + e.changes db1) db1 all in
      let rest' = rw (exec_lem e q h s db) at rest in
      (rest'.0, omega (arith, rest'.1, changes_lem e q h s db del))

  -- A table name outside the whitelist is refused and the database is not touched. For a rollup table, if
  -- every statement succeeds, exactly the rows with a time stamp from start to end, both included, go; the
  -- result is their number, an audit row records it, and every other table stays.
  pub delete_history_lem :
      (which : Rollup) (table : String) (start end : ℤ) (db : Db)
      → let t = contents db in
        let inside = λ (r : HistoryRow D). in_range start end r.bucket_ts in
        let n = count_of inside (rollup which t) in
        let note : AuditRow = record {
          scope = table_name which;
          range = some (start, end);
          deleted = n;
        } in
        let (result, db') = delete_history e (table_name which) start end db in
        (deletion_table table ≡ none → delete_history e table start end db ≡ (none, db))
        × (result ≡ some n)
        × (contents db' ≡ record (with_rollup which (without inside (rollup which t)) t) {
          audit = t.audit ++ (note ∷ []);
        })
  unfolding delete_history deletion_of run affected
  delete_history_lem which table start end db =
      let s : Stmt D = Stmt.delete_rollup_range which start end in
      let gone = exec_lem e q h s db in
      let n = changes_lem e q h s db refl in
      let known = deletion_table-table_name which in
      (
        λ unknown. rw (unknown, delete_history),
        rw (known, delete_history, n),
        rw (known, delete_history)
            (exec_lem e q h _ (e.exec s db).1
              ∙ rw (n, gone)
                  (rw (
                    audit-with_rollup which
                      (without (λ (r : HistoryRow D). in_range start end r.bucket_ts)
                        (rollup which (contents db)))
                      (contents db)))),
      )

  -- If every statement succeeds, `delete_all_history` empties the five history tables, returns how many rows
  -- they had, records that number in one audit row, and leaves the metric registry and the event counter.
  pub delete_all_history_lem :
      (db : Db)
      → let t = contents db in
        let (total, db') = delete_all_history e db in
        let note : AuditRow = record { scope = "all_history"; range = none; deleted = total } in
        (total ≡ history_rows t)
        × (contents db' ≡ record t {
          one_minute = [];
          fifteen_minutes = [];
          current = [];
          energy = [];
          events = [];
          audit = t.audit ++ (note ∷ []);
        })
  unfolding delete_all_history run_all affected_all run affected
  delete_all_history_lem db =
      let begun = (e.exec Stmt.begin_transaction db).1 in
      let t0 = exec_lem e q h Stmt.begin_transaction db in
      let each =
        rw t0 at
          (delete_each_lem (all_tables e) 0 begun (refl, (refl, (refl, (refl, (refl, tt)))))) in
      let s = delete_each e (all_tables e) 0 begun in
      let total : s.0 ≡ history_rows (contents db) = omega (arith, each.1) in
      let noted =
        exec_lem e q h
          (Stmt.insert_audit (record { scope = "all_history"; range = none; deleted = s.0 })) s.1 in
      (total, exec_lem e q h Stmt.commit _ ∙ rw each.0 at noted)

-- ===== src/Storage/Database/Handle.antt =====
-- src/storage/database.cpp: when the handle is there.
use pulseport.Migration.{apply}
use pulseport.Storage.Database.{
  Database, SqliteLibrary, close, exec_pragmas, open_database, pragmas,
}
use pulseport.Prelude.{
  List, Option, Option-cases, String, false, inl, inr, none, refl, some, true, ℕ, ◌>>=◌, ◌≡◌,
}

module _ {ℓ} {F Db : Type ℓ} (lib : SqliteLibrary F Db) where
  close_closed : (d : Database F Db) → (close lib d).db ≡ none
  unfolding close
  close_closed d = elim (Option-cases d.db) [
    | inl h ↦ rw (h, close) h
    | inr (db, h) ↦ rw (h, close) refl
  ]

  -- What the library is asked for on the way to an open database: a connection, then the migrations.
  abbrev pub opened : String → List (ℕ × String × List ℕ) → F → Option (ℕ × Db)
  opened db_path entries disk = do
    db ← lib.open_v2 db_path disk
    let migrated = apply lib.migrations entries (exec_pragmas lib (pragmas lib) db)
    n ← migrated.0
    some (n, migrated.1)

  -- Opening answers true exactly if there is a connection and the migrations succeed, and then the handle is that
  -- migrated connection. In every other case the database is closed, also if it was open before.
  pub open_database-db :
      (db_path : String) (entries : List (ℕ × String × List ℕ)) (d : Database F Db)
      → let after = open_database lib db_path entries d in
        let result = opened db_path entries (close lib d).disk in
        (after.1.db ≡ elim result [ none ↦ none | some r ↦ some r.1 ])
        × (after.0 ≡ elim result [ none ↦ false | some r ↦ true ])
  unfolding open_database
  open_database-db db_path entries d =
      elim (Option-cases (lib.open_v2 db_path (close lib d).disk)) [
        | inl h ↦ rw (h, open_database) (refl, refl)
        | inr (db, h) ↦
            elim (Option-cases
              (apply lib.migrations entries (exec_pragmas lib (pragmas lib) db)).0) [
                | inl k ↦
                    let migrated =
                      apply lib.migrations entries (exec_pragmas lib (pragmas lib) db) in
                    let left : Database F Db = record (close lib d) {
                      db_path = db_path;
                      db = some migrated.1;
                    } in
                    rw (h, open_database, k) (close_closed left, refl)
                | inr (n, k) ↦ rw (h, open_database, k) (refl, refl)
              ]
      ]

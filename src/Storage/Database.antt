-- ===== src/Storage/Database.antt =====
-- src/storage/database.cpp: opening, closing and checkpointing the database. The SQLite library and the disk are
-- parameters: `F` is what the disk holds, `Db` an open connection.
use pulseport.Migration.{apply, Connection}
pub mod Handle
pub mod Reopened
use pulseport.Prelude.{Bool, List, Option, String, [], false, none, some, true, ℕ, ◌∷◌}

-- The calls of the library, with whether each succeeded. A connection is closed onto the disk.
pub record SqliteLibrary {ℓ} (F : Type ℓ) (Db : Type ℓ) : Type ℓ where
  pub open_v2 : String → F → Option Db
  pub exec_pragma : String → Db → Bool × Db
  -- SQLITE_OK or SQLITE_BUSY
  pub wal_checkpoint : Db → Bool × Db
  pub close_v2 : Db → F → F
  pub migrations : Connection Db

pub record Database {ℓ} (F : Type ℓ) (Db : Type ℓ) : Type ℓ where
  pub db : Option Db
  pub db_path : String
  pub disk : F

module _ {ℓ} {F Db : Type ℓ} (lib : SqliteLibrary F Db) where
  abbrev pub is_open : Database F Db → Bool
  is_open d = elim d.db [ none ↦ false | some db ↦ true ]

  unfoldable pub checkpoint : Database F Db → Bool × Database F Db
  checkpoint d = elim d.db [
    | none ↦ (false, d)
    | some db ↦ let done = lib.wal_checkpoint db in (done.0, record d { db = some done.1 })
  ]

  unfoldable pub close : Database F Db → Database F Db
  close d = elim d.db [
    | none ↦ d
    | some db ↦ record d { db = none; disk = lib.close_v2 (lib.wal_checkpoint db).1 d.disk }
  ]

  abbrev pub pragmas : List String
  pragmas =
      "PRAGMA journal_mode = WAL;" ∷ "PRAGMA synchronous = NORMAL;" ∷ "PRAGMA foreign_keys = ON;"
      ∷ "PRAGMA temp_store = MEMORY;" ∷ "PRAGMA busy_timeout = 5000;" ∷ "PRAGMA page_size = 4096;"
      ∷ "PRAGMA mmap_size = 67108864;" ∷ []

  -- A pragma that fails is only logged.
  unfoldable pub exec_pragmas : List String → Db → Db
  exec_pragmas [] db = db
  exec_pragmas (p ∷ ps) db = exec_pragmas ps (lib.exec_pragma p db).1

  -- apply_pragmas answers true whatever happens. `entries` is what the directory of migrations has.
  unfoldable pub open_database :
      String → List (ℕ × String × List ℕ) → Database F Db → Bool × Database F Db
  unfolding close exec_pragmas
  open_database db_path entries d0 =
      let d = record (close d0) { db_path = db_path } in
      elim (lib.open_v2 db_path d.disk) [
        | none ↦ (false, record d { db = none })
        | some db ↦
            let applied = apply lib.migrations entries (exec_pragmas pragmas db) in
            elim applied.0 [
              | none ↦ (false, close (record d { db = some applied.1 }))
              | some n ↦ (true, record d { db = some applied.1 })
            ]
      ]

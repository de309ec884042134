-- ===== src/Tests/Migrated.antt =====
-- Migrations on a connection whose statements can fail.
-- The contents and what a rollback restores. A migration of five bytes fails after it changed the contents.
use pulseport.Storage.Database.Reopened.{IsDurable, open_database-twice}
use pulseport.Storage.Database.{Database, SqliteLibrary, exec_pragmas, open_database, pragmas}
use mathlib.Core.Path.{subst}
use mathlib.Core.Option.{some-injective}
use pulseport.Migration.Repeat.{IsVersioned, LeavesRow}
use pulseport.Migration.Atomic.{Stops, apply-Stops}
use pulseport.Migration.Atomic.{IsTransactional}
use pulseport.Migration.Pending.{pending}
use pulseport.Migration.{
  apply, Connection, Script, current_version, discover, ensure_version_table, MigrationFile,
  seed_version,
}
use pulseport.Prelude.{
  All, List, Option, String, [], ap, eq_iff, if◌then◌else◌, length, map, none, not, refl, some,
  str_eq, suc, sym, true, ℕ, ◌++◌, ◌==◌, ◌∷◌, ◌≡◌,
}

abbrev fragile : Connection (List ℕ × List ℕ)
fragile = record {
  exec = λ s db. elim s [
    | Script.begin_transaction ↦ (true, (db.0, db.0))
    | Script.commit ↦ (true, db)
    | Script.rollback ↦ (true, (db.1, db.1))
    | Script.create_version_table ↦ (true, db)
    | Script.insert_version_zero ↦ (true, db)
    | Script.update_version n ↦ (true, (n ∷ db.0, db.1))
    | Script.migration sql ↦ (not (length sql == 5), (sql ++ db.0, db.1))
  ];
  count_versions = λ db. some 1;
  select_version = λ db. some 0;
}

fragile-IsTransactional : IsTransactional fragile (List ℕ)
fragile-IsTransactional = record {
  contents = λ db. db.0;
  saved = λ db. db.1;
  up = λ sql s. sql ++ s;
  versioned = λ n s. n ∷ s;
  begin_contents = λ db. refl;
  begin_saved = λ db h. refl;
  migration_done = λ sql db h. refl;
  migration_saved = λ sql db. refl;
  update_done = λ n db h. refl;
  update_saved = λ n db. refl;
  rolled_back = λ db. refl;
  commit_contents = λ db. refl;
}

abbrev first_row : List ℕ → Option ℕ
first_row [] = none
first_row (v ∷ vs) = some v

abbrev two_files : List (ℕ × String × List ℕ)
two_files = (2, "002.sql", 1 ∷ 2 ∷ 3 ∷ 4 ∷ 5 ∷ []) ∷ (1, "001.sql", 7 ∷ []) ∷ []

apply-Stops_example :
    Stops fragile fragile-IsTransactional
      (λ db. refl)
      (pending
        (current_version fragile (ensure_version_table fragile ([], [])).1)
        (discover two_files))
      0
      (ensure_version_table fragile ([], [])).1
      (apply fragile two_files ([], []))
unfolding ensure_version_table
apply-Stops_example =
    apply-Stops fragile fragile-IsTransactional (λ db. refl) two_files ([], []) refl

-- A connection that keeps its path and the rows of schema_version. As db/migrations/001_initial.sql does, a migration
-- adds a row with version 1.
abbrev versions : Connection (String × List ℕ)
versions = record {
  exec = λ s db. elim s [
    | Script.insert_version_zero ↦ (true, (db.0, 0 ∷ db.1))
    | Script.update_version n ↦ (true, (db.0, map (λ _. n) db.1))
    | Script.migration sql ↦ (true, (db.0, db.1 ++ (1 ∷ [])))
    | _ ↦ (true, db)
  ];
  count_versions = λ db. some (length db.1);
  select_version = λ db. first_row db.1;
}

versions-counted :
    (v : ℕ) (rows : List ℕ)
    → first_row rows ≡ some v
    → (k : ℕ) × (◌≡◌ {A = Option ℕ} (some (length rows)) (some (suc k)))
versions-counted v [] h = absurd cc
versions-counted v (w ∷ vs) h = (length vs, refl)

versions-updated :
    (n v : ℕ) (rows : List ℕ) → first_row rows ≡ some v → first_row (map (λ _. n) rows) ≡ some n
versions-updated n v [] h = absurd cc
versions-updated n v (w ∷ vs) h = refl

abbrev versions-IsVersioned : IsVersioned versions
versions-IsVersioned = record {
  version = λ db. first_row db.1;
  selected = λ v db h. h;
  counted = λ v db. versions-counted v db.1;
  created = λ v db h. h;
  begun = λ v db h. h;
  updated = λ n v db h ok. versions-updated n v db.1 h;
  committed = λ v db h ok. h;
}

one_row_more :
    (v : ℕ) (rows : List ℕ)
    → first_row rows ≡ some v
    → (w : ℕ) × (first_row (rows ++ (1 ∷ [])) ≡ some w)
one_row_more v [] h = absurd cc
one_row_more v (w ∷ vs) h = (w, refl)

all_leave_row : (fs : List MigrationFile) → All (LeavesRow versions versions-IsVersioned) fs
all_leave_row [] = tt
all_leave_row (f ∷ fs) = (λ v db h ok. one_row_more v db.1 h, all_leave_row fs)

-- The disk has the rows of each path.
abbrev library : SqliteLibrary (String → List ℕ) (String × List ℕ)
library = record {
  open_v2 = λ path disk. some (path, disk path);
  exec_pragma = λ p db. (true, db);
  wal_checkpoint = λ db. (true, db);
  close_v2 = λ db disk path. if str_eq path db.0 then db.1 else disk path;
  migrations = versions;
}

versions-path : (s : Script) (db : String × List ℕ) → (versions.exec s db).1.0 ≡ db.0
versions-path Script.begin_transaction db = refl
versions-path Script.commit db = refl
versions-path Script.rollback db = refl
versions-path Script.create_version_table db = refl
versions-path Script.insert_version_zero db = refl
versions-path (Script.update_version n) db = refl
versions-path (Script.migration sql) db = refl

library-IsDurable : IsDurable library versions-IsVersioned
library-IsDurable = record {
  path_of = λ db. db.0;
  version_at = λ path disk. first_row (disk path);
  opened_path = λ path disk db h. sym (ap (λ (x : String × List ℕ). x.0) (some-injective _ _ h));
  opened_version = λ path disk db v h at.
      subst (λ (x : String × List ℕ). first_row x.1 ≡ some v) (some-injective _ _ h) at;
  exec_path = versions-path;
  pragma_path = λ p db. refl;
  checkpoint_path = λ db. refl;
  pragma_version = λ v p db h. h;
  checkpoint_version = λ v db h. h;
  closed_version = λ v db disk h. rw ((eq_iff db.0 db.0).1 refl) h;
}

abbrev unopened : Database (String → List ℕ) (String × List ℕ)
unopened = record { db = none; db_path = ""; disk = λ path. [] }

open_database-twice_example :
    let first = open_database library "p.db" two_files unopened in
    let second = open_database library "p.db" two_files first.1 in
    (second.0 ≡ true) × (second.1.db ≡ some ("p.db", 2 ∷ 2 ∷ 2 ∷ []))
unfolding open_database apply seed_version
open_database-twice_example =
    open_database-twice library versions-IsVersioned library-IsDurable "p.db" two_files unopened
      (all_leave_row (discover two_files))
      (λ db h. (
        0,
        subst
            (λ (x : String × List ℕ).
              first_row
                (ensure_version_table versions (exec_pragmas library (pragmas library) x)).1.1
              ≡ some 0)
            (some-injective _ _ h) refl,
      ))
      refl ("p.db", 2 ∷ 2 ∷ 2 ∷ []) refl refl

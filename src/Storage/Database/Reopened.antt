-- ===== src/Storage/Database/Reopened.antt =====
-- src/storage/database.cpp: a database that is opened again.
use pulseport.Migration.Kept.{apply_keeps}
use pulseport.Migration.{Script, apply, MigrationFile, discover, ensure_version_table}
use pulseport.Storage.Database.{
  Database, SqliteLibrary, close, exec_pragmas, pragmas, open_database,
}
use pulseport.Migration.Repeat.{IsVersioned, apply-covered, LeavesRow, apply-Reaches}
use mathlib.Core.Path.{subst}
use mathlib.Core.Bool.{true≢false}
use mathlib.Core.Option.{some-injective}
use pulseport.Storage.Database.Handle.{opened, open_database-db}
use pulseport.Prelude.{
  All, List, Option, Option-cases, String, [], ap, false, if◌then◌else◌, inl, inr, none, refl, some,
  sym, true, ℕ, ◌∙◌, ◌∷◌, ◌≡◌, ◌≤◌,
}

module _ {ℓ} {F Db : Type ℓ} (lib : SqliteLibrary F Db) where
  exec_pragmas_keeps {κ} :
      (P : Db → Type κ)
      → ((p : String) (db : Db) → P db → P (lib.exec_pragma p db).1)
      → (ps : List String) (db : Db) → P db
      → P (exec_pragmas lib ps db)
  unfolding exec_pragmas
  exec_pragmas_keeps P keeps [] db h = h
  exec_pragmas_keeps P keeps (p ∷ ps) db h =
      exec_pragmas_keeps P keeps ps (lib.exec_pragma p db).1 (keeps p db h)

  close_disk :
      (d : Database F Db) (db : Db)
      → d.db ≡ some db
      → (close lib d).disk ≡ lib.close_v2 (lib.wal_checkpoint db).1 d.disk
  unfolding close
  close_disk d db h = rw (h, close) refl

  opened_inv :
      (path : String) (entries : List (ℕ × String × List ℕ)) (disk : F) (n : ℕ) (after : Db)
      → opened lib path entries disk ≡ some (n, after)
      → (db : Db) × (lib.open_v2 path disk ≡ some db)
        × (apply lib.migrations entries (exec_pragmas lib (pragmas lib) db) ≡ (some n, after))
  opened_inv path entries disk n after h = elim (Option-cases (lib.open_v2 path disk)) [
    | inl refused ↦ absurd (cc (rw refused at h))
    | inr (db, connected) ↦
        let applied = apply lib.migrations entries (exec_pragmas lib (pragmas lib) db) in
        elim (Option-cases applied.0) [
          | inl failed ↦ absurd (cc (rw (connected, failed) at h))
          | inr (m, done) ↦
              let both : some (m, applied.1) ≡ some (n, after) = rw (connected, done) at h in
              let as_result : ℕ × Db → Option ℕ × Db = λ x. (some x.0, x.1) in
              let pair = some-injective (m, applied.1) (n, after) both in
              let renamed : (some m, applied.1) ≡ (some n, after) = ap as_result pair in
              (
                db,
                connected,
                subst (λ (o : Option ℕ). ◌≡◌ {A = Option ℕ × Db} (o, applied.1) (some n, after))
                    (sym done) renamed,
              )
        ]
  ]

  module _ (t : IsVersioned lib.migrations) where
    -- What SQLite documents of a connection: it belongs to the file that it was opened for, the pragmas and the
    -- checkpoint leave schema_version alone, and closing it writes its contents to that file. `version_at` is the
    -- version that the file of a path has.
    pub record IsDurable : Type ℓ where
      pub path_of : Db → String
      pub version_at : String → F → Option ℕ
      pub opened_path :
          (path : String) (disk : F) (db : Db) → lib.open_v2 path disk ≡ some db → path_of db ≡ path
      pub opened_version :
          (path : String) (disk : F) (db : Db) (v : ℕ)
          → lib.open_v2 path disk ≡ some db
          → version_at path disk ≡ some v
          → t.version db ≡ some v
      pub exec_path : (s : Script) (db : Db) → path_of (lib.migrations.exec s db).1 ≡ path_of db
      pub pragma_path : (p : String) (db : Db) → path_of (lib.exec_pragma p db).1 ≡ path_of db
      pub checkpoint_path : (db : Db) → path_of (lib.wal_checkpoint db).1 ≡ path_of db
      pub pragma_version :
          (v : ℕ) (p : String) (db : Db)
          → t.version db ≡ some v
          → t.version (lib.exec_pragma p db).1 ≡ some v
      pub checkpoint_version :
          (v : ℕ) (db : Db) → t.version db ≡ some v → t.version (lib.wal_checkpoint db).1 ≡ some v
      pub closed_version :
          (v : ℕ) (db : Db) (disk : F)
          → t.version db ≡ some v
          → version_at (path_of db) (lib.close_v2 db disk) ≡ some v

    module _ (k : IsDurable) where
      open k use {
        path_of, version_at, opened_path, opened_version, exec_path, pragma_path, checkpoint_path,
        pragma_version, checkpoint_version, closed_version,
      }

      -- The connection of an opened database belongs to the path.
      opened_path_of :
          (path : String) (entries : List (ℕ × String × List ℕ)) (disk : F) (db : Db)
          → lib.open_v2 path disk ≡ some db
          → path_of (apply lib.migrations entries (exec_pragmas lib (pragmas lib) db)).1 ≡ path
      opened_path_of path entries disk db connected =
          let At : Db → Type 0 = λ x. path_of x ≡ path in
          apply_keeps lib.migrations At (λ s x h. exec_path s x ∙ h) entries
            (exec_pragmas lib (pragmas lib) db)
            (exec_pragmas_keeps At (λ p x h. pragma_path p x ∙ h) (pragmas lib) db
              (opened_path path disk db connected))

      -- A connection whose version covers the files is what opening the file that it is closed to ends with.
      reopened :
          (path : String) (entries : List (ℕ × String × List ℕ)) (db again : Db) (disk : F) (w : ℕ)
          → path_of db ≡ path
          → t.version db ≡ some w
          → All (λ (f : MigrationFile). f.version ≤ w) (discover entries)
          → lib.open_v2 path (lib.close_v2 (lib.wal_checkpoint db).1 disk) ≡ some again
          → let ready =
              ensure_version_table lib.migrations (exec_pragmas lib (pragmas lib) again) in
            apply lib.migrations entries (exec_pragmas lib (pragmas lib) again)
            ≡ (if ready.0 then some 0 else none, ready.1)
      reopened path entries db again disk w at at_w covers connected =
          let flushed = (lib.wal_checkpoint db).1 in
          let written : version_at path (lib.close_v2 flushed disk) ≡ some w =
            subst (λ x. version_at x (lib.close_v2 flushed disk) ≡ some w) (checkpoint_path db ∙ at)
              (closed_version w flushed disk (checkpoint_version w db at_w)) in
          let at_again =
            opened_version path (lib.close_v2 flushed disk) again w connected written in
          apply-covered lib.migrations t entries w (exec_pragmas lib (pragmas lib) again)
            (exec_pragmas_keeps (λ x. t.version x ≡ some w) (pragma_version w) (pragmas lib) again
              at_again)
            covers

      -- A database that was opened with its migrations, whose version table had a row then, opens again with the same
      -- files, once it can be connected to and its version table can be checked: no migration is applied, and the
      -- handle is the new connection as the pragmas and that check leave it. The migrations leave a row in schema_version.
      pub open_database-twice :
          (path : String) (entries : List (ℕ × String × List ℕ)) (d : Database F Db)
          → All (LeavesRow lib.migrations t) (discover entries)
          → ((db : Db)
              → lib.open_v2 path (close lib d).disk ≡ some db
              → (v : ℕ) × (t.version
                    (ensure_version_table lib.migrations (exec_pragmas lib (pragmas lib) db)).1
                  ≡ some v))
          → let first = open_database lib path entries d in
            first.0 ≡ true
            → (again : Db) → lib.open_v2 path (close lib first.1).disk ≡ some again
            → let ready =
                ensure_version_table lib.migrations (exec_pragmas lib (pragmas lib) again) in
              ready.0 ≡ true
              → ((open_database lib path entries first.1).0 ≡ true)
                × ((open_database lib path entries first.1).1.db ≡ some ready.1)
      open_database-twice path entries d leaves row ok again connected checked =
          let first = open_database lib path entries d in
          let (handle, flag) = open_database-db lib path entries d in
          elim (Option-cases (opened lib path entries (close lib d).disk)) [
            | inl failed ↦
                let refused : first.0 ≡ false = rw failed at flag in
                absurd (true≢false (sym ok ∙ refused))
            | inr ((n, after), done) ↦
                let held : first.1.db ≡ some after = rw done at handle in
                let (db, found, ran) = opened_inv path entries (close lib d).disk n after done in
                let used = exec_pragmas lib (pragmas lib) db in
                let r = row db found in
                let reach =
                  apply-Reaches lib.migrations t entries r.0 n used leaves r.1
                    (ap (λ (x : Option ℕ × Db). x.0) ran) in
                let at =
                  subst (λ (x : Option ℕ × Db). path_of x.1 ≡ path) ran
                    (opened_path_of path entries (close lib d).disk db found) in
                let at_w =
                  subst (λ (x : Option ℕ × Db). t.version x.1 ≡ some reach.reached) ran
                    reach.at_reached in
                let reconnected =
                  subst (λ x. lib.open_v2 path x ≡ some again) (close_disk first.1 after held)
                    connected in
                let same =
                  reopened path entries after again first.1.disk reach.reached at at_w reach.covers
                    reconnected in
                let second : opened lib path entries (close lib first.1).disk
                    ≡ some (
                      0,
                      (ensure_version_table lib.migrations
                          (exec_pragmas lib (pragmas lib) again)).1,
                    ) =
                  rw (connected, same, checked) refl in
                let (handle2, flag2) = open_database-db lib path entries first.1 in
                (rw second at flag2, rw second at handle2)
          ]

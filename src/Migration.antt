-- ===== src/Migration.antt =====
-- src/storage/migration_runner.cpp: the migrations that bring a database to the current schema. The
-- connection to SQLite is a parameter. `discover` takes the migration files that the directory has, each
-- with the version in its name and its contents as bytes.
pub mod Pending
pub mod Atomic
pub mod Repeat
pub mod Kept
use pulseport.Prelude.{
  Bool, List, Option, String, [], drop, false, if◌then◌else◌, leb, length, ltb, none, not, some,
  take, true, zero, ℕ, ◌%◌, ◌&&◌, ◌+◌, ◌-◌, ◌==◌, ◌^◌, ◌∷◌,
}

pub data Script : Type 0 where
  begin_transaction : Script
  commit : Script
  rollback : Script
  create_version_table : Script
  insert_version_zero : Script
  update_version : ℕ → Script
  migration : List ℕ → Script

-- sqlite3_exec, which tells whether it succeeded, and the two SELECT statements on schema_version; `none`
-- where there is no statement or no row.
pub record Connection {ℓ} (Db : Type ℓ) : Type ℓ where
  pub exec : Script → Db → Bool × Db
  pub count_versions : Db → Option ℕ
  pub select_version : Db → Option ℕ

pub record MigrationFile : Type 0 where
  pub version : ℕ
  pub filename : String
  pub up_sql : List ℕ
  pub down_sql : List ℕ

-- `content.find(pattern, from)` over the bytes that follow, `at` being the position of the first.
unfoldable pub starts_with : List ℕ → List ℕ → Bool
starts_with [] content = true
starts_with (p ∷ ps) [] = false
starts_with (p ∷ ps) (c ∷ cs) = p == c && starts_with ps cs

unfoldable pub find_from : (pattern : List ℕ) → (at : ℕ) → List ℕ → Option ℕ
unfolding starts_with
find_from pattern at [] = if starts_with pattern [] then some at else none
find_from pattern at (c ∷ cs) =
    let later = find_from pattern (at + 1) cs in
    if starts_with pattern (c ∷ cs) then some at else later

unfoldable pub find : List ℕ → List ℕ → ℕ → Option ℕ
unfolding find_from
find content pattern from = find_from pattern from (drop from content)

-- "-- UP" and "-- DOWN"
abbrev pub up_marker : List ℕ
up_marker = 45 ∷ 45 ∷ 32 ∷ 85 ∷ 80 ∷ []

abbrev pub down_marker : List ℕ
down_marker = 45 ∷ 45 ∷ 32 ∷ 68 ∷ 79 ∷ 87 ∷ 78 ∷ []

abbrev pub newline : List ℕ
newline = 10 ∷ []

-- The count `end - start - 1` of substr wraps around where the end stands before the start.
unfoldable pub up_section : List ℕ → List ℕ
unfolding find
up_section content =
    let down = find content down_marker 0 in
    elim (find content up_marker 0) [
      | some up ↦ elim (find content newline up) [
        | none ↦ []
        | some start ↦
            let end : ℕ = elim down [ none ↦ length content | some d ↦ d ] in
            take ((end + 2 ^ 64 - start - 1) % 2 ^ 64) (drop (start + 1) content)
      ]
      | none ↦ elim down [ none ↦ content | some d ↦ take d content ]
    ]

unfoldable pub down_section : List ℕ → List ℕ
unfolding find
down_section content = elim (find content down_marker 0) [
  | none ↦ []
  | some d ↦ elim (find content newline d) [ none ↦ [] | some start ↦ drop (start + 1) content ]
]

unfoldable pub insert_by_version : MigrationFile → List MigrationFile → List MigrationFile
insert_by_version f [] = f ∷ []
insert_by_version f (g ∷ fs) =
    if ltb g.version f.version then g ∷ insert_by_version f fs else f ∷ g ∷ fs

-- The directory's entries that match the pattern and can be read: version, name and contents.
unfoldable pub discover : List (ℕ × String × List ℕ) → List MigrationFile
unfolding up_section down_section insert_by_version
discover [] = []
discover ((version, filename, content) ∷ entries) =
    insert_by_version
      (record {
        version = version;
        filename = filename;
        up_sql = up_section content;
        down_sql = down_section content;
      })
      (discover entries)

module _ {ℓ} {Db : Type ℓ} (c : Connection Db) where
  -- Only a table that is counted and found empty gets its row.
  unfoldable pub seed_version : Option ℕ → Db → Db
  seed_version (some zero) db = (c.exec Script.insert_version_zero db).1
  seed_version _ db = db

  unfoldable pub ensure_version_table : Db → Bool × Db
  ensure_version_table db =
      let created = c.exec Script.create_version_table db in
      if created.0
      then (true, seed_version (c.count_versions created.1) created.1)
      else (false, created.1)

  unfoldable pub current_version : Db → ℕ
  current_version db = elim (c.select_version db) [ none ↦ 0 | some v ↦ v ]

  -- One migration between BEGIN and COMMIT.
  unfoldable pub apply_one : MigrationFile → Db → Bool × Db
  apply_one mig db =
      let begun = c.exec Script.begin_transaction db in
      let scripted = c.exec (Script.migration mig.up_sql) begun.1 in
      let versioned = c.exec (Script.update_version mig.version) scripted.1 in
      let committed = c.exec Script.commit versioned.1 in
      if not begun.0
      then (false, begun.1)
      else if not scripted.0
      then (false, (c.exec Script.rollback scripted.1).1)
      else if not versioned.0
      then (false, (c.exec Script.rollback versioned.1).1)
      else committed

  -- The loop of `apply`; `none` is the result -1.
  unfoldable pub apply_all : (current applied : ℕ) → List MigrationFile → Db → Option ℕ × Db
  unfolding apply_one
  apply_all current applied [] db = (some applied, db)
  apply_all current applied (mig ∷ files) db =
      let skipped = apply_all current applied files db in
      let one = apply_one mig db in
      let more = apply_all current (applied + 1) files one.1 in
      if leb mig.version current then skipped else if one.0 then more else (none, one.1)

  unfoldable pub apply : List (ℕ × String × List ℕ) → Db → Option ℕ × Db
  unfolding ensure_version_table current_version apply_all discover
  apply entries db =
      let ready = ensure_version_table db in
      if ready.0
      then apply_all (current_version ready.1) 0 (discover entries) ready.1
      else (none, ready.1)

-- ===== src/Migration/Kept.antt =====
-- src/storage/migration_runner.cpp: what holds of a connection through a whole `apply`.
use pulseport.Migration.{
  Connection, MigrationFile, Script, apply, apply_all, apply_one, current_version, discover,
  ensure_version_table, seed_version,
}
use pulseport.Prelude.{
  Bool-cases, List, Option, String, [], inl, inr, leb, none, some, suc, zero, ℕ, ◌+◌, ◌∷◌,
}

module _ {ℓ κ} {Db : Type ℓ} (c : Connection Db) (P : Db → Type κ)
    (keeps : (s : Script) (db : Db) → P db → P (c.exec s db).1) where
  apply_one_keeps : (f : MigrationFile) (db : Db) → P db → P (apply_one c f db).1
  unfolding apply_one
  apply_one_keeps f db p =
      let begun = c.exec Script.begin_transaction db in
      let scripted = c.exec (Script.migration f.up_sql) begun.1 in
      let versioned = c.exec (Script.update_version f.version) scripted.1 in
      let p1 = keeps Script.begin_transaction db p in
      let p2 = keeps (Script.migration f.up_sql) begun.1 p1 in
      let p3 = keeps (Script.update_version f.version) scripted.1 p2 in
      elim (Bool-cases begun.0) [
        | inr h ↦ rw h p1
        | inl h ↦ elim (Bool-cases scripted.0) [
          | inr k ↦ rw (h, k) (keeps Script.rollback scripted.1 p2)
          | inl k ↦ elim (Bool-cases versioned.0) [
            | inr l ↦ rw (h, k, l) (keeps Script.rollback versioned.1 p3)
            | inl l ↦ rw (h, k, l) (keeps Script.commit versioned.1 p3)
          ]
        ]
      ]

  apply_all_keeps :
      (current applied : ℕ) (fs : List MigrationFile) (db : Db)
      → P db
      → P (apply_all c current applied fs db).1
  unfolding apply_all
  apply_all_keeps current applied [] db p = p
  apply_all_keeps current applied (f ∷ fs) db p = elim (Bool-cases (leb f.version current)) [
    | inl old ↦ rw old (apply_all_keeps current applied fs db p)
    | inr new ↦
        let one = apply_one c f db in
        elim (Bool-cases one.0) [
          | inr failed ↦ rw (new, failed) (apply_one_keeps f db p)
          | inl ok ↦
              rw (new, ok) (apply_all_keeps current (applied + 1) fs one.1 (apply_one_keeps f db p))
        ]
  ]

  seed_version_keeps : (o : Option ℕ) (db : Db) → P db → P (seed_version c o db)
  unfolding seed_version
  seed_version_keeps none db p = p
  seed_version_keeps (some zero) db p = keeps Script.insert_version_zero db p
  seed_version_keeps (some (suc n)) db p = p

  ensure_version_table_keeps : (db : Db) → P db → P (ensure_version_table c db).1
  unfolding ensure_version_table
  ensure_version_table_keeps db p =
      let created = c.exec Script.create_version_table db in
      let p1 = keeps Script.create_version_table db p in
      elim (Bool-cases created.0) [
        | inr h ↦ rw h p1
        | inl h ↦ rw h (seed_version_keeps (c.count_versions created.1) created.1 p1)
      ]

  pub apply_keeps :
      (entries : List (ℕ × String × List ℕ)) (db : Db) → P db → P (apply c entries db).1
  unfolding apply
  apply_keeps entries db p =
      let ready = ensure_version_table c db in
      let p1 = ensure_version_table_keeps db p in
      elim (Bool-cases ready.0) [
        | inr h ↦ rw h p1
        | inl h ↦ rw h (apply_all_keeps (current_version c ready.1) 0 (discover entries) ready.1 p1)
      ]

-- ===== src/Migration/Atomic.antt =====
-- src/storage/migration_runner.cpp: what a migration that fails leaves behind.
use pulseport.Alerts.Check.{counted}
use pulseport.Migration.Pending.{pending}
use pulseport.Migration.{
  Connection, MigrationFile, Script, apply_all, apply_one, apply, current_version, discover,
  ensure_version_table,
}
use pulseport.Prelude.{
  Bool-cases, List, Option, String, [], ap, arith, if◌then◌else◌, inl, inr, leb, length, none, refl,
  some, suc, take, true, ℕ, ◌+◌, ◌<◌, ◌∙◌, ◌∷◌, ◌≡◌, ◌≤◌, ◌⊎◌,
}

module _ {ℓ} {Db : Type ℓ} (c : Connection Db) where
  -- What SQLite documents of transactions. `contents` is what a statement sees, `saved` what it would see after a
  -- rollback; `up` and `versioned` are what a migration's statements and set_version do to the contents.
  pub record IsTransactional (Schema : Type ℓ) : Type ℓ where
    pub contents : Db → Schema
    pub saved : Db → Schema
    pub up : List ℕ → Schema → Schema
    pub versioned : ℕ → Schema → Schema
    pub begin_contents : (db : Db) → contents (c.exec Script.begin_transaction db).1 ≡ contents db
    pub begin_saved :
        (db : Db)
        → (c.exec Script.begin_transaction db).0 ≡ true
        → saved (c.exec Script.begin_transaction db).1 ≡ contents db
    pub migration_done :
        (sql : List ℕ) (db : Db)
        → (c.exec (Script.migration sql) db).0 ≡ true
        → contents (c.exec (Script.migration sql) db).1 ≡ up sql (contents db)
    pub migration_saved :
        (sql : List ℕ) (db : Db) → saved (c.exec (Script.migration sql) db).1 ≡ saved db
    pub update_done :
        (n : ℕ) (db : Db)
        → (c.exec (Script.update_version n) db).0 ≡ true
        → contents (c.exec (Script.update_version n) db).1 ≡ versioned n (contents db)
    pub update_saved : (n : ℕ) (db : Db) → saved (c.exec (Script.update_version n) db).1 ≡ saved db
    pub rolled_back : (db : Db) → contents (c.exec Script.rollback db).1 ≡ saved db
    pub commit_contents : (db : Db) → contents (c.exec Script.commit db).1 ≡ contents db

  module _ {Schema : Type ℓ} (t : IsTransactional Schema)
      (commits : (db : Db) → (c.exec Script.commit db).0 ≡ true) where
    open t use {
      contents, saved, up, versioned, begin_contents, begin_saved, migration_done, migration_saved,
      update_done, update_saved, rolled_back, commit_contents,
    }

    -- The contents after some migrations.
    abbrev pub upgraded : List MigrationFile → Schema → Schema
    upgraded [] s = s
    upgraded (f ∷ fs) s = upgraded fs (versioned f.version (up f.up_sql s))

    apply_one_atomic :
        (f : MigrationFile) (db : Db)
        → contents (apply_one c f db).1
          ≡ (if (apply_one c f db).0 then upgraded (f ∷ []) (contents db) else contents db)
    unfolding apply_one
    apply_one_atomic f db =
        let begun = c.exec Script.begin_transaction db in
        let scripted = c.exec (Script.migration f.up_sql) begun.1 in
        let updated = c.exec (Script.update_version f.version) scripted.1 in
        elim (Bool-cases begun.0) [
          | inr h ↦ rw h (begin_contents db)
          | inl h ↦ elim (Bool-cases scripted.0) [
            | inr k ↦
                rw (h, k)
                  (rolled_back scripted.1 ∙ migration_saved f.up_sql begun.1 ∙ begin_saved db h)
            | inl k ↦ elim (Bool-cases updated.0) [
              | inr l ↦
                  rw (h, k, l)
                    (rolled_back updated.1
                      ∙ update_saved f.version scripted.1
                      ∙ migration_saved f.up_sql begun.1
                      ∙ begin_saved db h)
              | inl l ↦
                  rw (h, k, l, commits updated.1)
                    (commit_contents updated.1
                      ∙ update_done f.version scripted.1 l
                      ∙ ap (versioned f.version) (
                          migration_done f.up_sql begun.1 k ∙ ap (up f.up_sql) (begin_contents db)))
            ]
          ]
        ]

    -- The first `count` of the migrations took effect as a whole and the others not at all, and the result is the
    -- number of all of them, or it fails and one at least did not take effect.
    pub record Stops (todo : List MigrationFile) (applied : ℕ) (before : Db)
        (result : Option ℕ × Db) : Type ℓ where
      pub count : ℕ
      pub bounded : count ≤ length todo
      pub effect : contents result.1 ≡ upgraded (take count todo) (contents before)
      pub outcome :
          ((result.0 ≡ none) × (count < length todo))
          ⊎ ((result.0 ≡ some (applied + count)) × (count ≡ length todo))

    apply_all-Stops :
        (current applied : ℕ) (fs : List MigrationFile) (db : Db)
        → Stops (pending current fs) applied db (apply_all c current applied fs db)
    unfolding apply_all pending
    apply_all-Stops current applied [] db = record {
      count = 0;
      bounded = omega arith;
      effect = refl;
      outcome = inr (ap some (omega arith), refl);
    }
    apply_all-Stops current applied (f ∷ fs) db = elim (Bool-cases (leb f.version current)) [
      | inl old ↦ rw old (apply_all-Stops current applied fs db)
      | inr new ↦
          let one = apply_one c f db in
          let atomic = apply_one_atomic f db in
          elim (Bool-cases one.0) [
            | inr failed ↦
                rw (new, failed)
                  (record {
                    count = 0;
                    bounded = omega arith;
                    effect = rw failed at atomic;
                    outcome = inl (refl, omega arith);
                  })
            | inl done ↦
                let later = apply_all-Stops current (applied + 1) fs one.1 in
                let step : contents one.1 ≡ upgraded (f ∷ []) (contents db) = rw done at atomic in
                rw (new, done)
                  (record {
                    count = suc later.count;
                    bounded = omega (arith, later.bounded);
                    effect =
                        later.effect ∙ ap (upgraded (take later.count (pending current fs))) step;
                    outcome = elim later.outcome [
                      | inl (failed, left) ↦ inl (failed, omega (arith, left))
                      | inr (counted, all_done) ↦
                          inr (counted ∙ ap some (omega arith), ap suc all_done)
                    ];
                  })
          ]
    ]

    -- Once the version table is there, `apply` takes migrations as a whole, whichever statements fail: some of the
    -- pending migrations, from the first on, took effect, and of the others nothing is left. It returns their number
    -- if these are all of them, and else it fails. COMMIT succeeds, and no migration ends the transaction.
    pub apply-Stops :
        (entries : List (ℕ × String × List ℕ)) (db : Db)
        → (ensure_version_table c db).0 ≡ true
        → let ready = (ensure_version_table c db).1 in
          Stops (pending (current_version c ready) (discover entries)) 0 ready (apply c entries db)
    unfolding apply
    apply-Stops entries db h =
        let ready = (ensure_version_table c db).1 in
        rw h (apply_all-Stops (current_version c ready) 0 (discover entries) ready)

-- ===== src/Migration/Repeat.antt =====
-- src/storage/migration_runner.cpp: the version that `apply` leaves, and `apply` on a database that has it.
use mathlib.Core.Bool.{true≢false}
use pulseport.Migration.Pending.{discover-Ordered}
use pulseport.Migration.{
  Connection, MigrationFile, Script, apply_all, apply_one, apply, current_version, discover,
  ensure_version_table, seed_version,
}
use pulseport.Migration.Pending.{Ordered}
use pulseport.Prelude.{
  All, Bool-cases, List, Option, String, [], ap, arith, if◌then◌else◌, inl, inr, leb, none, refl,
  some, suc, sym, true, ℕ, ◌+◌, ◌<◌, ◌∷◌, ◌≡◌, ◌≤◌,
}

module _ {ℓ} {Db : Type ℓ} (c : Connection Db) where
  -- What SQLite documents of the statements on schema_version. `version` is the version in the row that
  -- SELECT finds, `none` where the table is not there or has no row; UPDATE changes every row.
  pub record IsVersioned : Type ℓ where
    pub version : Db → Option ℕ
    pub selected : (v : ℕ) (db : Db) → version db ≡ some v → c.select_version db ≡ some v
    pub counted :
        (v : ℕ) (db : Db) → version db ≡ some v → (k : ℕ) × (c.count_versions db ≡ some (suc k))
    pub created :
        (v : ℕ) (db : Db)
        → version db ≡ some v
        → version (c.exec Script.create_version_table db).1 ≡ some v
    pub begun :
        (v : ℕ) (db : Db)
        → version db ≡ some v
        → version (c.exec Script.begin_transaction db).1 ≡ some v
    pub updated :
        (n v : ℕ) (db : Db)
        → version db ≡ some v
        → (c.exec (Script.update_version n) db).0 ≡ true
        → version (c.exec (Script.update_version n) db).1 ≡ some n
    pub committed :
        (v : ℕ) (db : Db)
        → version db ≡ some v
        → (c.exec Script.commit db).0 ≡ true
        → version (c.exec Script.commit db).1 ≡ some v

  module _ (t : IsVersioned) where
    open t use {version, selected, counted, created, begun, updated, committed}

    -- The statements of a migration leave a row in schema_version.
    abbrev pub LeavesRow : MigrationFile → Type ℓ
    LeavesRow f =
        (v : ℕ) (db : Db)
        → version db ≡ some v
        → (c.exec (Script.migration f.up_sql) db).0 ≡ true
        → (w : ℕ) × (version (c.exec (Script.migration f.up_sql) db).1 ≡ some w)

    apply_one-version :
        (f : MigrationFile) (v : ℕ) (db : Db)
        → LeavesRow f
        → version db ≡ some v
        → (apply_one c f db).0 ≡ true
        → version (apply_one c f db).1 ≡ some f.version
    unfolding apply_one
    apply_one-version f v db leaves at_v done =
        let one = c.exec Script.begin_transaction db in
        let scripted = c.exec (Script.migration f.up_sql) one.1 in
        let versioned = c.exec (Script.update_version f.version) scripted.1 in
        elim (Bool-cases one.0) [
          | inr h ↦ absurd (true≢false (sym (rw h at done)))
          | inl h ↦ elim (Bool-cases scripted.0) [
            | inr k ↦ absurd (true≢false (sym (rw (h, k) at done)))
            | inl k ↦ elim (Bool-cases versioned.0) [
              | inr l ↦ absurd (true≢false (sym (rw (h, k, l) at done)))
              | inl l ↦
                  let row = leaves v one.1 (begun v db at_v) k in
                  let last = updated f.version row.0 scripted.1 row.1 l in
                  let ended : (c.exec Script.commit versioned.1).0 ≡ true = rw (h, k, l) at done in
                  rw (h, k, l) (committed f.version versioned.1 last ended)
            ]
          ]
        ]

    -- The version `reached` is that of no earlier file.
    pub record Reaches (fs : List MigrationFile) (v : ℕ) (db : Db) : Type ℓ where
      pub reached : ℕ
      pub at_reached : version db ≡ some reached
      pub grown : v ≤ reached
      pub covers : All (λ (f : MigrationFile). f.version ≤ reached) fs

    above :
        (current n : ℕ) (fs : List MigrationFile)
        → All (λ (g : MigrationFile). n ≤ g.version) fs
        → All (λ (g : MigrationFile). current < g.version → n ≤ g.version) fs
    above current n [] h = tt
    above current n (g ∷ fs) (hg, h) = (λ _. hg, above current n fs h)

    above_self :
        (v : ℕ) (fs : List MigrationFile)
        → All (λ (g : MigrationFile). v < g.version → v ≤ g.version) fs
    above_self v [] = tt
    above_self v (g ∷ fs) = (λ h. omega arith, above_self v fs)

    apply_all-Reaches :
        (current applied v n : ℕ) (fs : List MigrationFile) (db : Db)
        → All LeavesRow fs
        → Ordered fs
        → All (λ (f : MigrationFile). current < f.version → v ≤ f.version) fs
        → current ≤ v
        → version db ≡ some v
        → (apply_all c current applied fs db).0 ≡ some n
        → Reaches fs v (apply_all c current applied fs db).1
    unfolding apply_all
    apply_all-Reaches current applied v n [] db leaves o b le at_v done = record {
      reached = v;
      at_reached = at_v;
      grown = omega arith;
      covers = tt;
    }
    apply_all-Reaches current applied v n (f ∷ fs) db (lf, leaves) (of, o) (bf, b) le at_v done =
        let one = apply_one c f db in
        elim (Bool-cases (leb f.version current)) [
          | inl old ↦
              let later =
                apply_all-Reaches current applied v n fs db leaves o b le at_v (rw old at done) in
              rw old (record {
                reached = later.reached;
                at_reached = later.at_reached;
                grown = later.grown;
                covers = (ground (arith, later.grown), later.covers);
              })
          | inr new ↦ elim (Bool-cases one.0) [
            | inr failed ↦ let bad : none ≡ some n = rw (new, failed) at done in absurd cc
            | inl ok ↦
                let at_f = apply_one-version f v db lf at_v ok in
                let later =
                  apply_all-Reaches current (applied + 1) f.version n fs one.1 leaves o
                    (above current f.version fs of) (ground arith) at_f (rw (new, ok) at done) in
                let passed : v ≤ f.version = bf (ground arith) in
                rw (new, ok)
                  (record {
                    reached = later.reached;
                    at_reached = later.at_reached;
                    grown = omega (arith, passed, later.grown);
                    covers = (later.grown, later.covers);
                  })
          ]
        ]

    apply_all-covered :
        (current applied : ℕ) (fs : List MigrationFile) (db : Db)
        → All (λ (f : MigrationFile). f.version ≤ current) fs
        → apply_all c current applied fs db ≡ (some applied, db)
    unfolding apply_all
    apply_all-covered current applied [] db h = refl
    apply_all-covered current applied (f ∷ fs) db (old, h) =
        let skipped : leb f.version current ≡ true = ground arith in
        rw skipped (apply_all-covered current applied fs db h)

    -- The version table stays as it is when it has a row.
    ensure_version_table-version :
        (v : ℕ) (db : Db) → version db ≡ some v → version (ensure_version_table c db).1 ≡ some v
    unfolding ensure_version_table seed_version
    ensure_version_table-version v db at_v =
        let made = c.exec Script.create_version_table db in
        let kept = created v db at_v in
        elim (Bool-cases made.0) [
          | inr failed ↦ rw failed kept
          | inl ok ↦ rw (ok, (counted v made.1 kept).1) kept
        ]

    apply_lem :
        (entries : List (ℕ × String × List ℕ)) (v : ℕ) (db : Db)
        → let ready = ensure_version_table c db in
          version ready.1 ≡ some v
          → apply c entries db
            ≡ (if ready.0 then apply_all c v 0 (discover entries) ready.1 else (none, ready.1))
    unfolding apply current_version
    apply_lem entries v db at_v =
        let ready = ensure_version_table c db in
        ap
          (λ o.
            if ready.0
            then apply_all c (elim o [ none ↦ 0 | some k ↦ k ]) 0 (discover entries) ready.1
            else (none, ready.1))
          (selected v ready.1 at_v)

    pub apply-Reaches :
        (entries : List (ℕ × String × List ℕ)) (v n : ℕ) (db : Db)
        → All LeavesRow (discover entries)
        → version (ensure_version_table c db).1 ≡ some v
        → (apply c entries db).0 ≡ some n
        → Reaches (discover entries) v (apply c entries db).1
    apply-Reaches entries v n db leaves at_v done =
        let ready = ensure_version_table c db in
        let files = discover entries in
        let ran = apply_lem entries v db at_v in
        elim (Bool-cases ready.0) [
          | inr failed ↦ let bad : none ≡ some n = rw (ran, failed) at done in absurd cc
          | inl ok ↦
              rw (ran, ok)
                (apply_all-Reaches v 0 v n files ready.1 leaves (discover-Ordered entries)
                  (above_self v files) (omega arith) at_v (rw (ran, ok) at done))
        ]

    pub apply-covered :
        (entries : List (ℕ × String × List ℕ)) (w : ℕ) (db : Db)
        → version db ≡ some w
        → All (λ (f : MigrationFile). f.version ≤ w) (discover entries)
        → let again = ensure_version_table c db in
          apply c entries db ≡ (if again.0 then some 0 else none, again.1)
    apply-covered entries w db at_w old =
        let again = ensure_version_table c db in
        let ran = apply_lem entries w db (ensure_version_table-version w db at_w) in
        elim (Bool-cases again.0) [
          | inr failed ↦ rw (ran, failed) refl
          | inl ok ↦ rw (ran, ok) (apply_all-covered w 0 (discover entries) again.1 old)
        ]

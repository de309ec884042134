-- ===== src/Migration/Pending.antt =====
-- src/storage/migration_runner.cpp: the migrations above the current version, and their order.
use pulseport.Prelude.{
  All, Bool-cases, List, String, [], ap, arith, if◌then◌else◌, inl, inr, leb, length, ltb, refl,
  some, true, ℕ, ◌+◌, ◌∙◌, ◌∷◌, ◌≡◌, ◌≤◌,
}
use pulseport.Migration.{
  MigrationFile, Connection, Script, apply, apply_all, apply_one, current_version, discover,
  down_section, ensure_version_table, insert_by_version, up_section,
}

unfoldable pub pending : ℕ → List MigrationFile → List MigrationFile
pending current [] = []
pending current (f ∷ fs) =
    if leb f.version current then pending current fs else f ∷ pending current fs

-- Sorted by version.
abbrev pub Ordered : List MigrationFile → Type 0
Ordered [] = Unit
Ordered (f ∷ fs) = All (λ (g : MigrationFile). f.version ≤ g.version) fs × Ordered fs

insert_by_version-All :
    (n : ℕ) (f : MigrationFile) (fs : List MigrationFile)
    → n ≤ f.version
    → All (λ (g : MigrationFile). n ≤ g.version) fs
    → All (λ (g : MigrationFile). n ≤ g.version) (insert_by_version f fs)
unfolding insert_by_version
insert_by_version-All n f [] h hs = (h, tt)
insert_by_version-All n f (g ∷ fs) h (hg, hs) = elim (Bool-cases (ltb g.version f.version)) [
  | inl after ↦ rw after (hg, insert_by_version-All n f fs h hs)
  | inr here ↦ rw here (h, (hg, hs))
]

All-weaken :
    (n m : ℕ) (fs : List MigrationFile)
    → n ≤ m
    → All (λ (g : MigrationFile). m ≤ g.version) fs
    → All (λ (g : MigrationFile). n ≤ g.version) fs
All-weaken n m [] h hs = tt
All-weaken n m (f ∷ fs) h (hf, hs) = (omega arith, All-weaken n m fs h hs)

insert_by_version-Ordered :
    (f : MigrationFile) (fs : List MigrationFile) → Ordered fs → Ordered (insert_by_version f fs)
unfolding insert_by_version
insert_by_version-Ordered f [] h = (tt, tt)
insert_by_version-Ordered f (g ∷ fs) (hg, hs) = elim (Bool-cases (ltb g.version f.version)) [
  | inl after ↦
      rw after
        (insert_by_version-All g.version f fs (ground arith) hg, insert_by_version-Ordered f fs hs)
  | inr here ↦
      let below : f.version ≤ g.version = ground arith in
      rw here ((below, All-weaken f.version g.version fs below hg), (hg, hs))
]

pub discover-Ordered : (entries : List (ℕ × String × List ℕ)) → Ordered (discover entries)
unfolding discover
discover-Ordered [] = tt
discover-Ordered ((version, filename, content) ∷ entries) =
    insert_by_version-Ordered
      (record {
        version = version;
        filename = filename;
        up_sql = up_section content;
        down_sql = down_section content;
      })
      (discover entries) (discover-Ordered entries)

module _ {ℓ} {Db : Type ℓ} (c : Connection Db) where
  -- The statements of some migrations, one after the other.
  unfoldable pub migrate : List MigrationFile → Db → Db
  migrate [] db = db
  migrate (f ∷ fs) db =
      let scripted =
        (c.exec (Script.migration f.up_sql) (c.exec Script.begin_transaction db).1).1 in
      migrate fs (c.exec Script.commit (c.exec (Script.update_version f.version) scripted).1).1

  module _ (reliable : (s : Script) (db : Db) → (c.exec s db).0 ≡ true) where
    apply_one_lem :
        (f : MigrationFile) (db : Db)
        → ((apply_one c f db).0 ≡ true) × ((apply_one c f db).1 ≡ migrate (f ∷ []) db)
    unfolding apply_one migrate
    apply_one_lem f db =
        let begun = c.exec Script.begin_transaction db in
        let scripted = c.exec (Script.migration f.up_sql) begun.1 in
        let versioned = c.exec (Script.update_version f.version) scripted.1 in
        rw
          (
            reliable Script.begin_transaction db,
            reliable (Script.migration f.up_sql) begun.1,
            reliable (Script.update_version f.version) scripted.1,
          )
          (reliable Script.commit versioned.1, refl)

    apply_all_lem :
        (current applied : ℕ) (fs : List MigrationFile) (db : Db)
        → apply_all c current applied fs db
          ≡ (some (applied + length (pending current fs)), migrate (pending current fs) db)
    unfolding apply_all pending migrate
    apply_all_lem current applied [] db = ap (λ k. (some k, db)) (omega arith)
    apply_all_lem current applied (f ∷ fs) db = elim (Bool-cases (leb f.version current)) [
      | inl old ↦ rw old (apply_all_lem current applied fs db)
      | inr new ↦
          let (ok, same) = apply_one_lem f db in
          let ih = apply_all_lem current (applied + 1) fs (migrate (f ∷ []) db) in
          rw (new, ok, same)
            (ih
              ∙ ap (λ k. (some k, migrate (pending current fs) (migrate (f ∷ []) db)))
                  (omega arith))
    ]

    ensure_ready : (db : Db) → (ensure_version_table c db).0 ≡ true
    unfolding ensure_version_table
    ensure_ready db = rw (reliable Script.create_version_table db) refl

    -- Where every statement succeeds, `apply` runs the migrations above the version that it finds and no
    -- others, each once and in the order of their versions, and returns their number.
    pub apply_lem :
        (entries : List (ℕ × String × List ℕ)) (db : Db)
        → let ready = (ensure_version_table c db).1 in
          let todo = pending (current_version c ready) (discover entries) in
          (apply c entries db ≡ (some (length todo), migrate todo ready))
          × Ordered (discover entries)
    unfolding apply
    apply_lem entries db =
        let ready = (ensure_version_table c db).1 in
        let todo = pending (current_version c ready) (discover entries) in
        (
          rw (ensure_ready db) (
              apply_all_lem (current_version c ready) 0 (discover entries) ready
              ∙ ap (λ k. (some k, migrate todo ready)) (omega arith)),
          discover-Ordered entries,
        )

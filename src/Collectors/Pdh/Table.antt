-- ===== src/Collectors/Pdh/Table.antt =====
-- src/windows/pdh_collector.cpp: the samples of a table of counters.
use pulseport.Registry.Feed.{push_all}
use mathlib.Core.Path.{subst}
use pulseport.Registry.{latest, Entry}
use pulseport.Collectors.Recorded.{
  reported, reported-append, reported_single, IsRegistered, latest-push_all-unreported,
  latest-push_all-reported,
}
use pulseport.Collectors.Pdh.{PdhReadings, read_double, core_key, read_cores, read_memory}
use pulseport.Registry.{Registry, new_entry, register_metric}
use pulseport.Collectors.{register_all, sample}
use pulseport.Prelude.{
  All, Bool, Bool-cases, List, Option, Option-cases, String, [], arith, false, inl, inr, none, not,
  refl, some, str_eq, sym, true, ℕ, ◌&&◌, ◌++◌, ◌+◌, ◌∙◌, ◌∷◌, ◌≡◌,
}
use pulseport.Prelude.Int.{eqb_ℤ, pos, ℤ}
use pulseport.Prelude.Double.{Double}
use pulseport.Prelude.Dict.{lookup, lookup-insert}
use pulseport.Types.{MetricInfo, MetricSample, Quality}

module _ {H : Type 0} where
  -- A metric of none of the keys, in either order.
  abbrev pub Away : String → List (Option H × String × String) → Type 0
  Away key [] = Unit
  Away key ((h, other, unit) ∷ rest) =
      (str_eq other key ≡ false) × (str_eq key other ≡ false) × Away key rest

  abbrev pub Distinct : List (Option H × String × String) → Type 0
  Distinct [] = Unit
  Distinct ((h, key, unit) ∷ rest) = Away key rest × Distinct rest

  unfoldable is_away : String → List (Option H × String × String) → Bool
  is_away key [] = true
  is_away key ((h, other, unit) ∷ rest) =
      not (str_eq other key) && (not (str_eq key other) && is_away key rest)

  unfoldable pub are_distinct : List (Option H × String × String) → Bool
  unfolding is_away
  are_distinct [] = true
  are_distinct ((h, key, unit) ∷ rest) = is_away key rest && are_distinct rest

  is_away-Away :
      (key : String) (table : List (Option H × String × String))
      → is_away key table ≡ true
      → Away key table
  unfolding is_away
  is_away-Away key [] h = tt
  is_away-Away key ((g, other, unit) ∷ rest) h =
      (ground (arith, h), ground (arith, h), is_away-Away key rest (ground (arith, h)))

  pub are_distinct-Distinct :
      (table : List (Option H × String × String)) → are_distinct table ≡ true → Distinct table
  unfolding are_distinct
  are_distinct-Distinct [] h = tt
  are_distinct-Distinct ((g, key, unit) ∷ rest) h =
      (is_away-Away key rest (ground (arith, h)), are_distinct-Distinct rest (ground (arith, h)))

module _ {ℓ} {D : Type ℓ} ⦃d : Double D⦄ where
  -- No metric has a sample.
  abbrev pub IsBlank : Registry D → Type ℓ
  IsBlank r = (key : String) → latest r key ≡ none

  new_entry-unsampled :
      (info : MetricInfo) (e : Entry D) → new_entry info ≡ e → eqb_ℤ e.last_sample.ts (pos 0) ≡ true
  unfolding new_entry
  new_entry-unsampled info e h =
      subst (λ (x : Entry D). eqb_ℤ x.last_sample.ts (pos 0) ≡ true) h refl

  register_metric-IsBlank :
      (r : Registry D) (info : MetricInfo) → IsBlank r → IsBlank (register_metric r info)
  unfolding register_metric latest
  register_metric-IsBlank r info blank key = elim (Option-cases (lookup info.key r)) [
    | inr (f, found) ↦ rw (found, register_metric) (blank key)
    | inl none_at ↦
        rw (none_at, register_metric, latest, lookup-insert info.key key (new_entry info) r)
          (elim (Bool-cases (str_eq info.key key)) [
            | inl same ↦ rw (same, new_entry-unsampled info (new_entry info) refl) refl
            | inr other ↦ rw (other, latest) (blank key)
          ])
  ]

  pub latest_empty : (key : String) → latest {D = D} [] key ≡ none
  unfolding latest lookup
  latest_empty key = refl

  pub register_all-IsBlank :
      (infos : List MetricInfo) (r : Registry D) → IsBlank r → IsBlank (register_all r infos)
  unfolding register_all
  register_all-IsBlank [] r blank = blank
  register_all-IsBlank (info ∷ infos) r blank =
      register_all-IsBlank infos (register_metric r info) (register_metric-IsBlank r info blank)

  pub reported_skip :
      (key : String) (xs ys : List (MetricSample D))
      → reported key ys ≡ none
      → reported key (xs ++ ys) ≡ reported key xs
  unfolding reported
  reported_skip key [] ys h = h
  reported_skip key (x ∷ xs) ys h = rw (reported_skip key xs ys h) refl

  pub reported_front :
      (key : String) (xs ys : List (MetricSample D))
      → reported key xs ≡ none
      → reported key (xs ++ ys) ≡ reported key ys
  reported_front key xs ys h = elim (Option-cases (reported key ys)) [
    | inl e ↦ reported_skip key xs ys e ∙ h ∙ sym e
    | inr (t, e) ↦ reported-append key xs ys t e ∙ sym e
  ]

  reported-none : (key : String) → reported {D = D} key [] ≡ none
  unfolding reported
  reported-none key = refl

  reported_other :
      (key : String) (s : MetricSample D) → str_eq s.key key ≡ false → reported key (s ∷ []) ≡ none
  unfolding reported
  reported_other key s ne = rw ne refl

  module _ (decimal : ℕ → String) {H : Type 0} (now : PdhReadings D H) (ts : ℤ) where
    -- The sample that shows a counter.
    abbrev pub shown : Option H → (key unit : String) → Option (MetricSample D)
    shown none key unit = none
    shown (some counter) key unit = elim (now.formatted counter) [
      | none ↦ none
      | some v ↦ some (sample key v unit Quality.measured ts)
    ]

    reported-read_double :
        (h : Option H) (key unit : String)
        → reported key (read_double decimal now ts h key unit) ≡ shown h key unit
    unfolding read_double
    reported-read_double none key unit = reported-none key
    reported-read_double (some counter) key unit = elim (Option-cases (now.formatted counter)) [
      | inl h ↦ rw (h, read_double, shown) (reported-none key)
      | inr (v, h) ↦
          rw (h, read_double, shown)
            (reported_single key (sample key v unit Quality.measured ts) refl)
    ]

    reported-read_double_other :
        (h : Option H) (other unit key : String)
        → str_eq other key ≡ false
        → reported key (read_double decimal now ts h other unit) ≡ none
    unfolding read_double
    reported-read_double_other none other unit key ne = reported-none key
    reported-read_double_other (some counter) other unit key ne =
        elim (Option-cases (now.formatted counter)) [
          | inl h ↦ rw (h, read_double) (reported-none key)
          | inr (v, h) ↦
              rw (h, read_double) (reported_other key (sample other v unit Quality.measured ts) ne)
        ]

    abbrev pub read_all : List (Option H × String × String) → List (MetricSample D)
    read_all [] = []
    read_all ((h, key, unit) ∷ rest) = read_double decimal now ts h key unit ++ read_all rest

    reported-read_all-Away :
        (key : String) (table : List (Option H × String × String))
        → Away key table
        → reported key (read_all table) ≡ none
    reported-read_all-Away key [] away = reported-none key
    reported-read_all-Away key ((h, other, unit) ∷ rest) (ne, _, away) =
        reported_front key (read_double decimal now ts h other unit) (read_all rest)
          (reported-read_double_other h other unit key ne)
        ∙ reported-read_all-Away key rest away

    -- The samples have, for each metric of the table, the one that shows its counter.
    abbrev pub Shows : List (MetricSample D) → List (Option H × String × String) → Type ℓ
    Shows ss table =
        All (λ (x : Option H × String × String). reported x.1 ss ≡ shown x.0 x.1 x.2) table

    Shows-after :
        (h : Option H) (key unit : String) (ss : List (MetricSample D))
        (table : List (Option H × String × String))
        → Away key table
        → Shows ss table
        → Shows (read_double decimal now ts h key unit ++ ss) table
    Shows-after h key unit ss [] away known = tt
    Shows-after h key unit ss ((g, other, u) ∷ rest) (_, ne, away) (same, known) = (
      reported_front other (read_double decimal now ts h key unit) ss
            (reported-read_double_other h key unit other ne)
          ∙ same,
      Shows-after h key unit ss rest away known,
    )

    pub read_all-Shows :
        (table : List (Option H × String × String)) → Distinct table → Shows (read_all table) table
    read_all-Shows [] distinct = tt
    read_all-Shows ((h, key, unit) ∷ rest) (away, distinct) = (
      reported_skip key (read_double decimal now ts h key unit) (read_all rest)
            (reported-read_all-Away key rest away)
          ∙ reported-read_double h key unit,
      Shows-after h key unit (read_all rest) rest away (read_all-Shows rest distinct),
    )

    pub reported-read_cores :
        (key : String)
        → ((i : ℕ) → str_eq (core_key decimal i) key ≡ false)
        → (cores : List (Option H)) (i : ℕ)
        → reported key (read_cores decimal now ts cores i) ≡ none
    unfolding read_cores
    reported-read_cores key apart [] i = reported-none key
    reported-read_cores key apart (c ∷ cores) i =
        reported_front key (read_double decimal now ts c (core_key decimal i) "%") _
          (reported-read_double_other c (core_key decimal i) "%" key (apart i))
        ∙ reported-read_cores key apart cores (i + 1)

    pub reported-read_memory :
        (key : String)
        → str_eq "mem.used_pct" key ≡ false
        → reported key (read_memory decimal now ts) ≡ none
    unfolding read_memory
    reported-read_memory key ne = elim (Option-cases now.memory_load) [
      | inl h ↦ rw h (reported-none key)
      | inr (load, h) ↦ rw h (reported_other key _ ne)
    ]

    -- After the push of samples that have the one of a counter, or none without a value, `latest` returns it.
    pub latest-shown :
        (r : Registry D) (ss : List (MetricSample D)) (h : Option H) (key unit : String)
        → eqb_ℤ ts (pos 0) ≡ false
        → IsBlank r
        → IsRegistered r key
        → reported key ss ≡ shown h key unit
        → latest (push_all r ss) key ≡ shown h key unit
    latest-shown r ss none key unit ne blank registered known =
        latest-push_all-unreported ss r key known ∙ blank key
    latest-shown r ss (some counter) key unit ne blank registered known =
        elim (Option-cases (now.formatted counter)) [
          | inl h ↦
              let empty : shown (some counter) key unit ≡ none = rw (shown, h) refl in
              latest-push_all-unreported ss r key (known ∙ empty) ∙ blank key ∙ sym empty
          | inr (v, h) ↦
              let s : MetricSample D = sample key v unit Quality.measured ts in
              let full : shown (some counter) key unit ≡ some s = rw (shown, h) refl in
              latest-push_all-reported ss r key s registered (known ∙ full) ne ∙ sym full
        ]

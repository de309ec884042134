-- ===== src/Collectors/Recorded.antt =====
-- What the registry has after a collection: the last sample of each registered metric, and nothing of the others.
-- One of the metrics has the key and the unit.
use mathlib.Core.Option.{some-injective}
use pulseport.Registry.{latest}
use mathlib.Core.Path.{subst}
use pulseport.Collectors.{register_all, push_if}
use pulseport.Registry.Feed.{lookup-push_sample_other, push_all, lookup-push_sample_same}
use pulseport.Registry.{Entry, Registry, new_entry, push_sample, record_sample, register_metric}
use pulseport.Prelude.{
  All, Bool, Bool-cases, List, Option, Option-cases, String, [], ap, arith, eq_iff, false,
  if◌then◌else◌, inl, inr, none, refl, some, str_eq, sym, true, ◌++◌, ◌∙◌, ◌∷◌, ◌≡◌, ◌⊎◌,
}
use pulseport.Prelude.Int.{eqb_ℤ, pos}
use pulseport.Prelude.Double.{Double}
use pulseport.Prelude.Dict.{lookup, lookup-insert, lookup-insert_self}
use pulseport.Types.{MetricInfo, MetricSample}

abbrev pub IsListed : String → String → List MetricInfo → Type 0
IsListed key unit [] = ⊥
IsListed key unit (info ∷ infos) = ((info.key ≡ key) × (info.unit ≡ unit)) ⊎ IsListed key unit infos

module _ {ℓ} {D : Type ℓ} ⦃d : Double D⦄ where
  -- The last of the samples that has the key.
  unfoldable pub reported : String → List (MetricSample D) → Option (MetricSample D)
  reported key [] = none
  reported key (s ∷ ss) = elim (reported key ss) [
    | some t ↦ some t
    | none ↦ if str_eq s.key key then some s else none
  ]

  -- The metric has an entry.
  abbrev pub IsRegistered : Registry D → String → Type ℓ
  IsRegistered r key = (e : Entry D) × (lookup key r ≡ some e)

  pub push_sample-IsRegistered :
      (r : Registry D) (s : MetricSample D) (key : String)
      → IsRegistered r key
      → IsRegistered (push_sample r s) key
  unfolding push_sample
  push_sample-IsRegistered r s key (e, h) = elim (Option-cases (lookup s.key r)) [
    | inl none_at ↦ rw (none_at, push_sample) (e, h)
    | inr (f, found) ↦
        rw (found, push_sample, lookup-insert s.key key (record_sample f s) r)
          (elim (Bool-cases (str_eq s.key key)) [
            | inl same ↦ rw same (record_sample f s, refl)
            | inr other ↦ rw other (e, h)
          ])
  ]

  register_metric-IsRegistered :
      (r : Registry D) (info : MetricInfo) (key : String)
      → IsRegistered r key
      → IsRegistered (register_metric r info) key
  unfolding register_metric
  register_metric-IsRegistered r info key (e, h) = elim (Option-cases (lookup info.key r)) [
    | inr (f, found) ↦ rw (found, register_metric) (e, h)
    | inl none_at ↦
        rw (none_at, register_metric, lookup-insert info.key key (new_entry info) r)
          (elim (Bool-cases (str_eq info.key key)) [
            | inl same ↦ rw same (new_entry info, refl)
            | inr other ↦ rw other (e, h)
          ])
  ]

  register_metric-IsRegistered_self :
      (r : Registry D) (info : MetricInfo) → IsRegistered (register_metric r info) info.key
  unfolding register_metric
  register_metric-IsRegistered_self r info = elim (Option-cases (lookup info.key r)) [
    | inr (f, found) ↦ rw (found, register_metric) (f, found)
    | inl none_at ↦
        rw (none_at, register_metric)
          (new_entry info, lookup-insert_self info.key (new_entry info) r)
  ]

  pub register_all-IsRegistered :
      (infos : List MetricInfo) (r : Registry D) (key : String)
      → IsRegistered r key
      → IsRegistered (register_all r infos) key
  unfolding register_all
  register_all-IsRegistered [] r key h = h
  register_all-IsRegistered (info ∷ infos) r key h =
      register_all-IsRegistered infos (register_metric r info) key
        (register_metric-IsRegistered r info key h)

  pub register_all-IsListed :
      (infos : List MetricInfo) (r : Registry D) (key unit : String)
      → IsListed key unit infos
      → IsRegistered (register_all r infos) key
  unfolding register_all
  register_all-IsListed [] r key unit h = elim h [ ]
  register_all-IsListed (info ∷ infos) r key unit (inl (same, _)) =
      register_all-IsRegistered infos (register_metric r info) key (
        subst (IsRegistered (register_metric r info)) same
          (register_metric-IsRegistered_self r info))
  register_all-IsListed (info ∷ infos) r key unit (inr h) =
      register_all-IsListed infos (register_metric r info) key unit h

  -- A metric with no sample among those pushed keeps its entry.
  pub lookup-push_all_other :
      (ss : List (MetricSample D)) (r : Registry D) (key : String)
      → reported key ss ≡ none
      → lookup key (push_all r ss) ≡ lookup key r
  unfolding reported push_all
  lookup-push_all_other [] r key h = refl
  lookup-push_all_other (s ∷ ss) r key h = elim (Option-cases (reported key ss)) [
    | inr (t, found) ↦ ground arith
    | inl later ↦ elim (Bool-cases (str_eq s.key key)) [
      | inl same ↦ ground arith
      | inr other ↦
          lookup-push_all_other ss (push_sample r s) key later
          ∙ lookup-push_sample_other r s key other
    ]
  ]

  -- After samples were pushed, `latest` returns the last of them that has the key of a registered metric,
  -- if its time stamp is not 0.
  pub latest-push_all-reported :
      (ss : List (MetricSample D)) (r : Registry D) (key : String) (s : MetricSample D)
      → IsRegistered r key
      → reported key ss ≡ some s
      → eqb_ℤ s.ts (pos 0) ≡ false
      → latest (push_all r ss) key ≡ some s
  unfolding reported push_all latest record_sample
  latest-push_all-reported [] r key s reg h ne = ground arith
  latest-push_all-reported (t ∷ ss) r key s (e, found) h ne =
      elim (Option-cases (reported key ss)) [
        | inr (u, later) ↦
            latest-push_all-reported ss (push_sample r t) key s
              (push_sample-IsRegistered r t key (e, found)) (later ∙ (rw later at h)) ne
        | inl later ↦ elim (Bool-cases (str_eq t.key key)) [
          | inr other ↦ ground arith
          | inl same ↦
              let r2 = push_sample r t in
              let same_key : t.key ≡ key = (eq_iff t.key key).0 same in
              let at : lookup key r2 ≡ some (record_sample e t) =
                subst (λ k. lookup k r2 ≡ some (record_sample e t)) same_key
                  (lookup-push_sample_same r t e
                    (subst (λ k. lookup k r ≡ some e) (sym same_key) found)) in
              let is_s : t ≡ s = some-injective t s (rw (later, same) at h) in
              let now = lookup-push_all_other ss r2 key later ∙ at in
              let not_zero : eqb_ℤ t.ts (pos 0) ≡ false =
                subst (λ (x : MetricSample D). eqb_ℤ x.ts (pos 0) ≡ false) (sym is_s) ne in
              let goal : latest (push_all r2 ss) key ≡ some s =
                rw (now, latest, not_zero) (ap some is_s) in
              goal
        ]
      ]

  pub latest-push_all-unreported :
      (ss : List (MetricSample D)) (r : Registry D) (key : String)
      → reported key ss ≡ none
      → latest (push_all r ss) key ≡ latest r key
  unfolding latest
  latest-push_all-unreported ss r key h = rw (latest, lookup-push_all_other ss r key h) refl

  pub reported-append :
      (key : String) (ss later : List (MetricSample D)) (s : MetricSample D)
      → reported key later ≡ some s
      → reported key (ss ++ later) ≡ some s
  unfolding reported
  reported-append key [] later s h = h
  reported-append key (t ∷ ss) later s h = rw (reported-append key ss later s h)

  pub reported_single :
      (key : String) (s : MetricSample D) → s.key ≡ key → reported key (s ∷ []) ≡ some s
  unfolding reported
  reported_single key s h = rw ((eq_iff s.key key).1 h) refl

  -- A push under an `if`, followed by others.
  pub push_if-All {κ} :
      (P : MetricSample D → Type κ) (b : Bool) (s : MetricSample D) (later : List (MetricSample D))
      → P s
      → All P later
      → All P (push_if b s ++ later)
  unfolding push_if
  push_if-All P true s later h hs = (h, hs)
  push_if-All P false s later h hs = hs

  pub All-register_all :
      (infos : List MetricInfo) (r : Registry D) (ss : List (MetricSample D))
      → All (λ s. IsListed s.key s.unit infos) ss
      → All (λ s. IsRegistered (register_all r infos) s.key) ss
  All-register_all infos r [] h = tt
  All-register_all infos r (s ∷ ss) (h, hs) =
      (register_all-IsListed infos r s.key s.unit h, All-register_all infos r ss hs)

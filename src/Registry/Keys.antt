-- ===== src/Registry/Keys.antt =====
-- The keys of the entries of src/core/metric_registry.cpp: the map's, and those of their samples.
use pulseport.Registry.Feed.{push_all}
use pulseport.Collectors.{register_all}
use pulseport.Registry.{Entry, Registry, new_entry, push_sample, record_sample, register_metric}
use pulseport.Prelude.{
  Bool-cases, List, Option-cases, String, [], eq_iff, inl, inr, refl, str_eq, sym, ◌∙◌, ◌∷◌, ◌≡◌,
}
use pulseport.Prelude.Double.{Double}
use pulseport.Prelude.Dict.{IsMap, insert, insert-IsMap, lookup}
use pulseport.Types.{MetricInfo, MetricSample}

module _ {ℓ} {D : Type ℓ} ⦃d : Double D⦄ where
  -- The last sample of each entry has the entry's key.
  abbrev pub KeysMatch : Registry D → Type 0
  KeysMatch [] = Unit
  KeysMatch ((key, e) ∷ r) = (e.last_sample.key ≡ key) × KeysMatch r

  insert-KeysMatch :
      (r : Registry D) (key : String) (e : Entry D)
      → e.last_sample.key ≡ key
      → KeysMatch r
      → KeysMatch (insert key e r)
  unfolding insert
  insert-KeysMatch [] key e h all = (h, tt)
  insert-KeysMatch ((j, f) ∷ r) key e h (g, all) = elim (Bool-cases (str_eq j key)) [
    | inl same ↦ rw (same, KeysMatch) (h ∙ sym ((eq_iff j key).0 same), all)
    | inr other ↦ rw (other, KeysMatch) (g, insert-KeysMatch r key e h all)
  ]

  pub push_sample-KeysMatch :
      (r : Registry D) (s : MetricSample D) → KeysMatch r → KeysMatch (push_sample r s)
  unfolding push_sample record_sample
  push_sample-KeysMatch r s h = elim (Option-cases (lookup s.key r)) [
    | inl missing ↦ rw (missing, push_sample) h
    | inr (e, found) ↦ rw (found, push_sample) (insert-KeysMatch r s.key (record_sample e s) refl h)
  ]

  pub register_metric-KeysMatch :
      (r : Registry D) (info : MetricInfo) → KeysMatch r → KeysMatch (register_metric r info)
  unfolding register_metric new_entry
  register_metric-KeysMatch r info h = elim (Option-cases (lookup info.key r)) [
    | inl missing ↦
        rw (missing, register_metric) (insert-KeysMatch r info.key (new_entry info) refl h)
    | inr (e, found) ↦ rw (found, register_metric) h
  ]

  pub push_sample-IsMap : (r : Registry D) (s : MetricSample D) → IsMap r → IsMap (push_sample r s)
  unfolding push_sample
  push_sample-IsMap r s h = elim (Option-cases (lookup s.key r)) [
    | inl missing ↦ rw (missing, push_sample) h
    | inr (e, found) ↦ rw (found, push_sample) (insert-IsMap s.key (record_sample e s) r h)
  ]

  pub register_metric-IsMap :
      (r : Registry D) (info : MetricInfo) → IsMap r → IsMap (register_metric r info)
  unfolding register_metric
  register_metric-IsMap r info h = elim (Option-cases (lookup info.key r)) [
    | inl missing ↦ rw (missing, register_metric) (insert-IsMap info.key (new_entry info) r h)
    | inr (e, found) ↦ rw (found, register_metric) h
  ]

  pub register_all-KeysMatch :
      (infos : List MetricInfo) (r : Registry D) → KeysMatch r → KeysMatch (register_all r infos)
  unfolding register_all
  register_all-KeysMatch [] r h = h
  register_all-KeysMatch (info ∷ infos) r h =
      register_all-KeysMatch infos (register_metric r info) (register_metric-KeysMatch r info h)

  pub register_all-IsMap :
      (infos : List MetricInfo) (r : Registry D) → IsMap r → IsMap (register_all r infos)
  unfolding register_all
  register_all-IsMap [] r h = h
  register_all-IsMap (info ∷ infos) r h =
      register_all-IsMap infos (register_metric r info) (register_metric-IsMap r info h)

  pub push_all-KeysMatch :
      (ss : List (MetricSample D)) (r : Registry D) → KeysMatch r → KeysMatch (push_all r ss)
  unfolding push_all
  push_all-KeysMatch [] r h = h
  push_all-KeysMatch (s ∷ ss) r h =
      push_all-KeysMatch ss (push_sample r s) (push_sample-KeysMatch r s h)

  pub push_all-IsMap :
      (ss : List (MetricSample D)) (r : Registry D) → IsMap r → IsMap (push_all r ss)
  unfolding push_all
  push_all-IsMap [] r h = h
  push_all-IsMap (s ∷ ss) r h = push_all-IsMap ss (push_sample r s) (push_sample-IsMap r s h)

-- ===== src/Registry.antt =====
-- include/pulseport/metric_registry.h and src/core/metric_registry.cpp: the registered metrics, each with
-- its live ring of 2048 samples. Every operation holds the registry's mutex, so each is one step.
use pulseport.Prelude.{List, Option, String, [], if◌then◌else◌, map, none, some, ℕ, ◌∷◌}
use pulseport.Prelude.Int.{eqb_ℤ, pos}
use pulseport.Prelude.Double.{Double}
use pulseport.Prelude.Dict.{Dict, insert, lookup, values}
use pulseport.Types.{MetricInfo, MetricSample, empty_sample}
pub mod Feed
pub mod Keys
use pulseport.RingBuffer.{RingBuffer, empty_ring}
use pulseport.RingBuffer

-- `RingBuffer<MetricSample, 2048>`
abbrev pub live_bits : ℕ
live_bits = 11

pub record Entry {ℓ} (D : Type ℓ) : Type ℓ where
  pub info : MetricInfo
  pub buffer : RingBuffer (MetricSample D)
  pub last_sample : MetricSample D

abbrev pub Registry {ℓ} : Type ℓ → Type ℓ
Registry D = Dict (Entry D)

module _ {ℓ} {D : Type ℓ} ⦃d : Double D⦄ where
  -- A new entry: an empty ring, and a sample with the key and unit of the metric and time stamp 0.
  unfoldable pub new_entry : MetricInfo → Entry D
  unfolding empty_ring
  new_entry info = record {
    info = info;
    buffer = empty_ring live_bits empty_sample;
    last_sample = record (empty_sample {D = D}) { key = info.key; unit = info.unit };
  }

  unfoldable pub register_metric : Registry D → MetricInfo → Registry D
  register_metric r info = elim (lookup info.key r) [
    | some e ↦ r
    | none ↦ insert info.key (new_entry info) r
  ]

  -- The entry after a sample was pushed to it.
  unfoldable pub record_sample : Entry D → MetricSample D → Entry D
  record_sample e s = record e {
    buffer = RingBuffer.push live_bits empty_sample e.buffer s;
    last_sample = s;
  }

  unfoldable pub push_sample : Registry D → MetricSample D → Registry D
  push_sample r s = elim (lookup s.key r) [ none ↦ r | some e ↦ insert s.key (record_sample e s) r ]

  unfoldable pub latest : Registry D → String → Option (MetricSample D)
  latest r key = elim (lookup key r) [
    | none ↦ none
    | some e ↦ if eqb_ℤ e.last_sample.ts (pos 0) then none else some e.last_sample
  ]

  unfoldable pub all_metrics : Registry D → List MetricInfo
  all_metrics r = map (λ (e : Entry D). e.info) (values r)

  -- The loop of `snapshot` over the entries.
  unfoldable pub sampled : List (Entry D) → List (MetricSample D)
  sampled [] = []
  sampled (e ∷ es) =
      if eqb_ℤ e.last_sample.ts (pos 0) then sampled es else e.last_sample ∷ sampled es

  unfoldable pub snapshot : Registry D → List (MetricSample D)
  unfolding sampled values
  snapshot r = sampled (values r)

  unfoldable pub recent : Registry D → String → ℕ → List (MetricSample D)
  recent r key count = elim (lookup key r) [
    | none ↦ []
    | some e ↦ RingBuffer.peek_last live_bits empty_sample e.buffer count
  ]

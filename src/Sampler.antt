-- ===== src/Sampler.antt =====
-- include/pulseport/sampler.h and src/core/sampler.cpp: the scheduler that drives the collectors on a tick of
-- one second. A collector is a function on the world that it observes and changes; an exception that it
-- throws is caught, so the world it leaves is all that counts. The waitable timer is the sequence of ticks.
pub mod Cadence
pub mod Lifecycle
pub mod Loop
pub mod Invariant
use pulseport.Prelude.{
  Bool, List, Option, String, [], false, if◌then◌else◌, leb, none, some, suc, true, zero, ℕ, ◌%◌,
  ◌++◌, ◌+◌, ◌^◌, ◌∷◌,
}

abbrev pub tick_ms : ℕ
tick_ms = 1000

pub record Collector {ℓ} (W : Type ℓ) : Type ℓ where
  pub name : String
  pub interval_ms : ℕ
  pub elapsed_ms : ℕ
  pub fn : W → W

module _ {ℓ} {W : Type ℓ} where
  abbrev pub started : String → ℕ → (W → W) → Collector W
  started name interval_ms fn = record {
    name = name;
    interval_ms = interval_ms;
    elapsed_ms = 0;
    fn = fn;
  }

  unfoldable pub add_collector : String → ℕ → (W → W) → List (Collector W) → List (Collector W)
  add_collector name interval_ms fn collectors = collectors ++ started name interval_ms fn ∷ []

  -- The `uint32_t` counter of a collector at a tick, and whether the collector runs.
  unfoldable pub advance : Collector W → Collector W × Bool
  advance c =
      let elapsed = (c.elapsed_ms + tick_ms) % 2 ^ 32 in
      if leb c.interval_ms elapsed
      then (record c { elapsed_ms = 0 }, true)
      else (record c { elapsed_ms = elapsed }, false)

  -- The loop over the collectors of one tick.
  unfoldable pub tick_collectors : List (Collector W) → W → List (Collector W) × W
  unfolding advance
  tick_collectors [] w = ([], w)
  tick_collectors (c ∷ cs) w =
      let after = advance c in
      let rest = tick_collectors cs (if after.1 then c.fn w else w) in (after.0 ∷ rest.0, rest.1)

  -- One tick: the collectors, then the callback, if one is set.
  unfoldable pub tick : Option (W → W) → List (Collector W) × W → List (Collector W) × W
  unfolding tick_collectors
  tick post_tick (cs, w) =
      let after = tick_collectors cs w in
      (after.0, elim post_tick [ none ↦ after.1 | some f ↦ f after.1 ])

  -- The loop of `run` until it is stopped after `n` ticks.
  unfoldable pub run : ℕ → Option (W → W) → List (Collector W) × W → List (Collector W) × W
  unfolding tick
  run zero post_tick s = s
  run (suc n) post_tick s = tick post_tick (run n post_tick s)

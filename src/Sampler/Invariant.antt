-- ===== src/Sampler/Invariant.antt =====
-- What the ticks of src/core/sampler.cpp keep.
use mathlib.Core.Path.{subst}
use pulseport.Sampler
use pulseport.Prelude.{All, Bool-cases, List, [], arith, if◌then◌else◌, inl, inr, sym, ◌∷◌, ◌≡◌}

module _ {ℓ κ} {W : Type ℓ} (P : W → Type κ) where
  -- The function of each collector keeps `P`.
  abbrev pub Keep : List (Sampler.Collector W) → Type (ℓ ⊔ κ)
  Keep = All (λ c. (w : W) → P w → P (c.fn w))

  advance-fn : (c : Sampler.Collector W) → (Sampler.advance c).0.fn ≡ c.fn
  unfolding Sampler.advance
  advance-fn c = ground arith

  pub tick_collectors-Keep :
      (cs : List (Sampler.Collector W)) (w : W)
      → Keep cs
      → P w
      → Keep (Sampler.tick_collectors cs w).0 × P (Sampler.tick_collectors cs w).1
  unfolding Sampler.tick_collectors
  tick_collectors-Keep [] w keeps p = (tt, p)
  tick_collectors-Keep (c ∷ cs) w (keep, keeps) p =
      let ran : P (if (Sampler.advance c).1 then c.fn w else w) =
        elim (Bool-cases (Sampler.advance c).1) [
          | inl runs ↦ rw runs (keep w p)
          | inr waits ↦ rw waits p
        ] in
      let rest = tick_collectors-Keep cs (if (Sampler.advance c).1 then c.fn w else w) keeps ran in
      ((subst (λ (f : W → W). (v : W) → P v → P (f v)) (sym (advance-fn c)) keep, rest.0), rest.1)

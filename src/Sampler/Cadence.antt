-- ===== src/Sampler/Cadence.antt =====
-- src/core/sampler.cpp: how often a collector runs.
use pulseport.Server.Sha1.{round}
use native.Mathlib.Nat.{mod-lt, add-mul-div_right, div-eq_of_lt, div-add-mod'}
use pulseport.Sampler.{Collector, advance, started, tick, tick_collectors}
use pulseport.Prelude.{
  String, [], arith, dec_lt, false, leb, max, none, refl, suc, true, zero, ℕ, ◌%◌, ◌*◌, ◌+◌, ◌/◌,
  ◌<◌, ◌^◌, ◌∙◌, ◌∷◌, ◌≡◌,
}
use pulseport.Prelude.Bits.{mod_unique}
use pulseport.Sampler

-- The ticks between two runs of a collector; an interval of 0 is one tick.
unfoldable pub period : ℕ → ℕ
period interval_ms = max 1 ((interval_ms + 999) / 1000)

-- The collector that counts its own runs.
abbrev pub counting : String → ℕ → Collector ℕ
counting name interval_ms = started name interval_ms suc

div_unique : (n m q r : ℕ) → 0 < m → n ≡ r + q * m → r < m → n / m ≡ q
div_unique n m q r m_pos e h =
    rw e (add-mul-div_right r q m_pos ∙ omega (arith, div-eq_of_lt {n = r} {m = m} h))

next_within : (p k : ℕ) → suc (k % p) < p → (suc k / p ≡ k / p) × (suc k % p ≡ suc (k % p))
next_within p k h =
    let whole : suc k ≡ suc (k % p) + k / p * p = omega (arith, div-add-mod' k p) in
    (
      div_unique (suc k) p (k / p) (suc (k % p)) (omega arith) whole h,
      mod_unique (suc k) p (k / p) (suc (k % p)) whole h,
    )

next_round : (p k : ℕ) → 0 < p → suc (k % p) ≡ p → (suc k / p ≡ suc (k / p)) × (suc k % p ≡ 0)
next_round p k p_pos h =
    let whole : suc k ≡ 0 + suc (k / p) * p = omega (arith, div-add-mod' k p) in
    (
      div_unique (suc k) p (suc (k / p)) 0 p_pos whole p_pos,
      mod_unique (suc k) p (suc (k / p)) 0 whole p_pos,
    )

period_pos : (interval_ms : ℕ) → 0 < period interval_ms
unfolding period
period_pos interval_ms = omega arith

-- The counter after a tick.
advance_within :
    (name : String) (interval_ms j : ℕ)
    → interval_ms + 1000 < 2 ^ 32
    → suc j < period interval_ms
    → advance (record (counting name interval_ms) { elapsed_ms = 1000 * j })
      ≡ (record (counting name interval_ms) { elapsed_ms = 1000 * suc j }, false)
unfolding advance period
advance_within name interval_ms j h within =
    let sum : (1000 * j + 1000) % 2 ^ 32 ≡ 1000 * suc j = omega arith in
    let early : leb interval_ms (1000 * suc j) ≡ false = ground arith in rw (sum, early) refl

advance_round :
    (name : String) (interval_ms j : ℕ)
    → interval_ms + 1000 < 2 ^ 32
    → suc j ≡ period interval_ms
    → advance (record (counting name interval_ms) { elapsed_ms = 1000 * j })
      ≡ (counting name interval_ms, true)
unfolding advance period
advance_round name interval_ms j h round =
    let sum : (1000 * j + 1000) % 2 ^ 32 ≡ 1000 * suc j = omega arith in
    let due : leb interval_ms (1000 * suc j) ≡ true = ground arith in rw (sum, due) refl

-- After `k` ticks a collector that was added alone, with no callback after a tick and an interval below
-- 2 ^ 32 - 1000 ms, has run `k / period` times, and its counter shows the ticks since its last run.
pub run-period :
    (k : ℕ) (name : String) (interval_ms : ℕ)
    → interval_ms + 1000 < 2 ^ 32
    → Sampler.run k none (counting name interval_ms ∷ [], 0) ≡ (
      record (counting name interval_ms) { elapsed_ms = 1000 * (k % period interval_ms) } ∷ [],
      k / period interval_ms,
    )
unfolding Sampler.run tick tick_collectors
run-period zero name interval_ms h =
    let p_pos = period_pos interval_ms in
    let none_yet : 0 % period interval_ms ≡ 0 =
      mod_unique 0 (period interval_ms) 0 0 (omega arith) p_pos in
    let no_run : 0 / period interval_ms ≡ 0 =
      div_unique 0 (period interval_ms) 0 0 p_pos (omega arith) p_pos in
    rw (none_yet, no_run) refl
run-period (suc k) name interval_ms h =
    let p = period interval_ms in
    let ih = run-period k name interval_ms h in
    elim (dec_lt (suc (k % p)) p) [
      | yes within ↦
          let (same, next) = next_within p k within in
          rw (ih, advance_within name interval_ms (k % p) h within, same, next) refl
      | no full ↦
          let round : suc (k % p) ≡ p = omega (arith, mod-lt k (period_pos interval_ms), full) in
          let (one_more, start) = next_round p k (period_pos interval_ms) round in
          rw (ih, advance_round name interval_ms (k % p) h round, one_more, start) refl
    ]

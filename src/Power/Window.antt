-- ===== src/Power/Window.antt =====
-- src/metrics/power_pipeline.cpp: the window after a sequence of readings, and the average over it.
use pulseport.Power.{
  PowerSample, PowerPipeline, max_window, blank_power, new_pipeline, update, avg_loop, avg_watts,
  mean,
}
use pulseport.Prelude.{
  Bool-cases, List, [], ap, ap₂, arith, drop, drop-get_or, get_or, get_or-set_ne, get_or-set_self,
  if◌then◌else◌, inl, inr, length, length-replicate, length-set, ltb, map, min, ne→==_false, refl,
  set, suc, take, take-min, zero, ℕ, ◌%◌, ◌+◌, ◌-◌, ◌<◌, ◌∙◌, ◌∷◌, ◌≡◌, ◌≢◌,
}
use pulseport.Prelude.Int.{ltb_ℤ, pos, ℤ, ◌-ℤ◌}
use pulseport.Prelude.Double.{Double}
use pulseport.Types.{Quality}

module _ {ℓ} {D : Type ℓ} ⦃d : Double D⦄ where
  -- The pipeline after some readings, the newest of which stands first in the list.
  unfoldable pub after_readings : List (PowerSample D × Quality) → PowerPipeline D
  after_readings [] = new_pipeline
  after_readings ((s, q) ∷ older) = update (after_readings older) s.watts q s.ts

  abbrev pub samples_of : List (PowerSample D × Quality) → List (PowerSample D)
  samples_of = map (λ (r : PowerSample D × Quality). r.0)

  -- The window holds the newest readings of `log`, newest first, back from the head.
  record Covers (p : PowerPipeline D) (log : List (PowerSample D)) : Type ℓ where
    room : length p.window ≡ max_window
    head_in : p.window_head < max_window
    counted : p.window_count ≡ min (length log) max_window
    stored :
        (i : ℕ)
        → i < p.window_count
        → get_or p.window ((p.window_head + max_window - 1 - i) % max_window) blank_power
          ≡ get_or log i blank_power

  stored-update :
      (p : PowerPipeline D) (log : List (PowerSample D)) (s : PowerSample D)
      → Covers p log
      → (i : ℕ) → i < (if ltb p.window_count max_window then p.window_count + 1 else p.window_count)
      → get_or
          (set p.window p.window_head s)
          (((p.window_head + 1) % max_window + max_window - 1 - i) % max_window)
          blank_power
        ≡ get_or (s ∷ log) i blank_power
  stored-update p log s c zero lt =
      let at_head : ((p.window_head + 1) % max_window + max_window - 1 - 0) % max_window
          ≡ p.window_head =
        omega (arith, c.head_in) in
      rw at_head
        (get_or-set_self p.window p.window_head s blank_power (omega (arith, c.room, c.head_in)))
  stored-update p log s c (suc i) lt =
      let small : (i < p.window_count) × (i + 1 < max_window) = ground (arith, c.counted) in
      let back : ((p.window_head + 1) % max_window + max_window - 1 - suc i) % max_window
          ≡ (p.window_head + max_window - 1 - i) % max_window =
        omega (arith, c.head_in) in
      let other : p.window_head ≢ (p.window_head + max_window - 1 - i) % max_window =
        omega (arith, c.head_in) in
      rw
        (
          back,
          get_or-set_ne p.window p.window_head ((p.window_head + max_window - 1 - i) % max_window) s
              blank_power other,
        )
        (c.stored i small.0)

  update-Covers :
      (p : PowerPipeline D) (log : List (PowerSample D)) (s : PowerSample D) (q : Quality)
      → Covers p log
      → Covers (update p s.watts q s.ts) (s ∷ log)
  unfolding update
  update-Covers p log s q c = record {
    room = length-set p.window p.window_head s ∙ c.room;
    head_in = omega arith;
    counted = ground (arith, c.counted);
    stored = stored-update p log s c;
  }

  after_readings-Covers :
      (rs : List (PowerSample D × Quality)) → Covers (after_readings rs) (samples_of rs)
  unfolding after_readings new_pipeline
  after_readings-Covers [] = record {
    room = length-replicate max_window (blank_power {D = D});
    head_in = omega arith;
    counted = refl;
    stored = λ i h. elim h [ ];
  }
  after_readings-Covers ((s, q) ∷ older) =
      update-Covers (after_readings older) (samples_of older) s q (after_readings-Covers older)

  -- The readings before the first one that is older than the cutoff.
  unfoldable pub fresh : ℤ → List (PowerSample D) → List (PowerSample D)
  fresh cutoff [] = []
  fresh cutoff (s ∷ log) = if ltb_ℤ s.ts cutoff then [] else s ∷ fresh cutoff log

  -- The watts added up in the order of the list.
  unfoldable pub total_watts : D → List (PowerSample D) → D
  total_watts sum [] = sum
  total_watts sum (s ∷ log) = total_watts (d.add sum s.watts) log

  avg_loop-fresh :
      (p : PowerPipeline D) (log : List (PowerSample D)) (cutoff : ℤ) (n i count : ℕ) (sum : D)
      → Covers p log
      → i + n ≡ p.window_count
      → let run = fresh cutoff (take n (drop i log)) in
        avg_loop p cutoff n i sum count ≡ (total_watts sum run, count + length run)
  unfolding avg_loop fresh total_watts
  avg_loop-fresh p log cutoff zero i count sum c e = ap (λ k. (sum, k)) (omega arith)
  avg_loop-fresh p log cutoff (suc n) i count sum c e =
      let s : PowerSample D = get_or log i blank_power in
      let here = drop-get_or i log blank_power (omega (arith, c.counted)) in
      let next : i + 1 ≡ suc i = omega arith in
      let later : List (PowerSample D) = fresh cutoff (take n (drop (suc i) log)) in
      let ih =
        avg_loop-fresh p log cutoff n (suc i) (count + 1) (d.add sum s.watts) c (omega arith) in
      rw (c.stored i (omega arith), here)
        (elim (Bool-cases (ltb_ℤ s.ts cutoff)) [
          | inl old ↦ rw old (ap (λ k. (sum, k)) (omega arith))
          | inr new ↦
              rw (new, next)
                (ih ∙ ap (λ k. (total_watts (d.add sum s.watts) later, k)) (omega arith))
        ])

  newest_ts :
      (s : PowerSample D) (q : Quality) (older : List (PowerSample D × Quality))
      → (after_readings ((s, q) ∷ older)).last_ts ≡ s.ts
  unfolding after_readings update
  newest_ts s q older = refl

  avg_watts-new_pipeline : (span : ℤ) → avg_watts new_pipeline span ≡ d.from_int (pos 0)
  unfolding avg_watts new_pipeline
  avg_watts-new_pipeline span = refl

  avg_watts-counted :
      (p : PowerPipeline D) (span : ℤ)
      → 0 < p.window_count
      → avg_watts p span
        ≡ mean (avg_loop p (p.last_ts -ℤ span) p.window_count 0 (d.from_int (pos 0)) 0)
  unfolding avg_watts
  avg_watts-counted p span h = rw (ne→==_false p.window_count 0 (omega arith)) refl

  -- After any readings, the average over a span is taken, newest first, over those of the latest 900
  -- readings that come before the first one older than the span, counted back from the newest
  -- reading's time; it is 0 where there is no reading.
  pub avg_watts-after_readings :
      (newest : PowerSample D) (q : Quality) (older : List (PowerSample D × Quality)) (span : ℤ)
      → let rs = (newest, q) ∷ older in
        let run = fresh (newest.ts -ℤ span) (take max_window (samples_of rs)) in
        (avg_watts new_pipeline span ≡ d.from_int (pos 0))
        × (avg_watts (after_readings rs) span
            ≡ mean (total_watts (d.from_int (pos 0)) run, length run))
  avg_watts-after_readings newest q older span =
      let p = after_readings ((newest, q) ∷ older) in
      let log = samples_of ((newest, q) ∷ older) in
      let c = after_readings-Covers ((newest, q) ∷ older) in
      let loop =
        avg_loop-fresh p log (p.last_ts -ℤ span) p.window_count 0 0 (d.from_int (pos 0)) c
          (omega arith) in
      let run : List (PowerSample D) = fresh (newest.ts -ℤ span) (take max_window log) in
      let same_run : fresh (p.last_ts -ℤ span) (take p.window_count log)
          ≡ fresh (newest.ts -ℤ span) (take max_window log) =
        ap₂ fresh (ap (λ t. t -ℤ span) (newest_ts newest q older))
          (ap (λ k. take k log) c.counted ∙ take-min max_window log) in
      (
        avg_watts-new_pipeline span,
        avg_watts-counted p span (omega (arith, c.counted))
            ∙ ap mean (
                loop
                ∙ ap (λ r. (total_watts (d.from_int (pos 0)) r, 0 + length r)) same_run
                ∙ ap (λ k. (total_watts (d.from_int (pos 0)) run, k)) (omega arith)),
      )

-- ===== src/Sampler/Loop.antt =====
-- `run` of src/core/sampler.cpp as a loop: a round of it tests the flag, waits for the timer and tests the flag
-- again. What each test reads and how each wait ends comes from outside.
use pulseport.Server.Sha1.{rounds}
use pulseport.Sampler.{Collector, tick}
use pulseport.Sampler
use pulseport.Prelude.{
  All, Bool, List, Option, [], ap, append-nil, arith, false, if◌then◌else◌, length, not, refl, suc,
  sym, true, zero, ℕ, ◌&&◌, ◌++◌, ◌||◌, ◌∙◌, ◌∷◌, ◌≡◌,
}

pub record Round : Type 0 where
  pub running_before : Bool
  pub timer_signalled : Bool
  pub running_after : Bool

-- The round makes a tick.
abbrev pub goes_on : Round → Bool
goes_on r = r.running_before && r.timer_signalled && r.running_after

module _ {ℓ} {W : Type ℓ} where
  -- Whether the loop has ended after these rounds, and what it leaves.
  unfoldable pub run_loop :
      List Round → Option (W → W) → List (Collector W) × W → Bool × (List (Collector W) × W)
  unfolding tick
  run_loop [] post_tick s = (false, s)
  run_loop (r ∷ rounds) post_tick s =
      let next = run_loop rounds post_tick (tick post_tick s) in
      if not r.running_before
      then (true, s)
      else if not r.timer_signalled || not r.running_after
      then (true, s)
      else next

  -- The thread: without a timer it ends at once.
  unfoldable pub run_thread :
      (timer_set : Bool)
      → List Round
      → Option (W → W)
      → List (Collector W) × W
      → Bool × (List (Collector W) × W)
  unfolding run_loop
  run_thread timer_set rounds post_tick s =
      if timer_set then run_loop rounds post_tick s else (true, s)

  run-tick :
      (n : ℕ) (post_tick : Option (W → W)) (s : List (Collector W) × W)
      → Sampler.run n post_tick (tick post_tick s) ≡ tick post_tick (Sampler.run n post_tick s)
  unfolding Sampler.run
  run-tick zero post_tick s = refl
  run-tick (suc n) post_tick s = ap (tick post_tick) (run-tick n post_tick s)

  -- A round that makes a tick, and one that ends the loop.
  run_loop-tick :
      (r : Round) (rounds : List Round) (post_tick : Option (W → W)) (s : List (Collector W) × W)
      → goes_on r ≡ true
      → run_loop (r ∷ rounds) post_tick s ≡ run_loop rounds post_tick (tick post_tick s)
  unfolding run_loop
  run_loop-tick r rounds post_tick s go = ground arith

  run_loop-end :
      (r : Round) (rounds : List Round) (post_tick : Option (W → W)) (s : List (Collector W) × W)
      → goes_on r ≡ false
      → run_loop (r ∷ rounds) post_tick s ≡ (true, s)
  unfolding run_loop
  run_loop-end r rounds post_tick s stop = ground arith

  run_loop-append :
      (rounds rest : List Round) (post_tick : Option (W → W)) (s : List (Collector W) × W)
      → All (λ r. goes_on r ≡ true) rounds
      → run_loop (rounds ++ rest) post_tick s
        ≡ run_loop rest post_tick (Sampler.run (length rounds) post_tick s)
  unfolding Sampler.run
  run_loop-append [] rest post_tick s all = refl
  run_loop-append (r ∷ rounds) rest post_tick s (go, all) =
      run_loop-tick r (rounds ++ rest) post_tick s go
      ∙ run_loop-append rounds rest post_tick (tick post_tick s) all
      ∙ ap (run_loop rest post_tick) (run-tick (length rounds) post_tick s)

  -- With the timer set, the thread goes on as long as the flag reads true in both tests of a round and the wait
  -- between them is ended by the timer, with one tick for each such round; it ends in the first round of which
  -- one of the three does not hold, without a tick, and nothing after it counts: so it ends within one round
  -- once the flag is cleared. Without the timer it ends before any round.
  pub run_thread_lem :
      (rounds rest : List Round) (last : Round) (post_tick : Option (W → W))
      (s : List (Collector W) × W)
      → All (λ r. goes_on r ≡ true) rounds
      → goes_on last ≡ false
      → let ticked = Sampler.run (length rounds) post_tick s in
        (run_thread true rounds post_tick s ≡ (false, ticked))
        × (run_thread true (rounds ++ last ∷ rest) post_tick s ≡ (true, ticked))
        × (run_thread false rounds post_tick s ≡ (true, s))
  unfolding run_thread run_loop
  run_thread_lem rounds rest last post_tick s all stop = (
    ap (λ rs. run_loop rs post_tick s) (sym (append-nil rounds))
        ∙ run_loop-append rounds [] post_tick s all,
    run_loop-append rounds (last ∷ rest) post_tick s all
        ∙ run_loop-end last rest post_tick (Sampler.run (length rounds) post_tick s) stop,
    refl,
  )

-- ===== src/Sampler/Lifecycle.antt =====
-- The start and stop of the thread in include/pulseport/sampler.h and src/core/sampler.cpp.
-- `created` and `released` count the threads and timers that were made and given back.
use mathlib.Core.Path.{subst}
use pulseport.Prelude.{
  Bool, Bool-cases, List, [], arith, false, if◌then◌else◌, inl, inr, refl, sym, true, ℕ, ◌+◌, ◌∙◌,
  ◌∷◌, ◌≡◌,
}

pub record SamplerThread : Type 0 where
  pub running : Bool
  pub has_timer : Bool
  pub has_thread : Bool
  pub threads_created : ℕ
  pub threads_released : ℕ
  pub timers_created : ℕ
  pub timers_released : ℕ

abbrev pub never_started : SamplerThread
never_started = record {
  running = false;
  has_timer = false;
  has_thread = false;
  threads_created = 0;
  threads_released = 0;
  timers_created = 0;
  timers_released = 0;
}

abbrev pub launched : Bool → SamplerThread → SamplerThread
launched timer s = record s {
  running = true;
  has_timer = timer;
  has_thread = true;
  threads_created = s.threads_created + 1;
  timers_created = (if timer then s.timers_created + 1 else s.timers_created);
}

abbrev pub halted : SamplerThread → SamplerThread
halted s = record s {
  running = false;
  has_timer = false;
  has_thread = false;
  threads_released = (if s.has_thread then s.threads_released + 1 else s.threads_released);
  timers_released = (if s.has_timer then s.timers_released + 1 else s.timers_released);
}

-- `timer` tells whether one of the two calls that create a timer succeeded.
unfoldable pub start : (timer : Bool) → SamplerThread → SamplerThread
start timer s = if s.running then s else launched timer s

unfoldable pub stop : SamplerThread → SamplerThread
stop s = if s.running then halted s else s

-- `run` where SetWaitableTimer fails.
unfoldable pub timer_fails : SamplerThread → SamplerThread
timer_fails s = record s { running = false }

-- What happens to a sampler.
pub data Event : Type 0 where
  started : (timer : Bool) → Event
  stopped : Event
  timer_failed : Event

unfoldable pub after_events : List Event → SamplerThread → SamplerThread
unfolding start stop timer_fails
after_events [] s = s
after_events (Event.started timer ∷ es) s = after_events es (start timer s)
after_events (Event.stopped ∷ es) s = after_events es (stop s)
after_events (Event.timer_failed ∷ es) s = after_events es (timer_fails s)

abbrev pub IsTimed : List Event → Type 0
IsTimed [] = Unit
IsTimed (Event.started timer ∷ es) = IsTimed es
IsTimed (Event.stopped ∷ es) = IsTimed es
IsTimed (Event.timer_failed ∷ es) = ⊥

abbrev pub number : Bool → ℕ
number b = if b then 1 else 0

-- Every thread and timer was given back but those that are held, which are held only while the sampler runs.
pub record Balanced (s : SamplerThread) : Type 0 where
  pub threads : s.threads_created ≡ s.threads_released + number s.has_thread
  pub timers : s.timers_created ≡ s.timers_released + number s.has_timer
  pub thread_runs : s.has_thread ≡ s.running
  pub timer_runs : s.running ≡ false → s.has_timer ≡ false

launched-Balanced :
    (timer : Bool) (s : SamplerThread)
    → s.running ≡ false
    → Balanced s
    → Balanced (launched timer s)
launched-Balanced timer s off b =
    let idle : s.has_thread ≡ false = b.thread_runs ∙ off in
    let untimed = b.timer_runs off in
    record {
      threads = ground (arith, b.threads, idle);
      timers = ground (arith, b.timers, untimed);
      thread_runs = refl;
      timer_runs = λ h. ground arith;
    }

start-Balanced : (timer : Bool) (s : SamplerThread) → Balanced s → Balanced (start timer s)
unfolding start
start-Balanced timer s b = elim (Bool-cases s.running) [
  | inl on ↦ subst (λ on. Balanced (if on then s else launched timer s)) (sym on) b
  | inr off ↦
      subst (λ on. Balanced (if on then s else launched timer s)) (sym off)
        (launched-Balanced timer s off b)
]

halted-Balanced : (s : SamplerThread) → Balanced s → Balanced (halted s)
halted-Balanced s b = record {
  threads = ground (arith, b.threads, Bool-cases s.has_thread);
  timers = ground (arith, b.timers, Bool-cases s.has_timer);
  thread_runs = refl;
  timer_runs = λ h. refl;
}

stop-Balanced : (s : SamplerThread) → Balanced s → Balanced (stop s)
unfolding stop
stop-Balanced s b = elim (Bool-cases s.running) [
  | inl on ↦ subst (λ on. Balanced (if on then halted s else s)) (sym on) (halted-Balanced s b)
  | inr off ↦ subst (λ on. Balanced (if on then halted s else s)) (sym off) b
]

-- However often a sampler is started and stopped, unless the timer cannot be set, every thread and timer that it
-- made and does not hold was given back, and it holds a thread exactly while it runs.
pub after_events-Balanced :
    (es : List Event) → IsTimed es → (s : SamplerThread) → Balanced s → Balanced (after_events es s)
unfolding after_events
after_events-Balanced [] ok s b = b
after_events-Balanced (Event.started timer ∷ es) ok s b =
    after_events-Balanced es ok (start timer s) (start-Balanced timer s b)
after_events-Balanced (Event.stopped ∷ es) ok s b =
    after_events-Balanced es ok (stop s) (stop-Balanced s b)
after_events-Balanced (Event.timer_failed ∷ es) ok s b = elim ok [ ]

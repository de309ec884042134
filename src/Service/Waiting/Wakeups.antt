-- ===== src/Service/Waiting/Wakeups.antt =====
-- src/windows/service_control.cpp: when `wait_for_stop` returns, and when it sleeps on.
use pulseport.Service.Waiting.{Action, Step, StopFlag, Waiter, Steps, at_start}
use pulseport.Prelude.{All, Bool, List, [], arith, false, length, refl, set, true, ℕ, ◌∷◌, ◌≡◌, ◌≤◌}

-- The waiting thread has not seen the flag unset since it last tested it, nor is it asleep.
abbrev pub is_awake : Waiter → Bool
is_awake Waiter.outside = true
is_awake Waiter.testing = true
is_awake Waiter.returned = true
is_awake _ = false

abbrev pub is_returned : Waiter → Bool
is_returned Waiter.returned = true
is_returned _ = false

abbrev pub is_asleep : Waiter → Bool
is_asleep Waiter.asleep = true
is_asleep _ = false

-- Neither a new request nor a spurious wake-up.
abbrev pub is_quiet : Action → Bool
is_quiet Action.store = false
is_quiet Action.wake_spuriously = false
is_quiet _ = true

-- A step of the waiting thread.
abbrev pub is_own : Action → Bool
is_own Action.enter = true
is_own Action.test = true
is_own Action.fall_asleep = true
is_own _ = false

-- The wait is over only with the flag set.
abbrev Returns : StopFlag → Type 0
Returns s = is_returned s.waiter ≡ true → s.requested ≡ true

Step-Returns : {a : Action} {s t : StopFlag} → Step a s t → Returns s → Returns t
Step-Returns (Step.store s) h = λ r. refl
Step-Returns (Step.notify s n e) h = λ r. ground arith
Step-Returns (Step.enter s e) h = λ r. ground arith
Step-Returns (Step.test_set s e set) h = λ r. set
Step-Returns (Step.test_unset s e unset) h = λ r. ground arith
Step-Returns (Step.fall_asleep s e) h = λ r. ground arith
Step-Returns (Step.wake_spuriously s e) h = λ r. ground arith

-- The flag is set and the waiting thread awake.
abbrev Alert : StopFlag → Type 0
Alert s = (s.requested ≡ true) × (is_awake s.waiter ≡ true)

Step-Alert : {a : Action} {s t : StopFlag} → Step a s t → Alert s → Alert t
Step-Alert (Step.store s) h = ground arith
Step-Alert (Step.notify s n e) h = ground arith
Step-Alert (Step.enter s e) h = ground arith
Step-Alert (Step.test_set s e set) h = ground arith
Step-Alert (Step.test_unset s e unset) h = ground arith
Step-Alert (Step.fall_asleep s e) h = ground arith
Step-Alert (Step.wake_spuriously s e) h = ground arith

Steps-Returns : {l : List Action} {s t : StopFlag} → Steps l s t → Returns s → Returns t
Steps-Returns Steps.stay h = h
Steps-Returns (Steps.move st rest) h = Steps-Returns rest (Step-Returns st h)

Steps-Alert : {l : List Action} {s t : StopFlag} → Steps l s t → Alert s → Alert t
Steps-Alert Steps.stay h = h
Steps-Alert (Steps.move st rest) h = Steps-Alert rest (Step-Alert st h)

-- A thread that can return by steps of its own, at most two of them.
pub record CanReturn (s : StopFlag) : Type 0 where
  pub actions : List Action
  pub end : StopFlag
  pub steps : Steps actions s end
  pub over : is_returned end.waiter ≡ true
  pub few : length actions ≤ 2
  pub own : All (λ a. is_own a ≡ true) actions

tested-CanReturn : (s : StopFlag) → s.waiter ≡ Waiter.testing → s.requested ≡ true → CanReturn s
tested-CanReturn s here set = record {
  actions = Action.test ∷ [];
  end = record s { waiter = Waiter.returned };
  steps = Steps.move (Step.test_set s here set) Steps.stay;
  over = refl;
  few = omega arith;
  own = (refl, tt);
}

Alert-CanReturn :
    (r : Bool) (w : Waiter) (n : ℕ)
    → let s : StopFlag = record { requested = r; waiter = w; notifying = n } in
      Alert s → CanReturn s
Alert-CanReturn r Waiter.outside n (set, h) =
    let s : StopFlag = record { requested = r; waiter = Waiter.outside; notifying = n } in
    let t : StopFlag = record { requested = r; waiter = Waiter.testing; notifying = n } in
    let later = tested-CanReturn t refl set in
    record {
      actions = Action.enter ∷ Action.test ∷ [];
      end = record t { waiter = Waiter.returned };
      steps = Steps.move (Step.enter s refl) (Steps.move (Step.test_set t refl set) Steps.stay);
      over = refl;
      few = omega arith;
      own = (refl, (refl, tt));
    }
Alert-CanReturn r Waiter.testing n (set, h) =
    tested-CanReturn (record { requested = r; waiter = Waiter.testing; notifying = n }) refl set
Alert-CanReturn r Waiter.unset_seen n (set, h) = absurd cc
Alert-CanReturn r Waiter.asleep n (set, h) = absurd cc
Alert-CanReturn r Waiter.returned n (set, h) = record {
  actions = [];
  end = record { requested = r; waiter = Waiter.returned; notifying = n };
  steps = Steps.stay;
  over = refl;
  few = omega arith;
  own = tt;
}

notified-Alert :
    {s u : StopFlag}
    → Step Action.notify s u
    → s.requested ≡ true
    → is_asleep s.waiter ≡ true
    → Alert u
notified-Alert (Step.notify s n e) set asleep = ground arith

-- `wait_for_stop` returns only after a request to stop. Once one is stored while the thread has not gone past its
-- last test of the flag, the thread is never again asleep, whatever happens, and it can always return by at most
-- two steps of its own; the same holds once a request is notified while the thread is asleep.
pub wait_for_stop_lem :
    (before after : List Action) (s t : StopFlag)
    → Steps before at_start s
    → Steps after s t
    → (is_returned s.waiter ≡ true → s.requested ≡ true)
      × (s.requested ≡ true → is_awake s.waiter ≡ true → (is_asleep t.waiter ≡ false) × CanReturn t)
      × ((u v : StopFlag) (more : List Action)
          → s.requested ≡ true
          → is_asleep s.waiter ≡ true
          → Step Action.notify s u
          → Steps more u v
          → (is_asleep v.waiter ≡ false) × CanReturn v)
wait_for_stop_lem before after s t reached later = (
  Steps-Returns reached (λ h. ground arith),
  λ set awake.
      let alert = Steps-Alert later (set, awake) in
      (ground arith, Alert-CanReturn t.requested t.waiter t.notifying alert),
  λ u v more set asleep st rest.
      let alert = Steps-Alert rest (notified-Alert st set asleep) in
      (ground arith, Alert-CanReturn v.requested v.waiter v.notifying alert),
)

-- What is left when a thread slept through the notification.
abbrev pub overslept : StopFlag
overslept = record { requested = true; waiter = Waiter.asleep; notifying = 0 }

quiet-overslept : {a : Action} {s t : StopFlag} → Step a s t → s ≡ overslept → is_quiet a ≡ true → ⊥
quiet-overslept (Step.store s) e q = cc
quiet-overslept (Step.notify s n h) e q = ground arith
quiet-overslept (Step.enter s h) e q = ground arith
quiet-overslept (Step.test_set s h set) e q = ground arith
quiet-overslept (Step.test_unset s h unset) e q = ground arith
quiet-overslept (Step.fall_asleep s h) e q = ground arith
quiet-overslept (Step.wake_spuriously s h) e q = cc

lost_steps :
    (r : Bool) (w : Waiter) (n : ℕ)
    → w ≡ Waiter.unset_seen
    → n ≡ 0
    → Steps
        (Action.store ∷ Action.notify ∷ Action.fall_asleep ∷ [])
        (record { requested = r; waiter = w; notifying = n })
        overslept
lost_steps r w n past none_notifying =
    let s : StopFlag = record { requested = r; waiter = Waiter.unset_seen; notifying = 0 } in
    let stored : StopFlag = record s { requested = true; notifying = 1 } in
    let notified : StopFlag = record stored { notifying = 0 } in
    rw (past, none_notifying)
      (Steps.move (Step.store s) (
        Steps.move (Step.notify stored 0 refl)
          (Steps.move (Step.fall_asleep notified refl) Steps.stay)))

-- A request that is stored and notified between a test that saw the flag unset and the falling asleep is lost:
-- the program has been asked to stop and sleeps, and nothing happens any more without another request or a
-- spurious wake-up.
pub lost_request :
    (s : StopFlag)
    → s.waiter ≡ Waiter.unset_seen
    → s.notifying ≡ 0
    → Steps (Action.store ∷ Action.notify ∷ Action.fall_asleep ∷ []) s overslept
      × ((a : Action) (t : StopFlag) → is_quiet a ≡ true → ¬ (Step a overslept t))
lost_request s past none_notifying = (
  lost_steps s.requested s.waiter s.notifying past none_notifying,
  λ a t q st. quiet-overslept st refl q,
)

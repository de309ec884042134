-- ===== src/Service/Waiting.antt =====
-- `signal_stop` and `wait_for_stop` of src/windows/service_control.cpp as threads: the program's main thread waits
-- on the condition variable, and any number of others ask it to stop. A step is one load, store or call. The
-- condition variable is std::condition_variable: falling asleep gives up the mutex in one step, a notification wakes
-- only a thread that is asleep, and a wake-up may also be spurious. `signal_stop` does not take the mutex.
pub mod Wakeups
use pulseport.Prelude.{Bool, List, [], false, suc, true, ℕ, ◌∷◌, ◌≡◌}

-- Where the waiting thread is: before the call, about to test the flag, with the flag seen unset, asleep, and after.
pub data Waiter : Type 0 where
  outside testing unset_seen asleep returned : Waiter

-- `notifying` is how many threads have stored the flag and not yet notified.
pub record StopFlag : Type 0 where
  pub requested : Bool
  pub waiter : Waiter
  pub notifying : ℕ

abbrev pub at_start : StopFlag
at_start = record { requested = false; waiter = Waiter.outside; notifying = 0 }

-- `notify_all`
abbrev pub woken : Waiter → Waiter
woken Waiter.asleep = Waiter.testing
woken w = w

pub data Action : Type 0 where
  store notify enter test fall_asleep wake_spuriously : Action

pub data Step : Action → StopFlag → StopFlag → Type 0 where
  store :
      (s : StopFlag)
      → Step Action.store s (record s { requested = true; notifying = suc s.notifying })
  notify :
      (s : StopFlag) (n : ℕ)
      → s.notifying ≡ suc n
      → Step Action.notify s (record s { waiter = woken s.waiter; notifying = n })
  enter :
      (s : StopFlag)
      → s.waiter ≡ Waiter.outside
      → Step Action.enter s (record s { waiter = Waiter.testing })
  test_set :
      (s : StopFlag)
      → s.waiter ≡ Waiter.testing
      → s.requested ≡ true
      → Step Action.test s (record s { waiter = Waiter.returned })
  test_unset :
      (s : StopFlag)
      → s.waiter ≡ Waiter.testing
      → s.requested ≡ false
      → Step Action.test s (record s { waiter = Waiter.unset_seen })
  fall_asleep :
      (s : StopFlag)
      → s.waiter ≡ Waiter.unset_seen
      → Step Action.fall_asleep s (record s { waiter = Waiter.asleep })
  wake_spuriously :
      (s : StopFlag)
      → s.waiter ≡ Waiter.asleep
      → Step Action.wake_spuriously s (record s { waiter = Waiter.testing })

-- Steps one after the other, with what they do.
pub data Steps : List Action → StopFlag → StopFlag → Type 0 where
  stay : {s : StopFlag} → Steps [] s s
  move :
      {a : Action} {rest : List Action} {s t u : StopFlag}
      → Step a s t
      → Steps rest t u
      → Steps (a ∷ rest) s u

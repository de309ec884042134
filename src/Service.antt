-- ===== src/Service.antt =====
-- src/windows/service_control.cpp: the flag that asks the program to stop, and what the service tells the
-- Windows service control manager. Handler and program take turns; each call is one step. `reports` are the calls
-- of SetServiceStatus, the oldest first.
pub mod Reports
pub mod Waiting
use pulseport.Prelude.{Bool, List, [], false, if◌then◌else◌, not, true, ℕ, ◌%◌, ◌++◌, ◌+◌, ◌^◌, ◌∷◌}

pub data ServiceState : Type 0 where
  start_pending running stop_pending stopped : ServiceState

-- SERVICE_STATUS
pub record ServiceStatus : Type 0 where
  pub current_state : ServiceState
  pub exit_code : ℕ
  pub wait_hint : ℕ
  pub controls_accepted : Bool
  pub check_point : ℕ

-- `checkpoint` is the static counter of report_status.
pub record Service : Type 0 where
  pub stop_requested : Bool
  pub checkpoint : ℕ
  pub reports : List ServiceStatus

abbrev pub idle : Service
idle = record { stop_requested = false; checkpoint = 1; reports = [] }

unfoldable pub signal_stop : Service → Service
signal_stop s = record s { stop_requested = true }

abbrev pub is_start_pending : ServiceState → Bool
is_start_pending ServiceState.start_pending = true
is_start_pending _ = false

-- `state == SERVICE_RUNNING || state == SERVICE_STOPPED`
abbrev pub is_settled : ServiceState → Bool
is_settled ServiceState.running = true
is_settled ServiceState.stopped = true
is_settled _ = false

-- The controls accepted are all four, or none. The counter is a DWORD.
unfoldable pub report_status : ServiceState → (exit_code wait_hint : ℕ) → Service → Service
report_status state exit_code wait_hint s =
    let settled = is_settled state in
    let status : ServiceStatus = record {
      current_state = state;
      exit_code = exit_code;
      wait_hint = wait_hint;
      controls_accepted = not (is_start_pending state);
      check_point = if settled then 0 else s.checkpoint;
    } in
    record s {
      checkpoint = if settled then s.checkpoint else (s.checkpoint + 1) % 2 ^ 32;
      reports = s.reports ++ status ∷ [];
    }

pub data Control : Type 0 where
  stop shutdown preshutdown interrogate other : Control
  power_event : (event_type : ℕ) → Control

-- The result: NO_ERROR is 0, ERROR_CALL_NOT_IMPLEMENTED is 120. A resume from sleep is only logged.
unfoldable pub service_handler_ex : Control → Service → ℕ × Service
unfolding report_status signal_stop
service_handler_ex Control.stop s =
    (0, signal_stop (report_status ServiceState.stop_pending 0 15000 s))
service_handler_ex Control.shutdown s =
    (0, signal_stop (report_status ServiceState.stop_pending 0 15000 s))
service_handler_ex Control.preshutdown s =
    (0, signal_stop (report_status ServiceState.stop_pending 0 15000 s))
service_handler_ex (Control.power_event event_type) s = (0, s)
service_handler_ex Control.interrogate s = (0, s)
service_handler_ex Control.other s = (120, s)

-- The controls that arrive while the program runs.
unfoldable pub handle_all : List Control → Service → Service
unfolding service_handler_ex
handle_all [] s = s
handle_all (c ∷ cs) s = handle_all cs (service_handler_ex c s).1

-- `registered` tells whether the handler could be registered; `controls` arrive while the program runs.
unfoldable pub service_main : (registered : Bool) → List Control → Service → Service
unfolding handle_all report_status
service_main registered controls s =
    let starting = report_status ServiceState.start_pending 0 5000 s in
    let running = report_status ServiceState.running 0 0 starting in
    let ended = handle_all controls running in
    if not registered then s else report_status ServiceState.stopped 0 0 ended

pub data ConsoleEvent : Type 0 where
  ctrl_c ctrl_break ctrl_close ctrl_other : ConsoleEvent

-- console_ctrl_handler: whether the event is handled.
unfoldable pub console_ctrl_handler : ConsoleEvent → Service → Bool × Service
unfolding signal_stop
console_ctrl_handler ConsoleEvent.ctrl_c s = (true, signal_stop s)
console_ctrl_handler ConsoleEvent.ctrl_break s = (true, signal_stop s)
console_ctrl_handler ConsoleEvent.ctrl_close s = (true, signal_stop s)
console_ctrl_handler ConsoleEvent.ctrl_other s = (false, s)

-- The console events that arrive while the program runs.
unfoldable pub console_all : List ConsoleEvent → Service → Service
unfolding console_ctrl_handler
console_all [] s = s
console_all (c ∷ cs) s = console_all cs (console_ctrl_handler c s).1

-- What StartServiceCtrlDispatcher does: it cannot connect as the process is no service, it fails otherwise, or it
-- runs service_main, where the handler can be registered or not, and some controls arrive.
pub data Dispatcher : Type 0 where
  not_connected dispatch_failed : Dispatcher
  dispatched : (registered : Bool) → List Control → Dispatcher

-- The process: the stop flag and reports, and what the program works on.
pub record Process {ℓ} (W : Type ℓ) : Type ℓ where
  pub service : Service
  pub world : W

module _ {ℓ} {W : Type ℓ} where
  -- The result tells whether the service control manager ran the program.
  unfoldable pub run_as_service : Dispatcher → (main_fn : W → W) → Process W → Bool × Process W
  unfolding service_main
  run_as_service Dispatcher.not_connected main_fn p = (false, p)
  run_as_service Dispatcher.dispatch_failed main_fn p = (false, p)
  run_as_service (Dispatcher.dispatched registered controls) main_fn p = (
    true,
    record {
      service = service_main registered controls p.service;
      world = if registered then main_fn p.world else p.world;
    },
  )

  unfoldable pub run_as_console : List ConsoleEvent → (main_fn : W → W) → Process W → Process W
  unfolding console_all
  run_as_console events main_fn p = record {
    service = console_all events p.service;
    world = main_fn p.world;
  }

-- ===== src/Service/Reports.antt =====
-- src/windows/service_control.cpp: the reports to the service control manager, and the stop flag.
use pulseport.Service.{
  Control, Service, ServiceState, ServiceStatus, handle_all, report_status, service_handler_ex,
  signal_stop, idle, service_main,
}
use pulseport.Prelude.{
  Bool, Bool-cases, List, [], ap, append-nil, append_assoc, arith, false, if◌then◌else◌, inl, inr,
  ltb, refl, suc, sym, true, zero, ℕ, ◌++◌, ◌+◌, ◌<◌, ◌^◌, ◌||◌, ◌∙◌, ◌∷◌, ◌≡◌,
}

abbrev pub is_stop : Control → Bool
is_stop Control.stop = true
is_stop Control.shutdown = true
is_stop Control.preshutdown = true
is_stop _ = false

abbrev pub stops : List Control → ℕ
stops [] = 0
stops (c ∷ cs) = (if is_stop c then 1 else 0) + stops cs

abbrev pub report : ServiceState → (wait_hint : ℕ) → Bool → (check_point : ℕ) → ServiceStatus
report state wait_hint accepted check_point = record {
  current_state = state;
  exit_code = 0;
  wait_hint = wait_hint;
  controls_accepted = accepted;
  check_point = check_point;
}

-- `n` reports that the service is about to stop, with the check points from `i` on.
abbrev pub stop_reports : (n i : ℕ) → List ServiceStatus
stop_reports zero i = []
stop_reports (suc n) i = report ServiceState.stop_pending 15000 true i ∷ stop_reports n (i + 1)

-- The service after a control that asks it to stop.
abbrev pub stopping : Service → Service
stopping s = signal_stop (report_status ServiceState.stop_pending 0 15000 s)

handler_asked :
    (c : Control) (s : Service) → is_stop c ≡ true → (service_handler_ex c s).1 ≡ stopping s
unfolding service_handler_ex
handler_asked Control.stop s h = refl
handler_asked Control.shutdown s h = refl
handler_asked Control.preshutdown s h = refl
handler_asked Control.interrogate s h = ground arith
handler_asked Control.other s h = ground arith
handler_asked (Control.power_event t) s h = ground arith

handler_other : (c : Control) (s : Service) → is_stop c ≡ false → (service_handler_ex c s).1 ≡ s
unfolding service_handler_ex
handler_other Control.stop s h = ground arith
handler_other Control.shutdown s h = ground arith
handler_other Control.preshutdown s h = ground arith
handler_other Control.interrogate s h = refl
handler_other Control.other s h = refl
handler_other (Control.power_event t) s h = refl

stops_asked : (c : Control) (cs : List Control) → is_stop c ≡ true → stops (c ∷ cs) ≡ suc (stops cs)
stops_asked c cs h = ground arith

stops_other : (c : Control) (cs : List Control) → is_stop c ≡ false → stops (c ∷ cs) ≡ stops cs
stops_other c cs h = ground arith

next_checkpoint :
    (s : Service) → s.checkpoint + 1 < 2 ^ 32 → (stopping s).checkpoint ≡ s.checkpoint + 1
unfolding signal_stop report_status
next_checkpoint s fits = omega arith

stopping-reports :
    (s : Service)
    → (stopping s).reports
      ≡ s.reports ++ report ServiceState.stop_pending 15000 true s.checkpoint ∷ []
unfolding signal_stop report_status
stopping-reports s = refl

handle_all-reports :
    (cs : List Control) (s : Service)
    → s.checkpoint + stops cs < 2 ^ 32
    → (handle_all cs s).reports ≡ s.reports ++ stop_reports (stops cs) s.checkpoint
unfolding handle_all
handle_all-reports [] s fits = sym (append-nil s.reports)
handle_all-reports (c ∷ cs) s fits = elim (Bool-cases (is_stop c)) [
  | inr none_asked ↦
      let fewer = stops_other c cs none_asked in
      rw (fewer, stops)
        (ap (λ x. (handle_all cs x).reports) (handler_other c s none_asked)
          ∙ handle_all-reports cs s (omega (arith, fewer)))
  | inl asked ↦
      let more = stops_asked c cs asked in
      let next = next_checkpoint s (omega (arith, more)) in
      let later = handle_all-reports cs (stopping s) (omega (arith, next, more)) in
      rw (more, stops)
        (ap (λ x. (handle_all cs x).reports) (handler_asked c s asked)
          ∙ later
          ∙ ap (λ k. (stopping s).reports ++ stop_reports (stops cs) k) next
          ∙ append_assoc s.reports (report ServiceState.stop_pending 15000 true s.checkpoint ∷ [])
              (stop_reports (stops cs) (s.checkpoint + 1)))
]

-- The program is asked to stop exactly if it was before or one of the controls asks for it.
pub stop_requested-handle_all :
    (cs : List Control) (s : Service)
    → (handle_all cs s).stop_requested ≡ (s.stop_requested || ltb 0 (stops cs))
unfolding handle_all
stop_requested-handle_all [] s = ground arith
stop_requested-handle_all (c ∷ cs) s = elim (Bool-cases (is_stop c)) [
  | inr none_asked ↦
      ap (λ x. (handle_all cs x).stop_requested) (handler_other c s none_asked)
      ∙ stop_requested-handle_all cs s
      ∙ ap (λ n. s.stop_requested || ltb 0 n) (sym (stops_other c cs none_asked))
  | inl asked ↦
      ap (λ x. (handle_all cs x).stop_requested) (handler_asked c s asked)
      ∙ stop_requested-handle_all cs (stopping s)
      ∙ ground (arith, stops_asked c cs asked, Bool-cases s.stop_requested)
]

-- The service that is run once reports that it starts, that it runs, once for each control that asks it to stop
-- that it is about to stop, and that it has stopped, all without error. While a start or a stop is pending the
-- check points count up from 1, and in the other reports they are 0, where there are fewer than 2^32 - 2 such
-- controls.
pub service_main-reports :
    (controls : List Control)
    → 2 + stops controls < 2 ^ 32
    → (service_main true controls idle).reports
      ≡ report ServiceState.start_pending 5000 false 1
        ∷ report ServiceState.running 0 true 0
        ∷ (stop_reports (stops controls) 2 ++ report ServiceState.stopped 0 true 0 ∷ [])
unfolding service_main report_status
service_main-reports controls fits =
    let starting = report_status ServiceState.start_pending 0 5000 idle in
    let running = report_status ServiceState.running 0 0 starting in
    ap (λ rs. rs ++ report ServiceState.stopped 0 true 0 ∷ [])
      (handle_all-reports controls running fits)

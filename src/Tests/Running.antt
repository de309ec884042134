-- ===== src/Tests/Running.antt =====
-- The threads of the ring and of the sampler, the service, the command line, the database, the clients and the
-- file of the configuration.
use pulseport.Sampler.Lifecycle.{
  Balanced, Event, after_events, after_events-Balanced, never_started,
}
use pulseport.Server.Clients.{WsClient, broadcast_delta}
use pulseport.Service.Reports.{report, service_main-reports}
use pulseport.RingBuffer.Threads.{
  Consumer, Producer, Reach, Step, Threads, is_storing, threads, written_over,
}
use pulseport.RingBuffer.{RingBuffer, empty_ring, slot}
use pulseport.RingBuffer.Threads.Interleaving.{Reach-bounds, Reach-read_item}
use pulseport.Service.{Control, ServiceState, idle, service_main}
use pulseport.Prelude.{
  Bool, List, String, none, some, [], arith, false, get_or, if◌then◌else◌, length, refl, str_append,
  true, ℕ, ◌<◌, ◌==◌, ◌∷◌, ◌≡◌, ◌≤◌,
}
use pulseport.Prelude.Int.{negsuc, pos, ℤ}
use pulseport.Prelude.Double.{Approx, approx_double}
use pulseport.Types.{MetricSample, Quality}

abbrev ring_with : List ℕ → (write_pos : ℕ) → RingBuffer ℕ
ring_with items write_pos = record { buffer = items; write_pos = write_pos; read_pos = 0 }

-- An item is pushed, and a pop has loaded the positions.
abbrev popping : Threads ℕ
popping = threads (ring_with (7 ∷ 0 ∷ []) 1) (7 ∷ []) Producer.idle (Consumer.saw 1)

popping-Reach : Reach 1 0 popping
unfolding empty_ring slot written_over
popping-Reach =
    Reach.later
      (Reach.later
        (Reach.later
          (Reach.later
            (Reach.later Reach.start
              (Step.load_write (ring_with (0 ∷ 0 ∷ []) 0) [] Consumer.idle 7))
            (Step.begin_store (ring_with (0 ∷ 0 ∷ []) 0) [] Consumer.idle 7 3 0))
          (Step.store_item (ring_with (3 ∷ 0 ∷ []) 0) [] Consumer.idle 7 3 0))
        (Step.publish (ring_with (7 ∷ 0 ∷ []) 0) [] Consumer.idle 7 0))
      (Step.load_both (ring_with (7 ∷ 0 ∷ []) 1) (7 ∷ []) Producer.idle refl)

Reach-bounds_example :
    (popping.ring.write_pos ≡ length popping.log)
    × (popping.ring.read_pos ≤ popping.ring.write_pos)
    × ((0 < 1) × (1 ≤ 1))
Reach-bounds_example = Reach-bounds 1 0 popping-Reach (omega arith)

-- The pop copies the item while the next one is being copied into the other slot.
abbrev both_copy : Threads ℕ
both_copy = threads (ring_with (7 ∷ 5 ∷ []) 1) (7 ∷ []) (Producer.storing 9 5 1) (Consumer.took 7)

both_copy-Reach : Reach 1 0 both_copy
unfolding slot is_storing written_over
both_copy-Reach =
    Reach.later
      (Reach.later
        (Reach.later
          (Reach.later popping-Reach
            (Step.begin_read (ring_with (7 ∷ 0 ∷ []) 1) (7 ∷ []) Producer.idle 1))
          (Step.load_write (ring_with (7 ∷ 0 ∷ []) 1) (7 ∷ []) (Consumer.reading true 1) 9))
        (Step.begin_store (ring_with (7 ∷ 0 ∷ []) 1) (7 ∷ []) (Consumer.reading true 1) 9 5 1))
      (Step.read_item (ring_with (7 ∷ 5 ∷ []) 1) (7 ∷ []) (Producer.storing 9 5 1) 1)

abbrev copied : ℕ
copied = 7

Reach-read_item_example : copied ≡ get_or (7 ∷ []) 0 0
Reach-read_item_example =
    Reach-read_item 1 0 (ring_with (7 ∷ 5 ∷ []) 1) (7 ∷ []) (Producer.storing 9 5 1) 7
      both_copy-Reach (omega arith) (omega arith)

service_main-reports_example :
    (service_main true (Control.stop ∷ Control.interrogate ∷ []) idle).reports
    ≡ report ServiceState.start_pending 5000 false 1
      ∷ report ServiceState.running 0 true 0
      ∷ report ServiceState.stop_pending 15000 true 2
      ∷ report ServiceState.stopped 0 true 0
      ∷ []
service_main-reports_example =
    service_main-reports (Control.stop ∷ Control.interrogate ∷ []) (omega arith)

-- The second socket is broken; the network keeps the sockets that were written to.
abbrev send_log : ℕ → List ℕ → List ℕ → ℤ × List ℕ
send_log sock bytes net = (if sock == 2 then negsuc 0 else pos 3, sock ∷ net)

abbrev client : ℕ → Bool → WsClient ℕ
client sock alive = record { sock = sock; alive = alive }

abbrev one_delta : List (MetricSample Approx)
one_delta =
    record {
      key = "cpu.total_pct";
      value = some 12;
      unit = "%";
      quality = Quality.measured;
      ts = pos 60;
    }
    ∷ []

abbrev delta_text : List (MetricSample Approx) → List ℕ
delta_text samples = 65 ∷ []

-- A living client, a dead one, and a living one whose socket is broken.
abbrev three_clients : List (WsClient ℕ)
three_clients = client 1 true ∷ client 3 false ∷ client 2 true ∷ []

abbrev send_delta : List (WsClient ℕ) × List ℕ
send_delta = broadcast_delta send_log delta_text one_delta none (pos 60) three_clients []

never_started-Balanced : Balanced never_started
never_started-Balanced = record {
  threads = refl;
  timers = refl;
  thread_runs = refl;
  timer_runs = λ h. refl;
}

after_events-Balanced_example :
    Balanced
      (after_events (Event.started true ∷ Event.started true ∷ Event.stopped ∷ []) never_started)
after_events-Balanced_example =
    after_events-Balanced (Event.started true ∷ Event.started true ∷ Event.stopped ∷ []) tt
      never_started never_started-Balanced

abbrev path_join : String → String → String
path_join a b = str_append a (str_append "/" b)

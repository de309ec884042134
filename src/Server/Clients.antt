-- ===== src/Server/Clients.antt =====
-- The WebSocket clients of src/server/http_server.cpp. The mutex of the list makes each operation one step. The
-- operating system's `send` takes a socket, bytes and the state of the network, and answers how many bytes went;
-- `dump` is nlohmann/json's text of a message with samples.
pub mod Delivery
use pulseport.Collectors.{sample}
use pulseport.Aggregator.{is_empty_list}
use pulseport.Power.{PowerPipeline, avg_watts}
use pulseport.Server.Frame.{text_frame, ws_send_text}
use pulseport.Prelude.{
  Bool, List, Option, [], false, if◌then◌else◌, length, none, some, ℕ, ◌++◌, ◌==◌, ◌∷◌,
}
use pulseport.Prelude.Int.{pos, ℤ}
use pulseport.Prelude.Double.{Double}
use pulseport.Types.{MetricSample}

pub record WsClient (S : Type 0) : Type 0 where
  pub sock : S
  pub alive : Bool

module _ {ℓ} {D : Type ℓ} ⦃d : Double D⦄ where
  -- The samples, and the rolling averages if the pipeline is there.
  unfoldable pub delta_metrics :
      List (MetricSample D) → Option (PowerPipeline D) → ℤ → List (MetricSample D)
  delta_metrics samples none ts = samples
  delta_metrics samples (some p) ts =
      samples
      ++ (sample "power.avg_1m_w" (avg_watts p (pos 60)) "W" p.current_quality ts
          ∷ sample "power.avg_5m_w" (avg_watts p (pos 300)) "W" p.current_quality ts
          ∷ sample "power.avg_15m_w" (avg_watts p (pos 900)) "W" p.current_quality ts
          ∷ [])

module _ {S : Type 0} where
  unfoldable pub remove_dead_clients : List (WsClient S) → List (WsClient S)
  remove_dead_clients [] = []
  remove_dead_clients (c ∷ cs) =
      if c.alive then c ∷ remove_dead_clients cs else remove_dead_clients cs

  module _ {N : Type 0} (send : S → List ℕ → N → ℤ × N) where
    -- ws_send_text on a socket.
    unfoldable pub send_text : S → List ℕ → N → Bool × N
    unfolding ws_send_text
    send_text sock msg net =
        (ws_send_text (λ bytes. (send sock bytes net).0) msg, (send sock (text_frame msg) net).1)

    unfoldable pub broadcast : List ℕ → List (WsClient S) → N → List (WsClient S) × N
    broadcast msg [] net = ([], net)
    broadcast msg (c ∷ cs) net =
        let sent = send_text c.sock msg net in
        let after = broadcast msg cs sent.1 in
        let skipped = broadcast msg cs net in
        if c.alive
        then ((if sent.0 then c else record c { alive = false }) ∷ after.0, after.1)
        else (c ∷ skipped.0, skipped.1)

    -- HttpServer::stop, without the closing of the sockets.
    unfoldable pub stop : List (WsClient S) → List (WsClient S)
    stop cs = []

    module _ {ℓ} {D : Type ℓ} ⦃d : Double D⦄ (dump : List (MetricSample D) → List ℕ) where
      unfoldable pub broadcast_delta :
          List (MetricSample D)
          → Option (PowerPipeline D)
          → (ts : ℤ) → List (WsClient S)
          → N
          → List (WsClient S) × N
      unfolding remove_dead_clients broadcast delta_metrics
      broadcast_delta samples pipeline ts cs net =
          let living = remove_dead_clients cs in
          if is_empty_list samples
          then (cs, net)
          else if length living == 0
          then (living, net)
          else broadcast (dump (delta_metrics samples pipeline ts)) living net

    -- The event as a message is `msg`.
    unfoldable pub broadcast_event : (msg : List ℕ) → List (WsClient S) → N → List (WsClient S) × N
    unfolding broadcast
    broadcast_event msg cs net = broadcast msg cs net

-- handle_ws_upgrade: the status and the accept key of the answer, and the list of clients after it.
unfoldable pub handle_ws_upgrade :
    {S : Type 0} (accept_key : List ℕ → List ℕ)
    → List ℕ
    → List (WsClient S)
    → (ℕ × List ℕ) × List (WsClient S)
handle_ws_upgrade accept_key [] cs = ((400, []), cs)
handle_ws_upgrade accept_key (b ∷ bytes) cs = ((101, accept_key (b ∷ bytes)), cs)

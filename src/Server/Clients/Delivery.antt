-- ===== src/Server/Clients/Delivery.antt =====
-- Who gets the broadcasts of src/server/http_server.cpp.
use pulseport.Server.Sha1.{ws_accept_key}
use pulseport.Power.{PowerPipeline}
use pulseport.Server.Clients.{
  WsClient, broadcast, send_text, broadcast_delta, broadcast_event, stop, handle_ws_upgrade,
}
use pulseport.Prelude.{
  Bool, Bool-cases, List, Option, [], ap, drop, false, get_or, if◌then◌else◌, inl, inr, refl, true,
  ℕ, ◌∷◌, ◌≡◌,
}
use pulseport.Prelude.Int.{ℤ}
use pulseport.Prelude.Double.{Double}
use pulseport.Types.{MetricSample}

module _ {S N : Type 0} (send : S → List ℕ → N → ℤ × N) where
  -- The sockets of the living clients.
  abbrev pub living_sockets : List (WsClient S) → List S
  living_sockets [] = []
  living_sockets (c ∷ cs) = if c.alive then c.sock ∷ living_sockets cs else living_sockets cs

  -- A text sent to each socket in turn, and which of them took it.
  abbrev pub send_each : List ℕ → List S → N → List Bool × N
  send_each msg [] net = ([], net)
  send_each msg (s ∷ ss) net =
      let sent = send_text send s msg net in
      let rest = send_each msg ss sent.1 in (sent.0 ∷ rest.0, rest.1)

  -- The clients, of which the living ones get the marks in turn.
  abbrev pub marked : List (WsClient S) → List Bool → List (WsClient S)
  marked [] marks = []
  marked (c ∷ cs) marks =
      if c.alive
      then record { sock = c.sock; alive = get_or marks 0 false } ∷ marked cs (drop 1 marks)
      else c ∷ marked cs marks

  mark_lem :
      (sock : S) (b : Bool)
      → ◌≡◌ {A = WsClient S}
          (if b
            then record { sock = sock; alive = true }
            else record { sock = sock; alive = false })
          (record { sock = sock; alive = b })
  mark_lem sock true = refl
  mark_lem sock false = refl

  -- A broadcast sends the text to the sockets of the living clients, in the order of the list, and to no other. Of
  -- these a client stays alive exactly if its socket took bytes; the others stay as they are.
  pub broadcast_lem :
      (msg : List ℕ) (cs : List (WsClient S)) (net : N)
      → let sent = send_each msg (living_sockets cs) net in
        broadcast send msg cs net ≡ (marked cs sent.0, sent.1)
  unfolding broadcast
  broadcast_lem msg [] net = refl
  broadcast_lem msg (c ∷ cs) net =
      let sent = send_text send c.sock msg net in
      elim (Bool-cases c.alive) [
        | inr dead ↦ rw (dead, broadcast_lem msg cs net) refl
        | inl alive ↦
            rw (alive, broadcast_lem msg cs sent.1)
              (ap
                (λ (c2 : WsClient S). (
                  c2 ∷ marked cs (send_each msg (living_sockets cs) sent.1).0,
                  (send_each msg (living_sockets cs) sent.1).1,
                ))
                (mark_lem c.sock sent.0))
      ]

  -- The clients with these sockets, marked in turn.
  abbrev pub paired : List S → List Bool → List (WsClient S)
  paired [] marks = []
  paired (s ∷ ss) marks =
      record { sock = s; alive = get_or marks 0 false } ∷ paired ss (drop 1 marks)

-- What the program calls on the clients' list: a request to upgrade, a tick's samples, an event, and the end.
pub data ClientCall (D : Type 0) : Type 0 where
  upgrade : List ℕ → ClientCall D
  delta : List (MetricSample D) → Option (PowerPipeline D) → ℤ → ClientCall D
  event : List ℕ → ClientCall D
  stopped : ClientCall D

module _ {S N : Type 0} (send : S → List ℕ → N → ℤ × N) {D : Type 0} ⦃d : Double D⦄
    (dump : List (MetricSample D) → List ℕ) where
  abbrev pub call : ClientCall D → List (WsClient S) × N → List (WsClient S) × N
  call (ClientCall.upgrade key) (cs, net) = ((handle_ws_upgrade ws_accept_key key cs).1, net)
  call (ClientCall.delta samples pipeline ts) (cs, net) =
      broadcast_delta send dump samples pipeline ts cs net
  call (ClientCall.event msg) (cs, net) = broadcast_event send msg cs net
  call ClientCall.stopped (cs, net) = (stop send cs, net)

  abbrev pub call_all : List (ClientCall D) → List (WsClient S) × N → List (WsClient S) × N
  call_all [] s = s
  call_all (c ∷ cs) s = call_all cs (call c s)

-- ===== src/Server/Host.antt =====
-- HttpServer of src/server/http_server.cpp and the code of apps/pulseport-service/main.cpp that makes it and runs it.
-- cpp-httplib is seen by the calls that reach it, the latest first.
use pulseport.Server.Status.{SelfMetrics}
use pulseport.Service.{Service, signal_stop}
use pulseport.Registry.{Registry, snapshot}
use pulseport.Config.{Config}
use pulseport.Server.Clients.{WsClient, broadcast_delta}
use pulseport.Application.Settings.{config_file_path}
use pulseport.Server.Routes.{Settings, is_empty_text, set_config}
use pulseport.Power.{PowerPipeline}
use pulseport.Prelude.{
  Bool, List, Option, String, [], if◌then◌else◌, length, map, none, some, ℕ, ◌*◌, ◌∷◌,
}
use pulseport.Prelude.Int.{ℤ}
use pulseport.Prelude.Double.{Double}
use pulseport.Types.{MetricSample}

pub data Call : Type 0 where
  get : (path : String) → Call
  post : (path : String) → Call
  set_mount_point : (mount dir : String) → Call
  set_payload_max_length : ℕ → Call
  listen_on : (host : String) → (port : ℤ) → Call
  stop_listening : Call

-- The paths, in the order in which setup_api_routes registers them.
abbrev pub api_routes : List Call
api_routes =
    Call.get "/api/v1/health"
    ∷ Call.get "/api/v1/system/info"
    ∷ Call.get "/api/v1/live/snapshot"
    ∷ Call.get "/api/v1/history"
    ∷ Call.get "/api/v1/energy/daily"
    ∷ Call.get "/api/v1/events"
    ∷ Call.post "/api/v1/history/delete"
    ∷ Call.get "/api/v1/diagnostics"
    ∷ Call.post "/api/v1/config"
    ∷ Call.get "/api/v1/config"
    ∷ []

-- `power_pipeline` and the configuration in `settings` are what the pointers show.
pub record HttpServer {ℓ} (D T : Type ℓ) (S : Type 0) : Type ℓ where
  pub calls : List Call
  pub web_dir : String
  pub power_pipeline : Option (PowerPipeline D)
  pub settings : Settings D T
  pub ws_clients : List (WsClient S)

module _ {ℓ} {D T : Type ℓ} {S : Type 0} ⦃d : Double D⦄ where
  abbrev pub new_server : (file : Option T) → HttpServer D T S
  new_server file = record {
    calls = [];
    web_dir = "";
    power_pipeline = none;
    settings = record { config_ptr = none; config_path = ""; file = file };
    ws_clients = [];
  }

  unfoldable pub set_web_dir : String → HttpServer D T S → HttpServer D T S
  set_web_dir dir s = record s { web_dir = dir }

  unfoldable pub set_power_pipeline : PowerPipeline D → HttpServer D T S → HttpServer D T S
  set_power_pipeline pipeline s = record s { power_pipeline = some pipeline }

  unfoldable pub ws_count : HttpServer D T S → ℕ
  ws_count s = length s.ws_clients

  unfoldable pub make_calls : List Call → HttpServer D T S → HttpServer D T S
  make_calls [] s = s
  make_calls (c ∷ cs) s = make_calls cs (record s { calls = c ∷ s.calls })

  unfoldable pub setup_static_serving : HttpServer D T S → HttpServer D T S
  unfolding make_calls
  setup_static_serving s =
      if is_empty_text s.web_dir then s else make_calls (Call.set_mount_point "/" s.web_dir ∷ []) s

  unfoldable pub setup_routes : HttpServer D T S → HttpServer D T S
  unfolding make_calls setup_static_serving
  setup_routes s = setup_static_serving (make_calls api_routes s)

  -- `answer` is what cpp-httplib's listen returns once it ends.
  unfoldable pub listen :
      (answer : Bool) (host : String) (port : ℤ) → HttpServer D T S → Bool × HttpServer D T S
  unfolding setup_routes
  listen answer host port s = (
    answer,
    make_calls (Call.set_payload_max_length (1024 * 1024) ∷ Call.listen_on host port ∷ [])
        (setup_routes s),
  )

  -- HttpServer::stop. Every socket is closed, and the list is emptied.
  unfoldable pub close_server : HttpServer D T S → List S × HttpServer D T S
  unfolding make_calls
  close_server s = (
    map (λ (c : WsClient S). c.sock) s.ws_clients,
    make_calls (Call.stop_listening ∷ []) (record s { ws_clients = [] }),
  )

  -- run_application makes the server, with a pointer to its own copy of the configuration. `parent` and `join` are
  -- std::filesystem's.
  unfoldable pub make_server :
      (parent : String → String)
      → (join : String → String → String) → (file : Option T) → (cfg : Config D) → PowerPipeline D
      → HttpServer D T S
  unfolding set_web_dir set_power_pipeline set_config config_file_path
  make_server parent join file cfg pipeline =
      let powered = set_power_pipeline pipeline (set_web_dir cfg.web_dir (new_server file)) in
      record powered {
        settings = set_config cfg (config_file_path parent join cfg.db_path) powered.settings;
      }

  -- The server's thread. A server that cannot listen stops the service.
  unfoldable pub server_thread :
      (answer : Bool) → Config D → HttpServer D T S × Service → HttpServer D T S × Service
  unfolding listen signal_stop
  server_thread answer cfg (s, p) =
      let listened = listen answer cfg.host cfg.port s in
      (listened.1, if listened.0 then p else signal_stop p)

  -- The callback after each tick.
  unfoldable pub post_tick :
      {N : Type 0}
      → (send : S → List ℕ → N → ℤ × N) → (dump : List (MetricSample D) → List ℕ) → (ts now : ℤ)
      → Registry D
      → HttpServer D T S × SelfMetrics × N
      → HttpServer D T S × SelfMetrics × N
  unfolding broadcast_delta snapshot
  post_tick send dump ts now r (s, m, net) =
      let sent = broadcast_delta send dump (snapshot r) s.power_pipeline ts s.ws_clients net in
      (record s { ws_clients = sent.0 }, record m { last_sample_time = now }, sent.1)

-- ===== src/Server/Status.antt =====
-- The routes of src/server/http_server.cpp that report on the program, and the counters of
-- include/pulseport/self_metrics.h and src/diagnostics/self_metrics.cpp. Answers stay structured; the version, the
-- clock and the sizes of files are arguments. The members build_hash and active_collectors, which no code reads, are
-- left out.
use pulseport.Registry.{Registry, all_metrics, snapshot}
use pulseport.Power.{PowerPipeline}
use pulseport.Server.Clients.{delta_metrics}
use pulseport.Prelude.{List, Option, String, if◌then◌else◌, length, map, none, some, ℕ}
use pulseport.Prelude.Int.{eqb_ℤ, negsuc, pos, ℤ, ◌-ℤ◌}
use pulseport.Prelude.Double.{Double}
use pulseport.Types.{MetricInfo, MetricSample}

pub record SelfMetrics : Type 0 where
  pub version : String
  pub start_time_unix : ℤ
  pub last_sample_time : ℤ
  pub last_flush_time : ℤ
  pub ws_connections : ℕ
  pub db_size_bytes : ℤ
  pub wal_size_bytes : ℤ
  pub registered_metrics : ℕ
  pub service_mode : String

unfoldable pub uptime_seconds : (now : ℤ) → SelfMetrics → ℤ
uptime_seconds now sm =
    if eqb_ℤ sm.start_time_unix (pos 0) then pos 0 else now -ℤ sm.start_time_unix

-- `size` is std::filesystem::file_size, none where it throws.
unfoldable pub file_size_bytes : (size : Option ℕ) → ℤ
file_size_bytes none = negsuc 0
file_size_bytes (some n) = pos n

-- `size` is none where the file does not exist or a call throws.
unfoldable pub wal_size_bytes : (size : Option ℕ) → ℤ
wal_size_bytes none = pos 0
wal_size_bytes (some n) = pos n

pub record Health : Type 0 where
  pub status : String
  pub version : String
  pub uptime : ℤ

unfoldable pub health_route : (version : String) → (now : ℤ) → SelfMetrics → Health
unfolding uptime_seconds
health_route version now sm = record {
  status = "ok";
  version = version;
  uptime = uptime_seconds now sm;
}

-- Key, name, unit and category of a metric.
pub record Capability : Type 0 where
  pub key : String
  pub name : String
  pub unit : String
  pub category : String

module _ {ℓ} {D : Type ℓ} ⦃d : Double D⦄ where
  unfoldable pub system_info_route : Registry D → List Capability
  system_info_route r =
      map
        (λ (m : MetricInfo). record {
          key = m.key;
          name = m.display_name;
          unit = m.unit;
          category = m.category;
        })
        (all_metrics r)

  -- The metrics of the answer; its time stamp is another reading of the clock.
  unfoldable pub snapshot_route :
      Registry D → Option (PowerPipeline D) → (ts now : ℤ) → ℤ × List (MetricSample D)
  unfolding delta_metrics
  snapshot_route r pipeline ts now = (now, delta_metrics (snapshot r) pipeline ts)

  -- What the route for diagnostics writes to the counters before it sends them, with the uptime.
  unfoldable pub diagnostics_route :
      (now : ℤ)
      → (db_size wal_size : Option ℕ) → (ws_count : ℕ) → Registry D
      → SelfMetrics
      → SelfMetrics × ℤ
  unfolding uptime_seconds file_size_bytes wal_size_bytes
  diagnostics_route now db_size wal_size ws_count r sm =
      let updated : SelfMetrics = record sm {
        db_size_bytes = file_size_bytes db_size;
        wal_size_bytes = wal_size_bytes wal_size;
        ws_connections = ws_count;
        registered_metrics = length (all_metrics r);
      } in
      (updated, uptime_seconds now updated)

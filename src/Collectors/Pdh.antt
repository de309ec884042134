-- ===== src/Collectors/Pdh.antt =====
-- src/windows/pdh_collector.cpp: processor, memory, disk and network counters of the Performance Data Helper.
-- A counter that PdhAddEnglishCounter refused has no handle. `decimal` is std::to_string.
pub mod Listed
pub mod Opening
pub mod Table
pub mod Shown
use pulseport.Registry.{Registry}
use pulseport.Registry.Feed.{push_all}
use pulseport.Collectors.{metric, register_all, sample}
use pulseport.Prelude.{
  Bool, List, Option, String, [], if◌then◌else◌, none, some, str_append, suc, zero, ℕ, ◌++◌, ◌+◌,
  ◌∷◌,
}
use pulseport.Prelude.Int.{pos, ℤ}
use pulseport.Prelude.Double.{Double}
use pulseport.Types.{MetricInfo, MetricSample, Quality}

pub record Counters (H : Type 0) : Type 0 where
  pub cpu_total : Option H
  pub mem_available : Option H
  pub mem_committed : Option H
  pub mem_commit_limit : Option H
  pub mem_committed_pct : Option H
  pub disk_time : Option H
  pub disk_read : Option H
  pub disk_write : Option H
  pub net_recv : Option H
  pub net_send : Option H
  pub cpu_cores : List (Option H)

-- What the API answers in one collection: whether PdhCollectQueryData succeeds, the formatted value of a
-- counter, and the memory load, none where the call fails.
pub record PdhReadings {ℓ} (D : Type ℓ) (H : Type 0) : Type ℓ where
  pub collects : Bool
  pub formatted : H → Option D
  pub memory_load : Option ℕ

module _ (decimal : ℕ → String) where
  abbrev pub core_key : ℕ → String
  core_key i = str_append "cpu.core." (str_append (decimal i) ".pct")

  -- The loop over the cores from core `i` on.
  unfoldable pub core_metrics : (n i : ℕ) → List MetricInfo
  core_metrics zero i = []
  core_metrics (suc n) i =
      metric (core_key i) (str_append "CPU Core " (decimal i)) "%" "pdh" "cpu"
      ∷ core_metrics n (i + 1)

abbrev pub pdh_metrics : List MetricInfo
pdh_metrics =
    metric "cpu.total_pct" "CPU Total" "%" "pdh" "cpu"
    ∷ metric "mem.available_mb" "Memory Available" "MB" "pdh" "memory"
    ∷ metric "mem.used_pct" "Memory Used" "%" "computed" "memory"
    ∷ metric "mem.committed_bytes" "Memory Committed" "B" "pdh" "memory"
    ∷ metric "mem.commit_limit_bytes" "Commit Limit" "B" "pdh" "memory"
    ∷ metric "mem.committed_pct" "Committed %" "%" "pdh" "memory"
    ∷ metric "disk.active_pct" "Disk Active Time" "%" "pdh" "disk"
    ∷ metric "disk.read_bps" "Disk Read" "B/s" "pdh" "disk"
    ∷ metric "disk.write_bps" "Disk Write" "B/s" "pdh" "disk"
    ∷ metric "net.recv_bps" "Network Receive" "B/s" "pdh" "network"
    ∷ metric "net.send_bps" "Network Send" "B/s" "pdh" "network"
    ∷ []

module _ {ℓ} {D : Type ℓ} ⦃d : Double D⦄ (decimal : ℕ → String) where
  -- The registrations; `cores` is the number of processors.
  unfoldable pub register_pdh_collectors : ℕ → Registry D → Registry D
  unfolding register_all core_metrics
  register_pdh_collectors cores r =
      register_all (register_all r pdh_metrics) (core_metrics decimal cores 0)

  module _ {H : Type 0} (now : PdhReadings D H) (ts : ℤ) where
    unfoldable pub read_double : Option H → (key unit : String) → List (MetricSample D)
    read_double none key unit = []
    read_double (some counter) key unit = elim (now.formatted counter) [
      | none ↦ []
      | some v ↦ sample key v unit Quality.measured ts ∷ []
    ]

    -- The loop over the cores from core `i` on.
    unfoldable pub read_cores : List (Option H) → ℕ → List (MetricSample D)
    unfolding read_double
    read_cores [] i = []
    read_cores (counter ∷ counters) i =
        read_double counter (core_key decimal i) "%" ++ read_cores counters (i + 1)

    unfoldable pub read_memory : List (MetricSample D)
    read_memory = elim now.memory_load [
      | none ↦ []
      | some load ↦ sample "mem.used_pct" (d.from_int (pos load)) "%" Quality.measured ts ∷ []
    ]

    unfoldable pub read_counters : Counters H → List (MetricSample D)
    unfolding read_double
    read_counters c =
        read_double c.cpu_total "cpu.total_pct" "%"
        ++ read_double c.mem_available "mem.available_mb" "MB"
        ++ read_double c.mem_committed "mem.committed_bytes" "B"
        ++ read_double c.mem_commit_limit "mem.commit_limit_bytes" "B"
        ++ read_double c.mem_committed_pct "mem.committed_pct" "%"
        ++ read_double c.disk_time "disk.active_pct" "%"
        ++ read_double c.disk_read "disk.read_bps" "B/s"
        ++ read_double c.disk_write "disk.write_bps" "B/s"
        ++ read_double c.net_recv "net.recv_bps" "B/s"
        ++ read_double c.net_send "net.send_bps" "B/s"

    -- The samples of one collection.
    unfoldable pub pdh_samples : Counters H → List (MetricSample D)
    unfolding read_counters read_cores read_memory
    pdh_samples c = read_counters c ++ (read_cores c.cpu_cores 0 ++ read_memory)

    -- `counters` is none before the query was opened.
    unfoldable pub collect_pdh : Option (Counters H) → Registry D → Registry D
    unfolding pdh_samples push_all
    collect_pdh none r = r
    collect_pdh (some c) r = if now.collects then push_all r (pdh_samples c) else r

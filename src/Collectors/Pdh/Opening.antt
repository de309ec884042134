-- ===== src/Collectors/Pdh/Opening.antt =====
-- src/windows/pdh_collector.cpp: how register_pdh_collectors opens the counters.
use pulseport.Collectors.Pdh.{Counters}
use pulseport.Prelude.{
  Bool, List, Option, String, [], if◌then◌else◌, none, some, str_append, suc, zero, ℕ, ◌+◌, ◌∷◌,
}

-- What PdhOpenQuery and PdhAddEnglishCounter answer; `none` is a counter that is refused, whose handle stays null.
pub record PdhQuery (H : Type 0) : Type 0 where
  pub opens : Bool
  pub add_counter : String → Option H

module _ (decimal : ℕ → String) {H : Type 0} (q : PdhQuery H) where
  abbrev pub core_path : ℕ → String
  core_path i = str_append "\\Processor(" (str_append (decimal i) ")\\% Processor Time")

  -- The loop over the cores from core `i` on.
  unfoldable pub open_cores : (n i : ℕ) → List (Option H)
  open_cores zero i = []
  open_cores (suc n) i = q.add_counter (core_path i) ∷ open_cores n (i + 1)

  abbrev pub opened : (cores : ℕ) → Counters H
  opened cores = record {
    cpu_total = q.add_counter "\\Processor(_Total)\\% Processor Time";
    mem_available = q.add_counter "\\Memory\\Available MBytes";
    mem_committed = q.add_counter "\\Memory\\Committed Bytes";
    mem_commit_limit = q.add_counter "\\Memory\\Commit Limit";
    mem_committed_pct = q.add_counter "\\Memory\\% Committed Bytes In Use";
    disk_time = q.add_counter "\\PhysicalDisk(_Total)\\% Disk Time";
    disk_read = q.add_counter "\\PhysicalDisk(_Total)\\Disk Read Bytes/sec";
    disk_write = q.add_counter "\\PhysicalDisk(_Total)\\Disk Write Bytes/sec";
    net_recv = q.add_counter "\\Network Interface(*)\\Bytes Received/sec";
    net_send = q.add_counter "\\Network Interface(*)\\Bytes Sent/sec";
    cpu_cores = open_cores cores 0;
  }

  -- The result of the first PdhCollectQueryData is not looked at.
  unfoldable pub open_counters : (cores : ℕ) → Option (Counters H)
  unfolding open_cores
  open_counters cores = if q.opens then some (opened cores) else none

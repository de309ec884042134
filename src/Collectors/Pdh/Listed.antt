-- ===== src/Collectors/Pdh/Listed.antt =====
-- src/windows/pdh_collector.cpp: the samples of a collection and the metrics that are registered.
use pulseport.Registry.{Registry}
use pulseport.Collectors.{sample, register_all}
use pulseport.Collectors.Recorded.{
  IsListed, IsRegistered, register_all-IsListed, register_all-IsRegistered,
}
use pulseport.Collectors.Pdh.{
  PdhReadings, core_key, core_metrics, read_cores, read_double, pdh_metrics,
  register_pdh_collectors, Counters, pdh_samples, read_counters, read_memory,
}
use pulseport.Prelude.{
  All, All-append, Bool-cases, List, Option, Option-cases, String, [], ap, arith, inl, inr, length,
  none, refl, some, suc, zero, ℕ, ◌++◌, ◌+◌, ◌<◌, ◌==◌, ◌∷◌, ◌≤◌,
}
use pulseport.Prelude.Int.{ℤ}
use pulseport.Prelude.Double.{Double}
use pulseport.Types.{MetricSample, Quality}

module _ (decimal : ℕ → String) where
  -- The metrics of `n` cores from core `i` on have that of core `j` among them.
  core_metrics-IsListed :
      (n i j : ℕ) → i ≤ j → j < i + n → IsListed (core_key decimal j) "%" (core_metrics decimal n i)
  unfolding core_metrics
  core_metrics-IsListed zero i j le h = absurd (omega arith)
  core_metrics-IsListed (suc n) i j le h = elim (Bool-cases (i == j)) [
    | inl same ↦ inl (ap (core_key decimal) (ground arith), refl)
    | inr other ↦ inr (core_metrics-IsListed n (i + 1) j (ground arith) (omega arith))
  ]

module _ {ℓ} {D : Type ℓ} ⦃d : Double D⦄ (decimal : ℕ → String) where
  module _ {H : Type 0} (now : PdhReadings D H) (ts : ℤ) where
    -- What holds of a sample of the counter holds of those that are read.
    read_double-All :
        (P : MetricSample D → Type ℓ) (h : Option H) (key unit : String)
        → ((v : D) → P (sample key v unit Quality.measured ts))
        → All P (read_double decimal now ts h key unit)
    unfolding read_double
    read_double-All P none key unit p = tt
    read_double-All P (some counter) key unit p = elim (Option-cases (now.formatted counter)) [
      | inl h ↦ rw (h, All) tt
      | inr (v, h) ↦ rw (h, All) (p v, tt)
    ]

    read_cores-All :
        (P : MetricSample D → Type ℓ) (n : ℕ)
        → ((i : ℕ) (v : D) → i < n → P (sample (core_key decimal i) v "%" Quality.measured ts))
        → (cores : List (Option H)) (i : ℕ) → length cores + i ≤ n
        → All P (read_cores decimal now ts cores i)
    unfolding read_cores
    read_cores-All P n p [] i h = tt
    read_cores-All P n p (c ∷ cores) i h =
        All-append P (read_double decimal now ts c (core_key decimal i) "%") _
          (read_double-All P c (core_key decimal i) "%" (λ v. p i v (omega arith)))
          (read_cores-All P n p cores (i + 1) (omega arith))

  pub register_pdh_collectors-IsRegistered_fixed :
      (n : ℕ) (r : Registry D) (key unit : String)
      → IsListed key unit pdh_metrics
      → IsRegistered (register_pdh_collectors decimal n r) key
  unfolding register_pdh_collectors
  register_pdh_collectors-IsRegistered_fixed n r key unit h =
      register_all-IsRegistered (core_metrics decimal n 0) (register_all r pdh_metrics) key
        (register_all-IsListed pdh_metrics r key unit h)

  register_pdh_collectors-IsRegistered_core :
      (n : ℕ) (r : Registry D) (i : ℕ)
      → i < n
      → IsRegistered (register_pdh_collectors decimal n r) (core_key decimal i)
  unfolding register_pdh_collectors
  register_pdh_collectors-IsRegistered_core n r i h =
      register_all-IsListed (core_metrics decimal n 0) (register_all r pdh_metrics)
        (core_key decimal i) "%" (core_metrics-IsListed decimal n 0 i (omega arith) (omega arith))

  module _ {H : Type 0} (n : ℕ) (r : Registry D) (now : PdhReadings D H) (ts : ℤ) where
    -- The sample is of a metric that the collector registered.
    abbrev pub IsKept : MetricSample D → Type ℓ
    IsKept s = IsRegistered (register_pdh_collectors decimal n r) s.key

    read_fixed-IsKept :
        (before : List (MetricSample D))
        → All IsKept before
        → (h : Option H) (key unit : String) → IsListed key unit pdh_metrics
        → All IsKept (before ++ read_double decimal now ts h key unit)
    read_fixed-IsKept before kept h key unit listed =
        All-append IsKept before (read_double decimal now ts h key unit) kept (
          read_double-All now ts IsKept h key unit
            (λ v. register_pdh_collectors-IsRegistered_fixed n r key unit listed))

    read_memory-IsKept : All IsKept (read_memory decimal now ts)
    unfolding read_memory
    read_memory-IsKept = elim (Option-cases now.memory_load) [
      | inl h ↦ rw (h, All) tt
      | inr (load, h) ↦
          rw (h, All)
            (
              register_pdh_collectors-IsRegistered_fixed n r "mem.used_pct" "%"
                  (inr (inr (inl (refl, refl)))),
              tt,
            )
    ]

    read_counters-IsKept : (c : Counters H) → All IsKept (read_counters decimal now ts c)
    unfolding read_counters
    read_counters-IsKept c =
        let k0 = read_fixed-IsKept [] tt c.cpu_total "cpu.total_pct" "%" (inl (refl, refl)) in
        let k1 =
          read_fixed-IsKept _ k0 c.mem_available "mem.available_mb" "MB" (inr (inl (refl, refl))) in
        let k2 =
          read_fixed-IsKept _ k1 c.mem_committed "mem.committed_bytes" "B"
            (inr (inr (inr (inl (refl, refl))))) in
        let k3 =
          read_fixed-IsKept _ k2 c.mem_commit_limit "mem.commit_limit_bytes" "B"
            (inr (inr (inr (inr (inl (refl, refl)))))) in
        let k4 =
          read_fixed-IsKept _ k3 c.mem_committed_pct "mem.committed_pct" "%"
            (inr (inr (inr (inr (inr (inl (refl, refl))))))) in
        let k5 =
          read_fixed-IsKept _ k4 c.disk_time "disk.active_pct" "%"
            (inr (inr (inr (inr (inr (inr (inl (refl, refl)))))))) in
        let k6 =
          read_fixed-IsKept _ k5 c.disk_read "disk.read_bps" "B/s"
            (inr (inr (inr (inr (inr (inr (inr (inl (refl, refl))))))))) in
        let k7 =
          read_fixed-IsKept _ k6 c.disk_write "disk.write_bps" "B/s"
            (inr (inr (inr (inr (inr (inr (inr (inr (inl (refl, refl)))))))))) in
        let k8 =
          read_fixed-IsKept _ k7 c.net_recv "net.recv_bps" "B/s"
            (inr (inr (inr (inr (inr (inr (inr (inr (inr (inl (refl, refl))))))))))) in
        read_fixed-IsKept _ k8 c.net_send "net.send_bps" "B/s"
          (inr (inr (inr (inr (inr (inr (inr (inr (inr (inr (inl (refl, refl))))))))))))

    -- Every sample of a collection is of a metric that the collector registered, whichever counters are refused or
    -- cannot be read, where there are no more counters of cores than processors were registered.
    pub pdh_samples-IsRegistered :
        (c : Counters H)
        → length c.cpu_cores ≤ n
        → All
            (λ (s : MetricSample D). IsRegistered (register_pdh_collectors decimal n r) s.key)
            (pdh_samples decimal now ts c)
    unfolding pdh_samples
    pdh_samples-IsRegistered c h =
        All-append IsKept (read_counters decimal now ts c) _ (read_counters-IsKept c) (
          All-append IsKept (read_cores decimal now ts c.cpu_cores 0) _
            (read_cores-All now ts IsKept n (λ i v. register_pdh_collectors-IsRegistered_core n r i)
              c.cpu_cores 0 (omega arith))
            read_memory-IsKept)

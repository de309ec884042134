-- ===== src/Collectors/Pdh/Shown.antt =====
-- src/windows/pdh_collector.cpp: the counter that each metric shows.
use mathlib.Core.Path.{subst}
use pulseport.Collectors.Pdh.Table.{
  IsBlank, read_all, shown, Shows, latest-shown, read_all-Shows, reported-read_cores,
  reported-read_memory, are_distinct, are_distinct-Distinct, reported_front, reported_skip,
  register_all-IsBlank, latest_empty,
}
use pulseport.Collectors.Pdh.Opening.{opened, open_counters}
use pulseport.Registry.{latest}
use pulseport.Collectors.Pdh.Listed.{register_pdh_collectors-IsRegistered_fixed}
use pulseport.Registry.Feed.{push_all}
use pulseport.Collectors.Pdh.Opening.{PdhQuery, open_counters}
use pulseport.Registry.{Registry}
use pulseport.Collectors.Pdh.{
  Counters, PdhReadings, collect_pdh, core_key, core_metrics, pdh_metrics, pdh_samples, read_cores,
  read_counters, read_double, read_memory, register_pdh_collectors,
}
use pulseport.Collectors.Pdh.Table.{
  Shows, latest-shown, latest_empty, read_all-Shows, register_all-IsBlank, reported-read_cores,
  reported-read_memory, reported_front, reported_skip, shown,
}
use pulseport.Collectors.Recorded.{IsListed, IsRegistered, reported}
use pulseport.Prelude.{
  All, List, Option, String, [], append-nil, append_assoc, false, inl, inr, none, refl, some,
  str_eq, sym, true, ℕ, ◌++◌, ◌∙◌, ◌∷◌, ◌≡◌,
}
use pulseport.Prelude.Int.{eqb_ℤ, pos, ℤ}
use pulseport.Prelude.Double.{Double}
use pulseport.Types.{MetricSample}

module _ {ℓ} {D : Type ℓ} ⦃d : Double D⦄ where
  module _ (decimal : ℕ → String) {H : Type 0} (now : PdhReadings D H) (ts : ℤ) where
    -- What keeps the later samples of a collection from the metric of a counter.
    abbrev pub Unmistaken : String → Type 0
    Unmistaken key =
        ((i : ℕ) → str_eq (core_key decimal i) key ≡ false) × (str_eq "mem.used_pct" key ≡ false)

    latest-Shows :
        (r : Registry D) (c : Counters H) (table : List (Option H × String × String))
        → eqb_ℤ ts (pos 0) ≡ false
        → IsBlank r
        → Shows decimal now ts (read_counters decimal now ts c) table
        → All (λ (x : Option H × String × String). IsRegistered r x.1 × Unmistaken x.1) table
        → All
            (λ (x : Option H × String × String).
              latest (push_all r (pdh_samples decimal now ts c)) x.1
              ≡ shown decimal now ts x.0 x.1 x.2)
            table
    unfolding pdh_samples
    latest-Shows r c [] ne blank known apart = tt
    latest-Shows r c ((h, key, unit) ∷ rest) ne blank (same, known) ((at_key, off), apart) =
        let cores = read_cores decimal now ts c.cpu_cores 0 in
        let memory = read_memory decimal now ts in
        let later : reported key (cores ++ memory) ≡ none =
          reported_front key cores memory
            (reported-read_cores decimal now ts key off.0 c.cpu_cores 0)
          ∙ reported-read_memory decimal now ts key off.1 in
        (
          latest-shown decimal now ts r (read_counters decimal now ts c ++ (cores ++ memory)) h key
              unit ne blank at_key
              (reported_skip key (read_counters decimal now ts c) (cores ++ memory) later ∙ same),
          latest-Shows r c rest ne blank known apart,
        )

    -- The counters by their handles, with the metrics that are to show them.
    abbrev pub shown_counters : PdhQuery H → List (Option H × String × String)
    shown_counters q =
        (q.add_counter "\\Processor(_Total)\\% Processor Time", "cpu.total_pct", "%")
        ∷ (q.add_counter "\\Memory\\Available MBytes", "mem.available_mb", "MB")
        ∷ (q.add_counter "\\Memory\\Committed Bytes", "mem.committed_bytes", "B")
        ∷ (q.add_counter "\\Memory\\Commit Limit", "mem.commit_limit_bytes", "B")
        ∷ (q.add_counter "\\Memory\\% Committed Bytes In Use", "mem.committed_pct", "%")
        ∷ (q.add_counter "\\PhysicalDisk(_Total)\\% Disk Time", "disk.active_pct", "%")
        ∷ (q.add_counter "\\PhysicalDisk(_Total)\\Disk Read Bytes/sec", "disk.read_bps", "B/s")
        ∷ (q.add_counter "\\PhysicalDisk(_Total)\\Disk Write Bytes/sec", "disk.write_bps", "B/s")
        ∷ (q.add_counter "\\Network Interface(*)\\Bytes Received/sec", "net.recv_bps", "B/s")
        ∷ (q.add_counter "\\Network Interface(*)\\Bytes Sent/sec", "net.send_bps", "B/s")
        ∷ []

    shown_counters-Shows :
        (q : PdhQuery H)
        → Shows decimal now ts (read_all decimal now ts (shown_counters q)) (shown_counters q)
    unfolding are_distinct
    shown_counters-Shows q =
        read_all-Shows decimal now ts (shown_counters q)
          (are_distinct-Distinct (shown_counters q) refl)

    open_counters_lem :
        (q : PdhQuery H) (cores : ℕ)
        → q.opens ≡ true
        → open_counters decimal q cores ≡ some (opened decimal q cores)
    unfolding open_counters
    open_counters_lem q cores h = rw h refl

    abbrev read_onto :
        List (MetricSample D) → List (Option H × String × String) → List (MetricSample D)
    read_onto ss [] = ss
    read_onto ss ((h, key, unit) ∷ rest) =
        read_onto (ss ++ read_double decimal now ts h key unit) rest

    read_onto_lem :
        (ss : List (MetricSample D)) (table : List (Option H × String × String))
        → read_onto ss table ≡ ss ++ read_all decimal now ts table
    read_onto_lem ss [] = sym (append-nil ss)
    read_onto_lem ss ((h, key, unit) ∷ rest) =
        let one = read_double decimal now ts h key unit in
        read_onto_lem (ss ++ one) rest ∙ append_assoc ss one (read_all decimal now ts rest)

    read_counters_lem :
        (q : PdhQuery H) (cores : ℕ)
        → read_all decimal now ts (shown_counters q)
          ≡ read_counters decimal now ts (opened decimal q cores)
    unfolding read_counters
    read_counters_lem q cores = sym (read_onto_lem [] (shown_counters q))

    read_counters-Shows :
        (q : PdhQuery H) (cores : ℕ)
        → Shows decimal now ts
            (read_counters decimal now ts (opened decimal q cores))
            (shown_counters q)
    read_counters-Shows q cores =
        subst (λ ss. Shows decimal now ts ss (shown_counters q)) (read_counters_lem q cores)
          (shown_counters-Shows q)

    Kept : ℕ → String → Type ℓ
    Kept cores key =
        IsRegistered {D = D} (register_pdh_collectors decimal cores []) key × Unmistaken key

    listed-Kept :
        (cores : ℕ) (key unit : String)
        → IsListed key unit pdh_metrics
        → str_eq "mem.used_pct" key ≡ false
        → ((i : ℕ) → str_eq (core_key decimal i) key ≡ false)
        → Kept cores key
    unfolding Kept
    listed-Kept cores key unit listed off_mem off_core = (
      register_pdh_collectors-IsRegistered_fixed decimal cores [] key unit listed,
      (off_core, off_mem),
    )

    -- Every metric of the table is registered, and no later sample is of it.
    shown_counters-Kept :
        (q : PdhQuery H) (cores : ℕ)
        → All
            (λ (x : Option H × String × String). (i : ℕ) → str_eq (core_key decimal i) x.1 ≡ false)
            (shown_counters q)
        → All (λ (x : Option H × String × String). Kept cores x.1) (shown_counters q)
    shown_counters-Kept q cores (a, (b, (c, (e, (f, (g, (h, (i, (j, (k, _)))))))))) = (
      listed-Kept cores "cpu.total_pct" "%" (inl (refl, refl)) refl a,
      (
        listed-Kept cores "mem.available_mb" "MB" (inr (inl (refl, refl))) refl b,
        (
          listed-Kept cores "mem.committed_bytes" "B" (inr (inr (inr (inl (refl, refl))))) refl c,
          (
            listed-Kept cores "mem.commit_limit_bytes" "B"
                (inr (inr (inr (inr (inl (refl, refl)))))) refl e,
            (
              listed-Kept cores "mem.committed_pct" "%"
                  (inr (inr (inr (inr (inr (inl (refl, refl))))))) refl f,
              (
                listed-Kept cores "disk.active_pct" "%"
                    (inr (inr (inr (inr (inr (inr (inl (refl, refl)))))))) refl g,
                (
                  listed-Kept cores "disk.read_bps" "B/s"
                      (inr (inr (inr (inr (inr (inr (inr (inl (refl, refl))))))))) refl h,
                  (
                    listed-Kept cores "disk.write_bps" "B/s"
                        (inr (inr (inr (inr (inr (inr (inr (inr (inl (refl, refl)))))))))) refl i,
                    (
                      listed-Kept cores "net.recv_bps" "B/s"
                          (inr (inr (inr (inr (inr (inr (inr (inr (inr (inl (refl, refl)))))))))))
                          refl j,
                      (
                        listed-Kept cores "net.send_bps" "B/s"
                            (inr (
                              inr
                                (inr (inr (inr (inr (inr (inr (inr (inr (inl (refl, refl))))))))))))
                            refl k,
                        tt,
                      ),
                    ),
                  ),
                ),
              ),
            ),
          ),
        ),
      ),
    )

    -- When the query opens, a collection right after the registrations succeeds at a time stamp other than 0, and no
    -- core's key is that of another metric, each of the ten metrics that have a counter of their own shows the value
    -- of the counter of its name, and nothing where the counter was refused or has no value.
    pub latest-collect_pdh :
        (q : PdhQuery H) (cores : ℕ)
        → q.opens ≡ true
        → now.collects ≡ true
        → eqb_ℤ ts (pos 0) ≡ false
        → All
            (λ (x : Option H × String × String). (i : ℕ) → str_eq (core_key decimal i) x.1 ≡ false)
            (shown_counters q)
        → let registered = register_pdh_collectors {D = D} decimal cores [] in
          let after = collect_pdh decimal now ts (open_counters decimal q cores) registered in
          All
            (λ (x : Option H × String × String).
              latest after x.1 ≡ shown decimal now ts x.0 x.1 x.2)
            (shown_counters q)
    unfolding collect_pdh register_pdh_collectors Kept
    latest-collect_pdh q cores opens collects ne apart =
        rw (open_counters_lem q cores opens, collects)
          (latest-Shows (register_pdh_collectors {D = D} decimal cores []) (opened decimal q cores)
            (shown_counters q) ne
            (register_all-IsBlank (core_metrics decimal cores 0) _
              (register_all-IsBlank pdh_metrics [] (λ key. latest_empty key)))
            (read_counters-Shows q cores) (shown_counters-Kept q cores apart))

-- ===== src/Collectors/Process/Listed.antt =====
-- src/windows/process_collector.cpp: the samples of a collection and the metrics that are registered.
use pulseport.Registry.{Registry}
use pulseport.Collectors.Recorded.{All-register_all, IsListed, IsRegistered}
use pulseport.Collectors.Process.{
  ProcessEntry, process_entries, process_metrics, process_samples, rank_samples,
  register_process_collectors, sort_entries, top_count, top_key,
}
use pulseport.Prelude.{
  All, Bool, Bool-cases, List, String, [], ap, arith, inl, inr, refl, suc, zero, ℕ, ◌+◌, ◌<◌, ◌==◌,
  ◌∷◌, ◌≤◌,
}
use pulseport.Prelude.Int.{ℤ}
use pulseport.Prelude.Double.{Double}
use pulseport.Types.{MetricSample}

module _ (decimal : ℕ → String) where
  -- The metrics of `n` ranks from rank `i` on have those of rank `j` among them.
  process_metrics-IsListed_cpu :
      (n i j : ℕ)
      → i ≤ j
      → j < i + n
      → IsListed (top_key decimal j ".cpu_pct") "%" (process_metrics decimal n i)
  unfolding process_metrics
  process_metrics-IsListed_cpu zero i j le h = absurd (omega arith)
  process_metrics-IsListed_cpu (suc n) i j le h = elim (Bool-cases (i == j)) [
    | inl same ↦ inl (ap (λ k. top_key decimal k ".cpu_pct") (ground arith), refl)
    | inr other ↦
        inr (inr (inr (process_metrics-IsListed_cpu n (i + 1) j (ground arith) (omega arith))))
  ]

  process_metrics-IsListed_name :
      (n i j : ℕ)
      → i ≤ j
      → j < i + n
      → IsListed (top_key decimal j ".name") "text" (process_metrics decimal n i)
  unfolding process_metrics
  process_metrics-IsListed_name zero i j le h = absurd (omega arith)
  process_metrics-IsListed_name (suc n) i j le h = elim (Bool-cases (i == j)) [
    | inl same ↦ inr (inr (inl (ap (λ k. top_key decimal k ".name") (ground arith), refl)))
    | inr other ↦
        inr (inr (inr (process_metrics-IsListed_name n (i + 1) j (ground arith) (omega arith))))
  ]

module _ {ℓ} {D : Type ℓ} ⦃d : Double D⦄ (decimal : ℕ → String) (hash : String → D) where
  rank_samples-IsListed :
      (n i : ℕ) (entries : List (ProcessEntry D)) (ts : ℤ)
      → i + n ≤ top_count
      → All
          (λ s. IsListed s.key s.unit (process_metrics decimal top_count 0))
          (rank_samples decimal hash n i entries ts)
  unfolding rank_samples
  rank_samples-IsListed zero i entries ts h = tt
  rank_samples-IsListed (suc n) i [] ts h = (
    process_metrics-IsListed_cpu decimal top_count 0 i (omega arith) (omega arith),
    rank_samples-IsListed n (i + 1) [] ts (omega arith),
  )
  rank_samples-IsListed (suc n) i (e ∷ entries) ts h = (
    process_metrics-IsListed_cpu decimal top_count 0 i (omega arith) (omega arith),
    (
      process_metrics-IsListed_name decimal top_count 0 i (omega arith) (omega arith),
      rank_samples-IsListed n (i + 1) entries ts (omega arith),
    ),
  )

  -- Every sample of a collection of processes is of a metric that the collector registered.
  pub process_samples-IsRegistered :
      (r : Registry D) (opened : Bool) (items : List (String × D)) (ts : ℤ)
      → All
          (λ (s : MetricSample D).
            IsRegistered (register_process_collectors decimal hash opened r).1 s.key)
          (process_samples decimal hash items ts)
  unfolding process_samples register_process_collectors
  process_samples-IsRegistered r opened items ts =
      All-register_all (process_metrics decimal top_count 0) r
        (process_samples decimal hash items ts)
        (rank_samples-IsListed top_count 0 (sort_entries (process_entries items)) ts (omega arith))

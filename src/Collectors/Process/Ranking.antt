-- ===== src/Collectors/Process/Ranking.antt =====
-- src/windows/process_collector.cpp: which processes are ranked.
use pulseport.Collectors.Process.{
  ProcessEntry, process_entries, process_samples, rank_samples, top_count,
}
use pulseport.Prelude.{
  All, Bool, List, String, [], if◌then◌else◌, length, min, suc, ℕ, ◌+◌, ◌∷◌, ◌≡◌,
}
use pulseport.Prelude.Int.{ℤ}
use pulseport.Prelude.Double.{Double, ◌≼◌}

module _ {ℓ} {D : Type ℓ} ⦃d : Double D⦄ where
  -- How many entries pass the test.
  unfoldable pub count_if : (ProcessEntry D → Bool) → List (ProcessEntry D) → ℕ
  count_if p [] = 0
  count_if p (e ∷ es) = if p e then suc (count_if p es) else count_if p es

  -- The processor time is a number, not NaN.
  abbrev pub IsNumber : ProcessEntry D → Type 0
  IsNumber e = e.cpu_pct ≼ e.cpu_pct

  -- No entry has more processor time than one before it.
  abbrev pub Descending : List (ProcessEntry D) → Type 0
  Descending [] = Unit
  Descending (e ∷ es) = All (λ f. f.cpu_pct ≼ e.cpu_pct) es × Descending es

  -- No entry of the second list has more processor time than one of the first.
  abbrev pub Above : List (ProcessEntry D) → List (ProcessEntry D) → Type 0
  Above top rest = All (λ e. All (λ f. f.cpu_pct ≼ e.cpu_pct) rest) top

  -- The samples rank the entries of `top`, which has the most processor time, in descending order, and with
  -- `rest` makes up all the entries.
  pub record Ranks (decimal : ℕ → String) (hash : String → D) (items : List (String × D)) (ts : ℤ)
      : Type ℓ where
    pub top : List (ProcessEntry D)
    pub rest : List (ProcessEntry D)
    pub samples :
        process_samples decimal hash items ts ≡ rank_samples decimal hash top_count 0 top ts
    pub size : length top ≡ min top_count (length (process_entries items))
    pub complete :
        (p : ProcessEntry D → Bool)
        → count_if p top + count_if p rest ≡ count_if p (process_entries items)
    pub sorted : Descending top
    pub highest : Above top rest

-- ===== src/Collectors/Process.antt =====
-- src/windows/process_collector.cpp: the ten processes with the highest processor time. `decimal` is
-- std::to_string and `hash` is std::hash of a string, as a `double`.
pub mod Ranking
pub mod Listed
use pulseport.Registry.Feed.{push_all}
use pulseport.Registry.{Registry}
use pulseport.Collectors.{metric, register_all, sample}
use pulseport.Prelude.{
  Bool, List, Option, String, [], if◌then◌else◌, none, not, some, str_append, str_eq, suc, zero, ℕ,
  ◌+◌, ◌==◌, ◌||◌, ◌∷◌,
}
use pulseport.Prelude.Int.{pos, ℤ}
use pulseport.Prelude.Double.{Double}
use pulseport.Types.{MetricInfo, MetricSample, Quality}

pub record ProcessEntry {ℓ} (D : Type ℓ) : Type ℓ where
  pub name : String
  pub cpu_pct : D
  pub mem_mb : D

-- What PDH answers: the counter is added, the array has a size, and its items; none where it is not formatted.
pub record ProcessReadings {ℓ} (D : Type ℓ) : Type ℓ where
  pub counter_added : Bool
  pub more_data : Bool
  pub buf_size : ℕ
  pub items : Option (List (String × D))

abbrev pub top_count : ℕ
top_count = 10

module _ (decimal : ℕ → String) where
  abbrev pub top_key : ℕ → String → String
  top_key i field = str_append (str_append "proc.top" (decimal i)) field

  abbrev pub top_name : ℕ → String → String
  top_name i field = str_append "Top Process #" (str_append (decimal (i + 1)) field)

  -- The registrations of `n` ranks from rank `i` on.
  unfoldable pub process_metrics : (n i : ℕ) → List MetricInfo
  process_metrics zero i = []
  process_metrics (suc n) i =
      metric (top_key i ".cpu_pct") (top_name i " CPU") "%" "pdh_proc" "process"
      ∷ metric (top_key i ".mem_mb") (top_name i " Memory") "MB" "pdh_proc" "process"
      ∷ metric (top_key i ".name") (top_name i " Name") "text" "pdh_proc" "process"
      ∷ process_metrics n (i + 1)

module _ {ℓ} {D : Type ℓ} ⦃d : Double D⦄ where
  -- The entries without the pseudo-processes of the system.
  unfoldable pub process_entries : List (String × D) → List (ProcessEntry D)
  process_entries [] = []
  process_entries ((name, value) ∷ items) =
      if str_eq name "_Total" || str_eq name "Idle"
      then process_entries items
      else record { name = name; cpu_pct = value; mem_mb = d.from_int (pos 0) }
        ∷ process_entries items

  -- std::sort with `a.cpu_pct > b.cpu_pct`; the order among equals, which C++ leaves open, is that of the array.
  unfoldable pub insert_entry : ProcessEntry D → List (ProcessEntry D) → List (ProcessEntry D)
  insert_entry e [] = e ∷ []
  insert_entry e (f ∷ fs) = if d.lt e.cpu_pct f.cpu_pct then f ∷ insert_entry e fs else e ∷ f ∷ fs

  unfoldable pub sort_entries : List (ProcessEntry D) → List (ProcessEntry D)
  unfolding insert_entry
  sort_entries [] = []
  sort_entries (e ∷ es) = insert_entry e (sort_entries es)

  module _ (decimal : ℕ → String) (hash : String → D) where
    -- Whether the query was opened, and the registrations.
    unfoldable pub register_process_collectors : Bool → Registry D → Bool × Registry D
    unfolding process_metrics register_all
    register_process_collectors opened r =
        (opened, register_all r (process_metrics decimal top_count 0))

    -- The loop over `n` ranks from rank `i` on, with the entries from there on.
    unfoldable pub rank_samples : (n i : ℕ) → List (ProcessEntry D) → ℤ → List (MetricSample D)
    rank_samples zero i entries ts = []
    rank_samples (suc n) i [] ts =
        sample (top_key decimal i ".cpu_pct") (d.from_int (pos 0)) "%" Quality.unknown ts
        ∷ rank_samples n (i + 1) [] ts
    rank_samples (suc n) i (e ∷ entries) ts =
        sample (top_key decimal i ".cpu_pct") e.cpu_pct "%" Quality.measured ts
        ∷ sample (top_key decimal i ".name") (hash e.name) "text" Quality.measured ts
        ∷ rank_samples n (i + 1) entries ts

    unfoldable pub process_samples : List (String × D) → ℤ → List (MetricSample D)
    unfolding process_entries sort_entries rank_samples
    process_samples items ts = rank_samples top_count 0 (sort_entries (process_entries items)) ts

    unfoldable pub collect_processes : Bool → ProcessReadings D → ℤ → Registry D → Registry D
    unfolding process_samples push_all
    collect_processes initialized now ts r =
        if not initialized || not now.counter_added
        then r
        else if not now.more_data || now.buf_size == 0
        then r
        else elim now.items [ none ↦ r | some items ↦ push_all r (process_samples items ts) ]

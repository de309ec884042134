-- ===== src/Tests/Started.antt =====
-- The program as a whole, from its start over some ticks.
use pulseport.Tests.Measured.{whole_double}
use pulseport.Storage.Tables.{run}
use mathlib.Core.Option.{some-injective}
use pulseport.Application.PowerFeed.{battery_callback-run_ticks}
use pulseport.Power.{PowerPipeline}
use pulseport.Tests.Measured.{discharging, on_battery, whole-HasSigns}
use pulseport.Application.Unrecorded.{run_application-one_minute}
use pulseport.Storage.Tables.{Tables, Stmt, affected, rollup}
use pulseport.Storage.Engine.{in_memory, IsSqlite, Outcome, Sqlite, matching, sort_by_ts}
use pulseport.Sampler.{Collector}
use pulseport.Config.{default_config}
use pulseport.Application.{
  Moment, World, collectors, run_ticks, shut_down, start_application, battery_callback,
}
use pulseport.Collectors.Thermal.{ComStart}
use pulseport.Prelude.{
  Bool, Bool-cases, List, String, [], false, if◌then◌else◌, inl, inr, none, refl, some, sym, take,
  true, ℕ, ◌∷◌, ◌≡◌, ◌≢◌, ◌⊎◌,
}
use pulseport.Prelude.Int.{pos, ℤ}
use pulseport.Prelude.Double.{Approx, approx_double}
use pulseport.Types.{Quality}

abbrev pub moment : Moment Approx ℕ
moment = record {
  pdh_ts = pos 1000;
  battery_ts = pos 1000;
  thermal_ts = pos 1000;
  process_ts = pos 1000;
  maintenance_ts = pos 1000;
  pdh = record { collects = true; formatted = λ h. some (some h); memory_load = some 40 };
  battery = discharging;
  power_status = some on_battery;
  thermal = none;
  processes = record { counter_added = false; more_data = false; buf_size = 0; items = none };
  today = "2024-05-01";
  clocks = λ key. pos 1000;
  local_day = λ ts. "2024-04-01";
  day_start = λ day. some (pos 0);
}

abbrev pub no_rows : Tables Approx
no_rows = record {
  one_minute = [];
  fifteen_minutes = [];
  current = [];
  energy = [];
  events = [];
  next_event_id = 1;
  registry = [];
  audit = [];
}

abbrev pub name_of : ℕ → String
name_of n = "0"

abbrev pub blank_hash : String → Approx
blank_hash name = some 0

abbrev pub plain : String → Approx → String
plain text value = text

abbrev pub no_api : ComStart
no_api = record {
  initialized = false;
  changed_mode = false;
  locator = false;
  connected = false;
  enumerated = false;
  object_returned = false;
}

-- A database in which no event can be stored: the attempt rolls the open transaction back. It keeps the tables, what they
-- were at the last BEGIN, and the number of changes.
abbrev is_event : Stmt Approx → Bool
is_event (Stmt.insert_event ts severity category title payload) = true
is_event _ = false

abbrev is_begin : Stmt Approx → Bool
is_begin Stmt.begin_transaction = true
is_begin _ = false

abbrev no_order : String → String → Bool
no_order a b = false

abbrev flaky : Sqlite Approx (Tables Approx × Tables Approx × ℕ)
flaky = record {
  exec = λ s db. if is_event s then (Outcome.failed, (db.1, db.1, 0)) else (
    Outcome.done,
    (run no_order s db.0, (if is_begin s then db.0 else db.1), affected no_order s db.0),
  );
  changes = λ db. db.2;
  select_history = λ which key start end limit db.
      some (take limit (sort_by_ts (matching key start end (rollup which db.0))));
  select_energy = λ start end db. some db.0.energy;
  select_events = λ start end category limit db. some db.0.events;
  column_double = λ x. x;
  text_lt = no_order;
}

flaky-done :
    (s : Stmt Approx) (db : Tables Approx × Tables Approx × ℕ)
    → (flaky.exec s db).0 ≡ Outcome.done
    → is_event s ≡ false
flaky-done s db h = elim (Bool-cases (is_event s)) [
  | inl event ↦ absurd (cc (rw event at h))
  | inr other ↦ other
]

flaky-saved :
    (s : Stmt Approx) (db : Tables Approx × Tables Approx × ℕ)
    → ((flaky.exec s db).1.1 ≡ db.1)
      ⊎ (((flaky.exec s db).1.1 ≡ db.0) ⊎ ((flaky.exec s db).1.1 ≡ (flaky.exec s db).1.0))
flaky-saved s db = elim (Bool-cases (is_event s)) [
  | inl event ↦ rw event (inl refl)
  | inr other ↦ elim (Bool-cases (is_begin s)) [
    | inl begun ↦ rw (other, begun) (inr (inl refl))
    | inr no_begin ↦ rw (other, no_begin) (inl refl)
  ]
]

flaky-failed :
    (s : Stmt Approx) (db : Tables Approx × Tables Approx × ℕ)
    → (flaky.exec s db).0 ≢ Outcome.done
    → ((flaky.exec s db).1.0 ≡ db.0) ⊎ ((flaky.exec s db).1.0 ≡ db.1)
flaky-failed s db h = elim (Bool-cases (is_event s)) [
  | inl event ↦ rw event (inr refl)
  | inr other ↦ absurd (h (rw other refl))
]

flaky-IsSqlite : IsSqlite flaky
flaky-IsSqlite = record {
  contents = λ db. db.0;
  saved = λ db. db.1;
  exec_done = λ s db h. rw (flaky-done s db h) refl;
  exec_failed = flaky-failed;
  exec_saved = flaky-saved;
  changes_done = λ s db is_del h. rw (flaky-done s db h) refl;
  history_done = λ which key start end limit db h. sym (some-injective _ _ h);
  column_number = λ x h. refl;
}

abbrev started_world : World Approx ℕ (Tables Approx × Tables Approx × ℕ)
started_world =
    start_application flaky name_of blank_hash plain default_config 1 none no_api false (pos 900)
      moment (no_rows, no_rows, 0)

abbrev world_collectors : List (Collector (World Approx ℕ (Tables Approx × Tables Approx × ℕ)))
world_collectors = collectors flaky name_of blank_hash plain (λ db. db) default_config

run_application-one_minute_example :
    let stored =
      shut_down flaky name_of blank_hash plain
        (pos 1100)
        moment
        (run_ticks flaky name_of blank_hash plain
          (moment ∷ moment ∷ [])
          (world_collectors, started_world)).1 in
    stored.0.one_minute ≡ []
unfolding flaky-IsSqlite
run_application-one_minute_example =
    run_application-one_minute flaky flaky-IsSqlite name_of blank_hash plain (λ db. db)
      (λ db. (refl, refl)) default_config 1 none no_api false (pos 900) (pos 1100) moment moment
      (moment ∷ moment ∷ []) (no_rows, no_rows, 0) refl refl

abbrev whole_moment : Moment ℤ ℕ
whole_moment = record {
  pdh_ts = pos 1000;
  battery_ts = pos 1000;
  thermal_ts = pos 1000;
  process_ts = pos 1000;
  maintenance_ts = pos 1000;
  pdh = record { collects = true; formatted = λ h. some (pos h); memory_load = some 40 };
  battery = discharging;
  power_status = some on_battery;
  thermal = none;
  processes = record { counter_added = false; more_data = false; buf_size = 0; items = none };
  today = "2024-05-01";
  clocks = λ key. pos 1000;
  local_day = λ ts. "2024-04-01";
  day_start = λ day. some (pos 0);
}

abbrev whole_hash : String → ℤ
whole_hash name = pos 0

abbrev whole_format : String → ℤ → String
whole_format text value = text

abbrev blank_tables : Tables ℤ
blank_tables = record {
  one_minute = [];
  fifteen_minutes = [];
  current = [];
  energy = [];
  events = [];
  next_event_id = 1;
  registry = [];
  audit = [];
}

abbrev whole_world : World ℤ ℕ (Tables ℤ × ℕ)
whole_world =
    start_application in_memory name_of whole_hash whole_format default_config 1 none no_api false
      (pos 900) whole_moment (blank_tables, 0)

abbrev after_tick : World ℤ ℕ (Tables ℤ × ℕ)
after_tick =
    (run_ticks in_memory name_of whole_hash whole_format (whole_moment ∷ []) (
      collectors in_memory name_of whole_hash whole_format (λ db. db) default_config,
      whole_world,
    )).1

abbrev fed : PowerPipeline ℤ
fed =
    (battery_callback in_memory name_of whole_hash whole_format
      (record after_tick { moment = whole_moment })).power_pipeline

battery_callback-run_ticks_example :
    (fed.current_watts ≡ pos 9) × (fed.current_quality ≡ Quality.measured)
battery_callback-run_ticks_example =
    battery_callback-run_ticks in_memory name_of whole_hash whole_format whole-HasSigns (λ db. db)
      default_config 1 none no_api false (pos 900) whole_moment (whole_moment ∷ []) whole_moment
      on_battery (blank_tables, 0) refl refl

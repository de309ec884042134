-- ===== src/Server/Routes.antt =====
-- The checks of the routes of src/server/http_server.cpp for history, energy, events, deletion and
-- configuration. A request comes with its parameters as texts and its body as what nlohmann/json made of
-- it, `none` where it does not parse; `contains` is std::string::find, and `stoll` is `none` where it throws.
pub mod Refusal
pub mod Saved
use pulseport.Collectors.{metric}
use pulseport.Storage.Engine.{Sqlite}
use pulseport.Storage.Tables.{EnergyRow, EventRow}
use pulseport.Storage.Reader.{
  delete_all_history, delete_history, query_energy_daily, query_events, query_history,
}
use pulseport.Config.{Config, Value, change_all, changes, to_json, get_text}
use pulseport.Config.Files.{save_config, Write}
use pulseport.Prelude.{
  Bool, List, Option, String, false, if◌then◌else◌, ltb, none, not, some, str_eq, true, ℕ, ◌%◌,
  ◌&&◌, ◌-◌, ◌>>=◌, ◌^◌, ◌||◌,
}
use pulseport.Prelude.Int.{eqb_ℤ, ltb_ℤ, negsuc, pos, ℤ}
use pulseport.Prelude.Double.{Double}
use pulseport.Prelude.Dict.{Dict, insert, lookup}
use pulseport.Types.{MetricAggregate}

pub data Answer {ℓ} (A : Type ℓ) : Type ℓ where
  answered : A → Answer A
  refused : (status : ℕ) → Answer A

abbrev pub is_refused {ℓ} : {A : Type ℓ} → Answer A → Bool
is_refused (Answer.answered a) = false
is_refused (Answer.refused status) = true

abbrev pub is_empty_text : String → Bool
is_empty_text s = str_eq s ""

-- The check of the header Origin: there is one, and neither text stands anywhere in it.
unfoldable pub foreign_origin : (contains : String → String → Bool) → String → Bool
foreign_origin contains origin =
    not (is_empty_text origin)
    && not (contains origin "127.0.0.1")
    && not (contains origin "localhost")

-- The body of a deletion request, as nlohmann/json parses it.
pub data DeletionBody {ℓ} (D : Type ℓ) : Type ℓ where
  unparsed : DeletionBody D
  not_an_object : DeletionBody D
  members : Dict (Value D) → DeletionBody D

-- The conversion to a 64-bit `int64_t`.
unfoldable pub int64_of : ℤ → ℤ
int64_of (pos n) = let r = n % 2 ^ 64 in if ltb r (2 ^ 63) then pos r else negsuc (2 ^ 64 - 1 - r)
int64_of (negsuc n) =
    let r = n % 2 ^ 64 in if ltb r (2 ^ 63) then negsuc r else pos (2 ^ 64 - 1 - r)

-- `body.value(key, int64_t(0))`; `none` is the exception of a value that is no number.
unfoldable pub time_in {ℓ} : {D : Type ℓ} (truncate : D → ℤ) → Dict (Value D) → String → Option ℤ
unfolding int64_of
time_in truncate body key = elim (lookup key body) [
  | none ↦ some (pos 0)
  | some (Value.whole k) ↦ some (int64_of k)
  | some (Value.number x) ↦ some (truncate x)
  | some _ ↦ none
]

unfoldable pub time_or : (stoll : String → Option ℤ) → String → ℤ → ℤ
time_or stoll text old =
    if is_empty_text text then old else elim (stoll text) [ none ↦ old | some t ↦ t ]

module _ {ℓ} {D Db : Type ℓ} ⦃d : Double D⦄ (e : Sqlite D Db) where
  unfoldable pub history_route :
      (stoll : String → Option ℤ)
      → (metric resolution start_str end_str : String) → Db
      → Answer (List (MetricAggregate D))
  history_route stoll metric resolution start_str end_str db =
      let table = if is_empty_text resolution then "metric_1m" else resolution in
      if is_empty_text metric || is_empty_text start_str || is_empty_text end_str
      then Answer.refused 400
      else if not (str_eq table "metric_1m") && not (str_eq table "metric_15m")
      then Answer.refused 400
      else elim (stoll start_str) [
        | none ↦ Answer.refused 400
        | some start_ts ↦ elim (stoll end_str) [
          | none ↦ Answer.refused 400
          | some end_ts ↦ Answer.answered (query_history e table metric start_ts end_ts 10000 db)
        ]
      ]

  unfoldable pub energy_route : (start_day end_day : String) → Db → Answer (List (EnergyRow D))
  energy_route start_day end_day db =
      if is_empty_text start_day || is_empty_text end_day
      then Answer.refused 400
      else Answer.answered (query_energy_daily e start_day end_day db)

  unfoldable pub events_route :
      (stoll : String → Option ℤ)
      → (now : ℤ) → (start_str end_str category : String) → Db
      → List EventRow
  unfolding time_or
  events_route stoll now start_str end_str category db =
      query_events e (time_or stoll start_str (pos 0)) (time_or stoll end_str now) category 1000 db

  -- The deletion of one table's rows, after the time range was checked.
  unfoldable pub delete_table : (table : String) → (start end : ℤ) → Db → Answer ℕ × Db
  delete_table table start end db =
      if eqb_ℤ start (pos 0) || eqb_ℤ end (pos 0) || ltb_ℤ end start
      then (Answer.refused 400, db)
      else let result = delete_history e table start end db in
        (elim result.0 [ none ↦ Answer.refused 400 | some n ↦ Answer.answered n ], result.1)

  -- The deletion of all history.
  unfoldable pub delete_all : Db → Answer ℕ × Db
  delete_all db = let result = delete_all_history e db in (Answer.answered result.0, result.1)

  -- The table and the range of times that a body names, `none` where a value of another type throws.
  unfoldable pub deletion_range : (truncate : D → ℤ) → Dict (Value D) → Option (String × ℤ × ℤ)
  unfolding get_text time_in
  deletion_range truncate body = do
    table ← get_text body "table" "metric_1m"
    start ← time_in truncate body "start"
    end ← time_in truncate body "end"
    some (table, start, end)

  -- What the route does once the origin was checked. An exception ends as status 500.
  unfoldable pub delete_scope : (truncate : D → ℤ) → DeletionBody D → Db → Answer ℕ × Db
  unfolding delete_table delete_all
  delete_scope truncate DeletionBody.unparsed db = (Answer.refused 400, db)
  delete_scope truncate DeletionBody.not_an_object db = (Answer.refused 500, db)
  delete_scope truncate (DeletionBody.members body) db = elim (get_text body "scope" "") [
    | none ↦ (Answer.refused 500, db)
    | some scope ↦
        if str_eq scope "all" then delete_all db else elim (deletion_range truncate body) [
          | none ↦ (Answer.refused 500, db)
          | some (table, start, end) ↦ delete_table table start end db
        ]
  ]

  unfoldable pub delete_route :
      (truncate : D → ℤ) (contains : String → String → Bool) (origin : String)
      → DeletionBody D
      → Db
      → Answer ℕ × Db
  unfolding foreign_origin delete_scope
  delete_route truncate contains origin body db =
      if foreign_origin contains origin
      then (Answer.refused 403, db)
      else delete_scope truncate body db

-- What the server holds of the configuration: the program's, if `set_config` gave it one, the path that it is saved
-- to, and the file at that path.
pub record Settings {ℓ} (D T : Type ℓ) : Type ℓ where
  pub config_ptr : Option (Config D)
  pub config_path : String
  pub file : Option T

module _ {ℓ} {D T : Type ℓ} ⦃d : Double D⦄ where
  unfoldable pub set_config : Config D → String → Settings D T → Settings D T
  set_config cfg config_path s = record s { config_ptr = some cfg; config_path = config_path }

  -- GET /api/v1/config
  unfoldable pub config_get_route : Settings D T → Answer (Dict (Value D))
  unfolding to_json
  config_get_route s = elim s.config_ptr [
    | none ↦ Answer.refused 503
    | some cfg ↦ Answer.answered (to_json cfg)
  ]

  -- `if (!config_path.empty()) save_config(...)`, whose result is not looked at.
  unfoldable pub save_settings :
      (dump : Dict (Value D) → T) (write : Write T) → Config D → Settings D T → Settings D T
  unfolding save_config
  save_settings dump write cfg s = record s {
    config_ptr = some cfg;
    file = if is_empty_text s.config_path then s.file else save_config dump write cfg s.file;
  }

  -- The changes of POST /api/v1/config. A value that throws ends as status 500; nothing is saved then.
  unfoldable pub change_settings :
      (dump : Dict (Value D) → T) (truncate : D → ℤ) (write : Write T)
      → Dict (Value D)
      → Config D
      → Settings D T
      → Answer (Dict (Value D)) × Settings D T
  unfolding save_settings
  change_settings dump truncate write body cfg s =
      let (all_made, after) = change_all (changes truncate body) cfg in
      if all_made
      then (
        Answer.answered (insert "status" (Value.text "ok") (to_json after)),
        save_settings dump write after s,
      )
      else (Answer.refused 500, record s { config_ptr = some after })

  -- POST /api/v1/config
  unfoldable pub config_route :
      (dump : Dict (Value D) → T) (truncate : D → ℤ) (contains : String → String → Bool)
      (write : Write T) (origin : String)
      → Option (Dict (Value D))
      → Settings D T
      → Answer (Dict (Value D)) × Settings D T
  unfolding foreign_origin change_settings
  config_route dump truncate contains write origin body s =
      if foreign_origin contains origin then (Answer.refused 403, s) else elim s.config_ptr [
        | none ↦ (Answer.refused 503, s)
        | some cfg ↦ elim body [
          | none ↦ (Answer.refused 400, s)
          | some j ↦ change_settings dump truncate write j cfg s
        ]
      ]

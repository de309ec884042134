-- ===== src/Server/Json.antt =====
-- The JSON that src/server/http_server.cpp builds for its answers and messages, as values of nlohmann/json. An object
-- has its members in the order in which the source writes them; a double stays a double.
pub mod Reading
use pulseport.Storage.Tables.{EnergyRow, EventRow}
use pulseport.Prelude.{
  Bool, List, Option, String, [], if◌then◌else◌, length, map, none, some, str_eq, ℕ, ◌++◌, ◌∷◌,
}
use pulseport.Prelude.Int.{pos, ℤ}
use pulseport.Types.{MetricAggregate, MetricSample, quality_to_string}

mutual
  pub data Json {ℓ} (D : Type ℓ) : Type ℓ where
    text : String → Json D
    whole : ℤ → Json D
    number : D → Json D
    null : Json D
    array : Elements D → Json D
    object : Members D → Json D

  pub data Elements {ℓ} (D : Type ℓ) : Type ℓ where
    nil : Elements D
    cons : Json D → Elements D → Elements D

  pub data Members {ℓ} (D : Type ℓ) : Type ℓ where
    end : Members D
    member : String → Json D → Members D → Members D

-- What the text of nlohmann/json shows of a value: a double that is not finite is printed as null.
module _ {ℓ} {D : Type ℓ} (is_finite : D → Bool) where
  unfoldable mutual
    pub printed : Json D → Json D
    printed (Json.text s) = Json.text s
    printed (Json.whole k) = Json.whole k
    printed (Json.number x) = if is_finite x then Json.number x else Json.null
    printed Json.null = Json.null
    printed (Json.array js) = Json.array (printed_elements js)
    printed (Json.object fields) = Json.object (printed_members fields)

    pub printed_elements : Elements D → Elements D
    printed_elements Elements.nil = Elements.nil
    printed_elements (Elements.cons j js) = Elements.cons (printed j) (printed_elements js)

    pub printed_members : Members D → Members D
    printed_members Members.end = Members.end
    printed_members (Members.member key j rest) =
        Members.member key (printed j) (printed_members rest)

module _ {ℓ} {D : Type ℓ} where
  abbrev pub elements : List (Json D) → Elements D
  elements [] = Elements.nil
  elements (j ∷ js) = Elements.cons j (elements js)

  abbrev pub members : List (String × Json D) → Members D
  members [] = Members.end
  members ((key, j) ∷ fields) = Members.member key j (members fields)

  abbrev pub array_of : List (Json D) → Json D
  array_of js = Json.array (elements js)

  abbrev pub object_of : List (String × Json D) → Json D
  object_of fields = Json.object (members fields)

  unfoldable pub sample_to_json : MetricSample D → Json D
  sample_to_json s = object_of (
      ("key", Json.text s.key)
      ∷ ("value", Json.number s.value)
      ∷ ("unit", Json.text s.unit)
      ∷ ("quality", Json.text (quality_to_string s.quality))
      ∷ ("ts", Json.whole s.ts)
      ∷ [])

  unfoldable pub aggregate_to_json : MetricAggregate D → Json D
  aggregate_to_json a = object_of (
      ("key", Json.text a.key)
      ∷ ("bucket_ts", Json.whole a.bucket_ts)
      ∷ ("min", Json.number a.min_value)
      ∷ ("max", Json.number a.max_value)
      ∷ ("avg", Json.number a.avg_value)
      ∷ ("sampleCount", Json.whole (pos a.sample_count))
      ∷ ("quality", Json.text (quality_to_string a.quality))
      ∷ [])

  -- `{{"data", rows}, {"count", rows.size()}}`
  unfoldable pub rows_body : List (Json D) → Json D
  rows_body rows =
      object_of (("data", array_of rows) ∷ ("count", Json.whole (pos (length rows))) ∷ [])

  unfoldable pub history_body : List (MetricAggregate D) → Json D
  unfolding aggregate_to_json rows_body
  history_body rows = rows_body (map aggregate_to_json rows)

  unfoldable pub day_to_json : EnergyRow D → Json D
  day_to_json r = object_of (
      ("day", Json.text r.day_local)
      ∷ ("energyWh", Json.number r.energy_wh)
      ∷ ("avgPowerW", Json.number r.avg_power_w)
      ∷ ("peakPowerW", Json.number r.peak_power_w)
      ∷ ("activeSeconds", Json.whole (pos r.active_seconds))
      ∷ ("quality", Json.text r.quality)
      ∷ [])

  unfoldable pub energy_body : List (EnergyRow D) → Json D
  unfolding day_to_json rows_body
  energy_body rows = rows_body (map day_to_json rows)

  -- The payload of an event: parsed where it is JSON, else as the text that it is, and left out where it is empty.
  unfoldable pub payload_member :
      (parse : String → Option (Json D)) → Option String → List (String × Json D)
  payload_member parse none = []
  payload_member parse (some payload) =
      if str_eq payload ""
      then []
      else ("payload", elim (parse payload) [ none ↦ Json.text payload | some j ↦ j ]) ∷ []

  unfoldable pub event_to_json : (parse : String → Option (Json D)) → EventRow → Json D
  unfolding payload_member
  event_to_json parse r = object_of (
      (("id", Json.whole (pos r.id))
        ∷ ("ts", Json.whole r.event_ts)
        ∷ ("severity", Json.text r.severity)
        ∷ ("category", Json.text r.category)
        ∷ ("title", Json.text r.title)
        ∷ [])
      ++ payload_member parse r.payload)

  unfoldable pub events_body : (parse : String → Option (Json D)) → List EventRow → Json D
  unfolding event_to_json rows_body
  events_body parse rows = rows_body (map (event_to_json parse) rows)

  -- `{{"deleted", deleted}}`
  unfoldable pub deleted_body : ℕ → Json D
  deleted_body deleted = object_of (("deleted", Json.whole (pos deleted)) ∷ [])

  unfoldable pub snapshot_body : (now : ℤ) → List (MetricSample D) → Json D
  unfolding sample_to_json
  snapshot_body now metrics = object_of (
      ("type", Json.text "snapshot")
      ∷ ("tsUtc", Json.whole now)
      ∷ ("metrics", array_of (map sample_to_json metrics))
      ∷ [])

  unfoldable pub delta_message : List (MetricSample D) → Json D
  unfolding sample_to_json
  delta_message metrics =
      object_of
        (("type", Json.text "delta") ∷ ("metrics", array_of (map sample_to_json metrics)) ∷ [])

  unfoldable pub event_message : (severity category title : String) → (now : ℤ) → Json D
  event_message severity category title now = object_of (
      ("type", Json.text "event")
      ∷ (
        "event",
        object_of (
            ("severity", Json.text severity)
            ∷ ("category", Json.text category)
            ∷ ("title", Json.text title)
            ∷ ("ts", Json.whole now)
            ∷ []),
      )
      ∷ [])

-- ===== src/Server/Json/Reading.antt =====
-- The JSON of src/server/http_server.cpp as a client reads it: by the names of the members.
use pulseport.Power.{mean}
use pulseport.Server.Json.{
  Elements, Json, Members, aggregate_to_json, delta_message, elements, history_body, rows_body,
  sample_to_json, snapshot_body, printed, printed_elements,
}
use pulseport.Types.Roundtrip.{quality_from_string-quality_to_string}
use pulseport.Prelude.{
  All, Bool, List, Option, String, [], if◌then◌else◌, length, length-map, map, none, refl, some,
  str_eq, true, ℕ, ◌>>=◌, ◌∷◌, ◌≡◌,
}
use pulseport.Prelude.Int.{pos, ℤ}
use pulseport.Types.{MetricAggregate, MetricSample, quality_from_string}

module _ {ℓ} {D : Type ℓ} where
  abbrev pub find : String → Members D → Option (Json D)
  find key Members.end = none
  find key (Members.member name j rest) = if str_eq name key then some j else find key rest

  abbrev pub at : String → Json D → Option (Json D)
  at key (Json.object fields) = find key fields
  at key _ = none

  abbrev pub text_in : Json D → Option String
  text_in (Json.text s) = some s
  text_in _ = none

  abbrev pub whole_in : Json D → Option ℤ
  whole_in (Json.whole k) = some k
  whole_in _ = none

  abbrev pub count_in : Json D → Option ℕ
  count_in (Json.whole (pos n)) = some n
  count_in _ = none

  abbrev pub number_in : Json D → Option D
  number_in (Json.number x) = some x
  number_in _ = none

  abbrev pub elements_in : Json D → Option (Elements D)
  elements_in (Json.array js) = some js
  elements_in _ = none

  abbrev pub read_aggregate : Json D → Option (MetricAggregate D)
  read_aggregate j = do
    key ← at "key" j >>= text_in
    bucket_ts ← at "bucket_ts" j >>= whole_in
    min_value ← at "min" j >>= number_in
    max_value ← at "max" j >>= number_in
    avg_value ← at "avg" j >>= number_in
    sample_count ← at "sampleCount" j >>= count_in
    quality ← at "quality" j >>= text_in
    some (record {
      key = key;
      bucket_ts = bucket_ts;
      min_value = min_value;
      max_value = max_value;
      avg_value = avg_value;
      sample_count = sample_count;
      quality = quality_from_string quality;
    })

  abbrev pub read_sample : Json D → Option (MetricSample D)
  read_sample j = do
    key ← at "key" j >>= text_in
    value ← at "value" j >>= number_in
    unit ← at "unit" j >>= text_in
    quality ← at "quality" j >>= text_in
    ts ← at "ts" j >>= whole_in
    some (record {
      key = key;
      value = value;
      unit = unit;
      quality = quality_from_string quality;
      ts = ts;
    })

  read_aggregate-aggregate_to_json :
      (a : MetricAggregate D) → read_aggregate (aggregate_to_json a) ≡ some a
  unfolding aggregate_to_json
  read_aggregate-aggregate_to_json a = rw ((quality_from_string-quality_to_string a.quality "").0)

  read_sample-sample_to_json : (s : MetricSample D) → read_sample (sample_to_json s) ≡ some s
  unfolding sample_to_json
  read_sample-sample_to_json s = rw ((quality_from_string-quality_to_string s.quality "").0)

  module _ {κ} {A : Type κ} (read : Json D → Option A) where
    -- Every element, or nothing if one cannot be read.
    abbrev pub read_all : Elements D → Option (List A)
    read_all Elements.nil = some []
    read_all (Elements.cons j js) = do a ← read j; rest ← read_all js; some (a ∷ rest)

    read_all-elements :
        (write : A → Json D)
        → ((a : A) → read (write a) ≡ some a)
        → (xs : List A) → read_all (elements (map write xs)) ≡ some xs
    read_all-elements write back [] = refl
    read_all-elements write back (x ∷ xs) = rw (back x, read_all-elements write back xs)

  -- The rows of an answer and their count.
  abbrev pub read_history : Json D → Option (List (MetricAggregate D) × ℕ)
  read_history j = do
    rows ← at "data" j >>= elements_in
    found ← read_all read_aggregate rows
    count ← at "count" j >>= count_in
    some (found, count)

  -- The type of a message and its samples.
  abbrev pub read_metrics : Json D → Option (String × List (MetricSample D))
  read_metrics j = do
    kind ← at "type" j >>= text_in
    metrics ← at "metrics" j >>= elements_in
    samples ← read_all read_sample metrics
    some (kind, samples)

  module _ (is_finite : D → Bool) where
    -- A row and a sample whose values are finite.
    abbrev pub HasFinite : MetricAggregate D → Type 0
    HasFinite a =
        (is_finite a.min_value ≡ true)
        × (is_finite a.max_value ≡ true)
        × (is_finite a.avg_value ≡ true)

    printed-aggregate_to_json :
        (a : MetricAggregate D)
        → HasFinite a
        → printed is_finite (aggregate_to_json a) ≡ aggregate_to_json a
    unfolding printed aggregate_to_json
    printed-aggregate_to_json a (low, high, mean) = rw (low, high, mean) refl

    printed-sample_to_json :
        (s : MetricSample D)
        → is_finite s.value ≡ true
        → printed is_finite (sample_to_json s) ≡ sample_to_json s
    unfolding printed sample_to_json
    printed-sample_to_json s finite = rw finite refl

    printed-elements {κ λ'} :
        {A : Type κ} (P : A → Type λ') (write : A → Json D)
        → ((a : A) → P a → printed is_finite (write a) ≡ write a)
        → (xs : List A) → All P xs
        → printed_elements is_finite (elements (map write xs)) ≡ elements (map write xs)
    unfolding printed_elements
    printed-elements P write same [] h = refl
    printed-elements P write same (x ∷ xs) (p, h) =
        rw (same x p, printed-elements P write same xs h) refl

    printed-history_body :
        (rows : List (MetricAggregate D))
        → All HasFinite rows
        → printed is_finite (history_body rows) ≡ history_body rows
    unfolding printed history_body rows_body
    printed-history_body rows h =
        rw (printed-elements HasFinite aggregate_to_json printed-aggregate_to_json rows h) refl

    abbrev pub IsFiniteSample : MetricSample D → Type 0
    IsFiniteSample s = is_finite s.value ≡ true

    printed-snapshot_body :
        (now : ℤ) (samples : List (MetricSample D))
        → All IsFiniteSample samples
        → printed is_finite (snapshot_body now samples) ≡ snapshot_body now samples
    unfolding printed snapshot_body
    printed-snapshot_body now samples h =
        rw (printed-elements IsFiniteSample sample_to_json printed-sample_to_json samples h) refl

    printed-delta_message :
        (samples : List (MetricSample D))
        → All IsFiniteSample samples
        → printed is_finite (delta_message samples) ≡ delta_message samples
    unfolding printed delta_message
    printed-delta_message samples h =
        rw (printed-elements IsFiniteSample sample_to_json printed-sample_to_json samples h) refl

  read-history_body :
      (rows : List (MetricAggregate D))
      → read_history (history_body rows) ≡ some (rows, length rows)
  unfolding history_body rows_body
  read-history_body rows = rw (
    read_all-elements read_aggregate aggregate_to_json read_aggregate-aggregate_to_json rows,
    length-map aggregate_to_json rows,
  )

  read-snapshot_body :
      (now : ℤ) (samples : List (MetricSample D))
      → read_metrics (snapshot_body now samples) ≡ some ("snapshot", samples)
  unfolding snapshot_body
  read-snapshot_body now samples =
      rw (read_all-elements read_sample sample_to_json read_sample-sample_to_json samples)

  read-delta_message :
      (samples : List (MetricSample D))
      → read_metrics (delta_message samples) ≡ some ("delta", samples)
  unfolding delta_message
  read-delta_message samples =
      rw (read_all-elements read_sample sample_to_json read_sample-sample_to_json samples)

  -- A client that parses the text of an answer for the history and looks up the members by name reads back every row
  -- in its order, with all values and the quality, and their number, if the values are finite; from the text of a
  -- snapshot or a live message it reads back every sample, if the values are finite. Parsing the text of nlohmann/json
  -- gives the value that was printed, with null for a double that is not finite.
  pub read_history-history_body {κ} :
      {T : Type κ} (is_finite : D → Bool) (dump : Json D → T) (parse : T → Option (Json D))
      → ((j : Json D) → parse (dump j) ≡ some (printed is_finite j))
      → (rows : List (MetricAggregate D)) (samples : List (MetricSample D)) (now : ℤ)
      → All (HasFinite is_finite) rows
      → All (IsFiniteSample is_finite) samples
      → (parse (dump (history_body rows)) >>= read_history ≡ some (rows, length rows))
        × (parse (dump (snapshot_body now samples)) >>= read_metrics ≡ some ("snapshot", samples))
        × (parse (dump (delta_message samples)) >>= read_metrics ≡ some ("delta", samples))
  read_history-history_body is_finite dump parse law rows samples now finite finite_samples = (
    rw (law (history_body rows), printed-history_body is_finite rows finite)
        (read-history_body rows),
    rw (law (snapshot_body now samples), printed-snapshot_body is_finite now samples finite_samples)
        (read-snapshot_body now samples),
    rw (law (delta_message samples), printed-delta_message is_finite samples finite_samples)
        (read-delta_message samples),
  )

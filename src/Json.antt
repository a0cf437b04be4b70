-- ===== src/Json.antt =====
-- collector/impl/json_metrics_collector.go: the metrics in the JSON text of an endpoint. The metrics
-- that are sent to metricsChan are the results of the functions. A map's entries are visited in the
-- order that it has here.
pub mod Sent
pub mod Panics
pub mod Mixed
pub mod Collection
pub mod Collected
mod Tests
use hawkular_openshift_agent.Base.{
  Str, String, codes, str_eq, str_eq_iff, str_eq_refl, string_eq, ℕ, zero, suc, ◌+◌, ◌-◌, ◌≤◌, ◌<◌,
  ◌==◌, ==_iff, ltb, leb, ℤ, pos, Bool, true, false, not, ◌&&◌, ◌||◌, ◌≡◌, ◌≢◌, ◌↔◌, ◌⊎◌, inl, inr,
  refl, sym, ap, ◌∙◌, Option, Option-cases, none, some, is_some, List, [], ◌∷◌, ◌++◌, append_assoc,
  append-nil, map, length, All, All-append, In, arith, Bool-cases, if◌then◌else◌, Result, ok, err,
  ◌>>=◌,
}
use hawkular_openshift_agent.Base.Map
use hawkular_openshift_agent.Base.Map.{Map}
use hawkular_openshift_agent.Values.{
  Floats, Value, null, bool, number, text, array, object, Items, nil, item, Fields, end, field,
}
use hawkular_openshift_agent.Collector.{
  Tags, Datapoint, MetricHeader, MonitoredMetric, MetricDetails, Endpoint,
}
use hawkular_openshift_agent.Config.Tags.{append_tags}
use hawkular_openshift_agent.Math.{min, max, avg, stddev}

-- The panic of a type assertion on a value of another type.
pub data Panic : Type 0 where
  not_a_map : Panic

-- metricNameMap
unfoldable pub put_metrics :
    Map Str MonitoredMetric → List MonitoredMetric → Map Str MonitoredMetric
put_metrics names [] = names
put_metrics names (m ∷ ms) = put_metrics (Map.put names m.name m) ms

unfoldable pub metric_name_map : Endpoint → Map Str MonitoredMetric
metric_name_map e = put_metrics [] e.metrics

-- processingContext, without the time and the channel.
pub record Context : Type 0 where
  pub current_metric_id : Str
  pub current_metric_tags : List Tags

unfoldable pub build_metric_id : Context → Str → Str
build_metric_id c name = elim c.current_metric_id [ [] ↦ name | x ∷ id ↦ x ∷ id ]

unfoldable pub append_all : Tags → List Tags → Tags
append_all new_tags [] = new_tags
append_all new_tags (t ∷ ts) = append_all (append_tags new_tags t) ts

unfoldable pub tags_clone : Context → Tags
tags_clone c = append_all [] c.current_metric_tags

-- `print` is how fmt prints an int.
module _ (f : Floats) (print : ℕ → Str) (e : Endpoint) (now : ℕ) where
  -- The tag that distinguishes the metrics inside of a value, which a top name does not get.
  unfoldable pub add_label : Context → Str → Context
  add_label c name = elim c.current_metric_id [
    | [] ↦ c
    | x ∷ id ↦ record c {
      current_metric_tags =
          c.current_metric_tags
          ++ ((codes "label" ++ print (length c.current_metric_tags + 1), name) ∷ []) ∷ [];
    }
  ]

  -- The type of a metric, none if it is not to be collected.
  unfoldable pub type_in : Map Str MonitoredMetric → Str → Option Str
  type_in [] id = some (codes "gauge")
  type_in (n ∷ names) id = elim (Map.get (n ∷ names) id) [ none ↦ none | some m ↦ some m.type ]

  -- What processJSON does before it looks at the value: the context, the metric's id and type.
  unfoldable pub enter : Context → Str → Option (Context × Str × Str)
  enter c name = elim (type_in (metric_name_map e) (build_metric_id c name)) [
    | none ↦ none
    | some type ↦ some (add_label c name, build_metric_id c name, type)
  ]

  unfoldable pub metric : Str → Str → f.Float → Tags → MetricHeader f.Float
  metric id type value tags = record {
    id = id;
    tenant = e.tenant;
    type = type;
    samples = record { timestamp = now; value = value; tags = tags } ∷ [];
  }

  -- strconv.ParseFloat of how fmt prints a value: only numbers and texts can be read.
  unfoldable pub parse_printed : Value f.Float → Option f.Float
  parse_printed (number x) = some x
  parse_printed (text s) = f.parse s
  parse_printed (bool b) = none
  parse_printed null = none
  parse_printed (array items) = none
  parse_printed (object fields) = none

  -- The loop over the values of an array, none where isValid becomes false.
  unfoldable pub float_array : Items f.Float → Option (List f.Float)
  float_array nil = some []
  float_array (item v items) =
      let rest = float_array items in
      elim (parse_printed v) [
        | none ↦ none
        | some x ↦ elim rest [ none ↦ none | some xs ↦ some (x ∷ xs) ]
      ]

  unfoldable pub statistic : Context → Str → String → f.Float → MetricHeader f.Float
  statistic c id name value =
      metric id (codes "gauge") value (Map.put (tags_clone c) (codes "array_stat") (codes name))

  unfoldable pub statistics : Context → Str → Option (List f.Float) → List (MetricHeader f.Float)
  statistics c id none = []
  statistics c id (some xs) =
      statistic c id "min" (min f xs)
      ∷ statistic c id "max" (max f xs)
      ∷ statistic c id "avg" (avg f xs)
      ∷ statistic c id "stddev" (stddev f xs (avg f xs))
      ∷ []

  unfoldable mutual
    pub process_json : Context → Str → Value f.Float → Result Panic (List (MetricHeader f.Float))
    process_json c name (number x) = elim (enter c name) [
      | none ↦ ok []
      | some (c', id, type) ↦ ok (metric id type x (tags_clone c') ∷ [])
    ]
    process_json c name (text s) = ok []
    process_json c name (bool b) = elim (enter c name) [
      | none ↦ ok []
      | some (c', id, type) ↦ ok (metric id type (if b then f.one else f.zero) (tags_clone c') ∷ [])
    ]
    process_json c name null = ok []
    process_json c name (array items) = elim (enter c name) [
      | none ↦ ok []
      | some (c', id, type) ↦ process_array c' id items
    ]
    process_json c name (object fields) = elim (enter c name) [
      | none ↦ ok []
      | some (c', id, type) ↦ process_fields c' id fields
    ]

    -- The switch on the type of an array's first value.
    pub process_array : Context → Str → Items f.Float → Result Panic (List (MetricHeader f.Float))
    process_array c id nil = ok []
    process_array c id (item (number x) items) =
        ok (statistics c id (float_array (item (number x) items)))
    process_array c id (item (object fields) items) = process_fields c id fields >>= λ here.
        process_items c id items >>= λ rest. ok (here ++ rest)
    process_array c id (item null items) = ok []
    process_array c id (item (bool b) items) = ok []
    process_array c id (item (text s) items) = ok []
    process_array c id (item (array inner) items) = ok []

    -- The loop over the values of an array that begins with a map.
    pub process_items : Context → Str → Items f.Float → Result Panic (List (MetricHeader f.Float))
    process_items c id nil = ok []
    process_items c id (item (object fields) items) = process_fields c id fields >>= λ here.
        process_items c id items >>= λ rest. ok (here ++ rest)
    process_items c id (item (number x) items) = err not_a_map
    process_items c id (item null items) = err not_a_map
    process_items c id (item (bool b) items) = err not_a_map
    process_items c id (item (text s) items) = err not_a_map
    process_items c id (item (array inner) items) = err not_a_map

    pub process_fields : Context → Str → Fields f.Float → Result Panic (List (MetricHeader f.Float))
    process_fields c id end = ok []
    process_fields c id (field k v fields) =
        process_json (record c { current_metric_id = id }) k v >>= λ here.
        process_fields c id fields >>= λ rest. ok (here ++ rest)

  -- The loop over the JSON data, which are a map.
  unfoldable pub walk : Fields f.Float → Result Panic (List (MetricHeader f.Float))
  walk end = ok []
  walk (field k v fields) =
      process_json (record { current_metric_id = []; current_metric_tags = [] }) k v >>= λ here.
      walk fields >>= λ rest. ok (here ++ rest)

-- ===== src/Jolokia/Response.antt =====
-- jolokia/process_jolokia_response.go: the metrics in the value of a response. The names that are
-- built up on the way go into log messages only, and are left out.
pub mod Samples
pub mod Tagged
mod Tests
use hawkular_openshift_agent.Base.{
  Str, codes, ℕ, string_eq, Bool, true, false, Option, none, some, List, [], ◌∷◌, ◌++◌,
  if◌then◌else◌, is_some,
}
use hawkular_openshift_agent.Base.Map
use hawkular_openshift_agent.Base.Map.{Map}
use hawkular_openshift_agent.Base.Sort.{by_key}
use hawkular_openshift_agent.Values.{
  Floats, Value, null, bool, number, text, array, object, Items, Fields, end, field, entries,
}
use hawkular_openshift_agent.Collector.{Datapoint, MetricHeader, MonitoredMetric, Tags}
use hawkular_openshift_agent.Jolokia.MetricName.{
  MetricNameParts, is_all_attributes, is_all_paths, new_metric_name_parts, NameError,
}

-- What the functions of the file pass on: the time, the tenant, the metric and its name's parts.
pub record Reading : Type 0 where
  pub now : ℕ
  pub tenant_id : Str
  pub metric : MonitoredMetric
  pub parts : MetricNameParts

-- mm.Data[i].Tags[key] = value, for every datapoint of the metrics.
module _ {V : Type 0} where
  unfoldable pub tag_data : Str → Str → List (Datapoint V) → List (Datapoint V)
  tag_data key value [] = []
  tag_data key value (d ∷ ds) = record d { tags = Map.put d.tags key value } ∷ tag_data key value ds

  unfoldable pub tag_all : Str → Str → List (MetricHeader V) → List (MetricHeader V)
  unfolding tag_data
  tag_all key value [] = []
  tag_all key value (m ∷ ms) =
      record m { samples = tag_data key value m.samples } ∷ tag_all key value ms

-- IsMBeanQuery
unfoldable pub is_mbean_query : MetricNameParts → Bool
is_mbean_query parts = elim parts.key_wildcards [ [] ↦ false | key ∷ keys ↦ true ]

module _ (f : Floats) where
  unfoldable pub return_value_as_float : Value f.Float → Option f.Float
  return_value_as_float (number x) = some x
  return_value_as_float (text s) = f.parse s
  return_value_as_float (bool b) = some (if b then f.one else f.zero)
  return_value_as_float null = none
  return_value_as_float (array items) = none
  return_value_as_float (object fields) = none

  module _ (r : Reading) where
    -- The header of one datapoint. The caller may override the id.
    unfoldable pub sample : Tags → f.Float → MetricHeader f.Float
    sample tags value = record {
      tenant = r.tenant_id;
      type = r.metric.type;
      id = r.metric.name;
      samples = record { timestamp = r.now; value = value; tags = tags } ∷ [];
    }

    unfoldable pub process_single_basic_attribute : Value f.Float → List (MetricHeader f.Float)
    process_single_basic_attribute v = elim (return_value_as_float v) [
      | none ↦ []
      | some x ↦ sample [] x ∷ []
    ]

    -- What the loop over the paths of a composite attribute does with one of them.
    pub data PathOutcome : Type 0 where
      value_at : f.Float → PathOutcome
      inner : List (MetricHeader f.Float) → PathOutcome
      nothing : PathOutcome

    unfoldable pub path_tags : Str → Tags
    path_tags k = if is_all_paths r.parts then (codes "2", k) ∷ [] else []

    -- One pass of that loop. An inner composite's metrics take the place of those before them.
    unfoldable pub add_path :
        List (MetricHeader f.Float) → Str → PathOutcome → List (MetricHeader f.Float)
    unfolding path_tags
    add_path metrics k (value_at x) = metrics ++ sample (path_tags k) x ∷ []
    add_path metrics k (inner ms) = tag_all (codes "1") k ms
    add_path metrics k nothing = metrics

    unfoldable pub add_paths :
        List (MetricHeader f.Float) → Map Str PathOutcome → List (MetricHeader f.Float)
    add_paths metrics [] = metrics
    add_paths metrics ((k, p) ∷ paths) = add_paths (add_path metrics k p) paths

    -- What is found at each path of a composite attribute, before the paths are ordered. An inner
    -- composite goes through processSingleCompositeAttribute.
    unfoldable mutual
      pub paths : Fields f.Float → Map Str PathOutcome
      paths end = []
      paths (field k v fields) = (k, path_of v) ∷ paths fields

      pub path_of : Value f.Float → PathOutcome
      path_of (number x) = value_at x
      path_of (text s) = elim (f.parse s) [ none ↦ nothing | some x ↦ value_at x ]
      path_of (bool b) = value_at (if b then f.one else f.zero)
      path_of null = nothing
      path_of (array items) = nothing
      path_of (object fields) = inner (add_paths [] (by_key (paths fields)))

    unfoldable pub process_single_composite_attribute : Fields f.Float → List (MetricHeader f.Float)
    process_single_composite_attribute fields = add_paths [] (by_key (paths fields))

    unfoldable pub process_single_attribute : Value f.Float → List (MetricHeader f.Float)
    process_single_attribute (object fields) = process_single_composite_attribute fields
    process_single_attribute v = process_single_basic_attribute v

    -- The loop over the attributes of an mbean.
    unfoldable pub process_attributes : Map Str (Value f.Float) → List (MetricHeader f.Float)
    process_attributes [] = []
    process_attributes ((k, v) ∷ attributes) =
        tag_all (codes "1") k (process_single_attribute v) ++ process_attributes attributes

    unfoldable pub process_all_attributes : Value f.Float → List (MetricHeader f.Float)
    process_all_attributes (object fields) = process_attributes (by_key (entries fields))
    process_all_attributes v = []

    unfoldable pub process_single_mbean : Value f.Float → List (MetricHeader f.Float)
    process_single_mbean v =
        if is_all_attributes r.parts then process_all_attributes v else process_single_attribute v

    -- The loop over the keys that are wildcards, for the datapoints of one mbean.
    unfoldable pub tag_wildcards :
        Map Str Bool → Map Str Str → List (MetricHeader f.Float) → List (MetricHeader f.Float)
    tag_wildcards [] key_values ms = ms
    tag_wildcards ((key, _) ∷ wildcards) key_values ms =
        tag_wildcards wildcards key_values
          (elim (Map.get key_values key) [ none ↦ ms | some value ↦ tag_all key value ms ])

    module _ (trim_space : Str → Str) where
      unfoldable pub tag_mbean : Str → List (MetricHeader f.Float) → List (MetricHeader f.Float)
      tag_mbean k ms =
          let (current, err) = new_metric_name_parts trim_space k in
          elim err [
            | none ↦ tag_wildcards r.parts.key_wildcards current.key_values ms
            | some e ↦ ms
          ]

      unfoldable pub process_mbeans : Map Str (Value f.Float) → List (MetricHeader f.Float)
      process_mbeans [] = []
      process_mbeans ((k, v) ∷ mbeans) =
          tag_mbean k (process_single_mbean v) ++ process_mbeans mbeans

      unfoldable pub process_multiple_mbeans : Value f.Float → List (MetricHeader f.Float)
      process_multiple_mbeans (object fields) = process_mbeans (by_key (entries fields))
      process_multiple_mbeans v = []

      unfoldable pub process_jolokia_response_value_object :
          Value f.Float → List (MetricHeader f.Float)
      process_jolokia_response_value_object v =
          if is_mbean_query r.parts then process_multiple_mbeans v else process_single_mbean v

-- ===== src/Manager/Definitions.antt =====
-- collector/manager/metrics_collector_manager.go: createMetricDefinition, which makes the
-- definitions of the metrics that are needed.
pub mod Precedence
pub mod Isolated
use hawkular_openshift_agent.Base.{
  Str, codes, str_eq, string_eq, starts_with, trim_prefix, Bool, true, false, not, ◌≡◌, ◌≢◌, refl,
  Option, none, some, or_else, List, [], ◌∷◌, ◌++◌, map, if◌then◌else◌, arith, str_eq_iff,
}
use hawkular_openshift_agent.Base.Map
use hawkular_openshift_agent.Base.Map.{Map}
use hawkular_openshift_agent.Collector.{
  MetricDefinition, MetricDetails, MonitoredMetric, Tags, Endpoint,
}
use hawkular_openshift_agent.Collector.Units.{get_metric_units}
use hawkular_openshift_agent.Collector.Validation.{gauge}
use hawkular_openshift_agent.Config.Expand.{MappingFuncConfig, mapping_func, expand}
use hawkular_openshift_agent.Config.Tags.{append_tags, expand_tokens}
use hawkular_openshift_agent.Base.Sort.{keys, sort_strings}

names_set : Map Str Bool → Map Str MonitoredMetric → Map Str Bool
names_set s [] = s
names_set s ((id, mm) ∷ needed) = names_set (Map.put s mm.name true) needed

-- The names to ask details for, each once.
unfoldable pub metric_names : Map Str MonitoredMetric → List Str
unfolding names_set
metric_names needed = keys (names_set [] needed)

-- The last detail of the name; an empty one if there is none.
find_detail : MetricDetails → List MetricDetails → Str → MetricDetails
find_detail found [] name = found
find_detail found (d ∷ details) name =
    find_detail (if str_eq name d.name then d else found) details name

-- The tags that a datapoint gave, without the prefix that marks them: by themselves, and put back
-- among the metric's tags. The loop goes through the tags as they were at its start; a tag whose
-- own name starts with the mark twice could be met again by Go's loop.
unmark : Tags → Tags → Tags → Tags × Tags
unmark of_datapoint tags [] = (of_datapoint, tags)
unmark of_datapoint tags ((k, v) ∷ more) =
    let name = trim_prefix k (codes "@@@") in
    if starts_with k (codes "@@@")
    then unmark (Map.put of_datapoint name v) (Map.put (Map.delete tags k) name v) more
    else unmark of_datapoint tags more

-- The sorted tags in the description: ` {k=v,k=v}`.
describe_tags : Str → Tags → List Str → Str
describe_tags separator tags [] = codes "}"
describe_tags separator tags (k ∷ ks) =
    separator
    ++ (k ++ (codes "=" ++ (or_else (Map.get tags k) [] ++ describe_tags (codes ",") tags ks)))

default_description : MetricDetails → Str → Tags → Tags → Str
unfolding describe_tags
default_description detail name of_datapoint tags =
    (if not (str_eq detail.description []) then detail.description else name)
    ++ elim (sort_strings (keys of_datapoint)) [
      | [] ↦ []
      | k ∷ ks ↦ describe_tags (codes " {") tags (k ∷ ks)
    ]

definition_type : Str → Str → Str
definition_type declared found =
    if str_eq declared [] then if str_eq found [] then gauge else found else declared

metric_tag_tokens : Map Str Str → Tags → Map Str Str
metric_tag_tokens env [] = env
metric_tag_tokens env ((k, v) ∷ tags) =
    metric_tag_tokens (Map.put env (codes "METRIC:tag[" ++ (k ++ codes "]")) v) tags

put_if : Str → Str → Tags → Tags
put_if key value tags = if not (str_eq value []) then Map.put tags key value else tags

-- What the manager and the collector give: os.LookupEnv, the configured global tags, the
-- collector's environment and its endpoint.
pub record Defining : Type 0 where
  pub os : Str → Option Str
  pub global_tags : Tags
  pub additional_env : Tags
  pub endpoint : Endpoint

module _ (c : Defining) where
  -- The three kinds of tags with their tokens expanded, in the environment of the metric.
  unfoldable pub endpoint_tags_expanded : Map Str Str → Tags
  endpoint_tags_expanded env =
      expand_tokens c.os c.endpoint.tags
        (record { env = env; use_os_env = false; do_not_expand_if_not_found = false })

  unfoldable pub metric_tags_expanded : Map Str Str → Tags → Str → Str → Tags
  unfolding put_if
  metric_tags_expanded env tags description units = put_if (codes "units") units (
      put_if (codes "description") description (
        expand_tokens c.os tags
          (record { env = env; use_os_env = false; do_not_expand_if_not_found = false })))

  unfoldable pub global_tags_expanded : Map Str Str → Tags
  global_tags_expanded env =
      expand_tokens c.os c.global_tags
        (record { env = env; use_os_env = true; do_not_expand_if_not_found = false })

  unfoldable pub all_metric_tags : Map Str Str → Tags → Str → Str → Tags
  all_metric_tags env tags description units =
      append_tags
        (append_tags (append_tags [] (endpoint_tags_expanded env))
          (metric_tags_expanded env tags description units))
        (global_tags_expanded env)

  -- One pass of the loop over the definitions that are needed.
  unfoldable pub metric_definition : List MetricDetails → Str → MonitoredMetric → MetricDefinition
  unfolding find_detail unmark default_description definition_type metric_tag_tokens
  metric_definition details id mm =
      let detail =
        find_detail (record { name = []; metric_type = []; description = [] }) details mm.name in
      let (of_datapoint, tags) = unmark [] mm.tags mm.tags in
      let description =
        if str_eq mm.description []
        then default_description detail mm.name of_datapoint tags
        else mm.description in
      let description' = expand description (
        mapping_func c.os
          (record { env = tags; use_os_env = false; do_not_expand_if_not_found = false })) in
      let units = (get_metric_units mm.units).0.symbol in
      let own =
        (codes "METRIC:name", mm.name)
        ∷ (codes "METRIC:id", id)
        ∷ (codes "METRIC:units", units)
        ∷ (codes "METRIC:description", description')
        ∷ [] in
      let env = append_tags (metric_tag_tokens own tags) c.additional_env in
      record {
        tenant = c.endpoint.tenant;
        type = definition_type mm.type detail.metric_type;
        id = id;
        tags = all_metric_tags env tags description' units;
      }

  unfoldable pub metric_definitions :
      List MetricDetails → Map Str MonitoredMetric → List MetricDefinition
  metric_definitions details [] = []
  metric_definitions details ((id, mm) ∷ needed) =
      metric_definition details id mm ∷ metric_definitions details needed

  -- createMetricDefinition: the definitions that are sent, and whether it returns no error.
  -- `collect_details` is CollectMetricDetails of the collector.
  unfoldable pub create_metric_definition :
      (List Str → Option (List MetricDetails))
      → Map Str MonitoredMetric
      → List MetricDefinition × Bool
  create_metric_definition collect_details [] = ([], true)
  create_metric_definition collect_details (entry ∷ needed) =
      elim (collect_details (metric_names (entry ∷ needed))) [
        | none ↦ (metric_definitions [] (entry ∷ needed), false)
        | some details ↦ (metric_definitions details (entry ∷ needed), true)
      ]

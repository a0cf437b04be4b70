-- ===== src/Manager/Definitions/Isolated.antt =====
-- What of a pod's definitions can depend on the environment of the agent's process.
use hawkular_openshift_agent.Base.{
  Str, codes, str_eq, str_eq_iff, string_eq, false, ◌≡◌, inl, inr, refl, ap, ◌∙◌, Option,
  Option-cases, none, List, [], ◌∷◌, arith, if◌then◌else◌,
}
use hawkular_openshift_agent.Base.Map
use hawkular_openshift_agent.Base.Map.{Map, get-put}
use hawkular_openshift_agent.Config.Expand.{expand, mapping_func}
use hawkular_openshift_agent.Config.Tags.{append_tags}
use hawkular_openshift_agent.Config.Expand.Laws.{expand-isolated}
use hawkular_openshift_agent.Config.Tags.Laws.{expand_tokens-isolated, get-expand_tokens}
use hawkular_openshift_agent.Collector.{MetricDefinition, MetricDetails, MonitoredMetric, Tags}
use hawkular_openshift_agent.Manager.Definitions.{
  Defining, metric_definition, metric_definitions, create_metric_definition, metric_names,
  all_metric_tags, endpoint_tags_expanded, metric_tags_expanded, global_tags_expanded, put_if,
  metric_tag_tokens, find_detail, unmark, default_description,
}
use hawkular_openshift_agent.Collector.Units.{get_metric_units}
use hawkular_openshift_agent.Config.Expand.{MappingFuncConfig}

-- The value of a tag in each of the definitions.
abbrev pub tag_values : Str → List MetricDefinition → List (Option Str)
tag_values k [] = []
tag_values k (d ∷ ds) = Map.get d.tags k ∷ tag_values k ds

get-append_tags_without :
    (t more : Tags) (k : Str) → Map.get more k ≡ none → Map.get (append_tags t more) k ≡ Map.get t k
unfolding append_tags Map.get
get-append_tags_without t [] k h = refl
get-append_tags_without t ((j, v) ∷ more) k h =
    ground (arith, str_eq_iff j k, get-append_tags_without (Map.put t j v) more k, get-put t j k v)

module _ (c : Defining) (os' : Str → Option Str) (k : Str)
    (free : Map.get c.global_tags k ≡ none) where
  -- The same manager and collector in another environment.
  abbrev elsewhere : Defining
  elsewhere = record c { os = os' }

  global-free : (env : Map Str Str) → Map.get (global_tags_expanded c env) k ≡ none
  unfolding global_tags_expanded
  global-free env = rw (get-expand_tokens c.os c.global_tags _ k, free) refl

  global-elsewhere : (env : Map Str Str) → Map.get (global_tags_expanded elsewhere env) k ≡ none
  unfolding global_tags_expanded
  global-elsewhere env = rw (get-expand_tokens os' c.global_tags _ k, free) refl

  endpoint-isolated :
      (env : Map Str Str) → endpoint_tags_expanded c env ≡ endpoint_tags_expanded elsewhere env
  unfolding endpoint_tags_expanded
  endpoint-isolated env = expand_tokens-isolated c.os os' c.endpoint.tags _ refl

  metric-isolated :
      (env : Map Str Str) (tags : Tags) (description units : Str)
      → metric_tags_expanded c env tags description units
        ≡ metric_tags_expanded elsewhere env tags description units
  unfolding metric_tags_expanded
  metric-isolated env tags description units =
      ap (λ t. put_if (codes "units") units (put_if (codes "description") description t))
        (expand_tokens-isolated c.os os' tags _ refl)

  all-isolated :
      (env : Map Str Str) (tags : Tags) (description units : Str)
      → Map.get (all_metric_tags c env tags description units) k
        ≡ Map.get (all_metric_tags elsewhere env tags description units) k
  unfolding all_metric_tags
  all-isolated env tags description units =
      rw
        (
          get-append_tags_without _ (global_tags_expanded c env) k (global-free env),
          get-append_tags_without _ (global_tags_expanded elsewhere env) k (global-elsewhere env),
          endpoint-isolated env,
          metric-isolated env tags description units,
        )
        refl

  -- The tokens of a metric, with its description.
  env_with : Str → MonitoredMetric → Tags → Str → Map Str Str
  unfolding metric_tag_tokens
  env_with id mm tags description =
      append_tags
        (metric_tag_tokens
          ((codes "METRIC:name", mm.name)
            ∷ (codes "METRIC:id", id)
            ∷ (codes "METRIC:units", (get_metric_units mm.units).0.symbol)
            ∷ (codes "METRIC:description", description)
            ∷ [])
          tags)
        c.additional_env

  definition-isolated :
      (details : List MetricDetails) (id : Str) (mm : MonitoredMetric)
      → Map.get (metric_definition c details id mm).tags k
        ≡ Map.get (metric_definition elsewhere details id mm).tags k
  unfolding metric_definition env_with
  definition-isolated details id mm =
      let detail =
        find_detail (record { name = []; metric_type = []; description = [] }) details mm.name in
      let (of_datapoint, tags) = unmark [] mm.tags mm.tags in
      let description =
        if str_eq mm.description []
        then default_description detail mm.name of_datapoint tags
        else mm.description in
      let config : MappingFuncConfig = record {
        env = tags;
        use_os_env = false;
        do_not_expand_if_not_found = false;
      } in
      all-isolated _ tags (expand description (mapping_func c.os config)) _
      ∙ ap
          (λ d.
            Map.get
              (all_metric_tags elsewhere (env_with id mm tags d) tags d
                (get_metric_units mm.units).0.symbol)
              k)
          (expand-isolated c.os os' config description refl)

  definitions-isolated :
      (details : List MetricDetails) (needed : Map Str MonitoredMetric)
      → tag_values k (metric_definitions c details needed)
        ≡ tag_values k (metric_definitions elsewhere details needed)
  unfolding metric_definitions
  definitions-isolated details [] = refl
  definitions-isolated details ((id, mm) ∷ needed) =
      rw (definition-isolated details id mm, definitions-isolated details needed) refl

  -- In the definitions that createMetricDefinition sends, a tag whose key is not among the
  -- configured global tags has the same values in every environment of the agent's process: tokens
  -- in the tags of an endpoint or a metric, or in a description, do not read what the agent keeps
  -- there. Global tags are expanded in that environment and are excepted.
  pub create-isolated :
      (collect_details : List Str → Option (List MetricDetails)) (needed : Map Str MonitoredMetric)
      → tag_values k (create_metric_definition c collect_details needed).0
        ≡ tag_values k (create_metric_definition elsewhere collect_details needed).0
  unfolding create_metric_definition
  create-isolated collect_details [] = refl
  create-isolated collect_details (entry ∷ needed) =
      elim (Option-cases (collect_details (metric_names (entry ∷ needed)))) [
        | inl failed ↦
            rw (failed, create_metric_definition) (definitions-isolated [] (entry ∷ needed))
        | inr (details, found) ↦
            rw (found, create_metric_definition) (definitions-isolated details (entry ∷ needed))
      ]

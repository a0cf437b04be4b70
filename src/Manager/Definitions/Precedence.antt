-- ===== src/Manager/Definitions/Precedence.antt =====
-- What the definitions are: their ids, and which of the three kinds of tags a tag comes from.
use hawkular_openshift_agent.Base.{
  Str, codes, string_eq, ◌≡◌, refl, inl, inr, Option, Option-cases, none, some, List, [], ◌∷◌,
  arith,
}
use hawkular_openshift_agent.Base.Map
use hawkular_openshift_agent.Base.Map.{Map, IsMap, put-IsMap, get-put}
use hawkular_openshift_agent.Collector.{MetricDefinition, MetricDetails, MonitoredMetric, Tags}
use hawkular_openshift_agent.Config.Expand.{MappingFuncConfig}
use hawkular_openshift_agent.Config.Tags.{append_tags, expand_tokens}
use hawkular_openshift_agent.Config.Tags.Laws.{or_other, get-append_tags, get-expand_tokens}
use hawkular_openshift_agent.Base.Sort.{keys}
use hawkular_openshift_agent.Manager.Definitions.{
  Defining, metric_names, metric_definition, metric_definitions, create_metric_definition,
  all_metric_tags, endpoint_tags_expanded, metric_tags_expanded, global_tags_expanded, put_if,
}

pub def_ids : List MetricDefinition → List Str
def_ids [] = []
def_ids (d ∷ ds) = d.id ∷ def_ids ds

module _ (c : Defining) where
  def_ids_lem :
      (details : List MetricDetails) (needed : Map Str MonitoredMetric)
      → def_ids (metric_definitions c details needed) ≡ keys needed
  unfolding metric_definitions metric_definition def_ids keys
  def_ids_lem details [] = refl
  def_ids_lem details ((id, mm) ∷ needed) = cc (def_ids_lem details needed)

  -- Whether or not the collector can give details, createMetricDefinition sends one definition for
  -- each id that is needed, in their order, and no other.
  pub create-ids :
      (collect_details : List Str → Option (List MetricDetails)) (needed : Map Str MonitoredMetric)
      → def_ids (create_metric_definition c collect_details needed).0 ≡ keys needed
  unfolding create_metric_definition def_ids keys
  create-ids collect_details [] = refl
  create-ids collect_details (entry ∷ needed) =
      elim (Option-cases (collect_details (metric_names (entry ∷ needed)))) [
        | inl failed ↦ rw (failed, create_metric_definition) (def_ids_lem [] (entry ∷ needed))
        | inr (details, found) ↦
            rw (found, create_metric_definition) (def_ids_lem details (entry ∷ needed))
      ]

expand_tokens-IsMap :
    (os : Str → Option Str) (t : Tags) (config : MappingFuncConfig)
    → IsMap t
    → IsMap (expand_tokens os t config)
unfolding expand_tokens
expand_tokens-IsMap os [] config h = tt
expand_tokens-IsMap os ((k, v) ∷ t) config h =
    (ground (arith, get-expand_tokens os t config k, h.0), expand_tokens-IsMap os t config h.1)

or_other-none : (o : Option Str) → or_other o none ≡ o
or_other-none none = refl
or_other-none (some v) = refl

put_if-IsMap : (key value : Str) (t : Tags) → IsMap t → IsMap (put_if key value t)
unfolding put_if
put_if-IsMap key value t h = ground (arith, put-IsMap t key value h)

get-append_tags_to_none :
    (t more : Tags) (k : Str)
    → IsMap more
    → Map.get t k ≡ none
    → Map.get (append_tags t more) k ≡ Map.get more k
get-append_tags_to_none t more k h missing =
    rw (get-append_tags t more k h, missing) (or_other-none (Map.get more k))

-- Where the tags of the endpoint, of the metric and of the configuration are maps, with each key
-- once: a tag of a definition is the global tag of that key, or else the metric's own, the units
-- and the description among them, or else the endpoint's.
pub all_metric_tags-precedence :
    (c : Defining) (env tags : Tags) (description units k : Str)
    → IsMap c.endpoint.tags
    → IsMap tags
    → IsMap c.global_tags
    → Map.get (all_metric_tags c env tags description units) k
      ≡ or_other (Map.get (global_tags_expanded c env) k) (
          or_other
            (Map.get (metric_tags_expanded c env tags description units) k)
            (Map.get (endpoint_tags_expanded c env) k))
unfolding all_metric_tags
all_metric_tags-precedence c env tags description units k he hm hg =
    let e = endpoint_tags_expanded c env in
    let m = metric_tags_expanded c env tags description units in
    let g = global_tags_expanded c env in
    let e_map : IsMap e =
      unfold endpoint_tags_expanded in expand_tokens-IsMap c.os c.endpoint.tags _ he in
    let m_map : IsMap m =
      unfold metric_tags_expanded in
      put_if-IsMap (codes "units") units _
        (put_if-IsMap (codes "description") description _ (expand_tokens-IsMap c.os tags _ hm)) in
    let g_map : IsMap g =
      unfold global_tags_expanded in expand_tokens-IsMap c.os c.global_tags _ hg in
    rw
      (
        get-append_tags (append_tags (append_tags [] e) m) g k g_map,
        get-append_tags (append_tags [] e) m k m_map,
        get-append_tags_to_none [] e k e_map (unfold Map.get in refl),
      )
      refl

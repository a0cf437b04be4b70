-- ===== src/K8s/Consumer.antt =====
-- k8s/node_event_consumer.go: node events start and stop the collectors of a pod's endpoints. One
-- event that is taken from the channel is one step.
pub mod Listed
pub mod Running
mod Tests
use hawkular_openshift_agent.Base.{
  Str, codes, str_eq, string_eq, ℕ, ℤ, Bool, true, false, not, ◌||◌, Option, none, some, List, [],
  ◌∷◌, ◌++◌, if◌then◌else◌,
}
use hawkular_openshift_agent.Base.Map
use hawkular_openshift_agent.Base.Map.{Map}
use hawkular_openshift_agent.Collector.{CollectorId, id_eq, Endpoint, Credentials, Tags}
use hawkular_openshift_agent.Collector.Validation.{EndpointError, validate_endpoint}
use hawkular_openshift_agent.Config.Expand.{MappingFuncConfig, mapping_func, expand}
use hawkular_openshift_agent.Config.Tags.{append_tags}
use hawkular_openshift_agent.Manager.{
  Manager, Platform, CollectorConfig, Collector, start_collecting, stop_collecting, not_collecting,
}
use hawkular_openshift_agent.Manager.Creator.{create_metrics_collector}
use hawkular_openshift_agent.K8s.Pod.{Pod, get_identifier}
use hawkular_openshift_agent.K8s.ConfigMaps.{ConfigMapEntry, K8sEndpoint, k8s_is_enabled, get_url}
use hawkular_openshift_agent.K8s.Discovery.{
  NodeEvent, Trigger, pod_added, pod_modified, pod_deleted, config_map_added, config_map_modified,
  config_map_deleted,
}
use hawkular_openshift_agent.K8s.Secrets.{SecretError, determine_credentials}

-- Why an endpoint is not collected from, once it has a URL.
pub data StartError : Type 0 where
  disabled unknown_type : StartError
  bad_secret : SecretError → StartError
  invalid : EndpointError → StartError

-- The parts of the configuration that starting reads, and what the consumer takes from its
-- surroundings: url.Parse with String(), the decimal text of a port, the secrets of a namespace,
-- and the message that is logged for an error.
pub record Setting : Type 0 where
  pub os : Platform
  pub collector : CollectorConfig
  pub server_tenant : Str
  pub kubernetes_tenant : Str
  pub parse_url : Str → Option Str
  pub show_port : ℤ → Str
  pub secrets : Str → Str → Option (Map Str Str)
  pub show_error : Pod → Str → StartError → Str

pub record Consumer : Type 0 where
  pub collector_ids : Map Str (List CollectorId)
  pub manager : Manager

unfoldable pub new_node_event_consumer : Manager → Consumer
new_node_event_consumer m = record { collector_ids = []; manager = m }

join_map : Map Str Str → Str
join_map [] = []
join_map ((k, v) ∷ []) = k ++ b':' ∷ v
join_map ((k, v) ∷ entry ∷ m) = k ++ b':' ∷ (v ++ b',' ∷ join_map (entry ∷ m))

-- The loops over the labels: `key` makes the key of a label's entry.
put_labels : (Str → Str) → Map Str Str → Map Str Str → Map Str Str
put_labels key m [] = m
put_labels key m ((n, v) ∷ labels) = put_labels key (Map.put m (key n) v) labels

label_token : Str → Str
label_token n = codes "POD:label[" ++ (n ++ codes "]")

unfoldable pub additional_env : Pod → Map Str Str
unfolding join_map put_labels label_token
additional_env p =
    put_labels label_token
      ((codes "POD:node_name", p.node.name)
        ∷ (codes "POD:node_uid", p.node.uid)
        ∷ (codes "POD:namespace_name", p.namespace.name)
        ∷ (codes "POD:namespace_uid", p.namespace.uid)
        ∷ (codes "POD:name", p.name)
        ∷ (codes "POD:ip", p.pod_ip)
        ∷ (codes "POD:host_ip", p.host_ip)
        ∷ (codes "POD:uid", p.uid)
        ∷ (codes "POD:hostname", p.hostname)
        ∷ (codes "POD:subdomain", p.subdomain)
        ∷ (codes "POD:labels", join_map p.labels)
        ∷ (codes "POD:cluster_name", p.cluster_name)
        ∷ (codes "POD:resource_version", p.resource_version)
        ∷ (codes "POD:self_link", p.self_link)
        ∷ [])
      p.labels

unfoldable pub already_there : CollectorId → List CollectorId → Bool
already_there id [] = false
already_there id (i ∷ ids) = id_eq i id || already_there id ids

unfoldable pub keep_track : Map Str (List CollectorId) → CollectorId → Map Str (List CollectorId)
keep_track m id = elim (Map.get m id.pod_id) [
  | none ↦ Map.put m id.pod_id (id ∷ [])
  | some ids ↦ if already_there id ids then m else Map.put m id.pod_id (ids ++ id ∷ [])
]

module _ (s : Setting) where
  unfoldable pub endpoint_tenant : Map Str Str → Str
  endpoint_tenant env =
      if str_eq s.kubernetes_tenant []
      then s.server_tenant
      else expand s.kubernetes_tenant (
          mapping_func s.os.lookup_env
            (record { env = env; use_os_env = true; do_not_expand_if_not_found = false }))

  unfoldable pub endpoint_tags : Pod → Tags → Tags
  unfolding put_labels
  endpoint_tags p tags =
      let prefix = s.collector.pod_label_tags_prefix in
      let used = if str_eq prefix (codes "_empty_") then [] else prefix in
      let own = append_tags [] tags in
      if str_eq prefix [] then own else put_labels (λ n. used ++ n) own p.labels

  -- getIdForEndpoint
  unfoldable pub get_id_for_endpoint : Pod → K8sEndpoint → Option Str
  get_id_for_endpoint p e = elim (get_url s.show_port s.parse_url e p.pod_ip) [
    | none ↦ none
    | some url ↦ some (p.namespace.name ++ b'|' ∷ (p.name ++ b'|' ∷ (e.type ++ b'|' ∷ url)))
  ]

  -- The endpoint that is collected from, or why there is none. The tags and the environment are
  -- those of the pod.
  unfoldable pub convert_endpoint : Pod → K8sEndpoint → Str → Credentials → Endpoint
  convert_endpoint p e url credentials = record {
    type = e.type;
    enabled = e.enabled;
    url = url;
    skip_certificate_validation = e.skip_certificate_validation;
    credentials = credentials;
    collection_interval = e.collection_interval;
    tenant = endpoint_tenant (additional_env p);
    tags = endpoint_tags p e.tags;
    metrics = e.metrics;
  }

  pub data Decision : Type 0 where
    collect : Collector → Decision
    refuse : StartError → Decision

  pub create : CollectorId → Map Str Str → Endpoint × Option EndpointError → Decision
  create id env (endpoint, some err) = refuse (invalid err)
  create id env (endpoint, none) = elim (create_metrics_collector id endpoint env) [
    | none ↦ refuse unknown_type
    | some c ↦ collect c
  ]

  pub decide_with :
      Pod → K8sEndpoint → Str → CollectorId → Credentials × Option SecretError → Decision
  unfolding create
  decide_with p e url id (credentials, some err) = refuse (bad_secret err)
  decide_with p e url id (credentials, none) =
      create id (additional_env p)
        (validate_endpoint s.os.parse_duration (convert_endpoint p e url credentials))

  unfoldable pub decide : Pod → K8sEndpoint → Str → CollectorId → Decision
  unfolding decide_with
  decide p e url id =
      if not (k8s_is_enabled e)
      then refuse disabled
      else decide_with p e url id (determine_credentials (s.secrets p.namespace.name) e.credentials)

  unfoldable pub act : Str → Manager → Pod → Str → CollectorId → Decision → Manager
  act now m p url id (collect c) = start_collecting s.os s.collector now m c
  act now m p url id (refuse err) = not_collecting m id (s.show_error p url err)

  -- One pass of the loop of startCollecting, for an endpoint with this URL and this id.
  unfoldable pub start_endpoint : Str → Consumer → Pod → K8sEndpoint → Consumer
  start_endpoint now nec p e = elim (get_url s.show_port s.parse_url e p.pod_ip) [
    | none ↦ nec
    | some url ↦ elim (get_id_for_endpoint p e) [
      | none ↦ nec
      | some endpoint_id ↦
          let id : CollectorId = record { pod_id = get_identifier p; endpoint_id = endpoint_id } in
          record {
            collector_ids = keep_track nec.collector_ids id;
            manager = act now nec.manager p url id (decide p e url id);
          }
    ]
  ]

  unfoldable pub nec_start_collecting : Str → Consumer → Pod → List K8sEndpoint → Consumer
  nec_start_collecting now nec p [] = nec
  nec_start_collecting now nec p (e ∷ es) =
      nec_start_collecting now (start_endpoint now nec p e) p es

unfoldable pub stop_each : Str → Manager → List CollectorId → Manager
stop_each now m [] = m
stop_each now m (id ∷ ids) = stop_each now (stop_collecting now m id) ids

unfoldable pub nec_stop_collecting : Str → Consumer → Pod → Consumer
nec_stop_collecting now nec p = elim (Map.get nec.collector_ids (get_identifier p)) [
  | none ↦ nec
  | some ids ↦ record {
    collector_ids = Map.delete nec.collector_ids (get_identifier p);
    manager = stop_each now nec.manager ids;
  }
]

module _ (s : Setting) where
  start_if_configured : Str → Consumer → NodeEvent → Consumer
  start_if_configured now nec ne = elim ne.config_map_entry [
    | none ↦ nec
    | some cme ↦ nec_start_collecting s now nec ne.pod cme.endpoints
  ]

  -- consumeNodeEvents, for one event.
  unfoldable pub consume_node_event : Str → Consumer → NodeEvent → Consumer
  unfolding start_if_configured
  consume_node_event now nec ne =
      let stopped = nec_stop_collecting now nec ne.pod in
      elim ne.trigger [
        | pod_added ↦ start_if_configured now nec ne
        | pod_modified ↦ start_if_configured now stopped ne
        | pod_deleted ↦ stopped
        | config_map_added ↦ start_if_configured now nec ne
        | config_map_modified ↦ start_if_configured now stopped ne
        | config_map_deleted ↦ stopped
      ]

-- Stop, without the discovery: every collector that is kept track of.
unfoldable pub nec_stop : Str → Manager → Map Str (List CollectorId) → Manager
nec_stop now m [] = m
nec_stop now m ((pod_id, ids) ∷ more) = nec_stop now (stop_each now m ids) more

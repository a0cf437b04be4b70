-- ===== src/K8s/Consumer/Tests.antt =====
-- The consumer at concrete events.
use hawkular_openshift_agent.Base.{
  Str, codes, str_eq, pos, ◌≡◌, refl, false, none, some, List, [], ◌∷◌,
}
use hawkular_openshift_agent.Collector.{CollectorId}
use hawkular_openshift_agent.Manager.{Platform, Manager, new_metrics_collector_manager}
use hawkular_openshift_agent.Manager.Creator.{start_collecting_endpoints}
use hawkular_openshift_agent.Status.{init_status_report}
use hawkular_openshift_agent.K8s.Pod.{Pod, get_identifier}
use hawkular_openshift_agent.K8s.ConfigMaps.{ConfigMapEntry, K8sEndpoint}
use hawkular_openshift_agent.K8s.Discovery.{NodeEvent, pod_added, config_map_modified, pod_deleted}
use hawkular_openshift_agent.K8s.Secrets.{trim_left}
use hawkular_openshift_agent.K8s.Consumer.{
  Setting, Consumer, consume_node_event, new_node_event_consumer,
}
use hawkular_openshift_agent.K8s.Consumer.Listed.{running}
use hawkular_openshift_agent.K8s.Consumer.Running.{
  event, IsTracked, consume_node_events, consume_node_event_lem, consume_new-IsTracked,
}

abbrev os : Platform
os = record {
  parse_duration = λ s. some (pos 10);
  show_duration = λ d. codes "d";
  show_count = λ n. codes "n";
  lookup_env = λ s. none;
}

abbrev setting : Setting
setting = record {
  os = os;
  collector = record {
    max_metrics_per_pod = pos 50;
    minimum_collection_interval = codes "10s";
    default_collection_interval = codes "5m";
    tags = [];
    pod_label_tags_prefix = codes "_empty_";
    metric_id_prefix = [];
  };
  server_tenant = codes "hawkular";
  kubernetes_tenant = codes "${POD:namespace_name}";
  parse_url = λ s. some s;
  show_port = λ p. codes "80";
  secrets = λ namespace name. none;
  show_error = λ p url e. codes "not collected";
}

abbrev web : Pod
web = record {
  node = record { name = codes "n1"; uid = codes "u1" };
  namespace = record { name = codes "shop"; uid = codes "u2" };
  name = codes "web";
  uid = codes "7";
  pod_ip = codes "10.0.0.1";
  host_ip = [];
  hostname = [];
  subdomain = [];
  labels = (codes "app", codes "web") ∷ [];
  annotations = [];
  config_map_volumes = [];
  cluster_name = [];
  resource_version = [];
  self_link = [];
}

abbrev endpoint : K8sEndpoint
endpoint = record {
  type = codes "prometheus";
  enabled = codes "true";
  protocol = codes "http";
  port = pos 80;
  path = codes "metrics";
  skip_certificate_validation = false;
  credentials = record { username = []; password = []; token = [] };
  collection_interval = [];
  tags = [];
  metrics = [];
}

abbrev entry : ConfigMapEntry
entry = record { endpoints = endpoint ∷ [] }

abbrev web_id : CollectorId
web_id = record {
  pod_id = get_identifier web;
  endpoint_id = codes "shop|web|prometheus|http://10.0.0.1:80/metrics";
}

abbrev two_events : List (Str × NodeEvent)
two_events =
    (codes "t", event pod_added (some entry) web)
    ∷ (codes "u", event config_map_modified (some entry) web)
    ∷ []

abbrev fresh : Manager
fresh =
    new_metrics_collector_manager setting.collector (init_status_report (codes "HOSA") [] [] 10)
      (record {
        data_points_collected = 0;
        monitored_pods = 0;
        monitored_endpoints = 0;
        monitored_metrics = 0;
      })

abbrev after_two : Consumer
after_two =
    consume_node_events setting
      (new_node_event_consumer
        (start_collecting_endpoints setting.os setting.collector (codes "s") fresh []))
      two_events

consume_new-IsTracked_example : IsTracked after_two
unfolding init_status_report new_metrics_collector_manager
consume_new-IsTracked_example =
    consume_new-IsTracked setting fresh.status fresh.gauges (codes "s") [] two_events

consume_node_event_lem_example :
    running
      (consume_node_event setting (codes "v") after_two (event pod_deleted none web)).manager
      web_id
    ≡ false
unfolding str_eq get_identifier init_status_report new_metrics_collector_manager
consume_node_event_lem_example =
    consume_node_event_lem setting (codes "v") after_two pod_deleted web none web_id
      (consume_new-IsTracked setting fresh.status fresh.gauges (codes "s") [] two_events)

-- The prefix is cut off with every letter of a secret's name that is in the word.
trim_left_of_secret : trim_left (codes "secret:store/key") (codes "secret:") ≡ codes "ore/key"
unfolding trim_left
trim_left_of_secret = refl

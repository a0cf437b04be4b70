-- ===== src/K8s/Discovery/Tests.antt =====
-- The discovery at concrete events.
use hawkular_openshift_agent.Base.{
  Str, codes, str_eq, ℤ, ◌≡◌, refl, Bool, false, Option, none, some, List, [], ◌∷◌,
}
use hawkular_openshift_agent.Base.Map
use hawkular_openshift_agent.K8s.Pod.{Node, has_no_slash, has_no_slash-NoSlash}
use hawkular_openshift_agent.K8s.ConfigMaps.{ConfigMapEntry, get_entry}
use hawkular_openshift_agent.K8s.Discovery.{
  Discovery, PodFromEvent, ConfigMapFromEvent, added, deleted, config_map_deleted, new_discovery,
  config_map_event, send_node_event_due_to_changed_config_map,
}
use hawkular_openshift_agent.K8s.Discovery.Watching.{
  Event, on_pod, on_config_map, IsNamedEvent, IsWatching, processes, processes_new-IsWatching,
}
use hawkular_openshift_agent.K8s.Discovery.Affected.{
  affected, events, send_changed-affected, get_entry-config_map_event,
}

abbrev node : Node
node = record { name = codes "n1"; uid = codes "u1" }

abbrev web : PodFromEvent
web = record {
  namespace = codes "shop";
  namespace_uid = some (codes "u2");
  name = codes "web";
  uid = codes "7";
  pod_ip = codes "10.0.0.1";
  host_ip = [];
  hostname = [];
  subdomain = [];
  labels = [];
  annotations = [];
  volumes = (codes "hawkular-openshift-agent", some (codes "agent")) ∷ [];
  cluster_name = [];
  resource_version = [];
  self_link = [];
}

abbrev config_map : ConfigMapFromEvent
config_map = record {
  name = codes "agent";
  data_of = (codes "hawkular-openshift-agent", codes "endpoints: []") ∷ [];
}

abbrev no_duration : Str → Option ℤ
no_duration s = none

abbrev read : Str → ConfigMapEntry × Bool
read yaml = (record { endpoints = [] }, false)

web-IsNamedEvent : IsNamedEvent web
unfolding has_no_slash
web-IsNamedEvent = record {
  namespace = has_no_slash-NoSlash (codes "shop") refl;
  name = has_no_slash-NoSlash (codes "web") refl;
}

abbrev three : List Event
three = on_pod added web ∷ on_config_map (codes "shop") added config_map ∷ on_pod deleted web ∷ []

abbrev discovered : Discovery
discovered =
    processes no_duration read (new_discovery node)
      (on_pod added web ∷ on_config_map (codes "shop") added config_map ∷ [])

processes_new-IsWatching_example :
    IsWatching (processes no_duration read (new_discovery node) three)
unfolding has_no_slash
processes_new-IsWatching_example =
    processes_new-IsWatching no_duration read node three (has_no_slash-NoSlash (codes "n1") refl)
      (web-IsNamedEvent, (tt, (web-IsNamedEvent, tt)))

send_changed-affected_example :
    send_node_event_due_to_changed_config_map discovered
      (codes "shop")
      (codes "agent")
      none
      config_map_deleted
    ≡ events config_map_deleted none (affected discovered.pods (codes "shop") (codes "agent"))
send_changed-affected_example =
    send_changed-affected discovered (codes "shop") (codes "agent") none config_map_deleted

get_entry-config_map_event_example :
    get_entry
      (config_map_event no_duration read discovered (codes "shop") deleted config_map).0.config_maps
      (codes "shop")
      (codes "agent")
    ≡ none
unfolding str_eq Map.get
get_entry-config_map_event_example =
    get_entry-config_map_event no_duration read discovered (codes "shop") deleted config_map
      (codes "shop") (codes "agent")

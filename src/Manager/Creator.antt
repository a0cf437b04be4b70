-- ===== src/Manager/Creator.antt =====
-- collector/manager/metrics_collector_creator.go, and StartCollectingEndpoints of the manager,
-- which starts the endpoints of the configuration file.
use hawkular_openshift_agent.Base.{
  Str, codes, str_eq, ◌||◌, Option, none, some, List, [], ◌∷◌, ◌++◌, if◌then◌else◌,
}
use hawkular_openshift_agent.Collector.{CollectorId, Endpoint, Tags}
use hawkular_openshift_agent.Collector.Validation.{prometheus, jolokia, json}
use hawkular_openshift_agent.Manager.{
  Manager, Platform, CollectorConfig, Collector, start_collecting, not_collecting,
}

-- A collector of one of the three kinds, which keep the same data; none if the type is unknown.
unfoldable pub create_metrics_collector : CollectorId → Endpoint → Tags → Option Collector
create_metrics_collector id endpoint env =
    if str_eq endpoint.type prometheus || str_eq endpoint.type jolokia || str_eq endpoint.type json
    then some (record { id = id; endpoint = endpoint; environment = env })
    else none

unfoldable pub endpoint_collector_id : Endpoint → CollectorId
endpoint_collector_id e = record {
  pod_id = [];
  endpoint_id = codes "X|X|" ++ (e.type ++ b'|' ∷ e.url);
}

-- The message for an endpoint of unknown type.
unknown_type_message : CollectorId → Endpoint → Str
unknown_type_message id e =
    codes "Will not start collecting for endpoint ["
    ++ (id.endpoint_id ++ (codes "]. err=Unknown endpoint type [" ++ (e.type ++ codes "]")))

unfoldable pub start_or_not :
    Platform → CollectorConfig → Str → Manager → Endpoint → Option Collector → Manager
unfolding endpoint_collector_id unknown_type_message
start_or_not os conf now m e (some c) = start_collecting os conf now m c
start_or_not os conf now m e none =
    not_collecting m (endpoint_collector_id e) (unknown_type_message (endpoint_collector_id e) e)

unfoldable pub start_collecting_endpoints :
    Platform → CollectorConfig → Str → Manager → List Endpoint → Manager
unfolding start_or_not endpoint_collector_id
start_collecting_endpoints os conf now m [] = m
start_collecting_endpoints os conf now m (e ∷ es) =
    let collector = create_metrics_collector (endpoint_collector_id e) e [] in
    start_collecting_endpoints os conf now (start_or_not os conf now m e collector) es

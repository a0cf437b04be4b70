-- ===== src/Lib.antt =====
-- The Hawkular OpenShift Agent: a Go program that runs on an OpenShift node, finds out which pods
-- of the node are to be monitored, collects their metrics at intervals and stores them.
--
-- The parts and how they interact. The discovery watches the node's pods and the config maps of
-- their namespaces and sends node events. The node event consumer takes each event and starts or
-- stops the collectors of the pod's endpoints, which the config map lists. The collector manager
-- runs a ticker for each collector. At each tick it sorts what was collected by the ids that the
-- configuration gives, asks the tracker which of these metrics are within the pod's limit, sends
-- them to the storage and the definitions that are still needed with them. The status report and
-- the agent's own gauges tell of all this.
--
-- Which file models which part (paths from the repository's root):
--   Base                      the shared library: bytes as texts, Go maps as lists of entries
--   Collector                 collector/metrics_collector.go, collector/metrics_endpoint.go
--   Collector/Units           collector/metric_units.go: GetMetricUnits
--   Collector/Validation      collector/metrics_endpoint.go: ValidateEndpoint, IsEnabled, Clone
--   Config/Security           config/security/config_security.go
--   Config/Expand             util/expand/mapping_func.go, with os.Expand of Go 1.7
--   Config/Tags               config/tags/config_tags.go
--   Config/Settings           config/config.go, k8s/k8s_client.go: IsConfiguredForKubernetes
--   Main                      hawkular-openshift-agent.go: the configuration and validateConfig
--   Values                    the values that encoding/json gives, and float64 as an argument
--   Math                      util/math/math.go
--   Tracker                   collector/tracker/metrics_tracker.go
--   Status                    emitter/status/status_emitter.go
--   Manager                   collector/manager/metrics_collector_manager.go: StartCollecting,
--                             StopCollecting, StopCollectingAll, NotCollecting
--   Manager/Creator           CreateMetricsCollector, StartCollectingEndpoints
--   Manager/Collect, Tick     the goroutine that StartCollecting starts
--   Manager/Definitions       createMetricDefinition
--   Jolokia/MetricName        jolokia/parse_metric_name.go
--   Jolokia/Response          jolokia/process_jolokia_response.go
--   Jolokia/Collector         collector/impl/jolokia_metrics_collector.go, with the structs of
--                             jolokia/jolokia_request.go and jolokia/jolokia_response.go
--   Prometheus                collector/impl/prometheus_metrics_collector.go
--   Json                      collector/impl/json_metrics_collector.go
--   Storage                   storage/metrics_storage.go: the loops over the two channels
--   Storage/Secret            storage/metrics_storage.go: processHawkularMetricsConfig, and in
--                             Storage/Secret/Clients NewMetricsStorageManager
--   Emitter                   emitter/emitter_server.go
--   K8s/Pod                   k8s/pod.go, k8s/node.go, k8s/namespace.go, k8s/pod_inventory.go
--   K8s/ConfigMaps            k8s/configmap.go, k8s/configmaps.go, k8s/configmap_entry.go
--   K8s/Discovery             k8s/discovery.go, k8s/node_event.go
--   K8s/Watcher               k8s/discovery.go: watchProcessor
--   K8s/Secrets, Consumer     k8s/node_event_consumer.go
--
-- How code and definitions correspond. A struct is a record with the fields that the code reads
-- or writes, in snake case; a method is a function from the state and the arguments to the new
-- state; what a channel is sent is part of the result. A string is the list of its bytes. A nil
-- map is an empty map. A Go map is a list of entries with distinct keys, whose order stands for
-- the order that one run's `range` loops happen to meet; properties that need distinct keys say
-- so. An int that can be negative is an ℤ and a count is an ℕ; the counts are of things in
-- memory, far below the width of an int. A method that takes its component's lock is one atomic
-- step; log output is left out.
--
-- What comes from elsewhere is an argument: time.ParseDuration and the text of a duration,
-- decimal texts, os.LookupEnv, url.Parse, the YAML library, the Kubernetes API's look-ups of
-- secrets and of a namespace's uid, times and the error texts of messages, and what a collector
-- returns at a tick; float64 and its operations, the responses and families that an endpoint gives,
-- the client of the Hawkular library, the duration of a look-up, and the file system. The base64
-- encoding and os.Expand are written out, since properties depend on them. Every loop is a recursion on the list that it goes through, but the one that waits for a
-- secret, which has fuel for sixty-two passes: each takes at least five seconds of the five minutes,
-- so that at most sixty-one of them look for the secret.
--
-- Not modelled: the scrapers and the HTTP client, the methods of the Hawkular client, the Kubernetes
-- client, watch events of the type Error (whose object makes an unchecked type assertion panic),
-- the starting and stopping of goroutines and channels, flags and signals, and the log. A
-- collection that is under way while StopCollecting runs is not interleaved with it. Of the JSON
-- collector's two goroutines, the order in which they end is an argument.
pub mod Base
pub mod Collector
pub mod Config
pub mod Emitter
pub mod Jolokia
pub mod Json
pub mod K8s
pub mod Main
pub mod Manager
pub mod Math
pub mod Prometheus
pub mod Status
pub mod Storage
pub mod Tracker
pub mod Values

-- ===== src/Tracker.antt =====
-- collector/tracker/metrics_tracker.go: which metrics of which endpoint of which pod are stored,
-- with a limit for each pod. The lock makes each method one step, so a method is a function of
-- the tracker; a method that mutates returns the new tracker.
pub mod Loop
pub mod Pods
pub mod Invariant
pub mod Overflow
pub mod Counts
pub mod Endpoints
mod Tests
use hawkular_openshift_agent.Base.{
  Str, str_eq, string_eq, ℕ, ◌+◌, ℤ, count_lt, Bool, true, Option, none, some, List, [], ◌∷◌, ◌++◌,
  length, if◌then◌else◌,
}
use hawkular_openshift_agent.Base.Map
use hawkular_openshift_agent.Base.Map.{Map}
use hawkular_openshift_agent.Collector.{CollectorId, MetricHeader}

-- The inner map of an endpoint: the fully expanded metric ids.
abbrev pub MetricSet : Type 0
MetricSet = Map Str Bool

abbrev pub PodEndpoints : Type 0
PodEndpoints = Map Str MetricSet

pub record MetricsTracker : Type 0 where
  pub all_metrics : Map Str PodEndpoints
  pub max_metrics_per_pod : ℤ

unfoldable pub new_metrics_tracker : ℤ → MetricsTracker
new_metrics_tracker max = record { all_metrics = []; max_metrics_per_pod = max }

-- The number of metrics in one pod: the inner loop of GetCounts.
unfoldable pub pod_metrics : PodEndpoints → ℕ
pod_metrics [] = 0
pod_metrics ((eid, metrics) ∷ endpoints) = length metrics + pod_metrics endpoints

pub count_pods : Map Str PodEndpoints → ℕ → ℕ → ℕ → ℕ × ℕ × ℕ
unfolding pod_metrics
count_pods [] p e m = (p, e, m)
count_pods ((pid, endpoints) ∷ pods) p e m =
    count_pods pods (p + 1) (e + length endpoints) (m + pod_metrics endpoints)

-- GetCounts: pods, endpoints, metrics.
unfoldable pub get_counts : MetricsTracker → ℕ × ℕ × ℕ
unfolding count_pods
get_counts mt = count_pods mt.all_metrics 0 0 0

abbrev pub sizes {ℓ} : {A : Type ℓ} → Map Str (List A) → Map Str ℕ
sizes [] = []
sizes ((k, l) ∷ m) = (k, length l) ∷ sizes m

unfoldable pub get_all_pods : MetricsTracker → Map Str ℕ
get_all_pods mt = sizes mt.all_metrics

unfoldable pub get_all_endpoints : MetricsTracker → Str → Map Str ℕ
get_all_endpoints mt pid = elim (Map.get mt.all_metrics pid) [
  | none ↦ []
  | some endpoints ↦ sizes endpoints
]

abbrev pub endpoints_of : Option PodEndpoints → PodEndpoints
endpoints_of none = []
endpoints_of (some endpoints) = endpoints

-- delete(mt.allMetrics[pod], endpoint) on a missing pod changes nothing.
abbrev pub purge_endpoint :
    Map Str PodEndpoints → CollectorId → Option PodEndpoints → Map Str PodEndpoints
purge_endpoint pods cid none = pods
purge_endpoint pods cid (some endpoints) =
    Map.put pods cid.pod_id (Map.delete endpoints cid.endpoint_id)

abbrev pub drop_empty_pod : Map Str PodEndpoints → Str → PodEndpoints → Map Str PodEndpoints
drop_empty_pod pods pid [] = Map.delete pods pid
drop_empty_pod pods pid (x ∷ xs) = pods

unfoldable pub purge_metrics_for_collector_endpoint : MetricsTracker → CollectorId → MetricsTracker
purge_metrics_for_collector_endpoint mt cid =
    let pods = purge_endpoint mt.all_metrics cid (Map.get mt.all_metrics cid.pod_id) in
    record mt {
      all_metrics = drop_empty_pod pods cid.pod_id (endpoints_of (Map.get pods cid.pod_id));
    }

unfoldable pub purge_all_metrics : MetricsTracker → MetricsTracker
purge_all_metrics mt = record mt { all_metrics = [] }

-- The loop that counts the pod's metrics and looks for the endpoint's.
unfoldable pub scan : PodEndpoints → Str → ℕ → Option MetricSet → ℕ × Option MetricSet
scan [] eid count found = (count, found)
scan ((k, metrics) ∷ endpoints) eid count found =
    scan endpoints eid (count + length metrics) (if str_eq k eid then some metrics else found)

abbrev pub metrics_of : Option MetricSet → MetricSet
metrics_of none = []
metrics_of (some metrics) = metrics

-- The variables of the loop over the new metrics.
pub record Adding (V : Type 0) : Type 0 where
  pub endpoint_metrics : MetricSet
  pub count : ℕ
  pub overflow : List (MetricHeader V)

module _ {V : Type 0} where
  unfoldable pub add_one : ℤ → MetricHeader V → Adding V → Adding V
  add_one max metric a =
      if Map.has a.endpoint_metrics metric.id
      then a
      else if count_lt a.count max
      then record a {
        endpoint_metrics = Map.put a.endpoint_metrics metric.id true;
        count = a.count + 1;
      }
      else record a { overflow = a.overflow ++ metric ∷ [] }

  unfoldable pub add_each : ℤ → List (MetricHeader V) → Adding V → Adding V
  unfolding add_one
  add_each max [] a = a
  add_each max (metric ∷ metrics) a = add_each max metrics (add_one max metric a)

  -- AddMetricsFromCollector: the tracker afterwards, and the overflow.
  unfoldable pub add_metrics_from_collector :
      MetricsTracker → CollectorId → List (MetricHeader V) → MetricsTracker × List (MetricHeader V)
  unfolding scan add_each
  add_metrics_from_collector mt cid metrics =
      let pod_endpoints = endpoints_of (Map.get mt.all_metrics cid.pod_id) in
      let (count, found) = scan pod_endpoints cid.endpoint_id 0 none in
      let start : Adding V = record {
        endpoint_metrics = metrics_of found;
        count = count;
        overflow = [];
      } in
      let a = add_each mt.max_metrics_per_pod metrics start in
      (
        record mt {
          all_metrics =
              Map.put mt.all_metrics cid.pod_id
                (Map.put pod_endpoints cid.endpoint_id a.endpoint_metrics);
        },
        a.overflow,
      )

-- ===== src/Tracker/Endpoints.antt =====
-- Which endpoints the tracker knows, with or without metrics.
use hawkular_openshift_agent.Base.{
  str_eq, str_eq_iff, string_eq, ◌≡◌, refl, sym, Bool, true, false, Bool-cases, inl, inr, List,
  if◌then◌else◌,
}
use hawkular_openshift_agent.Base.Map
use hawkular_openshift_agent.Base.Map.{Map, get-put, has-put, has-delete}
use hawkular_openshift_agent.Collector.{CollectorId, MetricHeader, id_eq}
use hawkular_openshift_agent.Tracker.{
  MetricsTracker, endpoints_of, add_metrics_from_collector, purge_metrics_for_collector_endpoint,
  purge_all_metrics,
}
use hawkular_openshift_agent.Tracker.Overflow.{done, purged-endpoints}

pub has_endpoint : MetricsTracker → CollectorId → Bool
has_endpoint mt c = Map.has (endpoints_of (Map.get mt.all_metrics c.pod_id)) c.endpoint_id

-- An endpoint is known after any of its metrics are added, even none.
pub has_endpoint-add :
    {V : Type 0} (mt : MetricsTracker) (cid c : CollectorId) (ms : List (MetricHeader V))
    → has_endpoint (add_metrics_from_collector mt cid ms).0 c
      ≡ (if id_eq cid c then true else has_endpoint mt c)
unfolding has_endpoint add_metrics_from_collector
has_endpoint-add mt cid c ms =
    let eps = endpoints_of (Map.get mt.all_metrics cid.pod_id) in
    let set = (done mt cid ms).endpoint_metrics in
    rw (get-put mt.all_metrics cid.pod_id c.pod_id (Map.put eps cid.endpoint_id set))
      (elim (Bool-cases (str_eq cid.pod_id c.pod_id)) [
        | inl same ↦
            rw (same, sym ((str_eq_iff cid.pod_id c.pod_id).0 same))
              (rw (has-put eps cid.endpoint_id c.endpoint_id set))
        | inr other ↦ rw other
      ])

pub has_endpoint-purge :
    (mt : MetricsTracker) (cid c : CollectorId)
    → has_endpoint (purge_metrics_for_collector_endpoint mt cid) c
      ≡ (if id_eq cid c then false else has_endpoint mt c)
unfolding has_endpoint purge_metrics_for_collector_endpoint
has_endpoint-purge mt cid c =
    let eps = endpoints_of (Map.get mt.all_metrics cid.pod_id) in
    rw (purged-endpoints mt.all_metrics cid c.pod_id)
      (elim (Bool-cases (str_eq cid.pod_id c.pod_id)) [
        | inl same ↦
            rw (same, sym ((str_eq_iff cid.pod_id c.pod_id).0 same))
              (rw (has-delete eps cid.endpoint_id c.endpoint_id))
        | inr other ↦ rw other
      ])

pub has_endpoint-purge_all :
    (mt : MetricsTracker) (c : CollectorId) → has_endpoint (purge_all_metrics mt) c ≡ false
unfolding has_endpoint purge_all_metrics Map.get Map.has
has_endpoint-purge_all mt c = refl

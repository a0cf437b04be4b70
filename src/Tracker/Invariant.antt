-- ===== src/Tracker/Invariant.antt =====
-- What holds of the tracker after any calls: maps have distinct keys, no pod without an endpoint
-- is kept, and no pod has more metrics than the limit.
use hawkular_openshift_agent.Base.{
  Str, string_eq, ◌≤◌, refl, ◌≢◌, inl, inr, ℤ, room, Option-cases, none, List, [], ◌∷◌, All, arith,
}
use hawkular_openshift_agent.Base.Map
use hawkular_openshift_agent.Base.Map.{
  Map, IsMap, put-IsMap, delete-IsMap, All-put, All-delete, All-get, delete-put, get-put_self,
}
use hawkular_openshift_agent.Collector.{CollectorId, MetricHeader}
use hawkular_openshift_agent.Tracker.{
  MetricsTracker, PodEndpoints, Adding, pod_metrics, endpoints_of, metrics_of, scan, add_each,
  new_metrics_tracker, drop_empty_pod, add_metrics_from_collector,
  purge_metrics_for_collector_endpoint, purge_all_metrics,
}
use hawkular_openshift_agent.Tracker.Loop.{
  IsAdding, add_each-IsAdding, add_each-count, add_each-room,
}
use hawkular_openshift_agent.Tracker.Pods.{
  scan-count, scan-found, pod_metrics-put, pod_metrics-delete, put-ne-nil,
}

pub record IsPod (max : ℤ) (endpoints : PodEndpoints) : Type 0 where
  pub is_map : IsMap endpoints
  pub sets : All (λ e. IsMap e.1) endpoints
  pub some_endpoint : endpoints ≢ []
  pub within : pod_metrics endpoints ≤ room max

pub record IsValid (mt : MetricsTracker) : Type 0 where
  pub is_map : IsMap mt.all_metrics
  pub pods : All (λ p. IsPod mt.max_metrics_per_pod p.1) mt.all_metrics

-- What `IsPod` says of a pod that may be missing.
pub record IsPart (max : ℤ) (endpoints : PodEndpoints) : Type 0 where
  pub is_map : IsMap endpoints
  pub sets : All (λ e. IsMap e.1) endpoints
  pub within : pod_metrics endpoints ≤ room max

pub endpoints_of-IsPart :
    (mt : MetricsTracker) (pid : Str)
    → IsValid mt
    → IsPart mt.max_metrics_per_pod (endpoints_of (Map.get mt.all_metrics pid))
unfolding pod_metrics
endpoints_of-IsPart mt pid v = elim (Option-cases (Map.get mt.all_metrics pid)) [
  | inl missing ↦ rw missing record { is_map = tt; sets = tt; within = omega arith }
  | inr (eps, found) ↦
      let p : IsPod mt.max_metrics_per_pod eps = All-get _ mt.all_metrics pid eps v.pods found in
      rw found record { is_map = p.is_map; sets = p.sets; within = p.within }
]

metrics_of-IsMap :
    (eps : PodEndpoints) (eid : Str)
    → All (λ e. IsMap e.1) eps
    → IsMap (metrics_of (Map.get eps eid))
metrics_of-IsMap eps eid h = elim (Option-cases (Map.get eps eid)) [
  | inl missing ↦ rw missing tt
  | inr (ms, found) ↦ rw found (All-get _ eps eid ms h found)
]

pub IsValid-new : (max : ℤ) → IsValid (new_metrics_tracker max)
unfolding new_metrics_tracker
IsValid-new max = record { is_map = tt; pods = tt }

-- The loop's variables when AddMetricsFromCollector enters it, and leaves it.
module _ {V : Type 0} where
  abbrev pub start : PodEndpoints → Str → Adding V
  start eps eid = record {
    endpoint_metrics = metrics_of (scan eps eid 0 none).1;
    count = (scan eps eid 0 none).0;
    overflow = [];
  }

  pub start-IsAdding :
      (max : ℤ) (eps : PodEndpoints) (eid : Str) → IsPart max eps → IsAdding max (start eps eid)
  start-IsAdding max eps eid p = record {
    rejected = tt;
    full = inl refl;
    is_map = rw (scan-found eps eid 0 p.is_map) (metrics_of-IsMap eps eid p.sets);
  }

  add-IsPod :
      (max : ℤ) (eps : PodEndpoints) (eid : Str) (ms : List (MetricHeader V))
      → IsPart max eps
      → IsPod max (Map.put eps eid (add_each max ms (start eps eid)).endpoint_metrics)
  add-IsPod max eps eid ms p =
      let a = add_each max ms (start eps eid) in
      let done : IsAdding max a =
        add_each-IsAdding max ms (start eps eid) (start-IsAdding max eps eid p) in
      record {
        is_map = put-IsMap eps eid a.endpoint_metrics p.is_map;
        sets = All-put _ eps eid a.endpoint_metrics p.sets done.is_map;
        some_endpoint = put-ne-nil eps eid a.endpoint_metrics;
        within = ground (
          arith,
          add_each-count max ms (start eps eid),
          add_each-room max ms (start eps eid),
          scan-count eps eid 0 none,
          scan-found eps eid 0 p.is_map,
          pod_metrics-put eps eid a.endpoint_metrics,
          p.within,
        );
      }

  -- Adding a collector's metrics keeps the tracker valid: in particular, no pod passes the limit.
  pub add-IsValid :
      (mt : MetricsTracker) (cid : CollectorId) (ms : List (MetricHeader V))
      → IsValid mt
      → IsValid (add_metrics_from_collector mt cid ms).0
  unfolding add_metrics_from_collector
  add-IsValid mt cid ms v =
      let eps = endpoints_of (Map.get mt.all_metrics cid.pod_id) in
      let p =
        add-IsPod mt.max_metrics_per_pod eps cid.endpoint_id ms
          (endpoints_of-IsPart mt cid.pod_id v) in
      record {
        is_map = put-IsMap mt.all_metrics cid.pod_id _ v.is_map;
        pods = All-put _ mt.all_metrics cid.pod_id _ v.pods p;
      }

module _ (max : ℤ) (pods : Map Str PodEndpoints) (pid : Str) where
  drop-IsValid :
      (eps : PodEndpoints)
      → IsMap pods
      → All (λ p. IsPod max p.1) pods
      → IsPart max eps
      → IsValid (record {
        all_metrics = drop_empty_pod (Map.put pods pid eps) pid eps;
        max_metrics_per_pod = max;
      })
  drop-IsValid [] m h p =
      rw (delete-put pods pid [])
        record { is_map = delete-IsMap pods pid m; pods = All-delete _ pods pid h }
  drop-IsValid (e ∷ eps) m h p = record {
    is_map = put-IsMap pods pid (e ∷ eps) m;
    pods =
        All-put _ pods pid (e ∷ eps) h
          record { is_map = p.is_map; sets = p.sets; some_endpoint = cc; within = p.within };
  }

delete-IsPart :
    (max : ℤ) (eps : PodEndpoints) (eid : Str) → IsPart max eps → IsPart max (Map.delete eps eid)
delete-IsPart max eps eid p = record {
  is_map = delete-IsMap eps eid p.is_map;
  sets = All-delete _ eps eid p.sets;
  within = omega (arith, pod_metrics-delete eps eid);
}

-- Purging an endpoint keeps it valid: a pod that loses its last endpoint goes too.
pub purge-IsValid :
    (mt : MetricsTracker) (cid : CollectorId)
    → IsValid mt
    → IsValid (purge_metrics_for_collector_endpoint mt cid)
unfolding purge_metrics_for_collector_endpoint
purge-IsValid mt cid v =
    let pid = cid.pod_id in
    let part = endpoints_of-IsPart mt pid v in
    elim (Option-cases (Map.get mt.all_metrics pid)) [
      | inl missing ↦ rw missing (
          rw missing record {
            is_map = delete-IsMap mt.all_metrics pid v.is_map;
            pods = All-delete _ mt.all_metrics pid v.pods;
          })
      | inr (eps, found) ↦
          let left = Map.delete eps cid.endpoint_id in
          rw found (
            rw (get-put_self mt.all_metrics pid left) (
              drop-IsValid mt.max_metrics_per_pod mt.all_metrics pid left v.is_map v.pods
                (delete-IsPart mt.max_metrics_per_pod eps cid.endpoint_id (rw found at part))))
    ]

pub purge_all-IsValid : (mt : MetricsTracker) → IsValid (purge_all_metrics mt)
unfolding purge_all_metrics
purge_all-IsValid mt = record { is_map = tt; pods = tt }

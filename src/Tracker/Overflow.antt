-- ===== src/Tracker/Overflow.antt =====
-- The contract of the tracker, stated by which metrics are tracked.
use hawkular_openshift_agent.Base.{
  Str, str_eq, str_eq_iff, string_eq, ◌≡◌, refl, sym, ◌↔◌, ◌⊎◌, inl, inr, Bool, true, false,
  Option-cases, Bool-cases, some, List, [], ◌∷◌, In, In-All, arith, if◌then◌else◌,
}
use hawkular_openshift_agent.Base.Map
use hawkular_openshift_agent.Base.Map.{
  Map, IsMap, get-put, get-put_self, get-delete, get-delete_self,
}
use hawkular_openshift_agent.Collector.{CollectorId, MetricHeader, id_eq}
use hawkular_openshift_agent.Tracker.{
  MetricsTracker, PodEndpoints, Adding, endpoints_of, metrics_of, add_each, drop_empty_pod,
  purge_endpoint, add_metrics_from_collector, purge_metrics_for_collector_endpoint,
}
use hawkular_openshift_agent.Tracker.Loop.{
  IsAdding, add_each-IsAdding, add_each-keeps, add_each_places, add_each-overflow_from,
}
use hawkular_openshift_agent.Tracker.Pods.{scan-found}
use hawkular_openshift_agent.Tracker.Invariant.{IsValid, start, start-IsAdding, endpoints_of-IsPart}

-- Whether the tracker holds the metric for this endpoint of this pod.
unfoldable pub tracked : MetricsTracker → CollectorId → Str → Bool
unfolding Map.has
tracked mt cid id =
    Map.has
      (metrics_of (Map.get (endpoints_of (Map.get mt.all_metrics cid.pod_id)) cid.endpoint_id)) id

module _ {V : Type 0} (mt : MetricsTracker) (cid : CollectorId) (ms : List (MetricHeader V)) where
  -- The loop's variables at its end.
  abbrev pub done : Adding V
  done =
      add_each mt.max_metrics_per_pod ms
        (start (endpoints_of (Map.get mt.all_metrics cid.pod_id)) cid.endpoint_id)

  tracked-add :
      (id : Str)
      → tracked (add_metrics_from_collector mt cid ms).0 cid id ≡ Map.has done.endpoint_metrics id
  unfolding tracked add_metrics_from_collector
  tracked-add id =
      rw
        (get-put_self mt.all_metrics cid.pod_id (
          Map.put (endpoints_of (Map.get mt.all_metrics cid.pod_id)) cid.endpoint_id
            done.endpoint_metrics))
        (rw (
          get-put_self (endpoints_of (Map.get mt.all_metrics cid.pod_id)) cid.endpoint_id
            done.endpoint_metrics))

  done-IsAdding : IsValid mt → IsAdding mt.max_metrics_per_pod done
  done-IsAdding v =
      add_each-IsAdding mt.max_metrics_per_pod ms
        (start (endpoints_of (Map.get mt.all_metrics cid.pod_id)) cid.endpoint_id)
        (start-IsAdding mt.max_metrics_per_pod (endpoints_of (Map.get mt.all_metrics cid.pod_id))
          cid.endpoint_id (endpoints_of-IsPart mt cid.pod_id v))

  overflow-In : (m : MetricHeader V) → In m done.overflow → In m ms
  overflow-In m h = ground (
    arith,
    add_each-overflow_from mt.max_metrics_per_pod ms m
        (start (endpoints_of (Map.get mt.all_metrics cid.pod_id)) cid.endpoint_id),
  )

  overflow-add : (add_metrics_from_collector mt cid ms).1 ≡ done.overflow
  unfolding add_metrics_from_collector
  overflow-add = refl

  placed :
      (m : MetricHeader V)
      → In m ms
      → (Map.has done.endpoint_metrics m.id ≡ true) ⊎ In m done.overflow
  placed m h =
      add_each_places mt.max_metrics_per_pod ms
        (start (endpoints_of (Map.get mt.all_metrics cid.pod_id)) cid.endpoint_id) m h

  -- On a valid tracker, the overflow that AddMetricsFromCollector returns is exactly those of the
  -- given metrics that the tracker does not track for this endpoint afterwards.
  pub overflow_exact :
      IsValid mt
      → (m : MetricHeader V)
      → In m (add_metrics_from_collector mt cid ms).1
        ↔ (In m ms × (tracked (add_metrics_from_collector mt cid ms).0 cid m.id ≡ false))
  overflow_exact v m =
      rw (overflow-add, tracked-add m.id)
        (
          (λ (o : In m done.overflow).
              (overflow-In m o, In-All _ m done.overflow (done-IsAdding v).rejected o)),
          (λ (h : In m ms × (Map.has done.endpoint_metrics m.id ≡ false)).
              ground (arith, placed m h.0)),
        )

  -- On a valid tracker, what was tracked for the endpoint stays tracked.
  pub add_keeps :
      IsValid mt
      → (id : Str) → tracked mt cid id ≡ true
      → tracked (add_metrics_from_collector mt cid ms).0 cid id ≡ true
  unfolding tracked
  add_keeps v id h =
      let eps = endpoints_of (Map.get mt.all_metrics cid.pod_id) in
      rw (tracked-add id) (
        add_each-keeps mt.max_metrics_per_pod ms (start eps cid.endpoint_id) id
          (rw (scan-found eps cid.endpoint_id 0 (endpoints_of-IsPart mt cid.pod_id v).is_map) h))

  -- Adding for one endpoint leaves every other endpoint as it was, of the same pod too.
  pub add-tracked_other :
      (c : CollectorId) (id : Str)
      → id_eq cid c ≡ false
      → tracked (add_metrics_from_collector mt cid ms).0 c id ≡ tracked mt c id
  unfolding tracked add_metrics_from_collector
  add-tracked_other c id h =
      let eps = endpoints_of (Map.get mt.all_metrics cid.pod_id) in
      rw
        (get-put mt.all_metrics cid.pod_id c.pod_id
          (Map.put eps cid.endpoint_id done.endpoint_metrics))
        (elim (Bool-cases (str_eq cid.pod_id c.pod_id)) [
          | inl same ↦ rw same (
              rw (get-put eps cid.endpoint_id c.endpoint_id done.endpoint_metrics)
                (ground (arith, str_eq_iff cid.pod_id c.pod_id)))
          | inr other ↦ rw other
        ])

drop_same :
    (pods : Map Str PodEndpoints) (pid : Str) (eps : PodEndpoints)
    → Map.get pods pid ≡ some eps
    → endpoints_of (Map.get (drop_empty_pod pods pid eps) pid) ≡ eps
drop_same pods pid [] h = rw (get-delete_self pods pid)
drop_same pods pid (e ∷ eps) h = rw h

drop_other :
    (pods : Map Str PodEndpoints) (pid q : Str) (eps : PodEndpoints)
    → str_eq pid q ≡ false
    → Map.get (drop_empty_pod pods pid eps) q ≡ Map.get pods q
drop_other pods pid q [] h = rw (get-delete pods pid q, h)
drop_other pods pid q (e ∷ eps) h = refl

abbrev pub purged : Map Str PodEndpoints → CollectorId → Map Str PodEndpoints
purged pods cid =
    let pods' = purge_endpoint pods cid (Map.get pods cid.pod_id) in
    drop_empty_pod pods' cid.pod_id (endpoints_of (Map.get pods' cid.pod_id))

endpoints_of-drop :
    (pods : Map Str PodEndpoints) (pid q : Str) (eps : PodEndpoints)
    → endpoints_of (Map.get (drop_empty_pod (Map.put pods pid eps) pid eps) q)
      ≡ (if str_eq pid q then eps else endpoints_of (Map.get pods q))
endpoints_of-drop pods pid q eps = elim (Bool-cases (str_eq pid q)) [
  | inl same ↦
      rw (same, sym ((str_eq_iff pid q).0 same))
        (drop_same (Map.put pods pid eps) pid eps (get-put_self pods pid eps))
  | inr other ↦
      rw (other, drop_other (Map.put pods pid eps) pid q eps other, get-put pods pid q eps, other)
]

pub purged-endpoints :
    (pods : Map Str PodEndpoints) (cid : CollectorId) (q : Str)
    → endpoints_of (Map.get (purged pods cid) q) ≡ (
        if str_eq cid.pod_id q
        then Map.delete (endpoints_of (Map.get pods cid.pod_id)) cid.endpoint_id
        else endpoints_of (Map.get pods q))
unfolding Map.delete
purged-endpoints pods cid q = elim (Option-cases (Map.get pods cid.pod_id)) [
  | inl missing ↦ rw missing (rw missing (ground (arith, get-delete pods cid.pod_id q)))
  | inr (eps, found) ↦
      let left = Map.delete eps cid.endpoint_id in
      rw found (rw (get-put_self pods cid.pod_id left) (endpoints_of-drop pods cid.pod_id q left))
]

-- After PurgeMetricsForCollectorEndpoint nothing is tracked for that endpoint, and what is tracked
-- for any other endpoint is what was.
pub tracked-purge :
    (mt : MetricsTracker) (cid c : CollectorId) (id : Str)
    → tracked (purge_metrics_for_collector_endpoint mt cid) c id
      ≡ (if id_eq cid c then false else tracked mt c id)
unfolding tracked purge_metrics_for_collector_endpoint Map.get
tracked-purge mt cid c id =
    let eps = endpoints_of (Map.get mt.all_metrics cid.pod_id) in
    rw (purged-endpoints mt.all_metrics cid c.pod_id)
      (elim (Bool-cases (str_eq cid.pod_id c.pod_id)) [
        | inl same ↦
            rw (same, sym ((str_eq_iff cid.pod_id c.pod_id).0 same))
              (ground (arith, get-delete eps cid.endpoint_id c.endpoint_id))
        | inr other ↦ rw other
      ])

-- ===== src/K8s/Consumer/Running/Stopping.antt =====
-- k8s/node_event_consumer.go: stopCollecting, on the tickers and the list of a pod.
use hawkular_openshift_agent.Base.{
  Str, ℕ, str_eq, str_eq_iff, string_eq, true, false, ◌≡◌, refl, inl, inr, Option-cases, [], ◌∷◌,
  ◌++◌, arith, if◌then◌else◌,
}
use hawkular_openshift_agent.Base.Map
use hawkular_openshift_agent.Base.Map.{Map, get-put, get-delete, has-put, has-delete}
use hawkular_openshift_agent.Collector.{CollectorId, id_key}
use hawkular_openshift_agent.K8s.Pod.{slash, Pod, get_identifier}
use hawkular_openshift_agent.K8s.Consumer.{Consumer, nec_stop_collecting}
use hawkular_openshift_agent.K8s.Consumer.Listed.{running, listed, IsKeyed, stop_each-running}

-- Every ticker of a pod is in the list of that pod; the tickers of the endpoints that the
-- configuration file names have no pod.
pub record IsTracked (nec : Consumer) : Type 0 where
  pub every :
      (c : CollectorId)
      → running nec.manager c ≡ true
      → str_eq c.pod_id [] ≡ false
      → listed nec.collector_ids c ≡ true
  pub keyed : IsKeyed nec.collector_ids

-- nec_stop_collecting: no ticker of the pod is left, and the others are.
pub stop-running :
    (now : Str) (nec : Consumer) (p : Pod) (c : CollectorId)
    → IsTracked nec
    → str_eq (get_identifier p) [] ≡ false
    → running (nec_stop_collecting now nec p).manager c
      ≡ (if str_eq c.pod_id (get_identifier p) then false else running nec.manager c)
unfolding nec_stop_collecting
stop-running now nec p c t h = elim (Option-cases (Map.get nec.collector_ids (get_identifier p))) [
  | inl missing ↦
      rw (missing, nec_stop_collecting)
        (ground (arith, str_eq_iff c.pod_id (get_identifier p), t.every c))
  | inr (ids, found) ↦
      rw (found, nec_stop_collecting)
        (ground (
          arith,
          str_eq_iff c.pod_id (get_identifier p),
          stop_each-running now nec.manager ids c,
          t.every c,
          t.keyed (get_identifier p) ids c found,
        ))
]

pub ne-nil : (s t : Str) (c : ℕ) → str_eq (s ++ c ∷ t) [] ≡ false
unfolding str_eq
ne-nil [] t c = refl
ne-nil (d ∷ s) t c = refl

pub get_identifier-ne : (p : Pod) → str_eq (get_identifier p) [] ≡ false
unfolding get_identifier
get_identifier-ne p = ne-nil p.node.name _ slash

pub stop-listed :
    (now : Str) (nec : Consumer) (p : Pod) (c : CollectorId)
    → listed (nec_stop_collecting now nec p).collector_ids c
      ≡ (if str_eq c.pod_id (get_identifier p) then false else listed nec.collector_ids c)
unfolding nec_stop_collecting
stop-listed now nec p c = elim (Option-cases (Map.get nec.collector_ids (get_identifier p))) [
  | inl missing ↦
      rw (missing, nec_stop_collecting) (ground (arith, str_eq_iff c.pod_id (get_identifier p)))
  | inr (ids, found) ↦
      rw (found, nec_stop_collecting)
        (ground (
          arith,
          str_eq_iff c.pod_id (get_identifier p),
          str_eq_iff (get_identifier p) c.pod_id,
          get-delete nec.collector_ids (get_identifier p) c.pod_id,
        ))
]

pub stop-IsKeyed :
    (now : Str) (nec : Consumer) (p : Pod)
    → IsKeyed nec.collector_ids
    → IsKeyed (nec_stop_collecting now nec p).collector_ids
unfolding nec_stop_collecting
stop-IsKeyed now nec p h k ids c =
    elim (Option-cases (Map.get nec.collector_ids (get_identifier p))) [
      | inl missing ↦ rw (missing, nec_stop_collecting) (h k ids c)
      | inr (old, found) ↦
          rw (found, nec_stop_collecting)
            (ground (arith, get-delete nec.collector_ids (get_identifier p) k, h k ids c))
    ]

pub stop-IsTracked :
    (now : Str) (nec : Consumer) (p : Pod)
    → IsTracked nec
    → IsTracked (nec_stop_collecting now nec p)
stop-IsTracked now nec p t = record {
  every = λ c.
      ground (
        arith,
        stop-running now nec p c t (get_identifier-ne p),
        stop-listed now nec p c,
        t.every c,
      );
  keyed = stop-IsKeyed now nec p t.keyed;
}

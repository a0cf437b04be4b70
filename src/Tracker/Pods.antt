-- ===== src/Tracker/Pods.antt =====
-- The endpoints of one pod, and the loop that counts their metrics.
use hawkular_openshift_agent.Base.{
  Str, str_eq, str_eq_iff, string_eq, ℕ, ◌+◌, ◌≤◌, ◌≡◌, refl, ◌≢◌, Option, none, some, [], ◌∷◌,
  length, arith, if◌then◌else◌,
}
use hawkular_openshift_agent.Base.Map
use hawkular_openshift_agent.Base.Map.{IsMap}
use hawkular_openshift_agent.Tracker.{MetricSet, PodEndpoints, pod_metrics, scan, metrics_of}

pub scan-count :
    (eps : PodEndpoints) (eid : Str) (n : ℕ) (f : Option MetricSet)
    → (scan eps eid n f).0 ≡ n + pod_metrics eps
unfolding scan pod_metrics
scan-count [] eid n f = omega arith
scan-count ((k, ms) ∷ eps) eid n f =
    omega (arith, scan-count eps eid (n + length ms) (if str_eq k eid then some ms else f))

scan-absent :
    (eps : PodEndpoints) (eid : Str) (n : ℕ) (f : Option MetricSet)
    → Map.get eps eid ≡ none
    → (scan eps eid n f).1 ≡ f
unfolding scan Map.get
scan-absent [] eid n f h = refl
scan-absent ((k, ms) ∷ eps) eid n f h =
    ground (arith, scan-absent eps eid (n + length ms) (if str_eq k eid then some ms else f))

-- The loop finds what a look-up finds: a key stands in one entry.
pub scan-found :
    (eps : PodEndpoints) (eid : Str) (n : ℕ) → IsMap eps → (scan eps eid n none).1 ≡ Map.get eps eid
unfolding scan Map.get
scan-found [] eid n h = refl
scan-found ((k, ms) ∷ eps) eid n h = ground (
  arith,
  str_eq_iff k eid,
  scan-absent eps eid (n + length ms) (some ms),
  scan-found eps eid (n + length ms),
)

-- Putting one endpoint's metrics changes the pod's total by the difference.
pub pod_metrics-put :
    (eps : PodEndpoints) (eid : Str) (ms : MetricSet)
    → pod_metrics (Map.put eps eid ms) + length (metrics_of (Map.get eps eid))
      ≡ pod_metrics eps + length ms
unfolding pod_metrics Map.put Map.get
pod_metrics-put [] eid ms = omega arith
pod_metrics-put ((k, w) ∷ eps) eid ms = ground (arith, pod_metrics-put eps eid ms)

pub pod_metrics-delete :
    (eps : PodEndpoints) (eid : Str) → pod_metrics (Map.delete eps eid) ≤ pod_metrics eps
unfolding pod_metrics Map.delete
pod_metrics-delete [] eid = omega arith
pod_metrics-delete ((k, w) ∷ eps) eid = ground (arith, pod_metrics-delete eps eid)

pub put-ne-nil : (eps : PodEndpoints) (eid : Str) (ms : MetricSet) → Map.put eps eid ms ≢ []
unfolding Map.put
put-ne-nil [] eid ms = cc
put-ne-nil ((k, w) ∷ eps) eid ms = ground arith

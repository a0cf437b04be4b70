-- ===== src/Tracker/Counts.antt =====
-- GetCounts after any sequence of calls on a new tracker.
use hawkular_openshift_agent.Base.{
  ℕ, ◌+◌, ◌≤◌, ◌≡◌, refl, ◌∙◌, ℤ, room, List, [], ◌∷◌, ◌≢◌, All, length, arith, Str,
}
use Prim.Native.Nat.{◌*◌}
use hawkular_openshift_agent.Base.Map.{Map}
use hawkular_openshift_agent.Collector.{CollectorId, MetricHeader}
use hawkular_openshift_agent.Tracker.{
  MetricsTracker, PodEndpoints, count_pods, get_counts, new_metrics_tracker,
  add_metrics_from_collector, purge_metrics_for_collector_endpoint, purge_all_metrics,
}
use hawkular_openshift_agent.Tracker.Invariant.{
  IsPod, IsValid, IsValid-new, add-IsValid, purge-IsValid, purge_all-IsValid,
}

-- The calls that change a tracker, in the order in which the lock lets them in.
pub data Call (V : Type 0) : Type 0 where
  add : CollectorId → List (MetricHeader V) → Call V
  purge : CollectorId → Call V
  purge_all : Call V

module _ {V : Type 0} where
  unfoldable pub step : MetricsTracker → Call V → MetricsTracker
  step mt (add cid ms) = (add_metrics_from_collector mt cid ms).0
  step mt (purge cid) = purge_metrics_for_collector_endpoint mt cid
  step mt purge_all = purge_all_metrics mt

  unfoldable pub run : MetricsTracker → List (Call V) → MetricsTracker
  unfolding step
  run mt [] = mt
  run mt (c ∷ cs) = run (step mt c) cs

  pub step-IsValid : (mt : MetricsTracker) (c : Call V) → IsValid mt → IsValid (step mt c)
  unfolding step
  step-IsValid mt (add cid ms) v = add-IsValid mt cid ms v
  step-IsValid mt (purge cid) v = purge-IsValid mt cid v
  step-IsValid mt purge_all v = purge_all-IsValid mt

  run-IsValid : (mt : MetricsTracker) (cs : List (Call V)) → IsValid mt → IsValid (run mt cs)
  unfolding run
  run-IsValid mt [] v = v
  run-IsValid mt (c ∷ cs) v = run-IsValid (step mt c) cs (step-IsValid mt c v)

  step-limit :
      (mt : MetricsTracker) (c : Call V) → (step mt c).max_metrics_per_pod ≡ mt.max_metrics_per_pod
  unfolding step add_metrics_from_collector purge_metrics_for_collector_endpoint purge_all_metrics
  step-limit mt (add cid ms) = refl
  step-limit mt (purge cid) = refl
  step-limit mt purge_all = refl

  run-limit :
      (mt : MetricsTracker) (cs : List (Call V))
      → (run mt cs).max_metrics_per_pod ≡ mt.max_metrics_per_pod
  unfolding run
  run-limit mt [] = refl
  run-limit mt (c ∷ cs) = run-limit (step mt c) cs ∙ step-limit mt c

some-length : {A : Type 0} (xs : List A) → xs ≢ [] → 1 ≤ length xs
some-length [] h = absurd (h refl)
some-length (x ∷ xs) h = omega arith

count_pods-le :
    (max : ℤ) (pods : Map Str PodEndpoints) (p e m : ℕ)
    → All (λ x. IsPod max x.1) pods
    → p ≤ e
    → m ≤ p * room max
    → ((count_pods pods p e m).0 ≤ (count_pods pods p e m).1)
      × ((count_pods pods p e m).2 ≤ (count_pods pods p e m).0 * room max)
unfolding count_pods
count_pods-le max [] p e m h a b = (a, b)
count_pods-le max ((pid, eps) ∷ pods) p e m h a b =
    count_pods-le max pods (p + 1) (e + length eps) _ h.1
      (omega (arith, some-length eps h.0.some_endpoint)) (grind (arith, h.0.within))

pub get_counts-le :
    (mt : MetricsTracker)
    → IsValid mt
    → ((get_counts mt).0 ≤ (get_counts mt).1)
      × ((get_counts mt).2 ≤ (get_counts mt).0 * room mt.max_metrics_per_pod)
unfolding get_counts
get_counts-le mt v =
    count_pods-le mt.max_metrics_per_pod mt.all_metrics 0 0 0 v.pods (omega arith) (omega arith)

new-limit :
    {V : Type 0} (max : ℤ) (cs : List (Call V))
    → (run (new_metrics_tracker max) cs).max_metrics_per_pod ≡ max
unfolding new_metrics_tracker
new-limit max cs = run-limit (new_metrics_tracker max) cs

-- After any calls on a new tracker, GetCounts gives no more pods than endpoints, and no more
-- metrics than the limit times the number of pods (a negative limit counts as 0).
pub run-get_counts :
    {V : Type 0} (max : ℤ) (cs : List (Call V))
    → ((get_counts (run (new_metrics_tracker max) cs)).0
        ≤ (get_counts (run (new_metrics_tracker max) cs)).1)
      × ((get_counts (run (new_metrics_tracker max) cs)).2
          ≤ (get_counts (run (new_metrics_tracker max) cs)).0 * room max)
unfolding run
run-get_counts max cs =
    let mt = run (new_metrics_tracker max) cs in
    rw (new-limit max cs) at
      (get_counts-le mt (run-IsValid (new_metrics_tracker max) cs (IsValid-new max)))
